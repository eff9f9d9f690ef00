-- ===== src/LockedFile/Unix.antt =====
-- filelock.py: what `LockedFile` does on Unix, over the calls of `os`, which are a parameter.
use kanta.Base.{ℕ, zero, suc, List, [], ◌∷◌, ◌++◌, Option, none, some, drop}
use kanta.Base.Bytes.{Bytes}

-- The calls of `os`. A descriptor stands for itself and for what the system keeps for it. The
-- number beside the data of a write is how many bytes the system takes at most.
pub record Os : Type 1 where
  pub Descriptor : Type 0
  -- os.lseek(fd, at, SEEK_SET), os.lseek(fd, 0, SEEK_CUR) and os.lseek(fd, 0, SEEK_END)
  pub seek : Descriptor → ℕ → Descriptor
  pub tell : Descriptor → ℕ
  pub seek_end : Descriptor → ℕ × Descriptor
  -- os.ftruncate(fd, 0)
  pub truncate : Descriptor → Descriptor
  -- os.read(fd, count)
  pub read : Descriptor → ℕ → Bytes × Descriptor
  -- os.write(fd, data)
  pub write : Descriptor → Bytes → ℕ → ℕ × Descriptor

abbrev pub chunk_size : ℕ
chunk_size = 1048576

module _ (os : Os) where
  -- while True: …, on fuel
  unfoldable pub read_chunks : ℕ → ℕ → os.Descriptor → Option Bytes
  read_chunks count zero fd = none
  read_chunks count (suc fuel) fd = elim ((os.read fd count).0) [
    | [] ↦ some []
    | ◌∷◌ b (bs → h) ↦ elim (read_chunks count fuel (os.read fd count).1) [
      | none ↦ none
      | some rest ↦ some ((b ∷ bs) ++ rest)
    ]
  ]

  -- `_read_unix`
  unfoldable pub read_unix : ℕ → os.Descriptor → Option Bytes
  read_unix fuel fd = read_chunks chunk_size fuel (os.seek fd 0)

  -- `_write_unix`: the count that `os.write` returns is not looked at
  unfoldable pub write_unix : os.Descriptor → Bytes → ℕ → os.Descriptor
  write_unix fd bytes taken = (os.write (os.seek_end fd).1 bytes taken).1

  -- `size`
  unfoldable pub size_unix : os.Descriptor → ℕ × os.Descriptor
  size_unix fd =
      let current = os.tell fd in let (end, fd') = os.seek_end fd in (end, os.seek fd' current)

  -- while view: …; the list says how many bytes each write takes, and none means that it ran out
  unfoldable pub write_all : Bytes → List ℕ → os.Descriptor → Option os.Descriptor
  write_all [] schedule fd = some fd
  write_all (b ∷ bs) [] fd = none
  write_all (b ∷ bs) (taken ∷ schedule) fd =
      let written = os.write fd (b ∷ bs) taken in
      write_all (drop written.0 (b ∷ bs)) schedule written.1

  -- `_replace_content_unix`
  unfoldable pub replace_unix : Bytes → List ℕ → os.Descriptor → Option os.Descriptor
  replace_unix bytes schedule fd = write_all bytes schedule (os.truncate (os.seek fd 0))
