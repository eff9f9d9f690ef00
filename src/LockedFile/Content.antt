-- ===== src/LockedFile/Content.antt =====
-- What `LockedFile` does on Unix to the bytes of the file.
use kanta.Base.{
  ℕ, zero, suc, ◌+◌, ◌≤◌, ◌<◌, ◌≡◌, refl, ap, sym, ◌∙◌, List, [], ◌∷◌, ◌++◌, append_assoc,
  append-nil, some, take, drop, length, length-append, length-drop, take-append, take-append-drop,
  arith,
}
use kanta.Base.Bytes.{Bytes}
use kanta.LockedFile.Unix.{
  Os, read_chunks, read_unix, write_unix, size_unix, write_all, replace_unix,
}

-- a descriptor on a file of `content`, at a position
abbrev pub IsAt : (os : Os) → (os.Descriptor → Bytes) → os.Descriptor → Bytes → ℕ → Type 0
IsAt os content fd bytes at = (content fd ≡ bytes) × (os.tell fd ≡ at)

-- What POSIX says of the calls, on a regular file that no other process writes: a read gives what
-- stands behind the position, as far as it is asked for, and a write at the end appends what the
-- system takes.
pub record IsPosix (os : Os) (content : os.Descriptor → Bytes) : Type 0 where
  pub seeks : (fd : os.Descriptor) (at : ℕ) → IsAt os content (os.seek fd at) (content fd) at
  pub seeks_end :
      (fd : os.Descriptor)
      → ((os.seek_end fd).0 ≡ length (content fd))
        × IsAt os content (os.seek_end fd).1 (content fd) (length (content fd))
  pub truncates : (fd : os.Descriptor) → IsAt os content (os.truncate fd) [] (os.tell fd)
  pub reads :
      (fd : os.Descriptor) (before rest : Bytes) (count : ℕ)
      → IsAt os content fd (before ++ rest) (length before)
      → ((os.read fd count).0 ≡ take count rest)
        × IsAt os content
            (os.read fd count).1
            (before ++ rest)
            (length before + length (take count rest))
  pub writes :
      (fd : os.Descriptor) (before bytes : Bytes) (taken : ℕ)
      → IsAt os content fd before (length before)
      → ((os.write fd bytes taken).0 ≡ length (take taken bytes))
        × IsAt os content
            (os.write fd bytes taken).1
            (before ++ take taken bytes)
            (length (before ++ take taken bytes))

drop-length-take : (n : ℕ) (xs : Bytes) → drop (length (take n xs)) xs ≡ drop n xs
drop-length-take zero xs = refl
drop-length-take (suc n) [] = refl
drop-length-take (suc n) (x ∷ xs) = drop-length-take n xs

-- at least so many writes that take a byte or more
abbrev pub IsProgress : ℕ → List ℕ → Type 0
IsProgress zero schedule = Unit
IsProgress (suc n) [] = ⊥
IsProgress (suc n) (taken ∷ schedule) = (1 ≤ taken) × IsProgress n schedule

module _ (os : Os) (content : os.Descriptor → Bytes) (posix : IsPosix os content) where
  read_chunks-end :
      (count fuel : ℕ) (fd : os.Descriptor)
      → (os.read fd count).0 ≡ []
      → read_chunks os count (suc fuel) fd ≡ some []
  unfolding read_chunks
  read_chunks-end count fuel fd e = rw (read_chunks, e) refl

  read_chunks-more :
      (count fuel b : ℕ) (bs rest : Bytes) (fd : os.Descriptor)
      → (os.read fd count).0 ≡ b ∷ bs
      → read_chunks os count fuel (os.read fd count).1 ≡ some rest
      → read_chunks os count (suc fuel) fd ≡ some ((b ∷ bs) ++ rest)
  unfolding read_chunks
  read_chunks-more count fuel b bs rest fd e later = rw (read_chunks, e, later) refl

  read_chunks-rest :
      (count fuel : ℕ) (fd : os.Descriptor) (before rest : Bytes)
      → IsAt os content fd (before ++ rest) (length before)
      → length rest < fuel
      → read_chunks os (suc count) fuel fd ≡ some rest
  read_chunks-rest count zero fd before rest here h = absurd (omega arith)
  read_chunks-rest count (suc fuel) fd before [] here h =
      read_chunks-end (suc count) fuel fd (posix.reads fd before [] (suc count) here).0
  read_chunks-rest count (suc fuel) fd before (x ∷ xs) here h =
      let chunk = x ∷ take count xs in
      let (taken, (same, moved)) = posix.reads fd before (x ∷ xs) (suc count) here in
      let joined : before ++ x ∷ xs ≡ (before ++ chunk) ++ drop count xs =
        rw (append_assoc, take-append-drop count xs) refl in
      let fewer : length (drop count xs) < fuel = omega (arith, length-drop count xs) in
      let later =
        read_chunks-rest count fuel (os.read fd (suc count)).1 (before ++ chunk) (drop count xs)
          (same ∙ joined, moved ∙ sym (length-append before chunk)) fewer in
      read_chunks-more (suc count) fuel x (take count xs) (drop count xs) fd taken later
      ∙ ap (λ t. some (x ∷ t)) (take-append-drop count xs)

  -- Let the calls of `os` do what POSIX says. `read` of an open file, with fuel above the number of
  -- its bytes, ends, and gives all the bytes from the first to the last, wherever the position was.
  pub read_unix-bytes :
      (fuel : ℕ) (fd : os.Descriptor)
      → length (content fd) < fuel
      → read_unix os fuel fd ≡ some (content fd)
  unfolding read_unix
  read_unix-bytes fuel fd h =
      read_chunks-rest _ fuel (os.seek fd 0) [] (content fd) (posix.seeks fd 0) h

  write_unix-end :
      (fd : os.Descriptor) (bytes : Bytes) (taken : ℕ)
      → content (write_unix os fd bytes taken) ≡ content fd ++ take taken bytes
  unfolding write_unix
  write_unix-end fd bytes taken =
      (posix.writes (os.seek_end fd).1 (content fd) bytes taken (posix.seeks_end fd).1).1.0

  -- Let the calls of `os` do what POSIX says. After a write of the bytes `part ++ left` from any
  -- position, of which the system takes `part`, a read with enough fuel gives the old bytes with
  -- `part` behind them, and the size is their number. So nothing is lost where `left` is empty, and
  -- `left` is lost where it is not.
  pub read_unix-write_unix :
      (fuel : ℕ) (fd : os.Descriptor) (part left : Bytes)
      → length (content fd) + length part < fuel
      → (read_unix os fuel (write_unix os fd (part ++ left) (length part))
          ≡ some (content fd ++ part))
        × ((size_unix os (write_unix os fd (part ++ left) (length part))).0
            ≡ length (content fd) + length part)
  unfolding size_unix
  read_unix-write_unix fuel fd part left h =
      let grown : content (write_unix os fd (part ++ left) (length part)) ≡ content fd ++ part =
        write_unix-end fd (part ++ left) (length part)
        ∙ ap (λ t. content fd ++ t) (take-append part left) in
      let size = ap length grown ∙ length-append (content fd) part in
      (
        read_unix-bytes fuel _ (rw size h) ∙ ap some grown,
        (posix.seeks_end (write_unix os fd (part ++ left) (length part))).0 ∙ size,
      )

  write_all-appends :
      (n : ℕ) (fd : os.Descriptor) (before rest : Bytes) (schedule : List ℕ)
      → IsAt os content fd before (length before)
      → length rest ≤ n
      → IsProgress n schedule
      → (fd' : os.Descriptor) × (write_all os rest schedule fd ≡ some fd')
        × (content fd' ≡ before ++ rest)
  unfolding write_all
  write_all-appends n fd before [] schedule here h p = (fd, refl, here.0 ∙ sym (append-nil before))
  write_all-appends zero fd before (b ∷ rest) schedule here h p = absurd (omega arith)
  write_all-appends (suc n) fd before (b ∷ rest) [] here h p = absurd p
  write_all-appends (suc n) fd before (b ∷ rest) (zero ∷ schedule) here h p =
      absurd (omega (arith, p.0))
  write_all-appends (suc n) fd before (b ∷ rest) (suc taken ∷ schedule) here h p =
      let part = b ∷ take taken rest in
      let (count, behind) = posix.writes fd before (b ∷ rest) (suc taken) here in
      let fewer : length (drop taken rest) ≤ n = omega (arith, length-drop taken rest) in
      let (fd', e, all) =
        write_all-appends n (os.write fd (b ∷ rest) (suc taken)).1 (before ++ part)
          (drop taken rest) schedule behind fewer p.1 in
      let cut : drop (os.write fd (b ∷ rest) (suc taken)).0 (b ∷ rest) ≡ drop taken rest =
        ap (λ k. drop k (b ∷ rest)) count ∙ drop-length-take taken rest in
      let joined : (before ++ part) ++ drop taken rest ≡ before ++ b ∷ rest =
        rw (append_assoc, take-append-drop taken rest) refl in
      (fd', rw (write_all, cut) e, all ∙ joined)

  -- Let the calls of `os` do what POSIX says. `_replace_content_unix`, on fuel of one write for
  -- each byte, where every write takes a byte or more, ends, and a read of the descriptor gives the
  -- new content, whatever the old content and position were.
  pub replace_unix-read_unix :
      (fuel : ℕ) (new_content : Bytes) (schedule : List ℕ) (fd : os.Descriptor)
      → length new_content < fuel
      → IsProgress (length new_content) schedule
      → (fd' : os.Descriptor) × (replace_unix os new_content schedule fd ≡ some fd')
        × (read_unix os fuel fd' ≡ some new_content)
  unfolding replace_unix
  replace_unix-read_unix fuel new_content schedule fd h p =
      let (empty, at) = posix.truncates (os.seek fd 0) in
      let (fd', e, all) =
        write_all-appends (length new_content) (os.truncate (os.seek fd 0)) [] new_content schedule
          (empty, at ∙ (posix.seeks fd 0).1) (omega arith) p in
      (fd', e, read_unix-bytes fuel fd' (rw all h) ∙ ap some all)
