-- ===== src/Examples/Files.antt =====
-- The theorems on the calls on a file, at a file of three bytes in memory.
use kanta.Base.{
  ℕ, zero, suc, ◌+◌, ◌≡◌, refl, ap, sym, some, [], ◌∷◌, ◌++◌, take, drop, length, length-append,
  drop-append, append-nil, arith, ◌≤◌,
}
use kanta.Base.Bytes.{Bytes}
use kanta.LockedFile.Unix.{Os, read_unix, write_unix, size_unix, replace_unix}
use kanta.LockedFile.Content.{
  IsPosix, read_unix-bytes, read_unix-write_unix, replace_unix-read_unix,
}

-- bytes and a position
abbrev Cursor : Type 0
Cursor = Bytes × ℕ

abbrev write_at : Cursor → Bytes → Cursor
write_at (bytes, at) part =
    (take at bytes ++ (part ++ drop (at + length part) bytes), at + length part)

abbrev memory : Os
memory = record {
  Descriptor = Cursor;
  seek = λ fd at. (fd.0, at);
  tell = λ fd. fd.1;
  seek_end = λ fd. (length fd.0, (fd.0, length fd.0));
  truncate = λ fd. ([], fd.1);
  read = λ fd count.
      (take count (drop fd.1 fd.0), (fd.0, fd.1 + length (take count (drop fd.1 fd.0))));
  write = λ fd bytes taken. (length (take taken bytes), write_at fd (take taken bytes));
}

take-all : (n : ℕ) (xs : Bytes) → length xs ≤ n → take n xs ≡ xs
take-all zero [] h = refl
take-all (suc n) [] h = refl
take-all zero (x ∷ xs) h = absurd (omega arith)
take-all (suc n) (x ∷ xs) h = ap (λ t. x ∷ t) (take-all n xs (omega arith))

drop-all : (n : ℕ) (xs : Bytes) → length xs ≤ n → drop n xs ≡ []
drop-all zero [] h = refl
drop-all (suc n) [] h = refl
drop-all zero (x ∷ xs) h = absurd (omega arith)
drop-all (suc n) (x ∷ xs) h = drop-all n xs (omega arith)

write_at-end : (bytes part : Bytes) → (write_at (bytes, length bytes) part).0 ≡ bytes ++ part
write_at-end bytes part =
    rw
      (
        take-all (length bytes) bytes (omega arith),
        drop-all (length bytes + length part) bytes (omega arith),
        append-nil,
      )
      refl

memory-IsPosix : IsPosix memory (λ fd. fd.0)
memory-IsPosix = record {
  seeks = λ fd at. (refl, refl);
  seeks_end = λ fd. (refl, (refl, refl));
  truncates = λ fd. (refl, refl);
  reads = λ fd before rest count (same, here).
      let behind : drop fd.1 fd.0 ≡ rest = rw (same, here) (drop-append before rest) in
      (ap (take count) behind, (same, rw (behind, here) refl));
  writes = λ fd before bytes taken (same, here). (
    refl,
    (
      rw (same, here) (write_at-end before (take taken bytes)),
      rw here (sym (length-append before (take taken bytes))),
    ),
  );
}

abbrev three_bytes : Cursor
three_bytes = (7 ∷ 8 ∷ 9 ∷ [], 2)

read_unix-bytes_example : read_unix memory 4 three_bytes ≡ some (7 ∷ 8 ∷ 9 ∷ [])
read_unix-bytes_example =
    read_unix-bytes memory (λ fd. fd.0) memory-IsPosix 4 three_bytes (omega arith)

-- the system takes one byte of three
read_unix-write_unix_example :
    (read_unix memory 5 (write_unix memory three_bytes (1 ∷ 2 ∷ 3 ∷ []) 1)
      ≡ some (7 ∷ 8 ∷ 9 ∷ 1 ∷ []))
    × ((size_unix memory (write_unix memory three_bytes (1 ∷ 2 ∷ 3 ∷ []) 1)).0 ≡ 4)
read_unix-write_unix_example =
    read_unix-write_unix memory (λ fd. fd.0) memory-IsPosix 5 three_bytes (1 ∷ []) (2 ∷ 3 ∷ [])
      (omega arith)

replace_unix-read_unix_example :
    (fd : Cursor) × (replace_unix memory (1 ∷ 2 ∷ []) (1 ∷ 5 ∷ []) three_bytes ≡ some fd)
    × (read_unix memory 3 fd ≡ some (1 ∷ 2 ∷ []))
replace_unix-read_unix_example =
    replace_unix-read_unix memory (λ fd. fd.0) memory-IsPosix 3 (1 ∷ 2 ∷ []) (1 ∷ 5 ∷ [])
      three_bytes (omega arith) (omega arith, (omega arith, tt))
