-- ===== src/Framing/Line/Lines.antt =====
-- `LineFramer.iter_records` on what `LineFramer` writes.
use kanta.Base.{
  ℕ, zero, suc, ◌+◌, ◌<◌, ◌≡◌, ◌≢◌, refl, ap, sym, ◌∙◌, Bool, true, false, Option, none, some, List,
  [], ◌∷◌, ◌++◌, ltb, ◌==◌, if◌then◌else◌, length, length-append, drop-append, append_assoc,
  append-nil, ◌>>=◌, arith, Bool-cases, Option-cases, inl, inr,
}
use mathlib.Core.Option.{some-injective}
use kanta.Base.Bytes.{Bytes, slice_of_part}
use kanta.Base.ParseInt.{strip, is_space}
use kanta.Framing.{Record, Stream, stop, yield}
use kanta.Framing.Bin.Journal.{Entry}
use kanta.Framing.Line.{
  newline, snapshot_prefix, line_change, line_snapshot, starts, find_newline, raw_line, line_record,
  yield_line, lines_from, line_records,
}

-- the line of a record
abbrev pub line_of : Bool → Bytes → Bytes
line_of s payload = if s then snapshot_prefix ++ payload else payload

abbrev pub HasNoNewline : Bytes → Type 0
HasNoNewline line = find_newline line ≡ none

-- A line that holds one record: it has no newline, no space at its ends, and is not blank; and it
-- begins with the word SNAPSHOT and a space exactly when it is a snapshot.
pub record IsLine (s : Bool) (payload : Bytes) : Type 0 where
  pub single : HasNoNewline (line_of s payload)
  pub stripped : strip is_space (line_of s payload) ≡ line_of s payload
  pub not_blank : line_of s payload ≢ []
  pub kind : starts snapshot_prefix (line_of s payload) ≡ s

abbrev pub AllLines : List Entry → Type 0
AllLines [] = Unit
AllLines ((s, payload) ∷ entries) = IsLine s payload × AllLines entries

-- the bytes that are written for some records, one after the other
unfoldable pub lines_written : List Entry → Option Bytes
unfolding line_change line_snapshot
lines_written [] = some []
lines_written ((s, payload) ∷ entries) = do
  first ← (if s then line_snapshot payload 0 else line_change payload 0)
  rest ← lines_written entries
  some (first ++ rest)

abbrev lines_of : List Entry → Bytes
lines_of [] = []
lines_of ((s, payload) ∷ entries) = line_of s payload ++ newline ∷ lines_of entries

-- the records that a reader should see
abbrev pub line_records_at : ℕ → ℕ → List Entry → Stream Record
line_records_at pos n [] = stop
line_records_at pos n ((s, payload) ∷ entries) =
    yield (record { is_snapshot = s; payload = payload; line_number = n; byte_pos = pos })
      (line_records_at (suc (pos + length (line_of s payload))) (suc n) entries)

lines_written-of : (entries : List Entry) → lines_written entries ≡ some (lines_of entries)
unfolding lines_written
lines_written-of [] = refl
lines_written-of ((true, payload) ∷ entries) =
    rw (lines_written-of entries, append_assoc, append_assoc)
lines_written-of ((false, payload) ∷ entries) = rw (lines_written-of entries, append_assoc)

find_newline-line :
    (line rest : Bytes)
    → HasNoNewline line
    → find_newline (line ++ newline ∷ rest) ≡ some (length line)
unfolding find_newline
find_newline-line [] rest h = refl
find_newline-line (b ∷ bs) rest h = elim (Bool-cases (b == newline)) [
  | inl here ↦ let e = rw here at h in absurd cc
  | inr other ↦ elim (Option-cases (find_newline bs)) [
    | inl missing ↦ rw (other, find_newline-line bs rest missing)
    | inr (at, found) ↦ let e = rw (other, found) at h in absurd cc
  ]
]

raw_line-line :
    (pre line rest : Bytes)
    → HasNoNewline line
    → raw_line (pre ++ (line ++ newline ∷ rest)) (length pre)
      ≡ (line, suc (length pre + length line))
unfolding raw_line
raw_line-line pre line rest h = rw (
  raw_line,
  drop-append,
  find_newline-line line rest h,
  slice_of_part pre line (newline ∷ rest) (length pre) (length pre + length line) refl refl,
)

line_record-line :
    (s : Bool) (payload : Bytes) (n pos : ℕ)
    → IsLine s payload
    → line_record (line_of s payload) n pos
      ≡ record { is_snapshot = s; payload = payload; line_number = n; byte_pos = pos }
unfolding line_record
line_record-line true payload n pos is = rw is.kind
line_record-line false payload n pos is = rw is.kind

yield_line-line :
    (line : Bytes) (n pos : ℕ) (rest : Stream Record)
    → line ≢ []
    → yield_line line n pos rest ≡ yield (line_record line n pos) rest
unfolding yield_line
yield_line-line [] n pos rest h = absurd (h refl)
yield_line-line (b ∷ bs) n pos rest h = refl

-- one round of the loop
lines_from-line :
    (fuel : ℕ) (s : Bool) (payload pre rest : Bytes) (n : ℕ)
    → IsLine s payload
    → lines_from (suc fuel) (pre ++ (line_of s payload ++ newline ∷ rest)) (length pre) n
      ≡ yield
          (record { is_snapshot = s; payload = payload; line_number = n; byte_pos = length pre })
          (lines_from fuel
            (pre ++ (line_of s payload ++ newline ∷ rest))
            (suc (length pre + length (line_of s payload)))
            (suc n))
unfolding lines_from
lines_from-line fuel s payload pre rest n is =
    let file = pre ++ (line_of s payload ++ newline ∷ rest) in
    let inside : ltb (length pre) (length file) ≡ true = ground (
      arith,
      length-append pre (line_of s payload ++ newline ∷ rest),
      length-append (line_of s payload) (newline ∷ rest),
    ) in
    rw
      (
        inside,
        raw_line-line pre (line_of s payload) rest (is.single),
        is.stripped,
        yield_line-line (line_of s payload) n (length pre) _ (is.not_blank),
      )
      (ap
        (λ r.
          yield r (lines_from fuel file (suc (length pre + length (line_of s payload))) (suc n)))
        (line_record-line s payload n (length pre) is))

lines_from-end :
    (fuel : ℕ) (pre : Bytes) (pos n : ℕ) → pos ≡ length pre → lines_from (suc fuel) pre pos n ≡ stop
unfolding lines_from
lines_from-end fuel pre pos n h = let out : ltb pos (length pre) ≡ false = ground arith in rw out

lines_from-of :
    (fuel : ℕ) (pre : Bytes) (entries : List Entry) (n : ℕ)
    → AllLines entries
    → length (lines_of entries) < fuel
    → lines_from fuel (pre ++ lines_of entries) (length pre) n
      ≡ line_records_at (length pre) n entries
lines_from-of zero pre entries n all enough = absurd (omega arith)
lines_from-of (suc fuel) pre [] n all enough =
    rw append-nil (lines_from-end fuel pre (length pre) n refl)
lines_from-of (suc fuel) pre ((s, payload) ∷ entries) n all enough =
    let line = line_of s payload in
    let before = pre ++ (line ++ newline ∷ []) in
    let size : length before ≡ suc (length pre + length line) =
      omega (arith, length-append pre (line ++ newline ∷ []), length-append line (newline ∷ [])) in
    let shorter : length (lines_of entries) < fuel =
      omega (arith, length-append line (newline ∷ lines_of entries)) in
    let split : before ++ lines_of entries ≡ pre ++ (line ++ newline ∷ lines_of entries) =
      rw (append_assoc, append_assoc) in
    let later : lines_from fuel (before ++ lines_of entries) (length before) (suc n)
        ≡ line_records_at (length before) (suc n) entries =
      lines_from-of fuel before entries (suc n) all.1 shorter in
    lines_from-line fuel s payload pre (lines_of entries) n all.0
    ∙ ap
        (yield
          (record { is_snapshot = s; payload = payload; line_number = n; byte_pos = length pre }))
        (rw (split, size) at later)

-- A file of lines that hold one record each is read back whole: every record in order, with its
-- kind, its payload, its line number and its position, and then the end of the stream.
pub line_records-written :
    (entries : List Entry) (file : Bytes)
    → AllLines entries
    → lines_written entries ≡ some file
    → line_records file 0 ≡ line_records_at 0 1 entries
unfolding line_records
line_records-written entries file all w =
    let same : lines_of entries ≡ file =
      some-injective (lines_of entries) file (sym (lines_written-of entries) ∙ w) in
    rw (← same) (lines_from-of (suc (length (lines_of entries))) [] entries 1 all (omega arith))
