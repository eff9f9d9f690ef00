-- ===== src/Framing/Line/Ends.antt =====
-- The loop of `LineFramer.iter_records`, on any bytes.
use kanta.Base.{
  ℕ, zero, suc, ◌-◌, ◌+◌, ◌<◌, [], ◌∷◌, ltb, ltb→lt, length, drop, arith, Bool-cases, Option-cases,
  inl, inr,
}
use kanta.Base.Bytes.{Bytes}
use kanta.Base.ParseInt.{strip, is_space}
use kanta.Framing.{Record, Stream, stop, raise, unfinished, yield}
use kanta.Framing.Line.{find_newline, raw_line, yield_line, lines_from, line_records}

-- the stream stops, after finitely many records, and raises nothing
abbrev pub Stops : Stream Record → Type 0
Stops stop = Unit
Stops (raise e) = ⊥
Stops unfinished = ⊥
Stops (yield r rest) = Stops rest

raw_line-further : (bytes : Bytes) (idx : ℕ) → idx < length bytes → idx < (raw_line bytes idx).1
unfolding raw_line
raw_line-further bytes idx h = elim (Option-cases (find_newline (drop idx bytes))) [
  | inl missing ↦ rw (raw_line, missing) h
  | inr (at, found) ↦
      let further : idx < suc (idx + at) = omega arith in rw (raw_line, found) further
]

yield_line-Stops :
    (line : Bytes) (n pos : ℕ) (rest : Stream Record)
    → Stops rest
    → Stops (yield_line line n pos rest)
unfolding yield_line
yield_line-Stops [] n pos rest h = h
yield_line-Stops (b ∷ bs) n pos rest h = h

lines_from-Stops :
    (fuel : ℕ) (bytes : Bytes) (idx n : ℕ)
    → length bytes - idx < fuel
    → Stops (lines_from fuel bytes idx n)
unfolding lines_from
lines_from-Stops zero bytes idx n h = absurd (omega arith)
lines_from-Stops (suc fuel) bytes idx n h = elim (Bool-cases (ltb idx (length bytes))) [
  | inl inside ↦
      let further : idx < (raw_line bytes idx).1 = raw_line-further bytes idx (ltb→lt _ _ inside) in
      let less : length bytes - (raw_line bytes idx).1 < fuel =
        omega (arith, further, ltb→lt _ _ inside) in
      rw inside (
        yield_line-Stops (strip is_space (raw_line bytes idx).0) n idx
          (lines_from fuel bytes (raw_line bytes idx).1 (suc n))
          (lines_from-Stops fuel bytes (raw_line bytes idx).1 (suc n) less))
  | inr ended ↦ rw ended tt
]

-- On any bytes and from any offset, the line framer's iteration stops after finitely many records,
-- and raises nothing.
pub line_records-Stops : (bytes : Bytes) (offset : ℕ) → Stops (line_records bytes offset)
unfolding line_records
line_records-Stops bytes offset = lines_from-Stops (suc (length bytes)) bytes offset _ (omega arith)
