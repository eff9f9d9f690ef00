-- ===== src/ReplayLog/Select/Bounds.antt =====
-- The line that a range's bound by the index of a change stands for.
use kanta.Base.{
  ℕ, zero, suc, ◌≤◌, ◌<◌, ◌-◌, min, ◌≡◌, refl, ap, ◌∙◌, Bool, some, List, [], ◌∷◌, ltb, sym, ltb→lt,
  if-cases, length, get_elem?, take, arith,
}
use mathlib.Core.Path.{subst}
use mathlib.Core.Option.{some-injective}
use kanta.Base.Int.{ℤ, pos, negsuc}
use kanta.ReplayLog.{Event, change_count}
use kanta.ReplayLog.Select.{
  change_unit, end_of_file, change_lines, line_or, from_end, change_bound, bound_to_line,
}
use kanta.ReplayLog.Select.Covered.{
  AllBelow, IsAscending, IsOrdered, within, within-from, above-at, elem-at, not-lt,
  length-change_lines, AllBelow-end_of_file, AllBelow-change_lines, IsAscending-change_lines,
}

-- the index that a value stands for, counted from the end where it is negative, and moved to the
-- nearest of 0 and the number of changes where it is out of range
abbrev pub clamped : ℕ → ℤ → ℕ
clamped count (pos n) = min n count
clamped count (negsuc n) = count - suc n

within-first : (stop x : ℕ) (xs : List ℕ) → x < stop → within 0 stop (x ∷ xs) ≡ x ∷ within 0 stop xs
within-first stop x xs h = ground arith

-- before the line at an index stand the lines with a lower index
within-index :
    (index line : ℕ) (lines : List ℕ)
    → IsAscending lines
    → get_elem? lines index ≡ some line
    → within 0 line lines ≡ take index lines
within-index index line [] up e = cc
within-index zero line (x ∷ xs) up e =
    subst (λ l. within 0 l (x ∷ xs) ≡ []) (some-injective x line e) (within-from 0 x xs up.0)
within-index (suc index) line (x ∷ xs) up e =
    within-first line x xs (above-at x index line xs up.0 e)
    ∙ ap (λ l. x ∷ l) (within-index index line xs up.1 e)

-- before a line behind all of them stand all
within-all :
    (stop index : ℕ) (lines : List ℕ)
    → AllBelow stop lines
    → length lines ≤ index
    → within 0 stop lines ≡ take index lines
within-all stop zero [] below h = refl
within-all stop (suc index) [] below h = refl
within-all stop zero (x ∷ xs) below h = absurd (omega arith)
within-all stop (suc index) (x ∷ xs) below h =
    within-first stop x xs below.0
    ∙ ap (λ l. x ∷ l) (within-all stop index xs below.1 (omega arith))

AllBelow-at :
    (b index line : ℕ) (lines : List ℕ)
    → AllBelow b lines
    → get_elem? lines index ≡ some line
    → line < b
AllBelow-at b index line [] below e = cc
AllBelow-at b zero line (x ∷ xs) below e = rw (some-injective x line e) at below.0
AllBelow-at b (suc index) line (x ∷ xs) below e = AllBelow-at b index line xs below.1 e

clamped-from_end :
    (count : ℕ) (value : ℤ) → clamped count value ≡ min (line_or 0 (from_end count value)) count
unfolding from_end line_or
clamped-from_end count (pos n) = refl
clamped-from_end count (negsuc n) = ground arith

-- Let the line numbers of a file ascend. A bound that is the index of a change, negative or too
-- high ones included, stands for a line that is no further than the one just behind the last
-- record, and before which stand exactly as many changes as the index says, none for one that is
-- too low and all for one that is too high; it is no error.
pub bound_to_line-change :
    (value : ℤ) (events : List Event) (is_start : Bool)
    → IsOrdered events
    → (line : ℕ) × (bound_to_line change_unit (some value) events (change_count events) is_start
        ≡ some line)
      × (line ≤ end_of_file events)
      × (within 0 line (change_lines events)
          ≡ take (clamped (change_count events) value) (change_lines events))
unfolding bound_to_line change_bound
bound_to_line-change value events is_start ordered =
    let lines = change_lines events in
    let count = change_count events in
    let eof = end_of_file events in
    let index = line_or 0 (from_end count value) in
    let size = length-change_lines events in
    let below = AllBelow-change_lines eof events (AllBelow-end_of_file events ordered) in
    if-cases
      (λ found.
        (line : ℕ) × (found ≡ some line)
        × (line ≤ eof)
        × (within 0 line lines ≡ take (clamped count value) lines))
      (ltb index count)
      (λ inside.
        let (line, e) = elem-at index lines (omega (arith, size, ltb→lt index count inside)) in
        let same : clamped count value ≡ index =
          omega (arith, clamped-from_end count value, ltb→lt index count inside) in
        let before : line < eof = AllBelow-at eof index line lines below e in
        (
          line,
          e,
          omega (arith, before),
          within-index index line lines (IsAscending-change_lines events ordered) e
              ∙ ap (λ n. take n lines) (sym same),
        ))
      (λ outside.
        let same : clamped count value ≡ count =
          omega (arith, clamped-from_end count value, not-lt index outside) in
        (
          eof,
          refl,
          omega arith,
          within-all eof count lines below (omega (arith, size))
              ∙ ap (λ n. take n lines) (sym same),
        ))
