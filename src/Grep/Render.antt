-- ===== src/Grep/Render.antt =====
-- grep.py: the hooks of the highlighter, which mark what is rendered.
use kanta.Base.{
  ℕ, zero, suc, ◌+◌, ◌-◌, ◌≤◌, Bool, true, false, ◌||◌, List, [], ◌∷◌, ◌++◌, length, drop,
  if◌then◌else◌, ◌≡◌, refl, arith, if-cases,
}
use mathlib.Core.Path.{subst}
use kanta.Base.Bytes.{bytes_eq}
use kanta.Terminal.{Text, strip_ansi}
use kanta.Grep.Spans.{Span, mark_spans}
use kanta.Grep.Patterns.{ValueMark, starts_with}
use kanta.Grep.Evaluate.{Highlighter}

-- The loop of `_find_spans` at position `i`, where so many characters are those of the last span.
unfoldable pub find_from : Text → ℕ → ℕ → Text → List Span
find_from needle i skip [] = []
find_from needle i (suc skip) (c ∷ s) = find_from needle (suc i) skip s
find_from needle i zero (c ∷ s) =
    let onward = find_from needle (suc i) zero s in
    let behind = find_from needle (suc i) (length needle - 1) s in
    if starts_with needle (c ∷ s)
    then record { start = i; stop = i + length needle } ∷ behind
    else onward

-- paths in a set
unfoldable pub is_lit : Text → List Text → Bool
unfolding bytes_eq
is_lit path [] = false
is_lit path (other ∷ others) = bytes_eq path other || is_lit path others

-- d.get(key, [])
unfoldable pub marks_at : Text → List (Text × ValueMark) → List ValueMark
unfolding bytes_eq
marks_at key [] = []
marks_at key ((other, mark) ∷ marks) =
    let rest = marks_at key marks in if bytes_eq key other then mark ∷ rest else rest

-- all that is visible
abbrev pub whole_span : Text → Span
whole_span rendered = record { start = 0; stop = length (strip_ansi rendered) }

-- `path`; an empty text has nothing that is visible
unfoldable pub mark_path : Highlighter → Text → Text → Text
unfolding is_lit mark_spans
mark_path self rendered key =
    if is_lit key self.lit_paths then mark_spans rendered (whole_span rendered ∷ []) else rendered

-- `delete`
unfoldable pub mark_delete : Highlighter → Text → Text → Text
unfolding is_lit mark_spans
mark_delete self rendered key =
    if is_lit key self.lit_deletes then mark_spans rendered (whole_span rendered ∷ []) else rendered

-- `lower` is the table of Unicode.
module _ (lower : Text → Text) where
  -- `_find_spans`
  unfoldable pub find_spans : Text → Text → List Span
  unfolding find_from strip_ansi
  find_spans rendered [] = []
  find_spans rendered (c ∷ needle) =
      find_from (lower (c ∷ needle)) 0 0 (lower (strip_ansi rendered))

  abbrev pub spans_of : Text → List ValueMark → List Span
  spans_of rendered [] = []
  spans_of rendered (mark ∷ marks) =
      (if mark.whole then whole_span rendered ∷ [] else find_spans rendered mark.needle)
      ++ spans_of rendered marks

  -- `_apply_marks`; without a mark, `mark_spans` has no span
  unfoldable pub apply_marks : Text → List ValueMark → Text
  unfolding find_spans mark_spans
  apply_marks rendered marks = mark_spans rendered (spans_of rendered marks)

  -- `value`
  unfoldable pub mark_value : Highlighter → Text → Text → Text
  unfolding apply_marks marks_at
  mark_value self rendered key = apply_marks rendered (marks_at key self.value_marks)

  -- `meta`
  unfoldable pub mark_meta : Highlighter → Text → Text → Text
  unfolding apply_marks marks_at
  mark_meta self rendered name = apply_marks rendered (marks_at name self.meta_marks)

-- The spans stand in order from `from` on, apart, and each is an occurrence of the needle.
abbrev pub AreOccurrences : Text → Text → ℕ → List Span → Type 0
AreOccurrences needle haystack from [] = Unit
AreOccurrences needle haystack from (a ∷ spans) =
    (from ≤ a.start)
    × (a.stop ≡ a.start + length needle)
    × (starts_with needle (drop a.start haystack) ≡ true)
    × AreOccurrences needle haystack a.stop spans

AreOccurrences-below :
    (needle haystack : Text) (low high : ℕ) (spans : List Span)
    → low ≤ high
    → AreOccurrences needle haystack high spans
    → AreOccurrences needle haystack low spans
AreOccurrences-below needle haystack low high [] h k = tt
AreOccurrences-below needle haystack low high (a ∷ spans) h k = (omega (arith, k.0), k.1, k.2, k.3)

drop-next :
    (i : ℕ) (c : ℕ) (s haystack : Text) → c ∷ s ≡ drop i haystack → s ≡ drop (suc i) haystack
drop-next zero c s [] h = cc
drop-next zero c s (d ∷ haystack) h = cc
drop-next (suc i) c s [] h = cc
drop-next (suc i) c s (d ∷ haystack) h = drop-next i c s haystack h

find_from-AreOccurrences :
    (needle haystack : Text) (i skip : ℕ) (s : Text)
    → 1 ≤ length needle
    → s ≡ drop i haystack
    → AreOccurrences needle haystack (i + skip) (find_from needle i skip s)
unfolding find_from
find_from-AreOccurrences needle haystack i skip [] h at = tt
find_from-AreOccurrences needle haystack i (suc skip) (c ∷ s) h at =
    AreOccurrences-below needle haystack (i + suc skip) (suc i + skip) _ (omega arith)
      (find_from-AreOccurrences needle haystack (suc i) skip s h (drop-next i c s haystack at))
find_from-AreOccurrences needle haystack i zero (c ∷ s) h at =
    let next = drop-next i c s haystack at in
    if-cases (AreOccurrences needle haystack (i + 0)) (starts_with needle (c ∷ s))
      (λ here. (
        omega arith,
        refl,
        subst (λ t. starts_with needle t ≡ true) at here,
        AreOccurrences-below needle haystack (i + length needle) (suc i + (length needle - 1)) _
            (omega arith)
            (find_from-AreOccurrences needle haystack (suc i) (length needle - 1) s h next),
      ))
      (λ other.
        AreOccurrences-below needle haystack (i + 0) (suc i + 0) _ (omega arith)
          (find_from-AreOccurrences needle haystack (suc i) zero s h next))

-- Let lowering leave no needle empty. The spans that are found for a needle stand in order in the
-- lowered visible text, do not overlap, and each is an occurrence of the lowered needle.
pub find_spans-AreOccurrences :
    (lower : Text → Text) (rendered : Text) (c : ℕ) (needle : Text)
    → 1 ≤ length (lower (c ∷ needle))
    → AreOccurrences
        (lower (c ∷ needle))
        (lower (strip_ansi rendered))
        0
        (find_spans lower rendered (c ∷ needle))
unfolding find_spans
find_spans-AreOccurrences lower rendered c needle h =
    find_from-AreOccurrences (lower (c ∷ needle)) (lower (strip_ansi rendered)) 0 0
      (lower (strip_ansi rendered)) h refl
