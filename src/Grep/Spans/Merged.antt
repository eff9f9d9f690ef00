-- ===== src/Grep/Spans/Merged.antt =====
-- What the merged spans of grep.py cover, and that gaps stand between them.
use kanta.Base.{
  ℕ, suc, ◌≤◌, ◌<◌, max, Bool, false, ◌&&◌, ◌||◌, List, [], ◌∷◌, ltb, leb, ◌≡◌, refl, ◌∙◌, ap,
  arith,
}
use kanta.Grep.Spans.{
  Span, span_before, insert_span, sort_spans, merge_into, merge_sorted, merge_spans,
}

-- a span is the positions from its start to its stop, without the stop
unfoldable pub covers : List Span → ℕ → Bool
covers [] i = false
covers (a ∷ spans) i = leb a.start i && ltb i a.stop || covers spans i

-- no span is empty, and each begins behind a gap
unfoldable pub Separated : ℕ → List Span → Type 0
Separated from [] = Unit
Separated from (a ∷ spans) = (from ≤ a.start) × (a.start < a.stop) × Separated (suc a.stop) spans

-- starts do not go down
Ascends : ℕ → List Span → Type 0
Ascends from [] = Unit
Ascends from (a ∷ spans) = (from ≤ a.start) × Ascends a.start spans

Ascends-below :
    (from to : ℕ) (spans : List Span) → from ≤ to → Ascends to spans → Ascends from spans
unfolding Ascends
Ascends-below from to [] h up = tt
Ascends-below from to (a ∷ spans) h up = (omega (arith, up.0), up.1)

insert_span-Ascends :
    (from : ℕ) (a : Span) (spans : List Span)
    → from ≤ a.start
    → Ascends from spans
    → Ascends from (insert_span a spans)
unfolding insert_span Ascends span_before
insert_span-Ascends from a [] h k = (h, tt)
insert_span-Ascends from a (b ∷ spans) h k = ground (arith, insert_span-Ascends b.start a spans)

sort_spans-Ascends : (spans : List Span) → Ascends 0 (sort_spans spans)
unfolding sort_spans Ascends
sort_spans-Ascends [] = tt
sort_spans-Ascends (a ∷ spans) =
    insert_span-Ascends 0 a (sort_spans spans) (omega arith) (sort_spans-Ascends spans)

merge_into-Separated :
    (from : ℕ) (last : Span) (spans : List Span)
    → from ≤ last.start
    → last.start < last.stop
    → Ascends last.start spans
    → Separated from (merge_into last spans)
unfolding merge_into Separated Ascends
merge_into-Separated from last [] h k up = (h, k, tt)
merge_into-Separated from last (a ∷ spans) h k up = ground (
  arith,
  Ascends-below last.start a.start spans,
  merge_into-Separated from last spans,
  merge_into-Separated from (record last { stop = max a.stop last.stop }) spans,
  merge_into-Separated (suc last.stop) a spans,
)

insert_span-covers :
    (a : Span) (spans : List Span) (i : ℕ) → covers (insert_span a spans) i ≡ covers (a ∷ spans) i
unfolding insert_span covers
insert_span-covers a [] i = refl
insert_span-covers a (b ∷ spans) i = ground (arith, insert_span-covers a spans i)

sort_spans-covers : (spans : List Span) (i : ℕ) → covers (sort_spans spans) i ≡ covers spans i
unfolding sort_spans covers
sort_spans-covers [] i = refl
sort_spans-covers (a ∷ spans) i =
    insert_span-covers a (sort_spans spans) i
    ∙ ap (λ b. leb a.start i && ltb i a.stop || b) (sort_spans-covers spans i)

merge_into-covers :
    (last : Span) (spans : List Span) (i : ℕ)
    → last.start < last.stop
    → Ascends last.start spans
    → covers (merge_into last spans) i ≡ covers (last ∷ spans) i
unfolding merge_into covers Ascends
merge_into-covers last [] i h up = refl
merge_into-covers last (a ∷ spans) i h up = ground (
  arith,
  Ascends-below last.start a.start spans,
  merge_into-covers last spans i,
  merge_into-covers (record last { stop = max a.stop last.stop }) spans i,
  merge_into-covers a spans i,
)

merge_sorted-Separated : (spans : List Span) → Ascends 0 spans → Separated 0 (merge_sorted spans)
unfolding merge_sorted Separated Ascends
merge_sorted-Separated [] up = tt
merge_sorted-Separated (a ∷ spans) up = ground (
  arith,
  Ascends-below 0 a.start spans,
  merge_sorted-Separated spans,
  merge_into-Separated 0 a spans,
)

merge_sorted-covers :
    (spans : List Span) (i : ℕ) → Ascends 0 spans → covers (merge_sorted spans) i ≡ covers spans i
unfolding merge_sorted covers Ascends
merge_sorted-covers [] i up = refl
merge_sorted-covers (a ∷ spans) i up =
    ground (
      arith,
      Ascends-below 0 a.start spans,
      merge_sorted-covers spans i,
      merge_into-covers a spans i,
    )

pub merge_spans-Separated : (spans : List Span) → Separated 0 (merge_spans spans)
unfolding merge_spans
merge_spans-Separated spans = merge_sorted-Separated (sort_spans spans) (sort_spans-Ascends spans)

-- Merging spans leaves the positions that they cover as they are, and gives spans that are not
-- empty, in ascending order, with a gap between any two.
pub merge_spans-covers :
    (spans : List Span)
    → Separated 0 (merge_spans spans) × ((i : ℕ) → covers (merge_spans spans) i ≡ covers spans i)
unfolding merge_spans
merge_spans-covers spans = (
  merge_spans-Separated spans,
  λ i.
      merge_sorted-covers (sort_spans spans) i (sort_spans-Ascends spans)
      ∙ sort_spans-covers spans i,
)
