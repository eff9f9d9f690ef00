-- ===== src/ReplayLog/Select/Covered.antt =====
-- Which lines a range covers, in a file whose line numbers ascend.
use kanta.Base.{
  ℕ, zero, suc, ◌≤◌, ◌<◌, ◌≡◌, refl, ap, ◌∙◌, false, ◌&&◌, none, some, List, [], ◌∷◌, map, ltb, leb,
  if◌then◌else◌, if-holds, if-cases, length, get_elem?, arith, Bool-cases, inl, inr, ltb→lt,
  &&-right,
}
use mathlib.Core.Path.{subst}
use mathlib.Core.Option.{some-injective}
use kanta.Base.Int.{pos}
use kanta.ReplayLog.{Event, is_change, change_count}
use kanta.ReplayLog.Select.{end_of_file, change_lines, line_or, select_change, selection}

abbrev pub AllAbove : ℕ → List ℕ → Type 0
AllAbove a [] = Unit
AllAbove a (x ∷ xs) = (a < x) × AllAbove a xs

abbrev pub IsAscending : List ℕ → Type 0
IsAscending [] = Unit
IsAscending (x ∷ xs) = AllAbove x xs × IsAscending xs

abbrev pub AllBelow : ℕ → List ℕ → Type 0
AllBelow b [] = Unit
AllBelow b (x ∷ xs) = (x < b) × AllBelow b xs

-- the lines from `start` up to `stop`, which is not covered
abbrev pub within : ℕ → ℕ → List ℕ → List ℕ
within start stop [] = []
within start stop (x ∷ xs) =
    let rest = within start stop xs in if leb start x && ltb x stop then x ∷ rest else rest

abbrev pub lines_of : List Event → List ℕ
lines_of = map (λ (e : Event). e.line_number)

-- the line numbers of a file ascend
abbrev pub IsOrdered : List Event → Type 0
IsOrdered events = IsAscending (lines_of events)

within-later : (start stop : ℕ) (xs : List ℕ) → AllAbove stop xs → within start stop xs ≡ []
within-later start stop [] h = refl
within-later start stop (x ∷ xs) h =
    if-cases (λ (l : List ℕ). l ≡ []) (leb start x && ltb x stop)
      (λ e. absurd (omega (arith, h.0, ltb→lt x stop (&&-right (leb start x) (ltb x stop) e))))
      (λ e. within-later start stop xs h.1)

within-earlier :
    (start stop x : ℕ) (xs : List ℕ) → x < start → within start stop (x ∷ xs) ≡ within start stop xs
within-earlier start stop x xs h = ground arith

within-here : (stop x : ℕ) (xs : List ℕ) → x < stop → within x stop (x ∷ xs) ≡ x ∷ within x stop xs
within-here stop x xs h = ground arith

pub within-from : (start y : ℕ) (ys : List ℕ) → AllAbove y ys → within start y (y ∷ ys) ≡ []
within-from start y ys h =
    let rest : within start y ys ≡ [] = within-later start y ys h in ground (arith, rest)

pub above-at :
    (x index line : ℕ) (xs : List ℕ) → AllAbove x xs → get_elem? xs index ≡ some line → x < line
above-at x index line [] h e = cc
above-at x zero line (y ∷ ys) h e = rw (some-injective y line e) at h.0
above-at x (suc index) line (y ∷ ys) h e = above-at x index line ys h.1 e

-- the line at an index, up to the next one
within-one :
    (eof index line : ℕ) (lines : List ℕ)
    → IsAscending lines
    → AllBelow eof lines
    → get_elem? lines index ≡ some line
    → within line (line_or eof (get_elem? lines (suc index))) lines ≡ line ∷ []
within-one eof index line [] asc below e = cc
within-one eof zero line (x ∷ []) asc below e =
    subst (λ l. within l eof (x ∷ []) ≡ l ∷ []) (some-injective x line e)
      (within-here eof x [] below.0)
within-one eof zero line (x ∷ (y ∷ ys)) asc below e =
    subst (λ l. within l y (x ∷ (y ∷ ys)) ≡ l ∷ []) (some-injective x line e)
      (within-here y x (y ∷ ys) asc.0.0 ∙ ap (λ t. x ∷ t) (within-from x y ys asc.1.0))
within-one eof (suc index) line (x ∷ xs) asc below e =
    within-earlier line _ x xs (above-at x index line xs asc.0 e)
    ∙ within-one eof index line xs asc.1 below.1 e

AllAbove-change_lines :
    (a : ℕ) (events : List Event) → AllAbove a (lines_of events) → AllAbove a (change_lines events)
unfolding change_lines
AllAbove-change_lines a [] h = tt
AllAbove-change_lines a (e ∷ events) h =
    let rest = AllAbove-change_lines a events h.1 in
    if-holds (AllAbove a) (is_change e.content) {x = e.line_number ∷ change_lines events}
      (h.0, rest) rest

pub IsAscending-change_lines :
    (events : List Event) → IsOrdered events → IsAscending (change_lines events)
unfolding change_lines
IsAscending-change_lines [] h = tt
IsAscending-change_lines (e ∷ events) h =
    let rest = IsAscending-change_lines events h.1 in
    if-holds IsAscending (is_change e.content) {x = e.line_number ∷ change_lines events}
      (AllAbove-change_lines e.line_number events h.0, rest) rest

-- all lines stand before the end of the file
pub AllBelow-end_of_file :
    (events : List Event) → IsOrdered events → AllBelow (end_of_file events) (lines_of events)
unfolding end_of_file
AllBelow-end_of_file [] h = tt
AllBelow-end_of_file (e ∷ []) h = (omega arith, tt)
AllBelow-end_of_file (e ∷ (e' ∷ events)) h =
    let rest = AllBelow-end_of_file (e' ∷ events) h.1 in (omega (arith, h.0.0, rest.0), rest)

pub AllBelow-change_lines :
    (b : ℕ) (events : List Event) → AllBelow b (lines_of events) → AllBelow b (change_lines events)
unfolding change_lines
AllBelow-change_lines b [] h = tt
AllBelow-change_lines b (e ∷ events) h =
    let rest = AllBelow-change_lines b events h.1 in
    if-holds (AllBelow b) (is_change e.content) {x = e.line_number ∷ change_lines events}
      (h.0, rest) rest

pub length-change_lines : (events : List Event) → length (change_lines events) ≡ change_count events
unfolding change_lines change_count
length-change_lines [] = refl
length-change_lines (e ∷ events) =
    let rest = length-change_lines events in
    elim (Bool-cases (is_change e.content)) [
      | inl change ↦ rw change (ap suc rest)
      | inr other ↦ rw other rest
    ]

pub elem-at :
    (index : ℕ) (lines : List ℕ)
    → index < length lines
    → (line : ℕ) × (get_elem? lines index ≡ some line)
elem-at index [] h = absurd (omega arith)
elem-at zero (x ∷ xs) h = (x, refl)
elem-at (suc index) (x ∷ xs) h = elem-at index xs (omega arith)

pub not-lt : (index : ℕ) {total : ℕ} → ltb index total ≡ false → total ≤ index
not-lt index h = ground arith

beyond : (index : ℕ) (lines : List ℕ) → length lines ≤ index → get_elem? lines index ≡ none
beyond index [] h = refl
beyond zero (x ∷ xs) h = absurd (omega arith)
beyond (suc index) (x ∷ xs) h = beyond index xs (omega arith)

-- the end of the range of a change
next_change :
    (eof index : ℕ) (lines : List ℕ) (total : ℕ)
    → length lines ≡ total
    → (if ltb (suc index) total then line_or eof (get_elem? lines (suc index)) else eof)
      ≡ line_or eof (get_elem? lines (suc index))
next_change eof index lines total h =
    if-cases (λ stop. stop ≡ line_or eof (get_elem? lines (suc index))) (ltb (suc index) total)
      (λ e. refl) (λ e. rw (beyond (suc index) lines (omega (arith, h, not-lt (suc index) e))) refl)

-- Let the line numbers of a file ascend. Selecting the change of an index that is in the file gives
-- a range of lines that covers the line of that change, and no other change's.
pub select_change-within :
    (events : List Event) (index : ℕ)
    → IsOrdered events
    → index < change_count events
    → (start : ℕ) × (stop : ℕ) × (get_elem? (change_lines events) index ≡ some start)
      × (select_change events (change_count events) (pos index) ≡ selection start stop none)
      × (within start stop (change_lines events) ≡ start ∷ [])
unfolding select_change
select_change-within events index ordered h =
    let lines = change_lines events in
    let eof = end_of_file events in
    let size = length-change_lines events in
    let (start, e) = elem-at index lines (omega (arith, size, h)) in
    let stop =
      if ltb (suc index) (change_count events)
      then line_or eof (get_elem? lines (suc index))
      else eof in
    (
      start,
      stop,
      e,
      if-cases (λ r. r ≡ selection start stop none) (ltb index (change_count events))
          (λ inside. rw e refl) (λ outside. absurd (omega (arith, h, not-lt index outside))),
      rw (next_change eof index lines (change_count events) size) (
          within-one eof index start lines (IsAscending-change_lines events ordered)
            (AllBelow-change_lines eof events (AllBelow-end_of_file events ordered)) e),
    )

abbrev pub AllZero : List ℕ → Type 0
AllZero [] = Unit
AllZero (x ∷ xs) = (x ≡ 0) × AllZero xs

AllZero-change_lines :
    (events : List Event) → AllZero (lines_of events) → AllZero (change_lines events)
unfolding change_lines
AllZero-change_lines [] h = tt
AllZero-change_lines (e ∷ events) h =
    let rest = AllZero-change_lines events h.1 in
    if-holds AllZero (is_change e.content) {x = e.line_number ∷ change_lines events} (h.0, rest)
      rest

zero-at :
    (index : ℕ) (lines : List ℕ)
    → AllZero lines
    → index < length lines
    → get_elem? lines index ≡ some 0
zero-at index [] h k = absurd (omega arith)
zero-at zero (x ∷ xs) h k = ap some h.0
zero-at (suc index) (x ∷ xs) h k = zero-at index xs h.1 (omega arith)

within-empty : (lines : List ℕ) → within 0 0 lines ≡ []
within-empty [] = refl
within-empty (x ∷ xs) =
    if-cases (λ (l : List ℕ). l ≡ []) (leb 0 x && ltb x 0)
      (λ e. absurd (omega (arith, ltb→lt x 0 (&&-right (leb 0 x) (ltb x 0) e))))
      (λ e. within-empty xs)

-- Let all records have line number 0, as `BinFramer` gives it to them. Selecting any change of the
-- file but the last by its index gives a range that covers no change at all.
pub select_change-unnumbered :
    (events : List Event) (index : ℕ)
    → AllZero (lines_of events)
    → suc index < change_count events
    → (select_change events (change_count events) (pos index) ≡ selection 0 0 none)
      × (within 0 0 (change_lines events) ≡ [])
unfolding select_change
select_change-unnumbered events index zeros h =
    let lines = change_lines events in
    let all = AllZero-change_lines events zeros in
    let size = length-change_lines events in
    let here = zero-at index lines all (omega (arith, size, h)) in
    let next = zero-at (suc index) lines all (omega (arith, size, h)) in
    let stop =
      if ltb (suc index) (change_count events)
      then line_or (end_of_file events) (get_elem? lines (suc index))
      else end_of_file events in
    let stops : stop ≡ 0 =
      if-cases (λ l. l ≡ 0) (ltb (suc index) (change_count events)) (λ e. rw next refl)
        (λ e. absurd (omega (arith, h, not-lt (suc index) e))) in
    (
      if-cases (λ r. r ≡ selection 0 0 none) (ltb index (change_count events))
          (λ inside. rw here (ap (λ l. selection 0 l none) stops))
          (λ outside. absurd (omega (arith, h, not-lt index outside))),
      within-empty lines,
    )
