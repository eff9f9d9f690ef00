-- ===== src/ReplayLog/Select.antt =====
-- The ranges of replaylog.py. A specification is the list of its code points.
pub mod Covered
pub mod Bounds
use kanta.Base.{
  ℕ, zero, suc, ◌+◌, ◌-◌, min, Bool, true, false, not, ◌&&◌, ◌||◌, Option, none, some, List, [],
  ◌∷◌, map, ◌==◌, ltb, leb, if◌then◌else◌, length, get_elem?, ◌>>=◌,
}
use kanta.Base.Int.{ℤ, pos, negsuc}
use kanta.Base.ParseInt.{parse_codes}
use kanta.ReplayLog.{
  Event, Content, snapshot_event, change_event, version_of, is_change, change_count,
}

-- `end_of_file`
unfoldable pub end_of_file : List Event → ℕ
end_of_file [] = 0
end_of_file (e ∷ []) = suc e.line_number
end_of_file (e ∷ (e' ∷ events)) = end_of_file (e' ∷ events)

-- `_change_lines`
unfoldable pub change_lines : List Event → List ℕ
change_lines [] = []
change_lines (e ∷ events) =
    let rest = change_lines events in if is_change e.content then e.line_number ∷ rest else rest

-- the lines of the snapshots
unfoldable pub lines_of_snapshots : List Event → List ℕ
lines_of_snapshots [] = []
lines_of_snapshots (e ∷ events) =
    let rest = lines_of_snapshots events in
    if is_change e.content then rest else e.line_number ∷ rest

-- `_snapshot_lines`
unfoldable pub snapshot_lines : List Event → List ℕ
snapshot_lines [] = 0 ∷ []
snapshot_lines (e ∷ events) =
    if is_change e.content
    then 0 ∷ lines_of_snapshots (e ∷ events)
    else lines_of_snapshots (e ∷ events)

abbrev pub lookup_line : ℕ → List (ℕ × ℕ) → Option ℕ
lookup_line version [] = none
lookup_line version ((v, line) ∷ lines) =
    let rest = lookup_line version lines in if v == version then some line else rest

abbrev pub is_some : Option ℕ → Bool
is_some none = false
is_some (some n) = true

-- lines.setdefault(version, line)
unfoldable pub set_default : ℕ → ℕ → List (ℕ × ℕ) → List (ℕ × ℕ)
set_default version line lines =
    if is_some (lookup_line version lines) then lines else (version, line) ∷ lines

-- `_version_lines`; the dict is turned round, which no caller sees
unfoldable pub version_lines_from : List (ℕ × ℕ) → List Event → List (ℕ × ℕ)
version_lines_from lines [] = lines
version_lines_from lines (e ∷ events) =
    version_lines_from (set_default (version_of e.content) e.line_number lines) events

abbrev pub version_lines : List Event → List (ℕ × ℕ)
version_lines events = version_lines_from ((0, 0) ∷ []) events

-- `_event_at_line`
unfoldable pub event_at_line : List Event → ℕ → Option Event
event_at_line [] line = none
event_at_line (e ∷ events) line =
    let rest = event_at_line events line in if e.line_number == line then some e else rest

pub data LineUnit : Type 0 where
  change_unit line_unit snapshot_unit version_unit : LineUnit

abbrev pub unit_of : ℕ → Option LineUnit
unit_of c =
    if c == b'l'
    then some line_unit
    else if c == b's'
    then some snapshot_unit
    else if c == b'v'
    then some version_unit
    else none

abbrev pub with_unit : LineUnit → Option ℤ → Option (LineUnit × Option ℤ)
with_unit unit none = none
with_unit unit (some n) = some (unit, some n)

-- `_parse_bound`; `none` is a ValueError, which `int` raises for an empty text too
unfoldable pub parse_bound : List ℕ → Option (LineUnit × Option ℤ)
parse_bound [] = some (change_unit, none)
parse_bound (c ∷ rest) = elim (unit_of c) [
  | some unit ↦ with_unit unit (parse_codes rest)
  | none ↦ with_unit change_unit (parse_codes (c ∷ rest))
]

-- `count + value` for a negative value; `none` is below 0
abbrev pub from_end : ℕ → ℤ → Option ℕ
from_end count (pos n) = some n
from_end count (negsuc n) = if ltb n count then some (count - suc n) else none

abbrev pub line_or : ℕ → Option ℕ → ℕ
line_or eof none = eof
line_or eof (some line) = line

-- lines[value] if value < total else eof, with value = max(0, min(value, total)); `none` is an
-- IndexError
unfoldable pub change_bound : List Event → ℕ → Option ℕ → Option ℕ
change_bound events total value =
    let index = line_or 0 value in
    if ltb index total then get_elem? (change_lines events) index else some (end_of_file events)

-- `_bound_to_line`; `none` is a ValueError or an IndexError
unfoldable pub bound_to_line : LineUnit → Option ℤ → List Event → ℕ → Bool → Option ℕ
bound_to_line unit none events total is_start = some (if is_start then 0 else end_of_file events)
bound_to_line change_unit (some value) events total is_start =
    change_bound events total (from_end total value)
bound_to_line line_unit (some (pos n)) events total is_start = some n
bound_to_line line_unit (some (negsuc n)) events total is_start = none
bound_to_line snapshot_unit (some value) events total is_start =
    let lines = snapshot_lines events in
    elim (from_end (length lines) value) [
      | none ↦ some 0
      | some index ↦ some (line_or (end_of_file events) (get_elem? lines index))
    ]
bound_to_line version_unit (some (pos n)) events total is_start =
    some (line_or (end_of_file events) (lookup_line n (version_lines events)))
bound_to_line version_unit (some (negsuc n)) events total is_start = none

-- the split at the first `..`, and at the first `:`
unfoldable pub split_dots : List ℕ → Option (List ℕ × List ℕ)
split_dots [] = none
split_dots (c ∷ []) = none
split_dots (c ∷ (d ∷ rest)) =
    let later = split_dots (d ∷ rest) in
    if c == b'.' && d == b'.'
    then some ([], rest)
    else elim later [ none ↦ none | some parts ↦ some (c ∷ parts.0, parts.1) ]

unfoldable pub split_colon : List ℕ → Option (List ℕ × List ℕ)
split_colon [] = none
split_colon (c ∷ rest) =
    let later = split_colon rest in
    if c == b':'
    then some ([], rest)
    else elim later [ none ↦ none | some parts ↦ some (c ∷ parts.0, parts.1) ]

-- `..` makes the end inclusive, where there is one
abbrev pub past_end : Bool → Option ℤ → ℕ → ℕ
past_end true (some value) end_line = suc end_line
past_end inclusive value end_line = end_line

-- the bounds, and whether the end is inclusive
unfoldable pub range_between : List ℕ → List ℕ → Bool → List Event → ℕ → Option (ℕ × ℕ)
range_between start_text end_text inclusive events total = do
  (start_unit, start_value) ← parse_bound start_text
  (end_unit, end_value) ← parse_bound end_text
  start_line ← bound_to_line start_unit start_value events total true
  end_line ← bound_to_line end_unit end_value events total false
  some (
    min start_line (past_end inclusive end_value end_line),
    past_end inclusive end_value end_line,
  )

-- `_resolve_range`; `none` is a ValueError or an IndexError
unfoldable pub resolve_range : List ℕ → List Event → ℕ → Option (ℕ × ℕ)
resolve_range spec events total = elim (split_dots spec) [
  | some parts ↦ range_between parts.0 parts.1 true events total
  | none ↦ elim (split_colon spec) [
    | some parts ↦ range_between parts.0 parts.1 false events total
    | none ↦ none
  ]
]

pub data Selected : Type 0 where
  -- a ValueError or an IndexError, a RangeNotFoundError, and the assertion that a snapshot is there
  malformed not_found assertion_failed : Selected
  selection : ℕ → ℕ → Option Event → Selected

abbrev pub is_range : List ℕ → Bool
is_range spec = elim (split_dots spec) [
  | some parts ↦ true
  | none ↦ elim (split_colon spec) [ some parts ↦ true | none ↦ false ]
]

-- the event at a line, as a snapshot's where it is one
abbrev pub select_event : Option Event → Selected
select_event none = not_found
select_event (some e) =
    selection e.line_number (suc e.line_number) (if is_change e.content then none else some e)

-- a single snapshot, line, version and change
unfoldable pub select_snapshot : List Event → ℤ → Selected
select_snapshot events value =
    let lines = snapshot_lines events in
    elim (from_end (length lines) value >>= λ index. get_elem? lines index) [
      | none ↦ not_found
      | some line ↦ elim (event_at_line events line) [
        | none ↦ not_found
        | some e ↦
            if is_change e.content
            then assertion_failed
            else selection e.line_number (suc e.line_number) (some e)
      ]
    ]

unfoldable pub select_line : List Event → ℤ → Selected
select_line events (negsuc n) = malformed
select_line events (pos n) = select_event (event_at_line events n)

-- the lowest of the lines that are later
unfoldable pub next_line : ℕ → ℕ → List (ℕ × ℕ) → ℕ
next_line start found [] = found
next_line start found ((v, line) ∷ lines) =
    let rest = next_line start (min found line) lines in
    let same = next_line start found lines in if ltb start line then rest else same

abbrev pub has_later : ℕ → List (ℕ × ℕ) → Option ℕ
has_later start [] = none
has_later start ((v, line) ∷ lines) =
    let rest = has_later start lines in if ltb start line then some line else rest

unfoldable pub select_version : List Event → ℤ → Selected
select_version events (negsuc n) = malformed
select_version events (pos n) =
    let lines = version_lines events in
    elim (lookup_line n lines) [
      | none ↦ not_found
      | some start ↦ elim (has_later start lines) [
        | none ↦ selection start (end_of_file events) none
        | some line ↦ selection start (next_line start line lines) none
      ]
    ]

unfoldable pub select_change : List Event → ℕ → ℤ → Selected
select_change events total value =
    let lines = change_lines events in
    elim (from_end total value) [
      | none ↦ not_found
      | some index ↦
          if ltb index total
          then elim (get_elem? lines index) [
            | none ↦ malformed
            | some line ↦
                selection line
                  (if ltb (suc index) total
                    then line_or (end_of_file events) (get_elem? lines (suc index))
                    else end_of_file events)
                  none
          ]
          else not_found
    ]

abbrev pub select_one : LineUnit → List Event → ℕ → ℤ → Selected
select_one snapshot_unit events total value = select_snapshot events value
select_one line_unit events total value = select_line events value
select_one version_unit events total value = select_version events value
select_one change_unit events total value = select_change events total value

-- `select`
unfoldable pub select : List ℕ → List Event → ℕ → Selected
select spec events total =
    if is_range spec
    then elim (resolve_range spec events total) [
      | none ↦ malformed
      | some lines ↦ selection lines.0 lines.1 none
    ]
    else elim (parse_bound spec) [
      | none ↦ malformed
      | some parts ↦ elim parts.1 [
        | none ↦ malformed
        | some value ↦ select_one parts.0 events total value
      ]
    ]
