-- ===== src/Grep/Patterns.antt =====
-- grep.py: patterns, and what they match in a path and in a value.
pub mod Window
use kanta.Base.{
  ℕ, zero, suc, ◌+◌, Bool, true, false, not, ◌&&◌, ◌||◌, Option, none, some, List, [], ◌∷◌, ◌++◌,
  length, ◌==◌, if◌then◌else◌,
}
use kanta.Base.Bytes.{bytes_eq}
use kanta.Value.{Value, null, num, text, arr, obj}
use kanta.Terminal.{Text}

-- `GrepPattern`, whose two forms exclude each other
pub data GrepPattern : Type 0 where
  bare : Text → GrepPattern
  sides : Text → Text → GrepPattern

-- what stands before the first "=" and behind it
abbrev pub split_equals : Text → Option (Text × Text)
split_equals [] = none
split_equals (c ∷ raw) =
    let rest = split_equals raw in
    if c == b'='
    then some ([], raw)
    else elim rest [ none ↦ none | some (before, behind) ↦ some (c ∷ before, behind) ]

-- `GrepPattern.parse`
unfoldable pub parse : Text → GrepPattern
parse raw = elim (split_equals raw) [
  | none ↦ bare raw
  | some (path_term, value_term) ↦ sides path_term value_term
]

-- `_ValueMark`
pub record ValueMark : Type 0 where
  pub needle : Text
  pub whole : Bool

abbrev pub no_mark : ValueMark
no_mark = record { needle = []; whole = false }

abbrev pub needle_mark : Text → ValueMark
needle_mark needle = record { needle = needle; whole = false }

-- mark.needle or mark.whole
unfoldable pub is_marking : ValueMark → Bool
is_marking mark = elim mark.needle [ [] ↦ mark.whole | c ∷ needle ↦ true ]

-- term.split(".")
abbrev pub push : ℕ → List Text → List Text
push c [] = (c ∷ []) ∷ []
push c (part ∷ parts) = (c ∷ part) ∷ parts

unfoldable pub split_term : Text → List Text
split_term [] = [] ∷ []
split_term (c ∷ term) = let rest = split_term term in if c == b'.' then [] ∷ rest else push c rest

-- range(start, start + n)
abbrev pub range_from : ℕ → ℕ → List ℕ
range_from start zero = []
range_from start (suc n) = start ∷ range_from (suc start) n

abbrev pub starts_with : Text → Text → Bool
starts_with [] s = true
starts_with (c ∷ needle) [] = false
starts_with (c ∷ needle) (d ∷ s) = c == d && starts_with needle s

-- needle in haystack
unfoldable pub contains : Text → Text → Bool
contains needle [] = starts_with needle []
contains needle (c ∷ s) = starts_with needle (c ∷ s) || contains needle s

-- any(char in pattern for char in _GLOB_CHARS)
unfoldable pub has_glob : Text → Bool
has_glob [] = false
has_glob (c ∷ pattern) = c == b'*' || c == b'?' || c == b'[' || has_glob pattern

-- what `isinstance` tells of a raw value
pub data RawKind : Type 0 where
  a_str a_container a_scalar : RawKind

abbrev pub kind_of : Value → RawKind
kind_of (text s) = a_str
kind_of (arr items) = a_container
kind_of (obj fields) = a_container
kind_of value = a_scalar

-- `casefold` is the table of Unicode, and `fnmatchcase` the matcher of the standard library.
module _ (casefold : Text → Text) (fnmatchcase : Text → Text → Bool) where
  -- `_element_matches`
  unfoldable pub element_matches : Text → Text → Bool
  unfolding has_glob bytes_eq
  element_matches pattern element =
      if has_glob (casefold pattern)
      then fnmatchcase (casefold element) (casefold pattern)
      else bytes_eq (casefold element) (casefold pattern)

  -- the window of a path at its start; one that the path is too short for is not looked at
  unfoldable pub window_matches : List Text → List Text → Bool
  unfolding element_matches
  window_matches [] path = true
  window_matches (pattern ∷ patterns) [] = false
  window_matches (pattern ∷ patterns) (element ∷ path) =
      element_matches pattern element && window_matches patterns path

  -- the loop over `start`; there is one pattern at least, so that no window begins at the end
  unfoldable pub match_from : ℕ → List Text → List Text → Option (List ℕ)
  unfolding window_matches
  match_from start patterns [] = none
  match_from start patterns (element ∷ path) =
      let rest = match_from (suc start) patterns path in
      if window_matches patterns (element ∷ path)
      then some (range_from start (length patterns))
      else rest

  -- `_match_path`
  unfoldable pub match_path : Text → List Text → Option (List ℕ)
  unfolding match_from split_term
  match_path [] path = some []
  match_path (c ∷ term) path = match_from 0 (split_term (c ∷ term)) path

  -- `_match_value`, of a value of a kind with its displayed
  unfoldable pub match_value : Text → RawKind → Text → Option ValueMark
  unfolding has_glob contains bytes_eq
  match_value [] kind displayed = some no_mark
  match_value (c ∷ term) kind displayed =
      let needle = casefold (c ∷ term) in
      let haystack = casefold displayed in
      if has_glob needle
      then (if fnmatchcase haystack needle then some (needle_mark displayed) else none)
      else elim kind [
        | a_str ↦ if contains needle haystack then some (needle_mark (c ∷ term)) else none
        | a_container ↦ none
        | a_scalar ↦ if bytes_eq needle haystack then some (needle_mark displayed) else none
      ]

  abbrev pub whole_if_marking : Option ValueMark → Option ValueMark
  whole_if_marking none = none
  whole_if_marking (some mark) =
      if is_marking mark then some (record { needle = []; whole = true }) else some mark

  abbrev pub or_raw : Option ValueMark → Option ValueMark → Option ValueMark
  or_raw none raw_mark = whole_if_marking raw_mark
  or_raw (some pretty_mark) raw_mark = some pretty_mark

  -- `_dual_mark`
  unfoldable pub dual_mark : Text → RawKind → Text → Option Text → Option ValueMark
  unfolding match_value
  dual_mark term kind displayed none = match_value term kind displayed
  dual_mark term kind displayed (some pretty) =
      or_raw (match_value term a_str pretty) (match_value term kind displayed)
