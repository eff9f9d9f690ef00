-- ===== src/Terminal.antt =====
-- tty.py: texts for a terminal as lists of code points, and the escape sequences in them.
pub mod Escapes
pub mod Divided
pub mod Shown
pub mod Sgr
pub mod Line
use kanta.Base.{
  ℕ, zero, suc, ◌+◌, ◌-◌, ◌/◌, Bool, true, false, ◌&&◌, ◌||◌, Option, none, some, List, [], ◌∷◌,
  ◌++◌, map, length, take, leb, ◌==◌, if◌then◌else◌,
}
use kanta.Base.ParseInt.{is_digit}

abbrev pub Text : Type 0
Text = List ℕ

abbrev pub escape_code : ℕ
escape_code = 27

-- [A-Za-z]
unfoldable pub is_letter : ℕ → Bool
is_letter c = leb b'A' c && leb c b'Z' || leb b'a' c && leb c b'z'

-- [0-9;:]
unfoldable pub is_parameter : ℕ → Bool
unfolding is_digit
is_parameter c = is_digit c || c == b';' || c == b':'

abbrev pub longer : ℕ → Option ℕ → Option ℕ
longer n none = none
longer n (some k) = some (n + k)

-- how much of a text `[0-9;:]*[A-Za-z]` matches at its start
unfoldable pub parameters_length : Text → Option ℕ
unfolding is_parameter is_letter
parameters_length [] = none
parameters_length (c ∷ s) =
    let rest = longer 1 (parameters_length s) in
    if is_parameter c then rest else if is_letter c then some 1 else none

-- how much of a text `ANSI_RE` matches behind its first character, which is given alone
unfoldable pub escape_length : ℕ → Text → Option ℕ
unfolding parameters_length
escape_length c [] = none
escape_length c (d ∷ s) =
    if c == escape_code && d == b'[' then longer 1 (parameters_length s) else none

-- A text as `ANSI_RE.finditer` divides it: what stands before a match, the match, and what follows;
-- the last run has no match behind it.
pub data Pieces : Type 0 where
  last_run : Text → Pieces
  run_then : Text → Text → Pieces → Pieces

abbrev pub add : ℕ → Pieces → Pieces
add c (last_run run) = last_run (c ∷ run)
add c (run_then run match rest) = run_then (c ∷ run) match rest

-- the pieces of a text, of which so many characters belong to a match that has begun
unfoldable pub pieces_from : ℕ → Text → Pieces
unfolding escape_length
pieces_from skip [] = last_run []
pieces_from (suc skip) (c ∷ s) = pieces_from skip s
pieces_from zero (c ∷ s) = elim (escape_length c s) [
  | none ↦ add c (pieces_from zero s)
  | some n ↦ run_then [] (c ∷ take n s) (pieces_from n s)
]

abbrev pub pieces : Text → Pieces
pieces = pieces_from zero

-- the text without the matches
abbrev pub visible : Pieces → Text
visible (last_run run) = run
visible (run_then run match rest) = run ++ visible rest

-- `strip_ansi`
unfoldable pub strip_ansi : Text → Text
unfolding pieces_from
strip_ansi text = visible (pieces text)

-- `align` of `pad`
pub data Align : Type 0 where
  align_left align_right align_center : Align

abbrev pub spaces : ℕ → Text
spaces zero = []
spaces (suc n) = b' ' ∷ spaces n

-- The classes of characters are those of `unicodedata`.
module _ (is_wide is_zero_width : ℕ → Bool) where
  abbrev pub columns : Text → ℕ
  columns [] = 0
  columns (c ∷ s) = (if is_wide c then 2 else if is_zero_width c then 0 else 1) + columns s

  -- `displaywidth`
  unfoldable pub displaywidth : Text → ℕ
  unfolding strip_ansi
  displaywidth text = columns (strip_ansi text)

  -- `pad` where so many columns are missing
  abbrev pub pad_missing : ℕ → Text → Align → Text
  pad_missing zero text align = text
  pad_missing (suc n) text align_right = spaces (suc n) ++ text
  pad_missing (suc n) text align_center =
      let left = suc n / 2 in spaces left ++ text ++ spaces (suc n - left)
  pad_missing (suc n) text align_left = text ++ spaces (suc n)

  -- `pad`; `-` stops at 0, where nothing is missing
  unfoldable pub pad : Text → ℕ → Align → Text
  unfolding displaywidth
  pad text width align = pad_missing (width - displaywidth text) text align
