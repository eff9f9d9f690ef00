-- ===== src/Base/ParseInt.antt =====
-- Python's `int(text)` and the tests on characters that the program uses, for ASCII texts.
use Prim.Native.Char.{code}
use Prim.Native.String.{String}
use Prim.Native.Nat.{ℕ, zero, suc, ◌+◌, ◌-◌, ◌*◌}
use mathlib.Core.Bool.{Bool, true, false, ◌&&◌, ◌||◌}
use mathlib.Core.Option.{Option, none, some}
use mathlib.Core.List.{List, [], ◌∷◌, reverse}
use kanta.Base.Tests.{leb, ◌==◌, if◌then◌else◌, ◌>>=◌}
use kanta.Base.Int.{ℤ, pos, negsuc}

-- the code points of a text
abbrev pub codes : String → List ℕ
codes String.[] = []
codes (String.◌∷◌ c s) = code c ∷ codes s

-- what `str.strip` and `bytes.strip` remove; `str` also takes 28 to 31
unfoldable pub is_space : ℕ → Bool
is_space c = leb 9 c && leb c 13 || c == 32

unfoldable pub drop_spaces : (ℕ → Bool) → List ℕ → List ℕ
drop_spaces space [] = []
drop_spaces space (c ∷ s) = if space c then drop_spaces space s else c ∷ s

-- .strip()
unfoldable pub strip : (ℕ → Bool) → List ℕ → List ℕ
unfolding drop_spaces
strip space s = reverse (drop_spaces space (reverse (drop_spaces space s)))

is_text_space : ℕ → Bool
unfolding is_space
is_text_space c = is_space c || leb 28 c && leb c 31

unfoldable pub is_digit : ℕ → Bool
is_digit c = leb b'0' c && leb c b'9'

-- one character: the number so far, and whether the last character was a digit
digit_step : ℕ → Bool → ℕ → Option (ℕ × Bool)
unfolding is_digit
digit_step n last c =
    if is_digit c
    then some (n * 10 + (c - b'0'), true)
    else if c == b'_' && last
    then some (n, false)
    else none

digits_from : ℕ → Bool → List ℕ → Option ℕ
digits_from n last [] = if last then some n else none
digits_from n last (c ∷ s) = elim (digit_step n last c) [
  | none ↦ none
  | some (n', last') ↦ digits_from n' last' s
]

unfoldable pub opposite : ℕ → ℤ
opposite zero = pos 0
opposite (suc n) = negsuc n

signed : List ℕ → Option ℤ
unfolding digits_from digit_step opposite
signed [] = none
signed (c ∷ s) =
    if c == b'-'
    then (do n ← digits_from 0 false s; some (opposite n))
    else if c == b'+'
    then (do n ← digits_from 0 false s; some (pos n))
    else (do n ← digits_from 0 false (c ∷ s); some (pos n))

-- int(text), for its code points; `none` is a ValueError
unfoldable pub parse_codes : List ℕ → Option ℤ
unfolding signed strip is_text_space
parse_codes s = signed (strip is_text_space s)

unfoldable pub parse_int : String → Option ℤ
unfolding parse_codes
parse_int s = parse_codes (codes s)
