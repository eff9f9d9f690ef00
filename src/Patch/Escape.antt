-- ===== src/Patch/Escape.antt =====
-- Escaped keys: `_escape_key` of diff.py against `_unescape` of serialization/base.py.
use Prim.Native.String.{String}
use kanta.Base.{◌≡◌, ◌≢◌, refl, ap, true, false, arith, Bool-cases, inl, inr}
use kanta.Diff.{escape_key, starts_dollar, starts_two_dollars}
use kanta.Patch.{unescape}

dollar_twice : (s : String) → starts_dollar s ≡ true → starts_two_dollars (String.◌∷◌ "$" s) ≡ true
unfolding starts_two_dollars
dollar_twice s h = h

not_twice : (s : String) → starts_dollar s ≡ false → starts_two_dollars s ≡ false
unfolding starts_two_dollars
not_twice String.[] h = refl
not_twice (String.◌∷◌ c s) h = ground arith

pub unescape-escape_key : (key : String) → unescape (escape_key key) ≡ key
unfolding unescape escape_key
unescape-escape_key key = elim (Bool-cases (starts_dollar key)) [
  | inl dollar ↦ rw (dollar, dollar_twice key dollar)
  | inr plain ↦ rw (plain, not_twice key plain)
]

twice-escape_key :
    (key : String) → starts_dollar key ≡ true → starts_two_dollars (escape_key key) ≡ true
unfolding escape_key
twice-escape_key key h = rw h (dollar_twice key h)

plain-escape_key : (key : String) → starts_dollar key ≡ false → escape_key key ≡ key
unfolding escape_key
plain-escape_key key h = rw h

-- An escaped key is no command: it begins with two dollars or with none.
pub escape_key-ne-command :
    (key command : String)
    → starts_dollar command ≡ true
    → starts_two_dollars command ≡ false
    → escape_key key ≢ command
escape_key-ne-command key command one two e = elim (Bool-cases (starts_dollar key)) [
  | inl dollar ↦ cc (twice-escape_key key dollar, ap starts_two_dollars e)
  | inr plain ↦ cc (plain-escape_key key plain, ap starts_dollar e)
]

pub escape_key-injective : (j k : String) → escape_key j ≡ escape_key k → j ≡ k
escape_key-injective j k e = cc (ap unescape e, unescape-escape_key j, unescape-escape_key k)
