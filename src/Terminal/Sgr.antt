-- ===== src/Terminal/Sgr.antt =====
-- tty.py: the parameters of SGR sequences. A group of parameters is a list of tokens, which ";"
-- joins in a text.
pub mod Settings
pub mod Look
pub mod Unique
pub mod Readable
use kanta.Base.{
  ℕ, zero, suc, ◌+◌, ◌-◌, ◌*◌, Bool, true, false, not, ◌&&◌, ◌||◌, Option, none, some, List, [],
  ◌∷◌, ◌++◌, take, leb, ◌==◌, if◌then◌else◌,
}
use kanta.Base.Bytes.{bytes_eq}
use kanta.Base.ParseInt.{codes, is_digit}
use kanta.Terminal.{Text}

-- the keys of the state: "fg", "bg", a token of `_ATTR_CLASSES`, and f"other:{token}"
pub data Class : Type 0 where
  foreground background : Class
  attribute other : Text → Class

unfoldable pub class_eq : Class → Class → Bool
unfolding bytes_eq
class_eq foreground foreground = true
class_eq background background = true
class_eq (attribute t) (attribute u) = bytes_eq t u
class_eq (other t) (other u) = bytes_eq t u
class_eq _ _ = false

abbrev pub Group : Type 0
Group = List Text

-- the state, a dict in insertion order
abbrev pub Sgr : Type 0
Sgr = List (Class × Group)

-- d.get(cls)
unfoldable pub get : Class → Sgr → Option Group
unfolding class_eq
get cls [] = none
get cls ((key, group) ∷ state) = if class_eq key cls then some group else get cls state

-- d[cls] = group
unfoldable pub put : Class → Group → Sgr → Sgr
unfolding class_eq
put cls group [] = (cls, group) ∷ []
put cls group ((key, old) ∷ state) =
    if class_eq key cls then (key, group) ∷ state else (key, old) ∷ put cls group state

unfoldable pub group_eq : Group → Group → Bool
unfolding bytes_eq
group_eq [] [] = true
group_eq (t ∷ ts) (u ∷ us) = bytes_eq t u && group_eq ts us
group_eq _ _ = false

-- int(token), of digits
abbrev pub number_from : ℕ → Text → Option ℕ
number_from n [] = some n
number_from n (c ∷ token) =
    let rest = number_from (n * 10 + (c - b'0')) token in if is_digit c then rest else none

-- token.isdigit(), with the number
abbrev pub number_of : Text → Option ℕ
number_of [] = none
number_of (c ∷ token) = number_from 0 (c ∷ token)

abbrev pub between : ℕ → ℕ → ℕ → Bool
between low high n = leb low n && leb n high

abbrev pub is_one_of : Text → List Text → Bool
is_one_of token [] = false
is_one_of token (t ∷ ts) = bytes_eq token t || is_one_of token ts

-- `_ATTR_CLASSES`
abbrev pub attribute_tokens : List Text
attribute_tokens = codes "1" ∷ codes "2" ∷ codes "3" ∷ codes "4" ∷ codes "7" ∷ codes "9" ∷ []

abbrev pub named_class : Text → Class
named_class token = if is_one_of token attribute_tokens then attribute token else other token

-- the class of a token that stands alone
unfoldable pub class_of : Text → Class
unfolding is_digit bytes_eq
class_of token = elim (number_of token) [
  | none ↦ named_class token
  | some n ↦
      if between 30 37 n || between 90 97 n
      then foreground
      else if between 40 47 n || between 100 107 n
      then background
      else named_class token
]

-- the class that 38 or 48 begins a color of
unfoldable pub color_class : Text → Option Class
unfolding bytes_eq
color_class token =
    if bytes_eq token (codes "38")
    then some foreground
    else if bytes_eq token (codes "48")
    then some background
    else none

-- how many tokens behind 38 or 48 are taken with it
abbrev pub color_length : List Text → ℕ
color_length [] = 0
color_length (kind ∷ rest) =
    if bytes_eq kind (codes "5") then 2 else if bytes_eq kind (codes "2") then 3 else 0

-- the body of the loop of `_parse_sgr`: the state, and how many tokens behind this one are passed
unfoldable pub parse_token : Sgr → Text → List Text → Sgr × ℕ
unfolding color_class class_of put
parse_token state token rest =
    if bytes_eq token (codes "0") then ([], 0) else elim (color_class token) [
      | some cls ↦ (put cls (token ∷ take (color_length rest) rest) state, color_length rest)
      | none ↦ (put (class_of token) (token ∷ []) state, 0)
    ]

unfoldable pub parse_from : ℕ → Sgr → List Text → Sgr
unfolding parse_token
parse_from skip state [] = state
parse_from (suc skip) state (token ∷ rest) = parse_from skip state rest
parse_from zero state (token ∷ rest) =
    let next = parse_token state token rest in parse_from next.1 next.0 rest

-- `_parse_sgr`, of a spec that is split at ";"
unfoldable pub parse_sgr : List Text → Sgr
unfolding parse_from
parse_sgr tokens = parse_from zero [] tokens

-- what a call appends: text, or a sequence with its tokens
pub data Output : Type 0 where
  part : Text → Output
  sequence : List Text → Output

abbrev pub join_tokens : List Text → Text
join_tokens [] = []
join_tokens (token ∷ []) = token
join_tokens (token ∷ tokens) = token ++ b';' ∷ join_tokens tokens

-- f"{ESC}…m"
abbrev pub output_text : Output → Text
output_text (part t) = t
output_text (sequence tokens) =
    kanta.Terminal.escape_code ∷ b'[' ∷ (join_tokens tokens ++ b'm' ∷ [])

-- the tokens of new.values()
abbrev pub values : Sgr → List Text
values [] = []
values ((key, group) ∷ state) = group ++ values state

abbrev pub is_same : Option Group → Group → Bool
is_same none group = false
is_same (some other_group) group = group_eq other_group group

-- every item of the first dict is in the second
unfoldable pub within : Sgr → Sgr → Bool
unfolding get group_eq
within [] state = true
within ((key, group) ∷ items) state = is_same (get key state) group && within items state

-- current == new
abbrev pub sgr_eq : Sgr → Sgr → Bool
sgr_eq current new = within current new && within new current

-- current.keys() - new.keys()
unfoldable pub loses_key : Sgr → Sgr → Bool
unfolding get
loses_key [] new = false
loses_key ((key, group) ∷ current) new = elim (get key new) [
  | none ↦ true
  | some kept ↦ loses_key current new
]

-- the groups that `current` does not have
unfoldable pub changed : Sgr → Sgr → List Text
unfolding get group_eq
changed current [] = []
changed current ((key, group) ∷ new) =
    let rest = changed current new in
    if is_same (get key current) group then rest else group ++ rest

abbrev pub if_any : List Text → List Output
if_any [] = []
if_any (token ∷ tokens) = sequence (token ∷ tokens) ∷ []

abbrev pub is_empty : Sgr → Bool
is_empty [] = true
is_empty (item ∷ state) = false

-- `_sgr_transition`; no output is ""
unfoldable pub sgr_transition : Sgr → Sgr → List Output
unfolding within loses_key changed
sgr_transition current new =
    if sgr_eq current new
    then []
    else if is_empty new
    then sequence (codes "0" ∷ []) ∷ []
    else if is_empty current
    then sequence (values new) ∷ []
    else if loses_key current new
    then sequence (codes "0" ∷ values new) ∷ []
    else if_any (changed current new)
