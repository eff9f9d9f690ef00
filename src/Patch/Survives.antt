-- ===== src/Patch/Survives.antt =====
-- Which changes of a state a written diff carries over unharmed.
use kanta.Base.{String, ◌≡◌, ◌≢◌, Bool, false, Option, none, some, ◌||◌, str_eq}
use kanta.Value.{Value, Items, Fields, text, arr, obj, nil, cons, end, field, lookup}
use kanta.Diff.{starts_two_dollars}
use kanta.Patch.{is_list_patch}

-- the three keys that `_apply` reads as commands
unfoldable pub is_command : String → Bool
is_command key = str_eq key "$delete" || (str_eq key "$insert" || str_eq key "$replace")

-- No text and no key inside the value begins with `$$`, so that `unmarshal` leaves it alone.
abbrev mutual
  pub IsPlain : Value → Type 0
  IsPlain (text s) = starts_two_dollars s ≡ false
  IsPlain (arr xs) = AllPlain xs
  IsPlain (obj fs) = PlainFields fs
  IsPlain _ = Unit

  pub AllPlain : Items → Type 0
  AllPlain nil = Unit
  AllPlain (cons x xs) = IsPlain x × AllPlain xs

  pub PlainFields : Fields → Type 0
  PlainFields end = Unit
  PlainFields (field k v fs) = (starts_two_dollars k ≡ false) × IsPlain v × PlainFields fs

abbrev pub NoCommands : Fields → Type 0
NoCommands end = Unit
NoCommands (field k v fs) = (is_command k ≡ false) × NoCommands fs

abbrev pub IsNotListPatch : Value → Fields → Type 0
IsNotListPatch (arr xs) fs = is_list_patch fs ≡ false
IsNotListPatch _ fs = Unit

-- A value that replaces another one, or none, is plain; a dict that replaces a value of another
-- type is not empty, has no command among its own keys, and is no edit of a list it replaces; and
-- a dict that is patched has no command among its keys. Its keys may begin with `$`.
abbrev mutual
  pub Survives : Value → Value → Type 0
  Survives (obj previous) (obj current) = EntriesSurvive previous current
  Survives previous (obj current) =
      (current ≢ end) × PlainFields current × NoCommands current × IsNotListPatch previous current
  Survives previous current = IsPlain current

  pub EntriesSurvive : Fields → Fields → Type 0
  EntriesSurvive previous end = Unit
  EntriesSurvive previous (field k v current) =
      (is_command k ≡ false)
      × (elim (lookup k previous) as (λ _. Type 0) [ none ↦ IsPlain v | some old ↦ Survives old v ])
      × EntriesSurvive previous current

-- the condition on one entry of `current`
abbrev pub CarriesOver : Option Value → Value → Type 0
CarriesOver o v = elim o as (λ _. Type 0) [ none ↦ IsPlain v | some old ↦ Survives old v ]
