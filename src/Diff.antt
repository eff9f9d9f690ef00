-- ===== src/Diff.antt =====
-- diff.py: `_escape_key`, `_diff` and `diff`. Dict keys are texts, as they are in a JSON record.
pub mod Unchanged
use Prim.Native.Char.{code}
use kanta.Base.{String, Bool, false, Option, none, some, if◌then◌else◌, ◌==◌, ◌&&◌}
use kanta.Value.{
  Value, Items, Fields, text, arr, obj, nil, cons, end, field, lookup, has_key, py_eq,
}

-- s.startswith("$") and s.startswith("$$")
unfoldable pub starts_dollar : String → Bool
starts_dollar String.[] = false
starts_dollar (String.◌∷◌ c s) = code c == b'$'

unfoldable pub starts_two_dollars : String → Bool
unfolding starts_dollar
starts_two_dollars String.[] = false
starts_two_dollars (String.◌∷◌ c s) = code c == b'$' && starts_dollar s

unfoldable pub escape_key : String → String
unfolding starts_dollar
escape_key key = if starts_dollar key then String.◌∷◌ "$" key else key

-- [_escape_key(k) for k in previous if k not in current]
unfoldable pub deleted : Fields → Fields → Items
unfolding escape_key has_key
deleted end current = nil
deleted (field k v previous) current =
    let rest = deleted previous current in
    if has_key k current then rest else cons (text (escape_key k)) rest

-- the dict `result`; an empty one is `_UNCHANGED`, here `none`
unfoldable pub changes : Items → Fields → Option Fields
changes nil end = none
changes nil (field k v entries) = some (field k v entries)
changes (cons k ks) entries = some (field "$delete" (arr (cons k ks)) entries)

abbrev pub as_value : Option Fields → Option Value
as_value none = none
as_value (some fs) = some (obj fs)

-- `none` is `_UNCHANGED`. The keys of `current` are distinct, and escaping keeps them so and apart
-- from `$delete` (Patch.Escape), so that each assignment to `result` adds an entry at its end.
unfoldable mutual
  unfolding escape_key deleted changes lookup

  pub diff_value : Value → Value → Option Value
  diff_value (obj previous) (obj current) =
      as_value (changes (deleted previous current) (diff_entries previous current))
  diff_value previous current = if py_eq previous current then none else some current

  pub diff_entries : Fields → Fields → Fields
  diff_entries previous end = end
  diff_entries previous (field key new_value current) =
      let rest = diff_entries previous current in
      elim (lookup key previous) [
        | none ↦ field (escape_key key) new_value rest
        | some old ↦ elim (diff_value old new_value) [
          | none ↦ rest
          | some sub ↦ field (escape_key key) sub rest
        ]
      ]

-- `diff(previous, current)`
unfoldable pub diff : Fields → Fields → Option Fields
unfolding deleted changes diff_value
diff previous current = changes (deleted previous current) (diff_entries previous current)
