-- ===== src/Patch.antt =====
-- serialization/base.py: `_unescape`, `unmarshal`, `_is_list_patch`, `_apply` and `apply_diff`.
-- `none` is a raised TypeError, ValueError or IndexError.
pub mod Escape
pub mod Survives
pub mod Unmarshal
pub mod Entries
pub mod Step
pub mod Wholesale
pub mod RoundTrip
mod Tests
use kanta.Base.{
  ℕ, zero, suc, ◌+◌, ◌-◌, min, String, Bool, true, false, Option, none, some, ◌||◌, not, ltb, leb,
  if◌then◌else◌, ◌==◌, str_eq, ◌>>=◌, ◌>>◌,
}
use kanta.Base.Int.{ℤ, pos, negsuc}
use kanta.Base.ParseInt.{parse_int}
use kanta.Value.{
  Value, Items, Fields, NumberType, bool, int, float, null, num, text, arr, obj, nil, cons, end,
  field, lookup, has_key, insert, remove,
}
use kanta.Diff.{starts_two_dollars}

tail_of : String → String
tail_of String.[] = String.[]
tail_of (String.◌∷◌ c s) = s

unfoldable pub unescape : String → String
unfolding starts_two_dollars tail_of
unescape value = if starts_two_dollars value then tail_of value else value

-- The dict comprehension assigns in order: of two keys that unescape to one, the later stays.
unfoldable mutual
  unfolding unescape insert

  pub unmarshal : Value → Value
  unmarshal (obj fs) = obj (unmarshal_fields fs end)
  unmarshal (arr xs) = arr (unmarshal_items xs)
  unmarshal (text s) = text (unescape s)
  unmarshal v = v

  pub unmarshal_items : Items → Items
  unmarshal_items nil = nil
  unmarshal_items (cons x xs) = cons (unmarshal x) (unmarshal_items xs)

  pub unmarshal_fields : Fields → Fields → Fields
  unmarshal_fields end out = out
  unmarshal_fields (field k v fs) out = unmarshal_fields fs (insert (unescape k) (unmarshal v) out)

-- key in ("$delete", "$insert")
unfoldable pub is_list_command : String → Bool
is_list_command key = str_eq key "$delete" || str_eq key "$insert"

unfoldable pub is_list_patch : Fields → Bool
unfolding is_list_command parse_int
is_list_patch end = true
is_list_patch (field key v ds) =
    let rest = is_list_patch ds in
    if is_list_command key then rest else elim (parse_int key) [ none ↦ false | some index ↦ rest ]

items_length : Items → ℕ
items_length nil = 0
items_length (cons x xs) = suc (items_length xs)

item_at : Items → ℕ → Option Value
item_at nil i = none
item_at (cons x xs) zero = some x
item_at (cons x xs) (suc i) = item_at xs i

set_at : Items → ℕ → Value → Items
set_at nil i v = nil
set_at (cons x xs) zero v = cons v xs
set_at (cons x xs) (suc i) v = cons x (set_at xs i v)

delete_at : Items → ℕ → Items
delete_at nil i = nil
delete_at (cons x xs) zero = xs
delete_at (cons x xs) (suc i) = cons x (delete_at xs i)

insert_at : Items → ℕ → Value → Items
insert_at xs zero v = cons v xs
insert_at nil (suc i) v = cons v nil
insert_at (cons x xs) (suc i) v = cons x (insert_at xs i v)

-- a list index that is read or popped: negative ones count from the end, and others are an error
resolve : ℤ → ℕ → Option ℕ
resolve (pos n) len = if ltb n len then some n else none
resolve (negsuc n) len = if ltb n len then some (len - suc n) else none

-- the index of `list.insert` is cut off at both ends
clamp : ℤ → ℕ → ℕ
clamp (pos n) len = min n len
clamp (negsuc n) len = len - suc n

-- only an int, or a bool, is a list index
index_of : Value → Option ℤ
index_of (num bool n) = some n.numerator
index_of (num int n) = some n.numerator
index_of _ = none

-- for pos in deletes: result.pop(pos)
unfoldable pub pop_positions : Items → Items → Option Items
unfolding index_of resolve items_length delete_at
pop_positions nil result = some result
pop_positions (cons p ps) result = do
  i ← index_of p
  at ← resolve i (items_length result)
  pop_positions ps (delete_at result at)

-- `if deletes: for pos in deletes`; what is no list and not falsy cannot be popped by
unfoldable pub run_deletes : Option Value → Items → Option Items
unfolding pop_positions
run_deletes (some (arr ps)) result = pop_positions ps result
run_deletes (some (text (String.◌∷◌ c s))) result = none
run_deletes (some (obj (field k v fs))) result = none
run_deletes (some (num t n)) result = elim n.numerator [
  | pos i ↦ if i == 0 then some result else none
  | negsuc i ↦ none
]
run_deletes _ result = some result

-- for pos, value in …: result.insert(pos, value)
unfoldable pub insert_pairs : Items → Items → Option Items
unfolding index_of clamp items_length insert_at
insert_pairs nil result = some result
insert_pairs (cons (arr (cons p (cons v nil))) ps) result = do
  i ← index_of p
  insert_pairs ps (insert_at result (clamp i (items_length result)) v)
insert_pairs (cons _ ps) result = none

-- for pos, value in diff.get("$insert", [])
unfoldable pub run_inserts : Option Value → Items → Option Items
unfolding insert_pairs
run_inserts none result = some result
run_inserts (some (arr ps)) result = insert_pairs ps result
run_inserts (some (text String.[])) result = some result
run_inserts (some (obj end)) result = some result
run_inserts (some _) result = none

-- result.pop(k, None) for each k; a list or a dict is not hashable
unfoldable pub pop_keys : Items → Fields → Option Fields
unfolding remove
pop_keys nil result = some result
pop_keys (cons (text k) ks) result = pop_keys ks (remove k result)
pop_keys (cons (arr xs) ks) result = none
pop_keys (cons (obj fs) ks) result = none
pop_keys (cons _ ks) result = pop_keys ks result

-- value if isinstance(value, list) else [value]
abbrev keys_of : Value → Items
keys_of (arr ks) = ks
keys_of v = cons v nil

-- one round of the loop over a dict; the last argument patches the old value of the key
unfoldable pub field_step : String → Value → (Value → Option Value) → Fields → Option Fields
unfolding pop_keys lookup insert
field_step key value patch_old result =
    if str_eq key "$delete"
    then pop_keys (keys_of value) result
    else if str_eq key "$insert"
    then some result
    else elim (lookup key result) [
      | none ↦ some (insert key value result)
      | some old ↦ do new ← patch_old old; some (insert key new result)
    ]

-- one round of the loop over a list patch
unfoldable pub entry_step : String → (Value → Option Value) → Items → Option Items
unfolding is_list_command parse_int resolve items_length item_at set_at
entry_step key patch_old result = if is_list_command key then some result else do
  i ← parse_int key
  at ← resolve i (items_length result)
  old ← item_at result at
  new ← patch_old old
  some (set_at result at new)

abbrev pub as_obj : Option Fields → Option Value
as_obj m = m >>= λ fs. some (obj fs)

-- a non-empty diff with no `$replace`, by the type of the state
unfoldable pub patch_over :
    Value → Fields → (Items → Option Items) → (Fields → Option Fields) → Option Value
unfolding is_list_patch run_deletes run_inserts lookup
patch_over (arr xs) ds entries fields =
    if is_list_patch ds
    then (do
      popped ← run_deletes (lookup "$delete" ds) xs
      result ← run_inserts (lookup "$insert" ds) popped
      patched ← entries result
      some (arr patched))
    else some (obj ds)
patch_over (obj fs) ds entries fields = as_obj (fields fs)
patch_over _ ds entries fields = as_obj (fields end)

abbrev is_empty : Fields → Bool
is_empty end = true
is_empty (field k v fs) = false

-- `_apply(state, diff)`
unfoldable mutual
  unfolding patch_over field_step entry_step lookup

  pub apply : Value → Value → Option Value
  apply state (obj ds) = if is_empty ds then some state else elim (lookup "$replace" ds) [
    | some replacement ↦ some replacement
    | none ↦ patch_over state ds (λ xs. apply_entries xs ds) (λ fs. apply_fields fs ds)
  ]
  apply state diff = some diff

  pub apply_fields : Fields → Fields → Option Fields
  apply_fields result end = some result
  apply_fields result (field key value ds) = do
    next ← field_step key value (λ old. apply old value) result
    apply_fields next ds

  pub apply_entries : Items → Fields → Option Items
  apply_entries result end = some result
  apply_entries result (field key value ds) = do
    next ← entry_step key (λ old. apply old value) result
    apply_entries next ds

-- `apply_diff(state, diff)`, and `patch` of diff.py
unfoldable pub apply_diff : Value → Value → Option Value
apply_diff state diff = apply state (unmarshal diff)
