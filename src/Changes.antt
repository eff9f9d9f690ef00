-- ===== src/Changes.antt =====
-- logging.py: a diff as a flat list of changes.
use kanta.Base.{
  Bool, true, false, not, Option, none, some, ◌>>=◌, List, [], ◌∷◌, ◌++◌, String, str_eq,
  if◌then◌else◌,
}
use kanta.Value.{Value, null, arr, obj, Fields, end, field, Items, nil, cons, lookup, has_key}
use kanta.Patch.{apply}

pub data ChangeType : Type 0 where
  add update delete : ChangeType

-- (change_type, path, new_value)
pub record Change : Type 0 where
  pub change_type : ChangeType
  pub path : List String
  pub value : Value

abbrev pub is_null : Value → Bool
is_null null = true
is_null value = false

-- `_get_nested`, whose None is the null of JSON too
unfoldable pub nested : Value → List String → Value
nested current [] = current
nested (obj fields) (key ∷ path) = elim (lookup key fields) [
  | none ↦ null
  | some value ↦ nested value path
]
nested current (key ∷ path) = null

unfoldable pub get_nested : Option Fields → List String → Value
unfolding nested
get_nested none path = null
get_nested (some fields) path = nested (obj fields) path

abbrev pub existed : Option Fields → List String → Bool
existed previous path = not (is_null (get_nested previous path))

abbrev pub add_or_update : Bool → ChangeType
add_or_update true = update
add_or_update false = add

-- a set of keys, as it is walked through
abbrev pub keys_of_dict : Value → Fields
keys_of_dict (obj fields) = fields
keys_of_dict value = end

-- bool(value)
module _ (is_truthy : Value → Bool) (str : Value → String) where
  -- `$delete`, with a list of keys or one key
  abbrev pub delete_items : List String → Items → List Change
  delete_items path nil = []
  delete_items path (cons key items) =
      record { change_type = delete; path = path ++ str key ∷ []; value = null }
      ∷ delete_items path items

  unfoldable pub collect_deletes : List String → Value → List Change
  collect_deletes path (arr keys) = delete_items path keys
  collect_deletes path key =
      record { change_type = delete; path = path ++ str key ∷ []; value = null } ∷ []

  -- old_keys - new_keys, in the order of the dict
  unfoldable pub lost_keys : List String → Fields → Fields → List Change
  lost_keys path new_fields end = []
  lost_keys path new_fields (field key old old_fields) =
      let rest = lost_keys path new_fields old_fields in
      if has_key key new_fields
      then rest
      else record { change_type = delete; path = path ++ key ∷ []; value = null } ∷ rest

  unfoldable pub new_items : List String → Fields → Fields → List Change
  new_items path old_fields end = []
  new_items path old_fields (field key value new_fields) =
      record {
        change_type = add_or_update (has_key key old_fields);
        path = path ++ key ∷ [];
        value = value;
      }
      ∷ new_items path old_fields new_fields

  -- the change of a whole value, unless it is falsy and there were keys
  unfoldable pub replace_whole : List String → Value → Value → Fields → List Change
  replace_whole path old value end =
      record { change_type = add_or_update (not (is_null old)); path = path; value = value } ∷ []
  replace_whole path old value (field key w fields) =
      if is_truthy value
      then record { change_type = add_or_update (not (is_null old)); path = path; value = value }
        ∷ []
      else []

  -- what `$replace` puts in place
  unfoldable pub collect_new : List String → Value → Value → List Change
  unfolding new_items replace_whole
  collect_new path old (obj new_fields) = new_items path (keys_of_dict old) new_fields
  collect_new path old value = replace_whole path old value (keys_of_dict old)

  -- a list is shown as one update, of the list that the diff makes of it
  abbrev pub unless_list : Value → Value → List String → Option (List Change) → Option (List Change)
  unless_list (arr items) diff path rest = do
    edited ← apply (arr items) diff
    some (record { change_type = update; path = path; value = edited } ∷ [])
  unless_list old diff path rest = rest

  -- `$replace`
  unfoldable pub collect_replace : List String → Value → Value → List Change
  unfolding lost_keys collect_new
  collect_replace path old value =
      lost_keys path (keys_of_dict value) (keys_of_dict old) ++ collect_new path old value

  module _ (previous : Option Fields) where
    unfoldable mutual
      unfolding get_nested collect_deletes collect_replace

      -- `_collect_changes`, with the changes as the result
      pub collect_changes : Value → List String → Option (List Change)
      collect_changes (obj diff) path =
          unless_list (get_nested previous path) (obj diff) path (collect_fields diff path)
      collect_changes diff path = some (
          record { change_type = add_or_update (existed previous path); path = path; value = diff }
          ∷ [])

      -- the loop over the items; a command starts with "$"
      pub collect_fields : Fields → List String → Option (List Change)
      collect_fields end path = some []
      collect_fields (field key value diff) path =
          let new_path = path ++ key ∷ [] in
          let inner = collect_changes value new_path in
          do
            here ←
                if str_eq key "$delete"
                then some (collect_deletes path value)
                else if str_eq key "$replace"
                then some (collect_replace path (get_nested previous path) value)
                else if existed previous new_path
                then inner
                else some (record { change_type = add; path = new_path; value = value } ∷ [])
            rest ← collect_fields diff path
            some (here ++ rest)
