-- ===== src/Logging/Total.antt =====
-- A deletion that is collected names a key.
use kanta.Base.{
  Bool, true, false, not, Option, none, some, ◌>>=◌, List, [], ◌∷◌, ◌++◌, String, str_eq, ◌≡◌, inl,
  inr, if-holds, Option-cases,
}
use kanta.Value.{Value, null, num, text, arr, obj, Fields, end, field, Items, nil, cons, has_key}
use kanta.Patch.{apply}
use kanta.Callbacks.Injected.{OnSome}
use kanta.Changes.{
  Change, delete, collect_changes, collect_fields, collect_deletes, collect_replace, collect_new,
  replace_whole, unless_list, delete_items, lost_keys, new_items, keys_of_dict, is_null,
  add_or_update, get_nested, existed,
}

abbrev pub IsNonempty : {A : Type 0} → List A → Type 0
IsNonempty [] = ⊥
IsNonempty (a ∷ l) = Unit

-- a deletion names a key
abbrev pub CanBeShown : Change → Type 0
CanBeShown c = (c.change_type ≡ delete) → IsNonempty c.path

abbrev pub AllShown : List Change → Type 0
AllShown [] = Unit
AllShown (c ∷ cs) = CanBeShown c × AllShown cs

AllShown-append : (xs ys : List Change) → AllShown xs → AllShown ys → AllShown (xs ++ ys)
AllShown-append [] ys all_x all_y = all_y
AllShown-append (c ∷ xs) ys (here, all_x) all_y = (here, AllShown-append xs ys all_x all_y)

snoc-IsNonempty : {A : Type 0} (l : List A) (a : A) → IsNonempty (l ++ a ∷ [])
snoc-IsNonempty [] a = tt
snoc-IsNonempty (b ∷ l) a = tt

-- what is added or updated
set-CanBeShown : (b : Bool) → add_or_update b ≡ delete → ⊥
set-CanBeShown true h = cc
set-CanBeShown false h = cc

module _ (is_truthy : Value → Bool) (str_value : Value → String) where
  delete_items-AllShown :
      (path : List String) (items : Items) → AllShown (delete_items is_truthy str_value path items)
  delete_items-AllShown path nil = tt
  delete_items-AllShown path (cons key items) =
      (λ h. snoc-IsNonempty path (str_value key), delete_items-AllShown path items)

  collect_deletes-AllShown :
      (path : List String) (value : Value)
      → AllShown (collect_deletes is_truthy str_value path value)
  unfolding collect_deletes
  collect_deletes-AllShown path (arr keys) = delete_items-AllShown path keys
  collect_deletes-AllShown path null = (λ h. snoc-IsNonempty path (str_value null), tt)
  collect_deletes-AllShown path (num kind n) =
      (λ h. snoc-IsNonempty path (str_value (num kind n)), tt)
  collect_deletes-AllShown path (text s) = (λ h. snoc-IsNonempty path (str_value (text s)), tt)
  collect_deletes-AllShown path (obj fields) =
      (λ h. snoc-IsNonempty path (str_value (obj fields)), tt)

  lost_keys-AllShown :
      (path : List String) (new_fields old_fields : Fields)
      → AllShown (lost_keys is_truthy str_value path new_fields old_fields)
  unfolding lost_keys
  lost_keys-AllShown path new_fields end = tt
  lost_keys-AllShown path new_fields (field key old old_fields) =
      let rest = lost_keys-AllShown path new_fields old_fields in
      if-holds AllShown (has_key key new_fields) rest (λ h. snoc-IsNonempty path key, rest)

  new_items-AllShown :
      (path : List String) (old_fields new_fields : Fields)
      → AllShown (new_items is_truthy str_value path old_fields new_fields)
  unfolding new_items
  new_items-AllShown path old_fields end = tt
  new_items-AllShown path old_fields (field key value new_fields) =
      (λ h. snoc-IsNonempty path key, new_items-AllShown path old_fields new_fields)

  replace_whole-AllShown :
      (path : List String) (old value : Value) (fields : Fields)
      → AllShown (replace_whole is_truthy str_value path old value fields)
  unfolding replace_whole
  replace_whole-AllShown path old value end =
      (λ h. absurd (set-CanBeShown (not (is_null old)) h), tt)
  replace_whole-AllShown path old value (field key w fields) =
      if-holds AllShown (is_truthy value) (λ h. absurd (set-CanBeShown (not (is_null old)) h), tt)
        tt

  collect_new-AllShown :
      (path : List String) (old value : Value)
      → AllShown (collect_new is_truthy str_value path old value)
  unfolding collect_new
  collect_new-AllShown path old (obj fields) = new_items-AllShown path (keys_of_dict old) fields
  collect_new-AllShown path old null = replace_whole-AllShown path old null (keys_of_dict old)
  collect_new-AllShown path old (num kind n) =
      replace_whole-AllShown path old (num kind n) (keys_of_dict old)
  collect_new-AllShown path old (text s) =
      replace_whole-AllShown path old (text s) (keys_of_dict old)
  collect_new-AllShown path old (arr items) =
      replace_whole-AllShown path old (arr items) (keys_of_dict old)

  collect_replace-AllShown :
      (path : List String) (old value : Value)
      → AllShown (collect_replace is_truthy str_value path old value)
  unfolding collect_replace
  collect_replace-AllShown path old value =
      AllShown-append (lost_keys is_truthy str_value path (keys_of_dict value) (keys_of_dict old))
        (collect_new is_truthy str_value path old value)
        (lost_keys-AllShown path (keys_of_dict value) (keys_of_dict old))
        (collect_new-AllShown path old value)

  abbrev pub IsShown : Option (List Change) → Type 0
  IsShown = OnSome AllShown

  unless_list-IsShown :
      (old diff : Value) (path : List String) (rest : Option (List Change))
      → IsShown rest
      → IsShown (unless_list is_truthy str_value old diff path rest)
  unless_list-IsShown (arr items) diff path rest h = elim (Option-cases (apply (arr items) diff)) [
    | inl e ↦ rw e tt
    | inr (edited, e) ↦ rw e (λ h'. cc, tt)
  ]
  unless_list-IsShown null diff path rest h = h
  unless_list-IsShown (num kind n) diff path rest h = h
  unless_list-IsShown (text s) diff path rest h = h
  unless_list-IsShown (obj fields) diff path rest h = h

  both-IsShown :
      (here rest : Option (List Change))
      → IsShown here
      → IsShown rest
      → IsShown (here >>= (λ xs. rest >>= (λ ys. some (xs ++ ys))))
  both-IsShown none rest h k = tt
  both-IsShown (some xs) none h k = tt
  both-IsShown (some xs) (some ys) h k = AllShown-append xs ys h k

  module _ (previous : Option Fields) where
    mutual
      unfolding collect_changes

      pub collect_changes-AllShown :
          (diff : Value) (path : List String)
          → IsShown (collect_changes is_truthy str_value previous diff path)
      collect_changes-AllShown (obj diff) path =
          unless_list-IsShown (get_nested previous path) (obj diff) path
            (collect_fields is_truthy str_value previous diff path)
            (collect_fields-AllShown diff path)
      collect_changes-AllShown null path =
          (λ h. absurd (set-CanBeShown (existed previous path) h), tt)
      collect_changes-AllShown (num kind n) path =
          (λ h. absurd (set-CanBeShown (existed previous path) h), tt)
      collect_changes-AllShown (text s) path =
          (λ h. absurd (set-CanBeShown (existed previous path) h), tt)
      collect_changes-AllShown (arr items) path =
          (λ h. absurd (set-CanBeShown (existed previous path) h), tt)

      pub collect_fields-AllShown :
          (diff : Fields) (path : List String)
          → IsShown (collect_fields is_truthy str_value previous diff path)
      collect_fields-AllShown end path = tt
      collect_fields-AllShown (field key value diff) path =
          let new_path = path ++ key ∷ [] in
          both-IsShown _ (collect_fields is_truthy str_value previous diff path)
            (if-holds IsShown (str_eq key "$delete") (collect_deletes-AllShown path value) (
              if-holds IsShown (str_eq key "$replace")
                (collect_replace-AllShown path (get_nested previous path) value)
                (if-holds IsShown (existed previous new_path)
                  (collect_changes-AllShown value new_path) (λ h. cc, tt))))
            (collect_fields-AllShown diff path)
