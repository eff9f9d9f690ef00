-- ===== src/Value/Dict.antt =====
-- The laws of the dict operations.
use kanta.Base.{
  String, ◌≡◌, refl, true, false, none, some, arith, str_eq, eq_iff, eq_refl, if◌then◌else◌,
  Bool-cases, Option-cases, inl, inr,
}
use mathlib.Core.Path.{subst}
use kanta.Value.{
  Value, Fields, end, field, lookup, has_key, insert, remove, keys_within, IsDict, UniqueKeys,
}

pub lookup-insert :
    (k j : String) (v : Value) (fs : Fields)
    → lookup j (insert k v fs) ≡ (if str_eq k j then some v else lookup j fs)
unfolding lookup insert
lookup-insert k j v end = refl
lookup-insert k j v (field i w fs) =
    ground (arith, eq_iff k j, eq_iff i k, eq_iff i j, lookup-insert k j v fs)

pub lookup-remove :
    (k j : String) (fs : Fields)
    → lookup j (remove k fs) ≡ (if str_eq k j then none else lookup j fs)
unfolding lookup remove
lookup-remove k j end = ground arith
lookup-remove k j (field i w fs) =
    ground (arith, eq_iff k j, eq_iff i k, eq_iff i j, lookup-remove k j fs)

-- a key is there exactly when it has a value
pub has_key-lookup :
    (k : String) (fs : Fields) → has_key k fs ≡ elim (lookup k fs) [ none ↦ false | some v ↦ true ]
unfolding lookup has_key
has_key-lookup k end = refl
has_key-lookup k (field j v fs) = ground (arith, has_key-lookup k fs)

pub has_key-insert :
    (k j : String) (v : Value) (fs : Fields)
    → has_key j (insert k v fs) ≡ (if str_eq k j then true else has_key j fs)
unfolding has_key insert
has_key-insert k j v end = ground arith
has_key-insert k j v (field i w fs) =
    ground (arith, eq_iff k j, eq_iff i k, eq_iff i j, has_key-insert k j v fs)

pub has_key-remove :
    (k j : String) (fs : Fields)
    → has_key j (remove k fs) ≡ (if str_eq k j then false else has_key j fs)
unfolding has_key remove
has_key-remove k j end = ground arith
has_key-remove k j (field i w fs) =
    ground (arith, eq_iff k j, eq_iff i k, eq_iff i j, has_key-remove k j fs)

pub insert-UniqueKeys :
    (k : String) (v : Value) (fs : Fields) → IsDict v → UniqueKeys fs → UniqueKeys (insert k v fs)
unfolding insert has_key
insert-UniqueKeys k v end h u = (refl, h, tt)
insert-UniqueKeys k v (field j w fs) h u =
    ground (arith, insert-UniqueKeys k v fs h, has_key-insert k j v fs, eq_iff j k, eq_iff k j)

pub remove-UniqueKeys : (k : String) (fs : Fields) → UniqueKeys fs → UniqueKeys (remove k fs)
unfolding remove has_key
remove-UniqueKeys k end u = tt
remove-UniqueKeys k (field j w fs) u = ground (arith, remove-UniqueKeys k fs, has_key-remove k j fs)

-- the value of a key of a dict of dicts
pub lookup-IsDict :
    (k : String) (fs : Fields) {v : Value} → UniqueKeys fs → lookup k fs ≡ some v → IsDict v
unfolding lookup
lookup-IsDict k end u h = cc
lookup-IsDict k (field j w fs) {v} u h = elim (Bool-cases (str_eq j k)) [
  | inl same ↦ let e : w ≡ v = ground arith in subst IsDict e u.1
  | inr other ↦ lookup-IsDict k fs u.2 (ground arith)
]

-- the keys of the first are among those of the second, key by key
pub keys_within_of :
    (fs gs : Fields)
    → ((k : String) → has_key k fs ≡ true → has_key k gs ≡ true)
    → keys_within fs gs ≡ true
unfolding keys_within has_key
keys_within_of end gs h = refl
keys_within_of (field k v fs) gs h =
    ground (arith, h k, eq_refl k, keys_within_of fs gs (λ j p. h j (ground arith)))

pub has_key_of_keys_within :
    (k : String) (fs gs : Fields)
    → keys_within fs gs ≡ true
    → has_key k fs ≡ true
    → has_key k gs ≡ true
unfolding keys_within has_key
has_key_of_keys_within k end gs h p = cc
has_key_of_keys_within k (field j v fs) gs h p =
    ground (arith, eq_iff j k, has_key_of_keys_within k fs gs)

pub lookup_of_has_key :
    (k : String) (fs : Fields) → has_key k fs ≡ true → (v : Value) × (lookup k fs ≡ some v)
lookup_of_has_key k fs h = elim (Option-cases (lookup k fs)) [
  | inl missing ↦ absurd (ground (arith, has_key-lookup k fs))
  | inr found ↦ found
]

pub has_key_of_lookup :
    (k : String) (fs : Fields) {v : Value} → lookup k fs ≡ some v → has_key k fs ≡ true
has_key_of_lookup k fs h = ground (arith, has_key-lookup k fs)

pub lookup_of_no_key : (k : String) (fs : Fields) → has_key k fs ≡ false → lookup k fs ≡ none
lookup_of_no_key k fs h = elim (Option-cases (lookup k fs)) [
  | inl missing ↦ missing
  | inr (v, found) ↦ absurd (ground (arith, has_key_of_lookup k fs found))
]
