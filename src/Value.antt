-- ===== src/Value.antt =====
-- The builtins that a decoded JSON record holds (`dict[str, Any]` in structs.py), and what Python
-- does with them.
pub mod Dict
pub mod Equal
use kanta.Base.{
  ℕ, String, ◌≡◌, Bool, true, false, Option, none, some, ◌&&◌, ◌||◌, str_eq, if◌then◌else◌, ◌==◌,
}
use kanta.Base.Int.{ℤ, int_eq}

pub data NumberType : Type 0 where
  bool int float : NumberType

-- The exact value numerator / 2 ^ halvings, in lowest terms; every finite float has one.
pub record Number : Type 0 where
  pub numerator : ℤ
  pub halvings : ℕ

-- `True` is `num bool` at 1. Python's `==` looks at the value of a number and not at its type.
mutual
  pub data Value : Type 0 where
    null : Value
    num : NumberType → Number → Value
    text : String → Value
    arr : Items → Value
    obj : Fields → Value

  -- a dict, in insertion order
  pub data Fields : Type 0 where
    end : Fields
    field : String → Value → Fields → Fields

  pub data Items : Type 0 where
    nil : Items
    cons : Value → Items → Items
    -- a dict, in insertion order

unfoldable pub number_eq : Number → Number → Bool
number_eq a b = int_eq a.numerator b.numerator && (a.halvings == b.halvings)

-- d.get(k)
unfoldable pub lookup : String → Fields → Option Value
lookup k end = none
lookup k (field j v fs) = if str_eq j k then some v else lookup k fs

-- k in d
unfoldable pub has_key : String → Fields → Bool
has_key k end = false
has_key k (field j v fs) = str_eq j k || has_key k fs

-- d[k] = v: in place where the key is there, and at the end where it is not
unfoldable pub insert : String → Value → Fields → Fields
insert k v end = field k v end
insert k v (field j w fs) = if str_eq j k then field j v fs else field j w (insert k v fs)

-- d.pop(k, None)
unfoldable pub remove : String → Fields → Fields
remove k end = end
remove k (field j v fs) = let rest = remove k fs in if str_eq j k then rest else field j v rest

-- every key of the first dict is in the second
unfoldable pub keys_within : Fields → Fields → Bool
keys_within end gs = true
keys_within (field k v fs) gs = has_key k gs && keys_within fs gs

-- `==`: dicts are equal when they have the same keys with equal values, in any order.
unfoldable mutual
  unfolding number_eq lookup keys_within has_key

  pub py_eq : Value → Value → Bool
  py_eq null null = true
  py_eq (num s a) (num t b) = number_eq a b
  py_eq (text s) (text t) = str_eq s t
  py_eq (arr xs) (arr ys) = items_eq xs ys
  py_eq (obj fs) (obj gs) = covers fs gs && keys_within gs fs
  py_eq _ _ = false

  pub items_eq : Items → Items → Bool
  items_eq nil nil = true
  items_eq (cons x xs) (cons y ys) = py_eq x y && items_eq xs ys
  items_eq _ _ = false

  -- each entry of the first dict has an equal one in the second
  pub covers : Fields → Fields → Bool
  covers end gs = true
  covers (field k v fs) gs =
      elim (lookup k gs) [ none ↦ false | some w ↦ py_eq v w ] && covers fs gs

-- The keys of a dict are distinct, at every depth: what Python's `dict` guarantees.
abbrev mutual
  pub IsDict : Value → Type 0
  IsDict (arr xs) = AllDicts xs
  IsDict (obj fs) = UniqueKeys fs
  IsDict _ = Unit

  pub AllDicts : Items → Type 0
  AllDicts nil = Unit
  AllDicts (cons x xs) = IsDict x × AllDicts xs

  pub UniqueKeys : Fields → Type 0
  UniqueKeys end = Unit
  UniqueKeys (field k v fs) = (has_key k fs ≡ false) × IsDict v × UniqueKeys fs
