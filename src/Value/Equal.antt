-- ===== src/Value/Equal.antt =====
-- `==` on values is an equivalence.
use kanta.Base.{
  String, ◌≡◌, refl, true, some, arith, str_eq, eq_iff, eq_refl, Bool-cases, Option-cases, inl, inr,
  &&-intro, &&-left, &&-right,
}
use kanta.Base.Int.{int_eq_iff}
use kanta.Value.{
  Value, Items, Fields, Number, null, num, text, arr, obj, nil, cons, end, field, number_eq, lookup,
  has_key, keys_within, py_eq, items_eq, covers, IsDict, AllDicts, UniqueKeys,
}
use kanta.Value.Dict.{
  keys_within_of, has_key_of_keys_within, lookup_of_has_key, has_key_of_lookup, lookup-IsDict,
}

number_eq_refl : (a : Number) → number_eq a a ≡ true
unfolding number_eq
number_eq_refl a = ground (arith, int_eq_iff a.numerator a.numerator)

number_eq-sym : (a b : Number) → number_eq a b ≡ true → number_eq b a ≡ true
unfolding number_eq
number_eq-sym a b h =
    ground (arith, int_eq_iff a.numerator b.numerator, int_eq_iff b.numerator a.numerator)

number_eq_trans :
    (a b c : Number) → number_eq a b ≡ true → number_eq b c ≡ true → number_eq a c ≡ true
unfolding number_eq
number_eq_trans a b c h k = ground (
  arith,
  int_eq_iff a.numerator b.numerator,
  int_eq_iff b.numerator c.numerator,
  int_eq_iff a.numerator c.numerator,
)

mutual
  unfolding py_eq

  eq_self : (v : Value) → IsDict v → py_eq v v ≡ true
  eq_self null h = refl
  eq_self (num s a) h = number_eq_refl a
  eq_self (text s) h = eq_refl s
  eq_self (arr xs) h = items_self xs h
  eq_self (obj fs) h =
      ground (arith, covers_self fs fs h (λ k p. refl), keys_within_of fs fs (λ k p. p))

  items_self : (xs : Items) → AllDicts xs → items_eq xs xs ≡ true
  items_self nil h = refl
  items_self (cons x xs) h = ground (arith, eq_self x h.0, items_self xs h.1)

  covers_self :
      (fs gs : Fields)
      → UniqueKeys fs
      → ((k : String) → has_key k fs ≡ true → lookup k gs ≡ lookup k fs)
      → covers fs gs ≡ true
  covers_self end gs u h = refl
  covers_self (field k v fs) gs u h = ground (
    arith,
    h k (ground (arith, eq_refl k)),
    eq_refl k,
    eq_self v u.1,
    covers_self fs gs u.2 (λ j p. ground (arith, h j, eq_iff k j)),
  )

covers-head :
    (k : String) (v : Value) (fs gs : Fields)
    → covers (field k v fs) gs ≡ true
    → (w : Value) × (lookup k gs ≡ some w) × (py_eq v w ≡ true)
unfolding py_eq
covers-head k v fs gs c = elim (Option-cases (lookup k gs)) [
  | inl none_there ↦ absurd (ground arith)
  | inr (w, there) ↦ (w, there, ground arith)
]

covers-tail :
    (k : String) (v : Value) (fs gs : Fields)
    → covers (field k v fs) gs ≡ true
    → covers fs gs ≡ true
unfolding py_eq
covers-tail k v fs gs c = ground arith

-- the entry that covers a given one
pub covers-lookup :
    (k : String) (fs gs : Fields) {v : Value}
    → covers fs gs ≡ true
    → lookup k fs ≡ some v
    → (w : Value) × (lookup k gs ≡ some w) × (py_eq v w ≡ true)
covers-lookup k end gs c h = unfold lookup in cc
covers-lookup k (field j x fs) gs {v} c h = elim (Bool-cases (str_eq j k)) [
  | inl same ↦
      let (w, there, eq) = covers-head j x fs gs c in
      let name : j ≡ k = (eq_iff j k).0 same in
      let value : x ≡ v = unfold lookup in ground arith in (w, rw (← name) there, rw (← value) eq)
  | inr other ↦ covers-lookup k fs gs (covers-tail j x fs gs c) (unfold lookup in ground arith)
]

pub covers_of :
    (fs gs : Fields)
    → UniqueKeys fs
    → ((k : String) (v : Value)
        → lookup k fs ≡ some v
        → (w : Value) × (lookup k gs ≡ some w) × (py_eq v w ≡ true))
    → covers fs gs ≡ true
unfolding py_eq lookup
covers_of end gs u h = refl
covers_of (field j x fs) gs u h =
    let (w, there, eq) = h j x (rw eq_refl) in
    let later = λ (k : String) (v : Value) (p : lookup k fs ≡ some v).
      let named : has_key k fs ≡ true = has_key_of_lookup k fs p in
      h k v (ground (arith, eq_iff j k)) in
    rw there (&&-intro _ _ eq (covers_of fs gs u.2 later))

mutual
  unfolding py_eq

  eq_trans : (a b c : Value) → py_eq a b ≡ true → py_eq b c ≡ true → py_eq a c ≡ true
  eq_trans null null c h k = k
  eq_trans (num s a) (num t b) (num r c) h k = number_eq_trans a b c h k
  eq_trans (text s) (text t) (text r) h k = ground (arith, eq_iff s t, eq_iff t r, eq_iff s r)
  eq_trans (arr xs) (arr ys) (arr zs) h k = items_trans xs ys zs h k
  eq_trans (obj fs) (obj gs) (obj hs) h k =
      &&-intro _ _ (covers_trans fs gs hs (&&-left _ _ h) (&&-left _ _ k)) (
        keys_within_of hs fs (λ j p.
          has_key_of_keys_within j gs fs (&&-right _ _ h)
            (has_key_of_keys_within j hs gs (&&-right _ _ k) p)))
  eq_trans _ _ _ h k = cc

  items_trans :
      (xs ys zs : Items) → items_eq xs ys ≡ true → items_eq ys zs ≡ true → items_eq xs zs ≡ true
  items_trans nil nil zs h k = k
  items_trans (cons x xs) (cons y ys) (cons z zs) h k =
      &&-intro _ _ (eq_trans x y z (&&-left _ _ h) (&&-left _ _ k))
        (items_trans xs ys zs (&&-right _ _ h) (&&-right _ _ k))
  items_trans _ _ _ h k = cc

  covers_trans :
      (fs gs hs : Fields) → covers fs gs ≡ true → covers gs hs ≡ true → covers fs hs ≡ true
  covers_trans end gs hs h k = refl
  covers_trans (field j v fs) gs hs h k =
      let (w, there, vw) = covers-head j v fs gs h in
      let (x, found, wx) = covers-lookup j gs hs k there in
      rw found
        (&&-intro _ _ (eq_trans v w x vw wx) (covers_trans fs gs hs (covers-tail j v fs gs h) k))

mutual
  unfolding py_eq

  eq-sym : (a b : Value) → IsDict b → py_eq a b ≡ true → py_eq b a ≡ true
  eq-sym null null u h = refl
  eq-sym (num s a) (num t b) u h = number_eq-sym a b h
  eq-sym (text s) (text t) u h = ground (arith, eq_iff s t, eq_iff t s)
  eq-sym (arr xs) (arr ys) u h = items-sym xs ys u h
  eq-sym (obj fs) (obj gs) u h =
      &&-intro _ _
        (covers_of gs fs u (λ k w p.
          let (v, found) =
            lookup_of_has_key k fs
              (has_key_of_keys_within k gs fs (&&-right _ _ h) (has_key_of_lookup k gs p)) in
          (v, found, sym-lookup k fs gs (&&-left _ _ h) found p (lookup-IsDict k gs u p))))
        (keys_within_of fs gs (λ k p.
          let (v, found) = lookup_of_has_key k fs p in
          has_key_of_lookup k gs (covers-lookup k fs gs (&&-left _ _ h) found).1))
  eq-sym _ _ u h = cc

  items-sym : (xs ys : Items) → AllDicts ys → items_eq xs ys ≡ true → items_eq ys xs ≡ true
  items-sym nil nil u h = refl
  items-sym (cons x xs) (cons y ys) u h =
      &&-intro _ _ (eq-sym x y u.0 (&&-left _ _ h)) (items-sym xs ys u.1 (&&-right _ _ h))
  items-sym _ _ u h = cc

  sym-lookup :
      (k : String) (fs gs : Fields) {v w : Value}
      → covers fs gs ≡ true
      → lookup k fs ≡ some v
      → lookup k gs ≡ some w
      → IsDict w
      → py_eq w v ≡ true
  sym-lookup k end gs c p q u = cc
  sym-lookup k (field j x fs) gs {v} {w} c p q u = elim (Bool-cases (str_eq j k)) [
    | inl same ↦
        let (y, there, eq) = covers-head j x fs gs c in
        let name : j ≡ k = (eq_iff j k).0 same in
        let value : x ≡ v = ground arith in
        let there' : lookup k gs ≡ some y = rw (← name) there in
        let entry : y ≡ w = cc (there', q) in rw (← value) (eq-sym x w u (rw (← entry) eq))
    | inr other ↦ sym-lookup k fs gs (covers-tail j x fs gs c) (ground arith) q u
  ]

-- A value equals itself, where the keys of its dicts are distinct.
pub py_eq_refl : (v : Value) → IsDict v → py_eq v v ≡ true
py_eq_refl = eq_self

pub py_eq-sym : (a b : Value) → IsDict b → py_eq a b ≡ true → py_eq b a ≡ true
py_eq-sym = eq-sym

pub py_eq_trans : (a b c : Value) → py_eq a b ≡ true → py_eq b c ≡ true → py_eq a c ≡ true
py_eq_trans = eq_trans

-- the two halves of `==` on dicts
pub keys_of_eq : (fs gs : Fields) → py_eq (obj fs) (obj gs) ≡ true → keys_within gs fs ≡ true
unfolding py_eq
keys_of_eq fs gs eq = &&-right _ _ eq

pub covers_of_eq : (fs gs : Fields) → py_eq (obj fs) (obj gs) ≡ true → covers fs gs ≡ true
unfolding py_eq
covers_of_eq fs gs eq = &&-left _ _ eq
