-- ===== src/Diff/Unchanged.antt =====
-- `diff` returns None exactly for equal states.
use kanta.Base.{
  String, ◌≡◌, ◌↔◌, refl, ap, Bool, true, false, Option, none, some, arith, str_eq, eq_iff, eq_refl,
  if◌then◌else◌, Bool-cases, Option-cases, inl, inr, &&-intro,
}
use kanta.Value.{
  Value, Items, Fields, null, obj, nil, cons, end, field, lookup, has_key, py_eq, IsDict,
  UniqueKeys,
}
use kanta.Value.Dict.{
  lookup_of_has_key, has_key_of_lookup, keys_within_of, has_key_of_keys_within, lookup-IsDict,
}
use kanta.Value.Equal.{covers-lookup, covers_of, keys_of_eq, covers_of_eq}
use kanta.Diff.{deleted, changes, diff_value, diff_entries, diff, as_value}

-- every value of the second dict has an equal one in the first
abbrev Matched : Fields → Fields → Type 0
Matched previous current =
    (k : String) (v : Value)
    → lookup k current ≡ some v
    → (p : Value) × (lookup k previous ≡ some p) × (py_eq p v ≡ true)

as_value-eq-none : (o : Option Fields) → as_value o ≡ none → o ≡ none
as_value-eq-none none h = refl
as_value-eq-none (some fs) h = cc

changes-eq-none : (ks : Items) (es : Fields) → changes ks es ≡ none → (ks ≡ nil) × (es ≡ end)
unfolding changes
changes-eq-none nil end h = (refl, refl)
changes-eq-none nil (field k v es) h = cc
changes-eq-none (cons k ks) es h = cc

kept_keys :
    (previous current : Fields) (k : String)
    → deleted previous current ≡ nil
    → has_key k previous ≡ true
    → has_key k current ≡ true
unfolding deleted has_key
kept_keys end current k d h = cc
kept_keys (field j v previous) current k d h =
    ground (arith, eq_iff j k, kept_keys previous current k)

no_deleted :
    (previous current : Fields)
    → ((k : String) → has_key k previous ≡ true → has_key k current ≡ true)
    → deleted previous current ≡ nil
unfolding deleted has_key
no_deleted end current h = refl
no_deleted (field j v previous) current h =
    ground (arith, h j, eq_refl j, no_deleted previous current (λ k p. ground (arith, h k)))

dicts_eq :
    (previous current : Fields)
    → UniqueKeys previous
    → deleted previous current ≡ nil
    → Matched previous current
    → py_eq (obj previous) (obj current) ≡ true
unfolding py_eq
dicts_eq previous current u d m =
    &&-intro _ _
      (covers_of previous current u (λ k p found.
        let (v, there) =
          lookup_of_has_key k current
            (kept_keys previous current k d (has_key_of_lookup k previous found)) in
        let (p', found', eq) = m k v there in let same : p' ≡ p = cc in (v, there, rw (← same) eq)))
      (keys_within_of current previous (λ k h.
        let (v, there) = lookup_of_has_key k current h in
        has_key_of_lookup k previous (m k v there).1))

leaf-eq : (b : Bool) (c : Value) → (if b then none else some c) ≡ none → b ≡ true
leaf-eq true c h = refl
leaf-eq false c h = cc

entries-end :
    (previous current : Fields) (k : String) (v : Value)
    → diff_entries previous (field k v current) ≡ end
    → (p : Value) × (lookup k previous ≡ some p)
      × (diff_value p v ≡ none)
      × (diff_entries previous current ≡ end)
unfolding diff_value
entries-end previous current k v h = elim (Option-cases (lookup k previous)) [
  | inl missing ↦ absurd (ground arith)
  | inr (p, found) ↦ elim (Option-cases (diff_value p v)) [
    | inl same ↦ (p, found, same, ground arith)
    | inr (d, changed) ↦ absurd (ground arith)
  ]
]

head_value :
    (j k : String) (w v : Value) (fs : Fields)
    → str_eq j k ≡ true
    → lookup k (field j w fs) ≡ some v
    → (j ≡ k) × (w ≡ v)
unfolding lookup
head_value j k w v fs same h = ((eq_iff j k).0 same, ground arith)

mutual
  unfolding diff_value py_eq

  none-eq : (p c : Value) → IsDict p → diff_value p c ≡ none → py_eq p c ≡ true
  none-eq (obj ps) (obj cs) u h =
      let none_at_all = changes-eq-none _ _ (as_value-eq-none _ h) in
      dicts_eq ps cs u none_at_all.0 (none-Matched ps cs u none_at_all.1)
  none-eq null c u h = leaf-eq (py_eq null c) c h
  none-eq p c u h = leaf-eq (py_eq p c) c h

  none-Matched :
      (previous current : Fields)
      → UniqueKeys previous
      → diff_entries previous current ≡ end
      → Matched previous current
  none-Matched previous end u h k v there = cc
  none-Matched previous (field j w current) u h k v there =
      let (p, found, same, rest) = entries-end previous current j w h in
      elim (Bool-cases (str_eq j k)) [
        | inl here ↦
            let (name, value) = head_value j k w v current here there in
            (
              p,
              rw (← name) found,
              rw (← value) (none-eq p w (lookup-IsDict j previous u found) same),
            )
        | inr later ↦ none-Matched previous current u rest k v (ground arith)
      ]

leaf-none : (b : Bool) (c : Value) → b ≡ true → (if b then none else some c) ≡ none
leaf-none true c h = refl
leaf-none false c h = cc

no_entry :
    (previous current : Fields) (k : String) (v p : Value)
    → lookup k previous ≡ some p
    → diff_value p v ≡ none
    → diff_entries previous current ≡ end
    → diff_entries previous (field k v current) ≡ end
unfolding diff_value
no_entry previous current k v p found same rest = ground arith

Matched-tail :
    (k : String) (v : Value) (previous current : Fields)
    → has_key k current ≡ false
    → Matched previous (field k v current)
    → Matched previous current
unfolding lookup
Matched-tail k v previous current fresh m j w there =
    let there' : has_key j current ≡ true = has_key_of_lookup j current there in
    m j w (ground (arith, eq_iff k j))

Matched-head :
    (k : String) (v : Value) (previous current : Fields)
    → Matched previous (field k v current)
    → (p : Value) × (lookup k previous ≡ some p) × (py_eq p v ≡ true)
unfolding lookup
Matched-head k v previous current m = m k v (rw eq_refl)

eq-Matched :
    (previous current : Fields)
    → UniqueKeys previous
    → py_eq (obj previous) (obj current) ≡ true
    → Matched previous current
eq-Matched previous current u eq k v there =
    let (p, found) = lookup_of_has_key k previous (
      has_key_of_keys_within k current previous (keys_of_eq previous current eq)
        (has_key_of_lookup k current there)) in
    let (v', there', equal) =
      covers-lookup k previous current (covers_of_eq previous current eq) found in
    let same : v' ≡ v = cc in (p, found, rw (← same) equal)

eq-no_deleted :
    (previous current : Fields)
    → py_eq (obj previous) (obj current) ≡ true
    → deleted previous current ≡ nil
eq-no_deleted previous current eq = no_deleted previous current (λ k h.
    let (p, found) = lookup_of_has_key k previous h in
    has_key_of_lookup k current
      (covers-lookup k previous current (covers_of_eq previous current eq) found).1)

mutual
  unfolding diff_value py_eq

  eq-none : (p c : Value) → IsDict p → IsDict c → py_eq p c ≡ true → diff_value p c ≡ none
  eq-none (obj ps) (obj cs) u uc h =
      rw (eq-no_deleted ps cs h, eq-entries ps cs u uc (eq-Matched ps cs u h))
  eq-none null c u uc h = leaf-none (py_eq null c) c h
  eq-none p c u uc h = leaf-none (py_eq p c) c h

  eq-entries :
      (previous current : Fields)
      → UniqueKeys previous
      → UniqueKeys current
      → Matched previous current
      → diff_entries previous current ≡ end
  eq-entries previous end u uc m = refl
  eq-entries previous (field k v current) u uc m =
      let (p, found, eq) = Matched-head k v previous current m in
      no_entry previous current k v p found (eq-none p v (lookup-IsDict k previous u found) uc.1 eq)
        (eq-entries previous current u uc.2 (Matched-tail k v previous current uc.0 m))

-- For dicts with distinct keys at every depth, `diff` returns None exactly when the two states are
-- equal by `==`.
pub diff-eq-none_iff :
    (previous current : Fields)
    → UniqueKeys previous
    → UniqueKeys current
    → (diff previous current ≡ none) ↔ (py_eq (obj previous) (obj current) ≡ true)
unfolding diff
diff-eq-none_iff previous current u uc = (
  λ h. none-eq (obj previous) (obj current) u (unfold diff_value in ap as_value h),
  λ h. as_value-eq-none _ (unfold diff_value in eq-none (obj previous) (obj current) u uc h),
)
