-- ===== src/Patch/RoundTrip.antt =====
-- `diff` of diff.py against `apply_diff` of serialization/base.py.
use kanta.Base.{
  String, ◌≡◌, refl, ◌∙◌, true, false, none, some, arith, str_eq, eq_iff, eq_refl, Bool-cases,
  Option-cases, inl, inr, &&-intro,
}
use kanta.Value.{
  Value, Fields, null, num, text, arr, obj, end, field, lookup, has_key, py_eq, covers, IsDict,
  UniqueKeys,
}
use kanta.Value.Dict.{
  lookup_of_no_key, lookup_of_has_key, has_key_of_lookup, keys_within_of, has_key_of_keys_within,
}
use kanta.Value.Equal.{covers-lookup, keys_of_eq, covers_of_eq}
use kanta.Diff.{diff_value, diff, as_value}
use kanta.Patch.{apply, apply_fields, apply_diff}
use kanta.Patch.Survives.{IsPlain, Survives, EntriesSurvive}
use kanta.Patch.Entries.{raw_entries, dropped, lookup-dropped, dropped-UniqueKeys}
use kanta.Patch.Step.{after, Reaches, Linked, Steps, entry-Steps}
use kanta.Patch.Wholesale.{IsNotObj, leaf-Reaches, dict-Reaches, after-diff}

-- the loop over the entries of a diff brings the keys of `current` to their new values
abbrev Patches : Fields → Fields → Fields → Type 0
Patches previous current rs =
    (out : Fields) × (apply_fields rs (raw_entries previous current) ≡ some out)
    × (covers current out ≡ true)
    × ((k : String) → has_key k current ≡ false → lookup k out ≡ lookup k rs)
    × UniqueKeys out

-- one more entry in front of a loop
Patches-field :
    (k : String) (v : Value) (previous current rs : Fields)
    → has_key k current ≡ false
    → (s : Steps k v (lookup k previous) rs) → Patches previous current s.0
    → Patches previous (field k v current) rs
unfolding py_eq raw_entries
Patches-field k v previous current rs fresh (new, w, there, eq, others, u, steps)
      (out, e, c, rest, u_out) =
    (
      out,
      steps (raw_entries previous current) ∙ e,
      (let found : lookup k out ≡ some w = rest k fresh ∙ there in rw found (&&-intro _ _ eq c)),
      λ j h. ground (arith, rest j, others j),
      u_out,
    )

abbrev AllLinked : Fields → Fields → Fields → Type 0
AllLinked previous current rs =
    (k : String) → has_key k current ≡ true → Linked (lookup k previous) (lookup k rs)

AllLinked-tail :
    (k : String) (v : Value) (previous current rs new : Fields)
    → has_key k current ≡ false
    → ((j : String) → str_eq k j ≡ false → lookup j new ≡ lookup j rs)
    → AllLinked previous (field k v current) rs
    → AllLinked previous current new
AllLinked-tail k v previous current rs new fresh others linked j h =
    let other : str_eq k j ≡ false = ground (arith, eq_iff k j) in
    rw (others j other) (linked j (unfold has_key in rw (other, h)))

no_new_key :
    (previous rs : Fields) (k : String)
    → py_eq (obj previous) (obj rs) ≡ true
    → lookup k previous ≡ none
    → lookup k rs ≡ none
no_new_key previous rs k eq missing = elim (Option-cases (lookup k rs)) [
  | inl none_there ↦ none_there
  | inr (r, there) ↦
      let old =
        has_key_of_keys_within k rs previous (keys_of_eq previous rs eq)
          (has_key_of_lookup k rs there) in
      let found = lookup_of_has_key k previous old in absurd (cc (missing, found.1))
]

-- Equal states link every key.
Linked-key :
    (previous rs : Fields) (k : String)
    → py_eq (obj previous) (obj rs) ≡ true
    → Linked (lookup k previous) (lookup k rs)
Linked-key previous rs k eq = elim (Option-cases (lookup k previous)) [
  | inl missing ↦ rw missing (no_new_key previous rs k eq missing)
  | inr (p, found) ↦ rw found (covers-lookup k previous rs (covers_of_eq previous rs eq) found)
]

-- Before the loop, the keys that stay have the values that the diff was made from.
AllLinked-dropped :
    (previous current rs : Fields)
    → py_eq (obj previous) (obj rs) ≡ true
    → AllLinked previous current (dropped previous current rs)
AllLinked-dropped previous current rs eq k h =
    let same : lookup k (dropped previous current rs) ≡ lookup k rs =
      ground (arith, lookup-dropped k previous current rs) in
    rw same (Linked-key previous rs k eq)

dropped-none :
    (previous current rs : Fields) (k : String)
    → py_eq (obj previous) (obj rs) ≡ true
    → has_key k current ≡ false
    → lookup k (dropped previous current rs) ≡ none
dropped-none previous current rs k eq gone = elim (Bool-cases (has_key k previous)) [
  | inl old ↦ ground (arith, lookup-dropped k previous current rs)
  | inr never ↦ ground (
    arith,
    lookup-dropped k previous current rs,
    no_new_key previous rs k eq (lookup_of_no_key k previous never),
  )
]

-- After the loop there is nothing but the keys of `current`.
patched_eq :
    (previous current rs : Fields)
    → py_eq (obj previous) (obj rs) ≡ true
    → (p : Patches previous current (dropped previous current rs))
    → py_eq (obj current) (obj p.0) ≡ true
unfolding py_eq
patched_eq previous current rs eq (out, e, c, rest, u) = &&-intro _ _ c (
    keys_within_of out current (λ k h. elim (Bool-cases (has_key k current)) [
      | inl there ↦ there
      | inr gone ↦
          let found = lookup_of_has_key k out h in
          absurd (cc (found.1, rest k gone, dropped-none previous current rs k eq gone))
    ]))

Survives-leaf : (p c : Value) → IsNotObj c → Survives p c → IsPlain c
Survives-leaf null null n s = s
Survives-leaf p (obj cs) n s = absurd n
Survives-leaf _ _ n s = s

diff_value-dict : (p : Value) (cs : Fields) → IsNotObj p → diff_value p (obj cs) ≡ some (obj cs)
unfolding diff_value py_eq
diff_value-dict (obj ps) cs n = absurd n
diff_value-dict _ cs n = refl

-- a dict in the place of another value
replaced-Reaches :
    (p r : Value) (cs : Fields)
    → IsNotObj p
    → UniqueKeys cs
    → Survives p (obj cs)
    → py_eq p r ≡ true
    → Reaches (obj cs) (after (some (obj cs)) r)
unfolding after py_eq
replaced-Reaches (arr ps) (arr rs) cs n u s eq = dict-Reaches (arr rs) cs tt u s.0 s.1 s.2 s.3
replaced-Reaches null null cs n u s eq = dict-Reaches null cs tt u s.0 s.1 s.2 tt
replaced-Reaches (num t x) (num t' x') cs n u s eq = dict-Reaches (num t' x') cs tt u s.0 s.1 s.2 tt
replaced-Reaches (text x) (text x') cs n u s eq = dict-Reaches (text x') cs tt u s.0 s.1 s.2 tt
replaced-Reaches (obj ps) r cs n u s eq = absurd n
replaced-Reaches _ _ cs n u s eq = cc

reach-dict :
    (p r : Value) (cs : Fields)
    → IsNotObj p
    → UniqueKeys cs
    → Survives p (obj cs)
    → py_eq p r ≡ true
    → Reaches (obj cs) (after (diff_value p (obj cs)) r)
reach-dict p r cs n u s eq = rw (diff_value-dict p cs n) (replaced-Reaches p r cs n u s eq)

reach-leaf :
    (p r c : Value)
    → IsNotObj c
    → IsDict c
    → IsDict r
    → Survives p c
    → py_eq p r ≡ true
    → Reaches c (after (diff_value p c) r)
reach-leaf p r c n u ur s eq = leaf-Reaches p r c n u ur (Survives-leaf p c n s) eq

not_dict : (ps : Fields) (r : Value) → IsNotObj r → py_eq (obj ps) r ≡ true → ⊥
unfolding py_eq
not_dict ps null n eq = cc
not_dict ps (obj rs) n eq = absurd n
not_dict ps _ n eq = cc

Patches-end : (previous rs : Fields) → UniqueKeys rs → Patches previous end rs
unfolding raw_entries apply py_eq
Patches-end previous rs u = (rs, refl, refl, λ k h. refl, u)

has_key-head : (k : String) (v : Value) (fs : Fields) → has_key k (field k v fs) ≡ true
unfolding has_key
has_key-head k v fs = rw eq_refl

mutual
  reach-value :
      (p r c : Value)
      → IsDict c
      → IsDict r
      → Survives p c
      → py_eq p r ≡ true
      → Reaches c (after (diff_value p c) r)
  reach-value (obj ps) (obj rs) (obj cs) u ur s eq =
      let patched =
        reach-entries ps cs (dropped ps cs rs) u s (dropped-UniqueKeys ps cs rs ur)
          (AllLinked-dropped ps cs rs eq) in
      (
        obj patched.0,
        after-diff ps cs rs u s ∙ rw (patched.1),
        patched_eq ps cs rs eq patched,
        patched.4,
      )
  reach-value (obj ps) null (obj cs) u ur s eq = absurd (not_dict ps null tt eq)
  reach-value (obj ps) (num t n) (obj cs) u ur s eq = absurd (not_dict ps (num t n) tt eq)
  reach-value (obj ps) (text x) (obj cs) u ur s eq = absurd (not_dict ps (text x) tt eq)
  reach-value (obj ps) (arr xs) (obj cs) u ur s eq = absurd (not_dict ps (arr xs) tt eq)
  reach-value null r (obj cs) u ur s eq = reach-dict null r cs tt u s eq
  reach-value (num t n) r (obj cs) u ur s eq = reach-dict (num t n) r cs tt u s eq
  reach-value (text x) r (obj cs) u ur s eq = reach-dict (text x) r cs tt u s eq
  reach-value (arr xs) r (obj cs) u ur s eq = reach-dict (arr xs) r cs tt u s eq
  reach-value p r null u ur s eq = reach-leaf p r null tt u ur s eq
  reach-value p r (num t n) u ur s eq = reach-leaf p r (num t n) tt u ur s eq
  reach-value p r (text x) u ur s eq = reach-leaf p r (text x) tt u ur s eq
  reach-value p r (arr xs) u ur s eq = reach-leaf p r (arr xs) tt u ur s eq

  reach-entries :
      (previous current rs : Fields)
      → UniqueKeys current
      → EntriesSurvive previous current
      → UniqueKeys rs
      → AllLinked previous current rs
      → Patches previous current rs
  reach-entries previous end rs u s ur linked = Patches-end previous rs ur
  reach-entries previous (field k v current) rs u s ur linked =
      let step =
        entry-Steps k v rs s.0 ur (lookup k previous) u.1 s.1 (linked k (has_key-head k v current))
          (λ p r sv urv eq. reach-value p r v u.1 urv sv eq) in
      Patches-field k v previous current rs u.0 step (
        reach-entries previous current step.0 u.2 s.2 step.5
          (AllLinked-tail k v previous current rs step.0 u.0 step.4 linked))

pub reach_dict :
    (previous current replayed : Fields)
    → UniqueKeys current
    → UniqueKeys replayed
    → EntriesSurvive previous current
    → py_eq (obj previous) (obj replayed) ≡ true
    → (out : Fields) × (after (as_value (diff previous current)) (obj replayed) ≡ some (obj out))
      × (py_eq (obj current) (obj out) ≡ true)
      × UniqueKeys out
unfolding diff
reach_dict previous current replayed u ur s eq =
    let patched =
      reach-entries previous current (dropped previous current replayed) u s
        (dropped-UniqueKeys previous current replayed ur)
        (AllLinked-dropped previous current replayed eq) in
    (
      patched.0,
      after-diff previous current replayed u s ∙ rw (patched.1),
      patched_eq previous current replayed eq patched,
      patched.4,
    )

-- Let `replayed` and `current` have distinct keys at every depth, let `replayed` equal the state
-- `previous` by `==`, and let the change to `current` survive (`EntriesSurvive`: new values are
-- plain, no key is a command, and a dict that replaces a value of another type is neither empty nor
-- read as an edit of a list). Then the diff that is written for the change, applied to `replayed`,
-- gives a dict that equals `current`, with distinct keys at every depth.
pub apply_diff-diff :
    (previous current replayed d : Fields)
    → UniqueKeys current
    → UniqueKeys replayed
    → EntriesSurvive previous current
    → py_eq (obj previous) (obj replayed) ≡ true
    → diff previous current ≡ some d
    → (out : Fields) × (apply_diff (obj replayed) (obj d) ≡ some (obj out))
      × (py_eq (obj current) (obj out) ≡ true)
      × UniqueKeys out
unfolding apply_diff after
apply_diff-diff previous current replayed d u ur s eq changed =
    rw changed at (reach_dict previous current replayed u ur s eq)
