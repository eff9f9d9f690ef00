-- ===== src/Patch/Wholesale.antt =====
-- A diff that replaces a value, and a diff of a dict as the loop over its entries.
use kanta.Base.{
  String, ◌≡◌, ◌≢◌, refl, ap, true, false, Option, none, some, arith, eq_iff, if◌then◌else◌,
  Bool-cases, Option-cases, inl, inr,
}
use kanta.Value.{
  Value, Items, Fields, null, num, text, arr, obj, nil, cons, end, field, lookup, has_key, insert,
  py_eq, IsDict, UniqueKeys,
}
use kanta.Value.Dict.{lookup_of_no_key}
use kanta.Value.Equal.{py_eq_refl, py_eq-sym, py_eq_trans}
use kanta.Diff.{diff_value, diff_entries, deleted, changes, as_value}
use kanta.Patch.{
  unmarshal, unmarshal_items, unmarshal_fields, apply, apply_fields, field_step, pop_keys, as_obj,
}
use kanta.Patch.Survives.{
  is_command, IsPlain, PlainFields, NoCommands, IsNotListPatch, EntriesSurvive,
}
use kanta.Patch.Unmarshal.{
  append, append_field, append-end, insert-append, AreApart, AreApart-end, AreApart-insert,
  unmarshal-plain,
}
use kanta.Patch.Entries.{raw_entry, raw_entries, dropped, unmarshal-diff_entries, pop_keys-deleted}
use kanta.Patch.Step.{after, Reaches}

abbrev pub IsNotObj : Value → Type 0
IsNotObj (obj fs) = ⊥
IsNotObj _ = Unit

diff_value-leaf : (p c : Value) → IsNotObj c → diff_value p c ≡ (if py_eq p c then none else some c)
unfolding diff_value
diff_value-leaf null c h = refl
diff_value-leaf (obj ps) (obj cs) h = absurd h
diff_value-leaf _ _ h = refl

apply-leaf : (r c : Value) → IsNotObj c → apply r c ≡ some c
unfolding apply
apply-leaf r null h = refl
apply-leaf r (obj fs) h = absurd h
apply-leaf r _ h = refl

-- A value that is no dict replaces the old one, unless the two are equal.
pub leaf-Reaches :
    (p r c : Value)
    → IsNotObj c
    → IsDict c
    → IsDict r
    → IsPlain c
    → py_eq p r ≡ true
    → Reaches c (after (diff_value p c) r)
unfolding after
leaf-Reaches p r c n u ur plain eq = elim (Bool-cases (py_eq p c)) [
  | inl same ↦
      rw (diff_value-leaf p c n, same) (r, refl, py_eq_trans c p r (py_eq-sym p c u same) eq, ur)
  | inr other ↦
      rw (diff_value-leaf p c n, other)
        (c, rw (unmarshal-plain c plain u) (apply-leaf r c n), py_eq_refl c u, u)
]

no_replace : (fs : Fields) → NoCommands fs → lookup "$replace" fs ≡ none
unfolding lookup is_command
no_replace end h = refl
no_replace (field k v fs) h = ground (arith, no_replace fs h.1)

field_step-new :
    (k : String) (v : Value) (patch_old : Value → Option Value) (out : Fields)
    → is_command k ≡ false
    → has_key k out ≡ false
    → field_step k v patch_old out ≡ some (insert k v out)
unfolding field_step is_command
field_step-new k v patch_old out c h = ground (arith, lookup_of_no_key k out h)

-- The loop over entries that are all new adds them in order.
apply_fields-new :
    (out fs : Fields)
    → NoCommands fs
    → UniqueKeys fs
    → AreApart out fs
    → apply_fields out fs ≡ some (append out fs)
unfolding apply
apply_fields-new out end c u a = rw append-end
apply_fields-new out (field k v fs) c u a =
    rw
      (
        field_step-new k v (λ old. apply old v) out c.0 a.0,
        apply_fields-new (insert k v out) fs c.1 u.2 (AreApart-insert k v out fs u.0 a.1),
        insert-append k v out a.0,
      )
      (ap some (append_field out fs k v))

new_dict :
    (fs : Fields) → NoCommands fs → UniqueKeys fs → as_obj (apply_fields end fs) ≡ some (obj fs)
unfolding append
new_dict fs c u = rw (apply_fields-new end fs c u (AreApart-end fs))

apply-new_dict :
    (r : Value) (cs : Fields)
    → IsNotObj r
    → UniqueKeys cs
    → cs ≢ end
    → NoCommands cs
    → IsNotListPatch r cs
    → apply r (obj cs) ≡ some (obj cs)
unfolding apply
apply-new_dict r end n u some_key c l = absurd (some_key refl)
apply-new_dict null (field k v fs) n u some_key c l =
    rw (no_replace (field k v fs) c) (new_dict (field k v fs) c u)
apply-new_dict (num t x) (field k v fs) n u some_key c l =
    rw (no_replace (field k v fs) c) (new_dict (field k v fs) c u)
apply-new_dict (text s) (field k v fs) n u some_key c l =
    rw (no_replace (field k v fs) c) (new_dict (field k v fs) c u)
apply-new_dict (arr xs) (field k v fs) n u some_key c l = rw (no_replace (field k v fs) c, l)
apply-new_dict (obj rs) (field k v fs) n u some_key c l = absurd n

-- A dict that replaces a value of another type.
pub dict-Reaches :
    (r : Value) (cs : Fields)
    → IsNotObj r
    → UniqueKeys cs
    → cs ≢ end
    → PlainFields cs
    → NoCommands cs
    → IsNotListPatch r cs
    → Reaches (obj cs) (apply r (unmarshal (obj cs)))
dict-Reaches r cs n u some_key plain c l = (
  obj cs,
  rw (unmarshal-plain (obj cs) plain u) (apply-new_dict r cs n u some_key c l),
  py_eq_refl (obj cs) u,
  u,
)

apply-dict :
    (rs ds : Fields)
    → lookup "$replace" ds ≡ none
    → apply (obj rs) (obj ds) ≡ as_obj (apply_fields rs ds)
unfolding apply
apply-dict rs end h = refl
apply-dict rs (field k v ds) h = rw h

-- `$delete` first, and then the entries
whole_diff :
    (ks : Items) (es more rs mid : Fields)
    → unmarshal_fields es end ≡ more
    → unmarshal_fields es (field "$delete" (arr (unmarshal_items ks)) end)
      ≡ field "$delete" (arr (unmarshal_items ks)) more
    → pop_keys (unmarshal_items ks) rs ≡ some mid
    → lookup "$replace" more ≡ none
    → after (as_value (changes ks es)) (obj rs) ≡ as_obj (apply_fields mid more)
unfolding changes after unmarshal pop_keys
whole_diff nil end more rs mid plain with_delete popped n =
    let none_more : end ≡ more = plain in
    let same : rs ≡ mid = cc in rw (← none_more, ← same) (unfold apply in refl)
whole_diff nil (field k v es) more rs mid plain with_delete popped n =
    let same : rs ≡ mid = cc in rw (plain, apply-dict rs more n, same)
whole_diff (cons x xs) es more rs mid plain with_delete popped n =
    rw
      (
        with_delete,
        apply-dict rs (field "$delete" (arr (unmarshal_items (cons x xs))) more)
            (unfold lookup in n),
      )
      (unfold apply field_step in rw popped)

NoCommands-raw_entry :
    (k : String) (v : Value) (o : Option Value) (ds : Fields)
    → is_command k ≡ false
    → NoCommands ds
    → NoCommands (raw_entry k v o ds)
unfolding raw_entry
NoCommands-raw_entry k v none ds h c = (h, c)
NoCommands-raw_entry k v (some old) ds h c = elim (Option-cases (diff_value old v)) [
  | inl same ↦ rw (same, raw_entry) c
  | inr (d, changed) ↦ rw (changed, raw_entry) (h, c)
]

NoCommands-raw_entries :
    (previous current : Fields)
    → EntriesSurvive previous current
    → NoCommands (raw_entries previous current)
unfolding raw_entries
NoCommands-raw_entries previous end s = tt
NoCommands-raw_entries previous (field k v current) s =
    NoCommands-raw_entry k v (lookup k previous) (raw_entries previous current) s.0
      (NoCommands-raw_entries previous current s.2)

apart_from_delete :
    (previous current : Fields) (v : Value)
    → EntriesSurvive previous current
    → AreApart (field "$delete" v end) current
unfolding has_key is_command
apart_from_delete previous end v s = tt
apart_from_delete previous (field k w current) v s = (
  ground (arith, s.0, eq_iff "$delete" k, eq_iff k "$delete"),
  apart_from_delete previous current v s.2,
)

-- The diff of two dicts, applied: the keys that are gone are popped, and then each entry is
-- patched.
pub after-diff :
    (previous current rs : Fields)
    → UniqueKeys current
    → EntriesSurvive previous current
    → after (diff_value (obj previous) (obj current)) (obj rs)
      ≡ as_obj (apply_fields (dropped previous current rs) (raw_entries previous current))
unfolding diff_value append
after-diff previous current rs u s =
    let ks = deleted previous current in
    whole_diff ks (diff_entries previous current) (raw_entries previous current) rs
      (dropped previous current rs)
      (unmarshal-diff_entries previous current end u (AreApart-end current))
      (unmarshal-diff_entries previous current (field "$delete" (arr (unmarshal_items ks)) end) u
        (apart_from_delete previous current (arr (unmarshal_items ks)) s))
      (pop_keys-deleted previous current rs)
      (no_replace (raw_entries previous current) (NoCommands-raw_entries previous current s))
