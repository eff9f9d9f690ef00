-- ===== src/Patch/Step.antt =====
-- One entry of a written diff brings its key to the new value.
use kanta.Base.{
  String, ◌≡◌, refl, true, false, Option, none, some, arith, str_eq, eq_refl, Option-cases, inl,
  inr,
}
use kanta.Value.{Value, Fields, field, lookup, insert, py_eq, IsDict, UniqueKeys}
use kanta.Value.Dict.{lookup-insert, insert-UniqueKeys, lookup-IsDict}
use kanta.Value.Equal.{py_eq_refl}
use kanta.Diff.{diff_value}
use kanta.Patch.{unmarshal, apply, apply_fields, field_step}
use kanta.Patch.Survives.{is_command, Survives, CarriesOver}
use kanta.Patch.Unmarshal.{unmarshal-plain}
use kanta.Patch.Entries.{raw_entry}

-- the state after a change: `none` is no change
unfoldable pub after : Option Value → Value → Option Value
after none r = some r
after (some d) r = apply r (unmarshal d)

-- `c` stands for the new value: the change leads to a value equal to it
abbrev pub Reaches : Value → Option Value → Type 0
Reaches c result = (out : Value) × (result ≡ some out) × (py_eq c out ≡ true) × IsDict out

-- the value of a key in the replayed state, against the one in the state that was diffed
abbrev pub Linked : Option Value → Option Value → Type 0
Linked none o = o ≡ none
Linked (some p) o = (r : Value) × (o ≡ some r) × (py_eq p r ≡ true)

-- what one entry does to the dict
abbrev pub Steps : String → Value → Option Value → Fields → Type 0
Steps k v o rs =
    (new : Fields) × (w : Value) × (lookup k new ≡ some w)
    × (py_eq v w ≡ true)
    × ((j : String) → str_eq k j ≡ false → lookup j new ≡ lookup j rs)
    × UniqueKeys new
    × ((ds : Fields) → apply_fields rs (raw_entry k v o ds) ≡ apply_fields new ds)

field_step-insert :
    (k : String) (v w : Value) (patch_old : Value → Option Value) (rs : Fields)
    → is_command k ≡ false
    → elim (lookup k rs) [ none ↦ some v | some old ↦ patch_old old ] ≡ some w
    → field_step k v patch_old rs ≡ some (insert k w rs)
unfolding field_step is_command
field_step-insert k v w patch_old rs c h = ground arith

module _ (k : String) (v : Value) (rs : Fields) (plain_key : is_command k ≡ false)
    (unique : UniqueKeys rs) where
  inserted :
      (d w : Value) (o : Option Value)
      → elim (lookup k rs) [ none ↦ some d | some old ↦ apply old d ] ≡ some w
      → ((ds : Fields) → raw_entry k v o ds ≡ field k d ds)
      → py_eq v w ≡ true
      → IsDict w
      → Steps k v o rs
  inserted d w o h raw eq u = (
    insert k w rs,
    w,
    rw (lookup-insert, eq_refl),
    eq,
    λ j other. rw (lookup-insert k j w rs, other),
    insert-UniqueKeys k w rs u unique,
    λ ds. unfold apply in rw (raw ds, field_step-insert k d w (λ old. apply old d) rs plain_key h),
  )

  unchanged :
      (p r : Value)
      → lookup k rs ≡ some r
      → diff_value p v ≡ none
      → Reaches v (some r)
      → Steps k v (some p) rs
  unfolding raw_entry
  unchanged p r there same (out, e, eq, u) = (
    rs,
    r,
    there,
    (let same_value : r ≡ out = cc in rw same_value eq),
    λ j other. refl,
    unique,
    λ ds. rw (same, raw_entry),
  )

  -- The step, given that a change of the key's old value reaches the new one.
  pub entry-Steps :
      (o : Option Value)
      → IsDict v
      → CarriesOver o v
      → Linked o (lookup k rs)
      → ((p r : Value)
          → Survives p v
          → IsDict r
          → py_eq p r ≡ true
          → Reaches v (after (diff_value p v) r))
      → Steps k v o rs
  unfolding raw_entry after
  entry-Steps none u plain missing reach =
      inserted (unmarshal v) v none (rw (missing, unmarshal-plain v plain u)) (λ ds. refl)
        (py_eq_refl v u) u
  entry-Steps (some p) u s (r, there, eq) reach = elim (Option-cases (diff_value p v)) [
    | inl same ↦
        unchanged p r there same (rw same at (reach p r s (lookup-IsDict k rs unique there) eq))
    | inr (d, changed) ↦
        let goal : Reaches v (apply r (unmarshal d)) =
          rw changed at (reach p r s (lookup-IsDict k rs unique there) eq) in
        inserted (unmarshal d) goal.0 (some p) (rw (there, goal.1)) (λ ds. rw (changed, raw_entry))
          goal.2 goal.3
  ]
