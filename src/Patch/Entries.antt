-- ===== src/Patch/Entries.antt =====
-- What `unmarshal` makes of the entries that `_diff` writes, and what they do to a dict.
use kanta.Base.{
  String, ◌≡◌, refl, sym, false, Option, none, some, arith, eq_iff, if◌then◌else◌, Bool-cases,
  Option-cases, inl, inr,
}
use kanta.Value.{Value, Fields, end, field, lookup, has_key, insert, remove, UniqueKeys}
use kanta.Value.Dict.{lookup-remove, remove-UniqueKeys}
use kanta.Diff.{escape_key, diff_value, diff_entries, deleted}
use kanta.Patch.{unmarshal, unmarshal_items, unmarshal_fields, pop_keys}
use kanta.Patch.Escape.{unescape-escape_key}
use kanta.Patch.Unmarshal.{
  append, append_field, append-end, insert-append, AreApart, AreApart-insert,
}

-- the entry for one key that is in `current`, as `_apply` sees it
unfoldable pub raw_entry : String → Value → Option Value → Fields → Fields
unfolding diff_value
raw_entry k v none rest = field k (unmarshal v) rest
raw_entry k v (some old) rest = elim (diff_value old v) [
  | none ↦ rest
  | some sub ↦ field k (unmarshal sub) rest
]

unfoldable pub raw_entries : Fields → Fields → Fields
unfolding raw_entry lookup
raw_entries previous end = end
raw_entries previous (field k v current) =
    raw_entry k v (lookup k previous) (raw_entries previous current)

unmarshal_entry :
    (k : String) (v : Value) (fs out more : Fields)
    → has_key k out ≡ false
    → unmarshal_fields fs (insert k (unmarshal v) out) ≡ append (insert k (unmarshal v) out) more
    → unmarshal_fields (field (escape_key k) v fs) out ≡ append out (field k (unmarshal v) more)
unfolding unmarshal
unmarshal_entry k v fs out more fresh h =
    rw (unescape-escape_key, h, insert-append k (unmarshal v) out fresh)
      (append_field out more k (unmarshal v))

-- the entry for one key, as `_diff` writes it
diff_entry : String → Value → Option Value → Fields → Fields
unfolding diff_value
diff_entry k v none rest = field (escape_key k) v rest
diff_entry k v (some old) rest = elim (diff_value old v) [
  | none ↦ rest
  | some sub ↦ field (escape_key k) sub rest
]

diff_entries-field :
    (previous current : Fields) (k : String) (v : Value)
    → diff_entries previous (field k v current)
      ≡ diff_entry k v (lookup k previous) (diff_entries previous current)
unfolding diff_value diff_entry
diff_entries-field previous current k v = elim (Option-cases (lookup k previous)) [
  | inl missing ↦ ground arith
  | inr (old, found) ↦ ground arith
]

unmarshal-diff_entry :
    (k : String) (v : Value) (o : Option Value) (fs out more : Fields)
    → has_key k out ≡ false
    → ((w : Value) → unmarshal_fields fs (insert k w out) ≡ append (insert k w out) more)
    → unmarshal_fields fs out ≡ append out more
    → unmarshal_fields (diff_entry k v o fs) out ≡ append out (raw_entry k v o more)
unfolding diff_entry raw_entry
unmarshal-diff_entry k v none fs out more fresh h same =
    unmarshal_entry k v fs out more fresh (h (unmarshal v))
unmarshal-diff_entry k v (some old) fs out more fresh h same =
    elim (Option-cases (diff_value old v)) [
      | inl unchanged ↦ rw (unchanged, diff_entry, raw_entry) same
      | inr (sub, changed) ↦
          rw (changed, diff_entry, raw_entry)
            (unmarshal_entry k sub fs out more fresh (h (unmarshal sub)))
    ]

pub unmarshal-diff_entries :
    (previous current out : Fields)
    → UniqueKeys current
    → AreApart out current
    → unmarshal_fields (diff_entries previous current) out
      ≡ append out (raw_entries previous current)
unfolding raw_entries
unmarshal-diff_entries previous end out u a = unfold unmarshal diff_value in sym (append-end out)
unmarshal-diff_entries previous (field k v current) out u a =
    rw (diff_entries-field previous current k v) (
      unmarshal-diff_entry k v (lookup k previous) (diff_entries previous current) out
        (raw_entries previous current) a.0
        (λ w.
          unmarshal-diff_entries previous current (insert k w out) u.2
            (AreApart-insert k w out current u.0 a.1))
        (unmarshal-diff_entries previous current out u.2 a.1))

-- what `_apply` pops for `$delete`
unfoldable pub dropped : Fields → Fields → Fields → Fields
unfolding remove
dropped end current rs = rs
dropped (field k v previous) current rs =
    dropped previous current (if has_key k current then rs else remove k rs)

pub pop_keys-deleted :
    (previous current rs : Fields)
    → pop_keys (unmarshal_items (deleted previous current)) rs ≡ some (dropped previous current rs)
unfolding pop_keys deleted unmarshal dropped
pop_keys-deleted end current rs = refl
pop_keys-deleted (field k v previous) current rs = elim (Bool-cases (has_key k current)) [
  | inl kept ↦ rw kept (pop_keys-deleted previous current rs)
  | inr gone ↦ rw (gone, unescape-escape_key) (pop_keys-deleted previous current (remove k rs))
]

pub lookup-dropped :
    (j : String) (previous current rs : Fields)
    → lookup j (dropped previous current rs) ≡ (
        if has_key j previous
        then (if has_key j current then lookup j rs else none)
        else lookup j rs)
unfolding dropped has_key
lookup-dropped j end current rs = refl
lookup-dropped j (field k v previous) current rs = ground (
  arith,
  lookup-dropped j previous current (if has_key k current then rs else remove k rs),
  lookup-remove k j rs,
  eq_iff k j,
)

pub dropped-UniqueKeys :
    (previous current rs : Fields) → UniqueKeys rs → UniqueKeys (dropped previous current rs)
unfolding dropped
dropped-UniqueKeys end current rs u = u
dropped-UniqueKeys (field k v previous) current rs u = elim (Bool-cases (has_key k current)) [
  | inl kept ↦ rw kept (dropped-UniqueKeys previous current rs u)
  | inr gone ↦
      rw gone (dropped-UniqueKeys previous current (remove k rs) (remove-UniqueKeys k rs u))
]
