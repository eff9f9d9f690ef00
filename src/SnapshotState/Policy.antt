-- ===== src/SnapshotState/Policy.antt =====
-- When snapshots are written.
use kanta.Base.{
  ℕ, ◌+◌, ◌≤◌, ◌<◌, ◌≡◌, refl, Bool, true, false, not, ◌&&◌, Option, some, arith, ltb, leb, ◌==◌,
  ◌≢◌, Bool-cases, inl, inr,
}
use kanta.Value.{Fields}
use kanta.Structs.{Time, Serializer}
use kanta.Framing.{Framer}
use kanta.Base.Bytes.{Bytes}
use kanta.LockedFile.{File}
use kanta.SnapshotState.{
  SnapshotState, day, weekday, midnight, is_from_today, maybe_write, is_due, record_changes,
}
use kanta.SnapshotState.Outcomes.{after_write}

-- the midnight of a time is the last multiple of a day that does not lie behind it
midnight-bounds : (ts : Time) → (midnight ts ≤ ts) × (ts < midnight ts + day)
unfolding midnight
midnight-bounds ts = (omega arith, omega arith)

-- After a snapshot is written, however many changes follow, none is due at a time whose day began
-- no later than that snapshot, as long as none is forced since.
pub is_due-after_write :
    (self : SnapshotState) (file : File) (now later : Time) (framed : Bytes) (count : ℕ)
    → midnight later ≤ now
    → is_due (record_changes (after_write self file now framed).0 count) later ≡ false
unfolding is_due record_changes is_from_today
is_due-after_write self file now later framed count h = ground arith

both : (a b : Bool) → a && b ≡ true → (a ≡ true) × (b ≡ true)
both true true h = (refl, refl)
both true false h = cc
both false b h = cc

due_parts :
    (self : SnapshotState) (now : Time)
    → self.force_pending ≡ false
    → is_due self now ≡ true
    → (not (ltb self.changes self.min_diffs) ≡ true)
      × (weekday now == 6 ≡ true)
      × (not (is_from_today self.ts now) ≡ true)
unfolding is_due
due_parts self now unforced due =
    let due' : not (ltb self.changes self.min_diffs)
          && (weekday now == 6 && not (is_from_today self.ts now))
        ≡ true =
      rw unforced at due in
    let (enough, rest) = both _ _ due' in
    let (sunday, fresh) = both _ _ rest in (enough, sunday, fresh)

due_now :
    (self : SnapshotState) (is_open : Bool) (now : Time)
    → self.force_pending ≡ false
    → is_due self now && is_open ≡ true
    → (is_open ≡ true)
      × (self.min_diffs ≤ self.changes)
      × (weekday now ≡ 6)
      × ((last : Time) → self.ts ≡ some last → last < midnight now)
unfolding is_due is_from_today
due_now self is_open now unforced due =
    let (unforced_due, open_file) = both _ _ due in
    let (enough, sunday, fresh) = due_parts self now unforced unforced_due in
    (
      open_file,
      ground arith,
      ground arith,
      λ last e. let behind : not (leb (midnight now) last) ≡ true = rw e at fresh in ground arith,
    )

module _ (framer : Framer) (serializer : Serializer) where
  -- Where no snapshot is forced, the file is changed only if it is open, enough changes have
  -- gathered, and it is Sunday, with no snapshot since its midnight.
  pub maybe_write-unforced :
      (self : SnapshotState) (file : File) (version : ℕ) (state : Fields) (m : Option Time)
      (now : Time) (write_ok : Bool)
      → self.force_pending ≡ false
      → (maybe_write framer serializer self file version state m now write_ok).1 ≢ file
      → (file.is_open ≡ true)
        × (self.min_diffs ≤ self.changes)
        × (weekday now ≡ 6)
        × ((last : Time) → self.ts ≡ some last → last < midnight now)
  unfolding maybe_write is_due is_from_today
  maybe_write-unforced self file version state m now write_ok unforced grown =
      elim (Bool-cases (is_due self now && file.is_open)) [
        | inl due ↦ due_now self file.is_open now unforced due
        | inr not_due ↦ absurd (grown (rw (maybe_write, not_due)))
      ]
