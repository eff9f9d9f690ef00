-- ===== src/Database/Open/Held.antt =====
-- What the steps of persistence.py leave of an open database: it stays open, and so does its file.
use kanta.Base.{
  ◌==◌, ℕ, ◌≡◌, Bool, true, false, not, ◌||◌, Option, none, String, Option-cases, inl, inr,
  if-holds, length, if-cases,
}
use kanta.Value.{Fields}
use kanta.Diff.{diff}
use kanta.Structs.{Time, Serializer}
use kanta.Framing.{Framer}
use kanta.LockedFile.{File}
use kanta.SnapshotState.{SnapshotState}
use kanta.SnapshotState.Outcomes.{maybe_write-holds}
use kanta.Persistence.{
  Impl, Mtime, Disk, FlushResult, delta_of, is_nil, queue_change, frame_changes, write_pending,
  flush, maybe_snapshot,
}
use kanta.Database.Open.{
  System, write_open_record, normalize, is_some, open_action, request_force, unchanged_time,
}

abbrev pub IsHeld : Impl → Type 0
IsHeld self = (self.opened ≡ true) × (self.file.is_open ≡ true)

pub queue_change-IsHeld :
    (self : Impl) (now : Time) (action : String) (current : Fields) (user : Option String)
    (mtime : Mtime) (force : Bool)
    → IsHeld self
    → IsHeld (queue_change self now action current user mtime force).0
unfolding queue_change
queue_change-IsHeld self now action current user mtime force h =
    elim (Option-cases (delta_of (diff self.statedict current) force)) [
      | inl same ↦ rw (queue_change, same) h
      | inr (delta, e) ↦ rw (queue_change, e) h
    ]

module _ (framer : Framer) (serializer : Serializer) where
  write_pending-IsHeld :
      (self : Impl) (write_ok : Bool)
      → IsHeld self
      → IsHeld (write_pending framer serializer self write_ok).0
  unfolding write_pending
  write_pending-IsHeld self write_ok h =
      elim (Option-cases
        (frame_changes framer serializer (length self.file.content) self.pending_changes)) [
          | inl too_long ↦ rw (write_pending, too_long) h
          | inr (bytes, e) ↦
              rw (write_pending, e) (if-holds (λ (r : FlushResult). IsHeld r.0) write_ok h h)
        ]

  pub flush-IsHeld :
      (self : Impl) (disk : Disk) → IsHeld self → IsHeld (flush framer serializer self disk).0
  unfolding flush
  flush-IsHeld self disk h =
      let P = λ (r : FlushResult). IsHeld r.0 in
      if-holds P (not self.opened) h (
        if-holds P self.readonly h (
          if-holds P self.flush_failed h (
            if-holds P (is_nil self.pending_changes) h (
              if-cases P self.file.is_open (λ e. write_pending-IsHeld self disk.write_ok h)
                (λ e. cc)))))

  pub maybe_snapshot-IsHeld :
      (self : Impl) (now : Time) (write_ok : Bool)
      → IsHeld self
      → IsHeld (maybe_snapshot framer serializer self now write_ok)
  unfolding maybe_snapshot
  maybe_snapshot-IsHeld self now write_ok h =
      maybe_write-holds framer serializer
        (λ (r : SnapshotState × File). IsHeld (record self { snapshot = r.0; file = r.1 }))
        self.snapshot self.file self.version self.statedict self.mtime now write_ok h
        (λ framed e. h)

  write_open_record-IsHeld :
      (sys : System) (self : Impl)
      → IsHeld self
      → IsHeld (write_open_record framer serializer sys self).0
  unfolding write_open_record
  write_open_record-IsHeld sys self h =
      let forced : Impl = record self { snapshot = request_force self.snapshot } in
      let flushed = flush-IsHeld forced sys.disk h in
      elim (Option-cases (flush framer serializer forced sys.disk).1) [
        | inl good ↦
            rw (write_open_record, good)
              (maybe_snapshot-IsHeld _ sys.snapshot_now sys.snapshot_ok flushed)
        | inr (e, bad) ↦ rw (write_open_record, bad) flushed
      ]

  pub normalize-IsHeld :
      (sys : System) (previous : ℕ) (normalized : Fields) (self : Impl)
      → IsHeld self
      → IsHeld (normalize framer serializer sys previous normalized self).0
  unfolding normalize
  normalize-IsHeld sys previous normalized self h =
      let queued =
        queue_change-IsHeld self sys.change_now
          (open_action (not (self.version == previous)) self.version) normalized none unchanged_time
          false h in
      if-holds (λ (r : FlushResult). IsHeld r.0)
        (not (self.version == previous)
          || is_some
              (queue_change self sys.change_now
                (open_action (not (self.version == previous)) self.version) normalized none
                unchanged_time false).1)
        (write_open_record-IsHeld sys _ queued) queued
