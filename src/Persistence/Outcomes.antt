-- ===== src/Persistence/Outcomes.antt =====
-- The branches of `queue_change` and `flush`.
use kanta.Base.{
  ◌≡◌, ◌↔◌, ◌⊎◌, refl, ap, Bool, true, false, not, Option, none, some, [], ◌++◌, length,
  if◌then◌else◌, Option-cases, inl, inr, String,
}
use kanta.Base.Bytes.{Bytes}
use kanta.Value.{Fields, obj, py_eq, UniqueKeys}
use kanta.Diff.{diff}
use kanta.Diff.Unchanged.{diff-eq-none_iff}
use kanta.Structs.{Time, ChangeRecord, Serializer}
use kanta.Framing.{Framer}
use kanta.Base.{if-holds}
use kanta.LockedFile.{File}
use kanta.LockedFile.Outcomes.{open_file-holds}
use kanta.Persistence.{
  is_nil, all_written, Impl, Mtime, Disk, FlushError, write_failed, frame_too_long, FlushResult,
  delta_of, queue_change, frame_changes, write_pending, flush, open_and_write, lock_failed,
}

delta_of-eq-none :
    (changed : Option Fields) (force : Bool)
    → delta_of changed force ≡ none
    → (force ≡ false) × (changed ≡ none)
delta_of-eq-none none false h = (refl, refl)
delta_of-eq-none none true h = cc
delta_of-eq-none (some d) force h = cc

some_record :
    (self self' : Impl) (r : ChangeRecord)
    → ◌≡◌ {A = Impl × Option ChangeRecord} (self', some r) (self, none)
    → ⊥
some_record self self' r h =
    let e : some r ≡ none = ap (λ (p : Impl × Option ChangeRecord). p.1) h in cc

-- Nothing is queued, and the state kept, exactly when the change is not forced and leaves a state
-- that equals the one in memory by `==`; both states have distinct keys at every depth.
pub queue_change-eq-none_iff :
    (self : Impl) (now : Time) (action : String) (current : Fields) (user : Option String)
    (mtime : Mtime) (force : Bool)
    → UniqueKeys self.statedict
    → UniqueKeys current
    → (queue_change self now action current user mtime force ≡ (self, none))
      ↔ ((force ≡ false) × (py_eq (obj self.statedict) (obj current) ≡ true))
unfolding queue_change
queue_change-eq-none_iff self now action current user mtime force us uc =
    let same = diff-eq-none_iff self.statedict current us uc in
    (
      λ h. elim (Option-cases (delta_of (diff self.statedict current) force)) [
        | inl e ↦
            let (unforced, unchanged) = delta_of-eq-none (diff self.statedict current) force e in
            (unforced, same.0 unchanged)
        | inr (delta, e) ↦ absurd (some_record self _ _ (rw (queue_change, e) at h))
      ],
      λ (unforced, eq). rw (queue_change, unforced, same.1 eq),
    )

module _ (framer : Framer) (serializer : Serializer) where
  -- nothing of the queue is written, or all of it is
  abbrev pub IsAllOrNothing : Impl → FlushResult → Type 0
  IsAllOrNothing self (self', error) =
      (self'.statedict ≡ self.statedict)
      × (((self'.pending_changes ≡ self.pending_changes) × (self'.file.content ≡ self.file.content))
          ⊎ ((bytes : Bytes) × (error ≡ none)
              × (frame_changes framer serializer (length self.file.content) self.pending_changes
                  ≡ some bytes)
              × (self'.file.content ≡ self.file.content ++ bytes)
              × (self'.pending_changes ≡ [])))

  -- what `write_pending` comes to, once the changes are framed
  abbrev pub framed_result : Impl → Bytes → Bool → FlushResult
  framed_result self bytes write_ok =
      if write_ok
      then (all_written self bytes, none)
      else (record self { flush_failed = true }, some write_failed)

  pub write_pending-framed :
      (self : Impl) (bytes : Bytes) (write_ok : Bool)
      → frame_changes framer serializer (length self.file.content) self.pending_changes ≡ some bytes
      → write_pending framer serializer self write_ok ≡ framed_result self bytes write_ok
  unfolding write_pending
  write_pending-framed self bytes write_ok e = rw (write_pending, e)

  pub write_pending-too_long :
      (self : Impl) (write_ok : Bool)
      → frame_changes framer serializer (length self.file.content) self.pending_changes ≡ none
      → write_pending framer serializer self write_ok ≡ (self, some frame_too_long)
  unfolding write_pending
  write_pending-too_long self write_ok e = rw (write_pending, e)

  framed_result-IsAllOrNothing :
      (self : Impl) (bytes : Bytes) (write_ok : Bool)
      → frame_changes framer serializer (length self.file.content) self.pending_changes ≡ some bytes
      → IsAllOrNothing self (framed_result self bytes write_ok)
  unfolding all_written
  framed_result-IsAllOrNothing self bytes true e = (refl, inr (bytes, refl, e, refl, refl))
  framed_result-IsAllOrNothing self bytes false e = (refl, inl (refl, refl))

  write_pending-IsAllOrNothing :
      (self : Impl) (write_ok : Bool)
      → IsAllOrNothing self (write_pending framer serializer self write_ok)
  write_pending-IsAllOrNothing self write_ok =
      elim (Option-cases
        (frame_changes framer serializer (length self.file.content) self.pending_changes)) [
          | inl too_long ↦
              rw (write_pending-too_long self write_ok too_long) (refl, inl (refl, refl))
          | inr (bytes, e) ↦
              rw (write_pending-framed self bytes write_ok e)
                (framed_result-IsAllOrNothing self bytes write_ok e)
        ]

  open_and_write-IsAllOrNothing :
      (self : Impl) (disk : Disk) → IsAllOrNothing self (open_and_write framer serializer self disk)
  unfolding open_and_write
  open_and_write-IsAllOrNothing self disk =
      open_file-holds
        (λ (r : File × Bool). IsAllOrNothing self (
          if r.1
          then write_pending framer serializer (record self { file = r.0 }) disk.write_ok
          else (record self { file = r.0 }, some lock_failed)))
        self.file true false disk.open_ok
        (λ is_open exists locked.
          let file' : File = record (self.file) { is_open = is_open; exists = exists } in
          let self' = record self { file = file' } in
          if-holds (IsAllOrNothing self) locked (write_pending-IsAllOrNothing self' disk.write_ok)
            (refl, inl (refl, refl)))

  -- Where the system takes all bytes of a write or none, a flush keeps the state, and writes
  -- nothing and keeps the queue, or raises nothing, appends the frames of all the queued changes in
  -- order to the file, and empties the queue.
  pub flush-IsAllOrNothing :
      (self : Impl) (disk : Disk) → IsAllOrNothing self (flush framer serializer self disk)
  unfolding flush
  flush-IsAllOrNothing self disk =
      let P = IsAllOrNothing self in
      let kept : (error : Option FlushError) → P (self, error) =
        λ error. (refl, inl (refl, refl)) in
      if-holds P (not self.opened) (kept _) (
        if-holds P self.readonly (kept _) (
          if-holds P self.flush_failed (kept _) (
            if-holds P (is_nil self.pending_changes) (kept _) (
              if-holds P self.file.is_open (write_pending-IsAllOrNothing self disk.write_ok)
                (open_and_write-IsAllOrNothing self disk)))))
