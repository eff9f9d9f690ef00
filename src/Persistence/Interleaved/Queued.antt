-- ===== src/Persistence/Interleaved/Queued.antt =====
-- Changes that are queued while a flush waits.
use mathlib.Core.Path.{subst}
use kanta.Base.{
  ℕ, zero, suc, ◌≤◌, ◌≡◌, refl, ap, sym, ◌∙◌, Bool, true, false, not, Option, none, some, String,
  List, [], ◌∷◌, ◌++◌, append-nil, length, length-append, drop, drop-append, if◌then◌else◌, arith,
  Option-cases, inl, inr, if-holds,
}
use kanta.Base.Bytes.{Bytes}
use kanta.Value.{Fields}
use kanta.Diff.{diff}
use kanta.Structs.{Time, ChangeRecord, Serializer}
use kanta.Framing.{Framer}
use kanta.LockedFile.{open_file}
use kanta.Persistence.{
  Impl, Mtime, Disk, not_opened, read_only, write_failed, FlushResult, delta_of, is_nil, enqueue,
  queue_change, all_written, frame_changes, write_pending, open_and_write, flush,
}
use kanta.Persistence.Outcomes.{write_pending-too_long, write_pending-framed}
use kanta.Persistence.Interleaved.{
  Progress, ended, waiting, start_flush, finish_write, write_result, Change, queue_all,
  finish_flush, complete,
}

drop-all : (xs : List ChangeRecord) → drop (length xs) xs ≡ []
drop-all xs = ap (drop (length xs)) (sym (append-nil xs)) ∙ drop-append xs []

drop-snoc :
    (n : ℕ) (xs : List ChangeRecord) (r : ChangeRecord)
    → n ≤ length xs
    → drop n (xs ++ r ∷ []) ≡ drop n xs ++ r ∷ []
drop-snoc zero xs r h = refl
drop-snoc (suc n) [] r h = absurd (omega arith)
drop-snoc (suc n) (x ∷ xs) r h = drop-snoc n xs r (omega arith)

if-ap {ℓ ℓ'} :
    {A : Type ℓ} {B : Type ℓ'} (f : A → B) (b : Bool) {x y : A} {z w : B}
    → f x ≡ z
    → f y ≡ w
    → f (if b then x else y) ≡ (if b then z else w)
if-ap f true e e' = e
if-ap f false e e' = e'

-- queueing keeps what is in the queue at its front
queue_change-length :
    (self : Impl) (now : Time) (action : String) (current : Fields) (user : Option String)
    (mtime : Mtime) (force : Bool)
    → length self.pending_changes
      ≤ length (queue_change self now action current user mtime force).0.pending_changes
unfolding queue_change enqueue
queue_change-length self now action current user mtime force =
    elim (Option-cases (delta_of (diff self.statedict current) force)) [
      | inl same ↦ rw (queue_change, same) (omega arith)
      | inr (delta, e) ↦ rw (queue_change, e) (omega (arith, length-append self.pending_changes))
    ]

-- a change may be queued before the end of a write, or behind it
finish_write-queue_change :
    (self : Impl) (changes : List ChangeRecord) (bytes : Bytes) (c : Change)
    → length changes ≤ length self.pending_changes
    → finish_write
        (queue_change self c.now c.action c.current c.user c.mtime c.force).0
        changes
        bytes
      ≡ (queue_change
          (finish_write self changes bytes)
          c.now
          c.action
          c.current
          c.user
          c.mtime
          c.force).0
unfolding queue_change enqueue finish_write
finish_write-queue_change self changes bytes c h =
    elim (Option-cases (delta_of (diff self.statedict c.current) c.force)) [
      | inl same ↦ rw (queue_change, same) refl
      | inr (delta, e) ↦
          rw (queue_change, enqueue, e, drop-snoc (length changes) self.pending_changes _ h) refl
    ]

-- what is queued during a write is what is queued after it
finish_write-queue_all :
    (changes : List ChangeRecord) (bytes : Bytes) (cs : List Change) (self : Impl)
    → length changes ≤ length self.pending_changes
    → finish_write (queue_all self cs) changes bytes
      ≡ queue_all (finish_write self changes bytes) cs
finish_write-queue_all changes bytes [] self h = refl
finish_write-queue_all changes bytes (c ∷ cs) self h =
    let next = (queue_change self c.now c.action c.current c.user c.mtime c.force).0 in
    let longer = queue_change-length self c.now c.action c.current c.user c.mtime c.force in
    finish_write-queue_all changes bytes cs next (omega (arith, longer))
    ∙ ap (λ s. queue_all s cs) (finish_write-queue_change self changes bytes c h)

-- a change queued before a failure is known is queued behind it
fail-queue_change :
    (self : Impl) (c : Change)
    → record (queue_change self c.now c.action c.current c.user c.mtime c.force).0 {
      flush_failed = true;
    }
      ≡ (queue_change
          (record self { flush_failed = true })
          c.now
          c.action
          c.current
          c.user
          c.mtime
          c.force).0
unfolding queue_change enqueue
fail-queue_change self c = elim (Option-cases (delta_of (diff self.statedict c.current) c.force)) [
  | inl same ↦ rw (queue_change, same) refl
  | inr (delta, e) ↦ rw (queue_change, enqueue, e) refl
]

fail-queue_all :
    (cs : List Change) (self : Impl)
    → record (queue_all self cs) { flush_failed = true }
      ≡ queue_all (record self { flush_failed = true }) cs
fail-queue_all [] self = refl
fail-queue_all (c ∷ cs) self =
    let next = (queue_change self c.now c.action c.current c.user c.mtime c.force).0 in
    fail-queue_all cs next ∙ ap (λ s. queue_all s cs) (fail-queue_change self c)

-- queueing writes nothing
queue_change-file :
    (self : Impl) (c : Change)
    → (queue_change self c.now c.action c.current c.user c.mtime c.force).0.file ≡ self.file
unfolding queue_change enqueue
queue_change-file self c = elim (Option-cases (delta_of (diff self.statedict c.current) c.force)) [
  | inl same ↦ rw (queue_change, same) refl
  | inr (delta, e) ↦ rw (queue_change, e) refl
]

queue_all-file : (cs : List Change) (self : Impl) → (queue_all self cs).file ≡ self.file
queue_all-file [] self = refl
queue_all-file (c ∷ cs) self =
    let next = (queue_change self c.now c.action c.current c.user c.mtime c.force).0 in
    queue_all-file cs next ∙ queue_change-file self c

-- the result of a write, with the changes queued behind it
abbrev queued_after : FlushResult → List Change → FlushResult
queued_after result cs = (queue_all result.0 cs, result.1)

write_result-queue_all :
    (self : Impl) (changes : List ChangeRecord) (cs : List Change) (write_ok : Bool)
    (framed : Option Bytes)
    → length changes ≤ length self.pending_changes
    → write_result (queue_all self cs) changes write_ok framed
      ≡ queued_after (write_result self changes write_ok framed) cs
unfolding write_result
write_result-queue_all self changes cs write_ok none h = refl
write_result-queue_all self changes cs true (some bytes) h =
    ap (λ s. (s, none)) (finish_write-queue_all changes bytes cs self h)
write_result-queue_all self changes cs false (some bytes) h =
    ap (λ s. (s, some write_failed)) (fail-queue_all cs self)

-- what waits are all the changes that are in the queue
abbrev WaitsForQueue : Progress → Type 0
WaitsForQueue (ended self error) = Unit
WaitsForQueue (waiting self changes) = changes ≡ self.pending_changes

start_flush-WaitsForQueue : (self : Impl) (disk : Disk) → WaitsForQueue (start_flush self disk)
unfolding start_flush
start_flush-WaitsForQueue self disk =
    if-holds WaitsForQueue (not self.opened) {x = ended self (some not_opened)} tt (
      if-holds WaitsForQueue self.readonly {x = ended self (some read_only)} tt (
        if-holds WaitsForQueue self.flush_failed {x = ended self none} tt (
          if-holds WaitsForQueue (is_nil self.pending_changes) {x = ended self none} tt (
            if-holds WaitsForQueue self.file.is_open {x = waiting self self.pending_changes} refl
              (if-holds WaitsForQueue (open_file self.file true false disk.open_ok).1 refl tt)))))

write_result-now :
    (self : Impl) (bytes : Bytes) (write_ok : Bool)
    → write_result self self.pending_changes write_ok (some bytes) ≡ (
        if write_ok
        then (all_written self bytes, none)
        else (record self { flush_failed = true }, some write_failed))
unfolding write_result finish_write all_written
write_result-now self bytes true = rw (drop-all self.pending_changes) refl
write_result-now self bytes false = refl

module _ (framer : Framer) (serializer : Serializer) where
  write_pending-finish_flush :
      (self : Impl) (write_ok : Bool)
      → finish_flush framer serializer self self.pending_changes write_ok
        ≡ write_pending framer serializer self write_ok
  unfolding finish_flush write_result finish_write all_written
  write_pending-finish_flush self write_ok =
      elim (Option-cases
        (frame_changes framer serializer (length self.file.content) self.pending_changes)) [
          | inl too_long ↦
              rw
                (
                  finish_flush,
                  too_long,
                  write_pending-too_long framer serializer self write_ok too_long,
                )
                refl
          | inr (bytes, framed) ↦
              rw
                (
                  finish_flush,
                  framed,
                  write_pending-framed framer serializer self bytes write_ok framed,
                )
                (write_result-now self bytes write_ok)
        ]

  -- the two halves of a flush, one after the other
  flush-complete :
      (self : Impl) (disk : Disk)
      → complete framer serializer (start_flush self disk) disk.write_ok
        ≡ flush framer serializer self disk
  unfolding start_flush flush open_and_write
  flush-complete self disk =
      let f = (λ (p : Progress). complete framer serializer p disk.write_ok) in
      let opened = open_file self.file true false disk.open_ok in
      if-ap f (not self.opened) refl (
        if-ap f self.readonly refl (
          if-ap f self.flush_failed refl (
            if-ap f (is_nil self.pending_changes) refl (
              if-ap f self.file.is_open (write_pending-finish_flush self disk.write_ok) (
                if-ap f opened.1
                  (write_pending-finish_flush (record self { file = opened.0 }) disk.write_ok)
                  refl)))))

  finish_flush-queue_all :
      (self : Impl) (changes : List ChangeRecord) (cs : List Change) (write_ok : Bool)
      → length changes ≤ length self.pending_changes
      → finish_flush framer serializer (queue_all self cs) changes write_ok
        ≡ queued_after (finish_flush framer serializer self changes write_ok) cs
  unfolding finish_flush
  finish_flush-queue_all self changes cs write_ok h =
      rw (queue_all-file cs self) (write_result-queue_all self changes cs write_ok _ h)

  -- Where a flush waits for its file and a list of changes is queued meanwhile, the flush has the
  -- same result as one that runs in one step before the changes are queued: the same file, queue
  -- and error, whether the write succeeds or not.
  pub flush-interleaved :
      (self started : Impl) (disk : Disk) (changes : List ChangeRecord) (cs : List Change)
      → start_flush self disk ≡ waiting started changes
      → finish_flush framer serializer (queue_all started cs) changes disk.write_ok ≡ (
        queue_all (flush framer serializer self disk).0 cs,
        (flush framer serializer self disk).1,
      )
  flush-interleaved self started disk changes cs waits =
      let whole : changes ≡ started.pending_changes =
        subst WaitsForQueue waits (start_flush-WaitsForQueue self disk) in
      let halves =
        ap (λ p. complete framer serializer p disk.write_ok) (sym waits)
        ∙ flush-complete self disk in
      finish_flush-queue_all started changes cs disk.write_ok (rw whole (omega arith))
      ∙ ap (λ r. queued_after r cs) halves
