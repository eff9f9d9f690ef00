-- ===== src/Database/Close/Released.antt =====
-- What `close` leaves.
use kanta.Persistence.Flushed.{IsFlushed, flush-IsFlushed}
use kanta.Database.Open.Held.{IsHeld, flush-IsHeld}
use kanta.LockedFile.{close_file}
use kanta.Base.{
  ap, ◌∙◌, arith, ◌≡◌, ◌⊎◌, inl, inr, refl, Bool, true, false, not, Option, none, some, [],
  if-cases,
}
use kanta.Structs.{Time, Serializer}
use kanta.Framing.{Framer}
use kanta.Persistence.{Impl, Disk, FlushError, FlushResult, flush}
use kanta.Database.{Database, sleeping, failed}
use kanta.Database.Close.{
  snapshot_unless_failed, flush_and_snapshot, cancelled, finished, cancel_task, finish_close,
  unless_failed, close,
}

-- nothing is left to write, or a write has failed before
abbrev pub IsWritten : Impl → Type 0
IsWritten self = (self.pending_changes ≡ []) ⊎ (self.flush_failed ≡ true)

not-false : (b : Bool) → not b ≡ false → b ≡ true
not-false b h = ground arith

snapshot_unless_failed-eq :
    (framer : Framer) (serializer : Serializer) (now : Time) (write_ok : Bool)
    (result : FlushResult) (e : FlushError)
    → result.1 ≡ some e
    → snapshot_unless_failed framer serializer now write_ok result ≡ (result.0, some e)
unfolding snapshot_unless_failed
snapshot_unless_failed-eq framer serializer now write_ok (impl, some e') e h =
    ap (λ error. (impl, error)) h
snapshot_unless_failed-eq framer serializer now write_ok (impl, none) e h = cc

-- not open, with the file closed, and with nothing left to write
abbrev pub IsReleased : Impl → Type 0
IsReleased self =
    (self.opened ≡ false)
    × (self.file.is_open ≡ false)
    × ((self.readonly ≡ true) ⊎ (IsWritten self))

is-IsWritten :
    (before self : Impl)
    → (self.pending_changes ≡ []) ⊎ ((before.flush_failed ≡ true) × (self.flush_failed ≡ true))
    → IsWritten self
is-IsWritten before self (inl empty) = inl empty
is-IsWritten before self (inr (early, still)) = inr still

abbrev pub IsClosed {ℓ} : {Data : Type ℓ} → Database Data × Option FlushError → Type 0
IsClosed (self, error) = error ≡ none → IsReleased self.impl

module _ {ℓ} {Data : Type ℓ} (framer : Framer) (serializer : Serializer) where
  finished-IsClosed :
      (self : Database Data) (result : FlushResult)
      → (result.0.readonly ≡ true) ⊎ (IsFlushed self.impl result)
      → IsClosed (finished self result)
  unfolding finished close_file
  finished-IsClosed self (impl, some e) h = λ e. cc
  finished-IsClosed self (impl, none) (inl reading) = λ e. (refl, refl, inl reading)
  finished-IsClosed self (impl, none) (inr flushed) =
      λ e. (refl, refl, inr (is-IsWritten self.impl impl (flushed refl)))

  unless_failed-IsClosed :
      (disk : Disk) (result : Database Data × Option FlushError)
      → IsClosed (unless_failed framer serializer disk result)
  unfolding unless_failed finish_close
  unless_failed-IsClosed disk (self, some e) = λ e. cc
  unless_failed-IsClosed disk (self, none) = finished-IsClosed self _ (
      if-cases (λ (r : FlushResult). (r.0.readonly ≡ true) ⊎ (IsFlushed self.impl r))
        (not self.impl.readonly) {x = flush framer serializer self.impl disk}
        {y = (self.impl, none)} (λ writing. inr (flush-IsFlushed framer serializer self.impl disk))
        (λ reading. inl (not-false self.impl.readonly reading)))

  close-IsClosed :
      (self : Database Data) (cancel_disk final_disk : Disk) (now : Time) (write_ok : Bool)
      → self.impl.opened ≡ true
      → IsClosed (close framer serializer self cancel_disk final_disk now write_ok)
  unfolding close
  close-IsClosed self cancel_disk final_disk now write_ok h =
      if-cases IsClosed (not self.impl.opened) {x = (self, none)} (λ shut. cc)
        (λ opened.
          unless_failed-IsClosed final_disk
            (cancel_task framer serializer self.background_task self cancel_disk now write_ok))

  -- A `close` that raises nothing leaves an open database not open, with its file closed, and so
  -- with the lock released; and with nothing left to write, unless it is opened for reading, or a
  -- write failed.
  pub close-IsReleased :
      (self : Database Data) (cancel_disk final_disk : Disk) (now : Time) (write_ok : Bool)
      → self.impl.opened ≡ true
      → (close framer serializer self cancel_disk final_disk now write_ok).1 ≡ none
      → IsReleased (close framer serializer self cancel_disk final_disk now write_ok).0.impl
  close-IsReleased self cancel_disk final_disk now write_ok h =
      close-IsClosed self cancel_disk final_disk now write_ok h

  close-opened :
      (self : Database Data) (cancel_disk final_disk : Disk) (now : Time) (write_ok : Bool)
      → self.impl.opened ≡ true
      → close framer serializer self cancel_disk final_disk now write_ok
        ≡ unless_failed framer serializer final_disk
            (cancel_task framer serializer self.background_task self cancel_disk now write_ok)
  unfolding close
  close-opened self cancel_disk final_disk now write_ok h =
      let next =
        unless_failed framer serializer final_disk
          (cancel_task framer serializer self.background_task self cancel_disk now write_ok) in
      if-cases (λ r. r ≡ next) (not self.impl.opened) {x = (self, none)} (λ shut. cc)
        (λ opened. refl)

  -- Let the flush of the cancelled loop fail. Then `close` raises its error, and leaves the
  -- database open, with its file open; and every later `close` raises the same error and changes
  -- nothing, whatever the disk does then. So the lock is not released while the process lives.
  pub close-stuck :
      (self : Database Data) (cancel_disk final_disk : Disk) (now : Time) (write_ok : Bool)
      (e : FlushError)
      → IsHeld self.impl
      → self.background_task ≡ sleeping
      → (flush framer serializer self.impl cancel_disk).1 ≡ some e
      → (stuck : Database Data) × (close framer serializer self cancel_disk final_disk now write_ok
          ≡ (stuck, some e))
        × IsHeld stuck.impl
        × ((disk disk' : Disk) (later : Time) (ok : Bool)
            → close framer serializer stuck disk disk' later ok ≡ (stuck, some e))
  unfolding close cancel_task unless_failed flush_and_snapshot cancelled
  close-stuck self cancel_disk final_disk now write_ok e h sleeps bad =
      let flushed = flush framer serializer self.impl cancel_disk in
      let stuck : Database Data = record self { impl = flushed.0; background_task = failed e } in
      let held : IsHeld flushed.0 = flush-IsHeld framer serializer self.impl cancel_disk h in
      let first : cancel_task framer serializer self.background_task self cancel_disk now write_ok
          ≡ (stuck, some e) =
        ap (λ t. cancel_task framer serializer t self cancel_disk now write_ok) sleeps
        ∙ ap (cancelled self)
            (snapshot_unless_failed-eq framer serializer now write_ok flushed e bad) in
      (
        stuck,
        close-opened self cancel_disk final_disk now write_ok h.0
            ∙ ap (unless_failed framer serializer final_disk) first,
        held,
        λ disk disk' later ok. close-opened stuck disk disk' later ok held.0,
      )
