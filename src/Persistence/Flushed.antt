-- ===== src/Persistence/Flushed.antt =====
-- What is left to write after a flush.
use kanta.Base.{
  sym, ◌∙◌, ◌≡◌, ◌⊎◌, inl, inr, refl, Bool, true, false, not, none, some, [], Option-cases,
  if-holds, if-cases, length, List, ◌∷◌,
}
use kanta.LockedFile.{open_file}
use kanta.Structs.{ChangeRecord, Serializer}
use kanta.Framing.{Framer}
use kanta.Persistence.{
  Impl, Disk, FlushResult, flush, is_nil, frame_changes, write_pending, open_and_write, all_written,
  not_opened, read_only, write_failed, lock_failed,
}
use kanta.Persistence.Outcomes.{write_pending-too_long, write_pending-framed}

no_failure : true ≡ false → ⊥
no_failure h = cc

nil-of : (changes : List ChangeRecord) → is_nil changes ≡ true → changes ≡ []
nil-of [] h = refl
nil-of (c ∷ changes) h = cc

-- a flush that raises nothing has left nothing to write, unless a write had failed before it
abbrev pub IsFlushed : Impl → FlushResult → Type 0
IsFlushed before (self, error) =
    error ≡ none
    → (self.pending_changes ≡ []) ⊎ ((before.flush_failed ≡ true) × (self.flush_failed ≡ true))

module _ (framer : Framer) (serializer : Serializer) where
  write_pending-IsFlushed :
      (before self : Impl) (write_ok : Bool)
      → IsFlushed before (write_pending framer serializer self write_ok)
  unfolding all_written
  write_pending-IsFlushed before self write_ok =
      elim (Option-cases
        (frame_changes framer serializer (length self.file.content) self.pending_changes)) [
          | inl too_long ↦
              rw (write_pending-too_long framer serializer self write_ok too_long) (λ e. cc)
          | inr (bytes, framed) ↦
              rw (write_pending-framed framer serializer self bytes write_ok framed) (
                if-holds (IsFlushed before) write_ok {x = (all_written self bytes, none)}
                  {y = (record self { flush_failed = true }, some write_failed)} (λ e. inl refl)
                  (λ e. cc))
        ]

  open_and_write-IsFlushed :
      (self : Impl) (disk : Disk) → IsFlushed self (open_and_write framer serializer self disk)
  unfolding open_and_write
  open_and_write-IsFlushed self disk =
      if-holds (IsFlushed self) (open_file self.file true false disk.open_ok).1
        {y = (
          record self { file = (open_file self.file true false disk.open_ok).0 },
          some lock_failed,
        )}
        (write_pending-IsFlushed self
          (record self { file = (open_file self.file true false disk.open_ok).0 }) disk.write_ok)
        (λ e. cc)

  pub flush-IsFlushed :
      (self : Impl) (disk : Disk) → IsFlushed self (flush framer serializer self disk)
  unfolding flush
  flush-IsFlushed self disk =
      if-holds (IsFlushed self) (not self.opened) {x = (self, some not_opened)} (λ e. cc)
        (if-holds (IsFlushed self) self.readonly {x = (self, some read_only)} (λ e. cc)
          (if-cases (IsFlushed self) self.flush_failed {x = (self, none)}
            (λ failed e. inr (failed, failed))
            (λ fine.
              if-cases (IsFlushed self) (is_nil self.pending_changes) {x = (self, none)}
                (λ nothing e. inl (nil-of self.pending_changes nothing))
                (λ some_left.
                  if-holds (IsFlushed self) self.file.is_open
                    (write_pending-IsFlushed self self disk.write_ok)
                    (open_and_write-IsFlushed self disk)))))

  -- a flush that raises nothing, where no write has failed
  pub flush-empties :
      (self : Impl) (disk : Disk)
      → self.flush_failed ≡ false
      → (flush framer serializer self disk).1 ≡ none
      → (flush framer serializer self disk).0.pending_changes ≡ []
  flush-empties self disk fine e = elim (flush-IsFlushed self disk e) [
    | inl empty ↦ empty
    | inr (failed, still) ↦ absurd (no_failure (sym failed ∙ fine))
  ]
