-- ===== src/SnapshotState/Outcomes.antt =====
-- The two ways in which `SnapshotState.maybe_write` ends.
use kanta.Base.{
  ◌≡◌, Bool, false, ◌&&◌, Option, some, ◌++◌, length, ℕ, Bool-cases, Option-cases, if-holds, inl,
  inr,
}
use kanta.Base.Bytes.{Bytes}
use kanta.Value.{Fields}
use kanta.Structs.{Time, Serializer}
use kanta.Framing.{Framer}
use kanta.LockedFile.{File}
use kanta.SnapshotState.{SnapshotState, is_due, write, maybe_write}

abbrev pub after_write : SnapshotState → File → Time → Bytes → SnapshotState × File
after_write self file now framed = (
  record self { changes = 0; ts = some now; force_pending = false },
  record file { content = file.content ++ framed },
)

module _ (framer : Framer) (serializer : Serializer) where
  -- nothing is changed, or one frame is at the end of the file
  pub maybe_write-holds {ℓ} :
      (P : SnapshotState × File → Type ℓ) (self : SnapshotState) (file : File) (version : ℕ)
      (state : Fields) (m : Option Time) (now : Time) (write_ok : Bool)
      → P (self, file)
      → ((framed : Bytes)
          → framer.frame_snapshot
              (serializer.encode_snapshot (record { ts = now; v = version; state = state; m = m }))
              (length file.content)
            ≡ some framed
          → P (after_write self file now framed))
      → P (maybe_write framer serializer self file version state m now write_ok)
  unfolding maybe_write write
  maybe_write-holds P self file version state m now write_ok kept grown =
      if-holds P (is_due self now && file.is_open)
        (elim (Option-cases (
          framer.frame_snapshot
            (serializer.encode_snapshot (record { ts = now; v = version; state = state; m = m }))
            (length file.content))) [
              | inl too_long ↦ rw (write, too_long) kept
              | inr (framed, e) ↦ elim (Bool-cases write_ok) [
                | inl taken ↦ rw (write, e, taken) (grown framed e)
                | inr refused ↦ rw (write, e, refused) kept
              ]
            ])
        kept
