-- ===== src/SnapshotState.antt =====
-- snapshot.py: when a snapshot is written, and the counters that decide it.
pub mod Outcomes
pub mod Policy
use kanta.Base.{
  ℕ, zero, suc, ◌+◌, ◌-◌, ◌*◌, ◌/◌, ◌%◌, Bool, true, false, not, ◌&&◌, ◌||◌, Option, none, some,
  ◌==◌, ltb, leb, if◌then◌else◌, ◌++◌, [], length,
}
use kanta.Base.Bytes.{Bytes}
use kanta.Value.{Fields}
use kanta.Structs.{Time, Snapshot, Serializer}
use kanta.Framing.{Framer}
use kanta.LockedFile.{File, append}

pub record SnapshotState : Type 0 where
  pub ts : Option Time
  pub changes : ℕ
  pub force_pending : Bool
  pub min_diffs : ℕ

abbrev pub new_snapshot_state : SnapshotState
new_snapshot_state = record { ts = none; changes = 0; force_pending = false; min_diffs = 100 }

unfoldable pub request_force : SnapshotState → SnapshotState
request_force self = record self { force_pending = true }

unfoldable pub record_changes : SnapshotState → ℕ → SnapshotState
record_changes self count = record self { changes = self.changes + count }

abbrev pub day : ℕ
day = 24 * 60 * 60 * 1000000

-- ts.weekday(), with 6 for Sunday
unfoldable pub weekday : Time → ℕ
weekday ts = (ts / day) % 7

-- ts.replace(hour=0, minute=0, second=0, microsecond=0)
unfoldable pub midnight : Time → Time
midnight ts = ts - ts % day

-- the newest snapshot is from this Sunday already
unfoldable pub is_from_today : Option Time → Time → Bool
unfolding midnight
is_from_today none ts = false
is_from_today (some last) ts = leb (midnight ts) last

-- the guards of `maybe_write`
unfoldable pub is_due : SnapshotState → Time → Bool
unfolding weekday is_from_today
is_due self ts =
    self.force_pending
    || not (ltb self.changes self.min_diffs) && (weekday ts == 6 && not (is_from_today self.ts ts))

module _ (framer : Framer) (serializer : Serializer) where
  -- `_write`; `none` is an exception. `write_ok` says whether the disk takes the bytes.
  unfoldable pub write :
      SnapshotState → File → ℕ → Fields → Option Time → Time → Bool → Option (SnapshotState × File)
  unfolding append
  write self file version state m now write_ok =
      let payload =
        serializer.encode_snapshot (record { ts = now; v = version; state = state; m = m }) in
      elim (framer.frame_snapshot payload (length file.content)) [
        | none ↦ none
        | some framed ↦
            if write_ok
            then some (record self { changes = 0; ts = some now }, append file framed)
            else none
      ]

  -- `maybe_write`; an exception of `_write` is logged, and nothing is changed
  unfoldable pub maybe_write :
      SnapshotState → File → ℕ → Fields → Option Time → Time → Bool → SnapshotState × File
  unfolding is_due write
  maybe_write self file version state m now write_ok =
      if is_due self now && file.is_open
      then elim (write self file version state m now write_ok) [
        | none ↦ (self, file)
        | some (written, file') ↦ (record written { force_pending = false }, file')
      ]
      else (self, file)
