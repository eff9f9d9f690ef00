-- ===== src/Persistence.antt =====
-- persistence.py: the queue of changes and its flush. The clock's reading is an argument, and so is
-- what the disk does.
pub mod Commands
pub mod Durable
pub mod Invariant
pub mod Recovery
pub mod Outcomes
pub mod Flushed
pub mod Interleaved
use kanta.Base.{
  ℕ, zero, suc, ◌+◌, Bool, true, false, not, Option, none, some, ◌>>=◌, ◌==◌, if◌then◌else◌, List,
  [], ◌∷◌, ◌++◌, length, drop, String,
}
use kanta.Base.Bytes.{Bytes}
use kanta.Value.{Fields, end}
use kanta.Diff.{diff}
use kanta.Structs.{Time, ChangeRecord, Serializer}
use kanta.Framing.{Framer}
use kanta.Replay.{or_else}
use kanta.SnapshotState
use kanta.LockedFile.{File, no_file, open_file, append}
use kanta.SnapshotState.{SnapshotState, record_changes, maybe_write, new_snapshot_state}

-- the state of `PersistenceMixin`, with `opened` and `readonly` of `KantaImpl`
pub record Impl : Type 0 where
  pub statedict : Fields
  pub pending_changes : List ChangeRecord
  pub version : ℕ
  pub mtime : Option Time
  pub opened : Bool
  pub readonly : Bool
  pub flush_failed : Bool
  pub file : File
  pub snapshot : SnapshotState

-- `__init__`, with that of `KantaImpl` for the two flags, on a file that does not exist
unfoldable pub new_impl : Impl
new_impl = record {
  statedict = end;
  pending_changes = [];
  version = 0;
  mtime = none;
  opened = false;
  readonly = false;
  flush_failed = false;
  file = no_file;
  snapshot = new_snapshot_state;
}

-- the argument `mtime`: True, False or a datetime
pub data Mtime : Type 0 where
  now_time unchanged_time : Mtime
  at_time : Time → Mtime

abbrev pub stamp : Mtime → Time → Option Time
stamp now_time now = some now
stamp unchanged_time now = none
stamp (at_time t) now = some t

-- `if not delta: if not force: return None; delta = {}`
abbrev pub delta_of : Option Fields → Bool → Option Fields
delta_of (some d) force = some d
delta_of none true = some end
delta_of none false = none

unfoldable pub enqueue : Impl → ChangeRecord → Fields → Impl
enqueue self r current = record self {
  pending_changes = self.pending_changes ++ r ∷ [];
  statedict = current;
  mtime = or_else r.m self.mtime;
}

-- `queue_change(action, current, user=…, mtime=…, force=…)`
unfoldable pub queue_change :
    Impl → Time → String → Fields → Option String → Mtime → Bool → Impl × Option ChangeRecord
unfolding enqueue
queue_change self now action current user mtime force =
    elim (delta_of (diff self.statedict current) force) [
      | none ↦ (self, none)
      | some delta ↦
          let r : ChangeRecord = record {
            ts = now;
            a = action;
            v = self.version;
            u = user;
            m = stamp mtime now;
            diff = delta;
          } in
          (enqueue self r current, some r)
    ]

pub data FlushError : Type 0 where
  not_opened read_only lock_failed frame_too_long write_failed : FlushError

-- what the system does when it is called: `open` gets the lock, and `write` takes the bytes
pub record Disk : Type 0 where
  pub open_ok : Bool
  pub write_ok : Bool

abbrev pub FlushResult : Type 0
FlushResult = Impl × Option FlushError

-- after `self.file.write`
unfoldable pub all_written : Impl → Bytes → Impl
unfolding record_changes append
all_written self bytes = record self {
  file = append self.file bytes;
  snapshot = record_changes self.snapshot (length self.pending_changes);
  pending_changes = [];
}

abbrev pub is_nil : List ChangeRecord → Bool
is_nil [] = true
is_nil (c ∷ cs) = false

module _ (framer : Framer) (serializer : Serializer) where
  -- the loop over `changes_to_write`, with the records joined
  unfoldable pub frame_changes : ℕ → List ChangeRecord → Option Bytes
  frame_changes offset [] = some []
  frame_changes offset (c ∷ changes) = do
    framed ← framer.frame_change (serializer.encode_change c) offset
    rest ← frame_changes (offset + length framed) changes
    some (framed ++ rest)

  -- the `try` block: the pending changes go to the end of the file in one write
  unfoldable pub write_pending : Impl → Bool → FlushResult
  unfolding frame_changes all_written
  write_pending self write_ok =
      elim (frame_changes (length self.file.content) self.pending_changes) [
        | none ↦ (self, some frame_too_long)
        | some bytes ↦
            if write_ok
            then (all_written self bytes, none)
            else (record self { flush_failed = true }, some write_failed)
      ]

  -- `self.file.open(self.filename, create=True)`, and what follows it
  unfoldable pub open_and_write : Impl → Disk → FlushResult
  unfolding write_pending open_file
  open_and_write self disk =
      let (file', locked) = open_file self.file true false disk.open_ok in
      let self' = record self { file = file' } in
      if locked then write_pending self' disk.write_ok else (self', some lock_failed)

  -- `flush_sync`, and `flush` where nothing runs between its steps
  unfoldable pub flush : Impl → Disk → FlushResult
  unfolding write_pending open_and_write
  flush self disk =
      if not self.opened
      then (self, some not_opened)
      else if self.readonly
      then (self, some read_only)
      else if self.flush_failed
      then (self, none)
      else if is_nil self.pending_changes
      then (self, none)
      else if self.file.is_open
      then write_pending self disk.write_ok
      else open_and_write self disk

  -- `maybe_snapshot`
  unfoldable pub maybe_snapshot : Impl → Time → Bool → Impl
  unfolding maybe_write
  maybe_snapshot self now write_ok =
      let (snapshot', file') =
        maybe_write framer serializer self.snapshot self.file self.version self.statedict self.mtime
          now write_ok in
      record self { snapshot = snapshot'; file = file' }
