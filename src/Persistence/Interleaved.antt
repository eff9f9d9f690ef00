-- ===== src/Persistence/Interleaved.antt =====
-- `flush` of persistence.py with its waits: while the file is opened, measured and written in
-- another thread, changes are queued.
pub mod Queued
use mathlib.Core.Path.{subst}
use kanta.Base.{
  ℕ, zero, suc, ◌+◌, ◌≤◌, ◌≡◌, refl, ap, sym, ◌∙◌, Bool, true, false, not, Option, none, some,
  String, List, [], ◌∷◌, ◌++◌, append-nil, length, length-append, drop, drop-append, if◌then◌else◌,
  arith, Option-cases, inl, inr, if-holds, if-cases,
}
use kanta.Base.Bytes.{Bytes}
use kanta.Value.{Fields}
use kanta.Diff.{diff}
use kanta.Structs.{Time, ChangeRecord, Serializer}
use kanta.Framing.{Framer}
use kanta.LockedFile.{File, open_file, append}
use kanta.SnapshotState.{record_changes}
use kanta.Persistence.{
  Impl, Mtime, Disk, FlushError, not_opened, read_only, lock_failed, frame_too_long, write_failed,
  FlushResult, delta_of, is_nil, enqueue, queue_change, all_written, frame_changes, write_pending,
  open_and_write, flush,
}
use kanta.Persistence.Outcomes.{write_pending-too_long, write_pending-framed}

-- a flush that has ended, or one that waits with `changes_to_write`
pub data Progress : Type 0 where
  ended : Impl → Option FlushError → Progress
  waiting : Impl → List ChangeRecord → Progress

-- up to the first wait, with the opening of the file
unfoldable pub start_flush : Impl → Disk → Progress
start_flush self disk =
    if not self.opened
    then ended self (some not_opened)
    else if self.readonly
    then ended self (some read_only)
    else if self.flush_failed
    then ended self none
    else if is_nil self.pending_changes
    then ended self none
    else if self.file.is_open
    then waiting self self.pending_changes
    else let (file', locked) = open_file self.file true false disk.open_ok in
      let self' = record self { file = file' } in
      if locked then waiting self' self.pending_changes else ended self' (some lock_failed)

-- after the write: as many changes leave the queue as were written
unfoldable pub finish_write : Impl → List ChangeRecord → Bytes → Impl
finish_write self changes bytes = record self {
  file = append self.file bytes;
  snapshot = record_changes self.snapshot (length changes);
  pending_changes = drop (length changes) self.pending_changes;
}

-- the result of the write
unfoldable pub write_result : Impl → List ChangeRecord → Bool → Option Bytes → FlushResult
write_result self changes write_ok none = (self, some frame_too_long)
write_result self changes true (some bytes) = (finish_write self changes bytes, none)
write_result self changes false (some bytes) =
    (record self { flush_failed = true }, some write_failed)

-- a call of `queue_change`
pub record Change : Type 0 where
  pub now : Time
  pub action : String
  pub current : Fields
  pub user : Option String
  pub mtime : Mtime
  pub force : Bool

abbrev pub queue_all : Impl → List Change → Impl
queue_all self [] = self
queue_all self (c ∷ cs) =
    queue_all (queue_change self c.now c.action c.current c.user c.mtime c.force).0 cs

module _ (framer : Framer) (serializer : Serializer) where
  -- from the wait on: the frames begin at the size of the file
  unfoldable pub finish_flush : Impl → List ChangeRecord → Bool → FlushResult
  finish_flush self changes write_ok =
      write_result self changes write_ok
        (frame_changes framer serializer (length self.file.content) changes)

  -- where nothing runs in between
  abbrev pub complete : Progress → Bool → FlushResult
  complete (ended self error) write_ok = (self, error)
  complete (waiting self changes) write_ok = finish_flush self changes write_ok
