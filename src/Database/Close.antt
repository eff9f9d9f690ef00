-- ===== src/Database/Close.antt =====
-- `_background_loop` of persistence.py, and `KantaImpl.close`.
pub mod Released
use kanta.Base.{Bool, true, false, not, Option, none, some, if◌then◌else◌}
use kanta.Structs.{Time, Serializer}
use kanta.Framing.{Framer}
use kanta.LockedFile.{close_file}
use kanta.Persistence.{Impl, Disk, FlushError, lock_failed, write_failed, flush, maybe_snapshot}
use kanta.Database.{Database, Task, no_task, created, sleeping, ended, failed}

unfoldable pub snapshot_unless_failed :
    Framer → Serializer → Time → Bool → Impl × Option FlushError → Impl × Option FlushError
snapshot_unless_failed framer serializer now write_ok (impl, some e) = (impl, some e)
snapshot_unless_failed framer serializer now write_ok (impl, none) =
    (maybe_snapshot framer serializer impl now write_ok, none)

-- one round of the loop, after its sleep or once it is cancelled
unfoldable pub flush_and_snapshot :
    Framer → Serializer → Impl → Disk → Time → Bool → Impl × Option FlushError
flush_and_snapshot framer serializer impl disk now write_ok =
    snapshot_unless_failed framer serializer now write_ok (flush framer serializer impl disk)

-- whether an error is a DatabaseError, which the loop catches
abbrev pub is_database_error : FlushError → Bool
is_database_error lock_failed = true
is_database_error write_failed = true
is_database_error e = false

module _ {ℓ} {Data : Type ℓ} where
  -- a flush that fails ends the loop
  unfoldable pub woken : Database Data → Impl × Option FlushError → Database Data
  woken self (impl, some e) =
      if is_database_error e
      then record self { impl = impl; background_task = ended; background_error = some e }
      else record self { impl = impl; background_task = failed e }
  woken self (impl, none) = record self { impl = impl; background_task = sleeping }

  -- a flush that fails in the handler of the cancellation ends the task with its exception
  unfoldable pub cancelled :
      Database Data → Impl × Option FlushError → Database Data × Option FlushError
  cancelled self (impl, some e) = (record self { impl = impl; background_task = failed e }, some e)
  cancelled self (impl, none) = (record self { impl = impl; background_task = no_task }, none)

  -- self.file.close(); self.opened = False
  unfoldable pub finished :
      Database Data → Impl × Option FlushError → Database Data × Option FlushError
  finished self (impl, some e) = (record self { impl = impl }, some e)
  finished self (impl, none) =
      (record self { impl = record impl { file = close_file impl.file; opened = false } }, none)

module _ {ℓ} {Data : Type ℓ} (framer : Framer) (serializer : Serializer) where
  -- the loop wakes up
  unfoldable pub wake : Database Data → Disk → Time → Bool → Database Data
  wake self disk now write_ok =
      if self.impl.readonly
      then record self { background_task = ended }
      else woken self (flush_and_snapshot framer serializer self.impl disk now write_ok)

  -- `cancel` and `await` of the task: the handler of the cancellation runs in a loop that has begun
  unfoldable pub cancel_task :
      Task → Database Data → Disk → Time → Bool → Database Data × Option FlushError
  cancel_task no_task self disk now write_ok = (self, none)
  cancel_task (failed e) self disk now write_ok = (self, some e)
  cancel_task sleeping self disk now write_ok =
      cancelled self (flush_and_snapshot framer serializer self.impl disk now write_ok)
  cancel_task task self disk now write_ok = (record self { background_task = no_task }, none)

  -- the final flush, and the end
  unfoldable pub finish_close : Database Data → Disk → Database Data × Option FlushError
  finish_close self disk =
      finished self (
        if not self.impl.readonly
        then flush framer serializer self.impl disk
        else (self.impl, none))

  unfoldable pub unless_failed :
      Disk → Database Data × Option FlushError → Database Data × Option FlushError
  unless_failed disk (self, some e) = (self, some e)
  unless_failed disk (self, none) = finish_close self disk

  -- `close`, with what the disk does at the cancellation and at the final flush
  unfoldable pub close :
      Database Data → Disk → Disk → Time → Bool → Database Data × Option FlushError
  close self cancel_disk final_disk now write_ok =
      if not self.impl.opened
      then (self, none)
      else unless_failed final_disk (cancel_task self.background_task self cancel_disk now write_ok)
