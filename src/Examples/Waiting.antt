-- ===== src/Examples/Waiting.antt =====
-- A change that is queued while a flush waits for its file.
use kanta.Base.{◌≡◌, refl, true, false, none, [], ◌∷◌}
use kanta.LockedFile.{open_file}
use kanta.Persistence.{new_impl, Impl, Disk, flush, now_time}
use kanta.Persistence.Interleaved.{Change, waiting, start_flush, finish_flush, queue_all}
use kanta.Persistence.Interleaved.Queued.{flush-interleaved}
use kanta.Framing.Bin.{bin_framer}
use kanta.Value.{field, end}
use kanta.Examples.{number, hash, seed}
use kanta.Examples.Reopening.{one_codec, bootstrapped, counted}
use kanta.Persistence.Recovery.{opened_new}

abbrev one_queued : Impl
one_queued = record (opened_new 0) { statedict = counted; pending_changes = bootstrapped ∷ [] }

abbrev late_change : Change
late_change = record {
  now = 6;
  action = "late";
  current = field "x" (number 4) end;
  user = none;
  mtime = now_time;
  force = false;
}

abbrev full_disk : Disk
full_disk = record { open_ok = true; write_ok = false }

abbrev one_started : Impl
one_started = record one_queued { file = (open_file one_queued.file true false true).0 }

one_queued-waits : start_flush one_queued full_disk ≡ waiting one_started (bootstrapped ∷ [])
unfolding start_flush new_impl open_file
one_queued-waits = refl

flush-interleaved_example :
    finish_flush
      (bin_framer hash seed)
      one_codec
      (queue_all one_started (late_change ∷ []))
      (bootstrapped ∷ [])
      false
    ≡ (
      queue_all (flush (bin_framer hash seed) one_codec one_queued full_disk).0 (late_change ∷ []),
      (flush (bin_framer hash seed) one_codec one_queued full_disk).1,
    )
flush-interleaved_example =
    flush-interleaved (bin_framer hash seed) one_codec one_queued one_started full_disk
      (bootstrapped ∷ []) (late_change ∷ []) one_queued-waits
