-- ===== src/Examples/Programs.antt =====
-- The theorems on transactions, opening and closing, at a program that keeps one number.
use kanta.Base.{ℕ, ◌+◌, ◌≡◌, ◌≢◌, refl, Bool, true, false, Option, none, some, List, [], ◌∷◌, ltb}
use kanta.Base.Int.{pos, negsuc}
use kanta.Value.{Fields, num, int, field, end, py_eq, has_key}
use kanta.Diff.{diff}
use kanta.Structs.{Time}
use kanta.Framing.Bin.{bin_framer, frame_change}
use kanta.Persistence.{Disk, write_failed, now_time, flush, queue_change, maybe_snapshot}
use kanta.Database.{Program, Database, no_task, sleeping}
use kanta.Database.Open.{System}
use kanta.Database.Close.{
  close, unless_failed, cancel_task, cancelled, flush_and_snapshot, snapshot_unless_failed,
  finish_close, finished,
}
use kanta.Database.Close.Released.{close-IsReleased, close-stuck, IsReleased}
use kanta.Database.Open.Held.{IsHeld}
use kanta.Database.Transaction.{Ending, returned, excepted, transaction, interrupted, Logs}
use kanta.Database.Transaction.Outcome.{IsIdle, IsOutcome}
use kanta.Database.Transaction.Atomic.{transaction-IsOutcome}
use kanta.Database.Transaction.Sequence.{Call, AllOwnErrors, perform_all, perform_all-IsIdle}
use kanta.Examples.{number, hash, seed, codec}

abbrev first_number : Fields → Option ℕ
first_number (field k (num int q) d) = elim q.numerator [ pos n ↦ some n | negsuc n ↦ none ]
first_number d = none

-- it accepts the numbers below nine
abbrev pub counter : Program ℕ
counter = record {
  struct_to_dict = λ n. field "x" (number n) end;
  dict_to_struct = first_number;
  bootstrap = λ n. (n, true);
  validate = λ n. ltb n 9;
  bootstrap_action = "bootstrap";
  bootstrap_user = none;
  bootstrap_mtime = now_time;
  migrations = none;
  retention = none;
}

abbrev pub unopened : Database ℕ
unopened = record {
  impl = record {
    statedict = end;
    pending_changes = [];
    version = 0;
    mtime = none;
    opened = false;
    readonly = false;
    flush_failed = false;
    file = record { is_open = false; exists = false; content = [] };
    snapshot = record { ts = none; changes = 0; force_pending = false; min_diffs = 100 };
  };
  value = 0;
  in_transaction = false;
  transaction_snapshot = none;
  background_task = no_task;
  background_error = none;
}

-- its state is that of its data, and its loop sleeps
abbrev counting : Database ℕ
counting = record unopened {
  impl = record (unopened.impl) {
    statedict = field "x" (number 0) end;
    opened = true;
    file = record { is_open = true; exists = true; content = [] };
  };
  background_task = sleeping;
}

counting-IsIdle : IsIdle counter counting
unfolding diff py_eq
counting-IsIdle = (refl, refl, refl)

count : ℕ → ℕ × Ending
count n = (n + 4, returned)

fail : ℕ → ℕ × Ending
fail n = (n + 1, excepted)

-- the events can be logged
abbrev logged : Logs
logged = record { log = true; change_built = true; abort_built = true }

transaction-IsOutcome_example :
    IsOutcome counter counting 4 50 "count" none now_time logged returned
      (transaction counter counting count 50 "count" none now_time logged)
unfolding count
transaction-IsOutcome_example =
    transaction-IsOutcome counter counting count 50 "count" none now_time logged counting-IsIdle
      refl

-- the last of them goes beyond the numbers that are accepted
abbrev calls : List (Call ℕ)
calls =
    record {
      body = count;
      now = 50;
      action = "count";
      user = none;
      mtime = now_time;
      logs = logged;
    }
    ∷ record {
      body = fail;
      now = 51;
      action = "fail";
      user = none;
      mtime = now_time;
      logs = logged;
    }
    ∷ record {
      body = count;
      now = 52;
      action = "count";
      user = none;
      mtime = now_time;
      logs = logged;
    }
    ∷ record {
      body = count;
      now = 53;
      action = "count";
      user = none;
      mtime = now_time;
      logs = logged;
    }
    ∷ []

ends : (n : ℕ) → (count n).1 ≢ interrupted
unfolding count
ends n e = cc

fails : (n : ℕ) → (fail n).1 ≢ interrupted
unfolding fail
fails n e = cc

perform_all-IsIdle_example :
    IsIdle counter (perform_all counter counting calls) × AllOwnErrors counter counting calls
unfolding count fail has_key
perform_all-IsIdle_example =
    perform_all-IsIdle counter (λ n. refl) (λ n. (refl, tt, tt)) counting calls
      (ends, (fails, (ends, (ends, tt)))) (refl, refl, (refl, refl, (refl, refl, (refl, refl, tt))))
      counting-IsIdle

abbrev pub working : Disk
working = record { open_ok = true; write_ok = true }

abbrev full : Disk
full = record { open_ok = true; write_ok = false }

abbrev pub system : System
system = record {
  lock_free = true;
  cutoff_now = 0;
  rotation_now = 0;
  rotated_ok = true;
  change_now = 60;
  disk = working;
  snapshot_now = 61;
  snapshot_ok = true;
  log_built = true;
}

close-IsReleased_example :
    IsReleased (close (bin_framer hash seed) codec counting working working 70 true).0.impl
unfolding close unless_failed cancel_task cancelled flush_and_snapshot snapshot_unless_failed flush
    finish_close finished maybe_snapshot
close-IsReleased_example =
    close-IsReleased (bin_framer hash seed) codec counting working working 70 true refl refl

-- one transaction is pending
abbrev pending : Database ℕ
pending = record counting {
  impl = (queue_change counting.impl 50 "count" (field "x" (number 4) end) none now_time false).0;
}

close-stuck_example :
    (stuck : Database ℕ) × (close (bin_framer hash seed) codec pending full working 70 true
      ≡ (stuck, some write_failed))
    × IsHeld stuck.impl
    × ((disk disk' : Disk) (later : Time) (ok : Bool)
        → close (bin_framer hash seed) codec stuck disk disk' later ok ≡ (stuck, some write_failed))
unfolding queue_change diff flush py_eq frame_change
close-stuck_example =
    close-stuck (bin_framer hash seed) codec pending full working 70 true write_failed (refl, refl)
      refl refl
