-- ===== src/Examples/Reopening.antt =====
-- A database of one number is written, closed, and opened again with another seed.
use kanta.Patch.{apply_diff, apply, unmarshal}
use kanta.Patch.Survives.{is_command}
use kanta.Base.{ℕ, ◌≡◌, refl, true, false, none, some, List, [], ◌∷◌}
use kanta.Base.Bytes.{little_endian, bytes_eq, slice, from_bytes}
use kanta.Value.{Fields, obj, field, end, py_eq}
use kanta.Diff.{diff}
use kanta.Structs.{ChangeRecord, Snapshot, Serializer}
use kanta.Framing.Bin.{
  frame_change, scan_last_snapshot, bin_framer, framed, marker, checksum, iter_records_internal,
  load_sync_seed_from_data, frames_from, read_frame, last_snapshot, read_marker, invert, read_body,
  iter_records,
}
use kanta.Replay.{ReplayResult, done, replay, base_result, replay_stream, replay_record}
use kanta.Persistence.{Impl, now_time, queue_change, flush, new_impl}
use kanta.Persistence.Commands.{Command, queue_command, flush_command, run, AllSurvive}
use kanta.Persistence.Invariant.{IsDurable}
use kanta.Persistence.Recovery.{opened_new, run-IsDurable, new-IsDurable}
use kanta.Database.{Database}
use kanta.Database.Open.{open_database, migrate}
use kanta.Database.Open.Framers.{bin_framer_class}
use kanta.Database.Open.Reopened.{IsReopened, open_database-IsReopened}
use kanta.Examples.{number, hash, length-zeros, seed, other_seed, seed-IsSync}
use kanta.Examples.Programs.{counter, unopened, system}

abbrev pub counted : Fields
counted = field "x" (number 3) end

abbrev pub bootstrapped : ChangeRecord
bootstrapped = record { ts = 5; a = "bootstrap"; v = 0; u = none; m = some 5; diff = counted }

abbrev any_snapshot : Snapshot
any_snapshot = record { ts = 61; v = 0; state = counted; m = some 5 }

abbrev pub one_codec : Serializer
one_codec = record {
  encode_change = λ c. c.ts ∷ [];
  encode_snapshot = λ s. s.ts ∷ [];
  decode_change = λ bytes. some bootstrapped;
  decode_snapshot = λ bytes. some any_snapshot;
}

abbrev session : List Command
session =
    queue_command 5 "bootstrap" counted none now_time false
    ∷ flush_command (record { open_ok = true; write_ok = true })
    ∷ []

abbrev left_behind : Impl
left_behind = run (bin_framer hash seed) one_codec (opened_new 0) session

session-AllSurvive : AllSurvive (bin_framer hash seed) one_codec (opened_new 0) session
unfolding is_command queue_change diff py_eq flush new_impl frame_change framed marker little_endian
    checksum
session-AllSurvive = ((refl, tt, tt), (refl, tt, tt), refl, tt)

left_behind-IsDurable : IsDurable hash seed one_codec left_behind
left_behind-IsDurable =
    run-IsDurable hash seed one_codec (opened_new 0) session session-AllSurvive
      (new-IsDurable hash (λ payload key n. length-zeros n) seed other_seed seed-IsSync one_codec 0)

left_behind-nothing : left_behind.pending_changes ≡ []
unfolding queue_change diff py_eq flush new_impl frame_change framed marker little_endian checksum
left_behind-nothing = refl

abbrev out : ReplayResult
out = record {
  state = obj counted;
  version = 0;
  has_migration = false;
  last_snapshot_mtime = none;
  m = some 5;
}

left_behind-replay :
    replay one_codec (bin_framer hash other_seed) left_behind.file.content ≡ done out
unfolding queue_change diff py_eq flush new_impl frame_change framed marker little_endian checksum
    replay scan_last_snapshot iter_records_internal load_sync_seed_from_data frames_from read_frame
    last_snapshot read_marker bytes_eq slice invert read_body from_bytes base_result replay_stream
    iter_records replay_record apply_diff apply unmarshal
left_behind-replay = refl

-- the file of `left_behind`
abbrev reopening : Database ℕ
reopening = record unopened {
  impl = record (unopened.impl) {
    file = record { is_open = false; exists = true; content = left_behind.file.content };
  };
}

open_database-IsReopened_example :
    IsReopened hash
      (λ payload key n. length-zeros n)
      seed
      other_seed
      seed-IsSync
      one_codec
      counter
      3
      (open_database
        (bin_framer_class hash other_seed)
        one_codec
        counter
        system
        false
        false
        reopening)
unfolding flush queue_change diff new_impl frame_change migrate is_command py_eq
open_database-IsReopened_example =
    open_database-IsReopened hash (λ payload key n. length-zeros n) seed other_seed seed-IsSync
      one_codec counter left_behind reopening system false out counted counted 0 3
      left_behind-IsDurable left_behind-nothing (refl, refl, refl, refl, refl, refl) refl refl refl
      left_behind-replay refl refl refl refl ((refl, tt, tt), (refl, tt, tt), tt, refl)
