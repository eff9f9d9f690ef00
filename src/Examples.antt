-- ===== src/Examples.antt =====
-- The theorems at small inputs: a log of two changes, with a hash and a serializer that are made
-- up.
mod Schema
mod Text
mod Ranges
mod Files
mod Programs
mod Reopening
mod Waiting
mod Marks
mod Coloring
mod Logging
mod Rotating
mod Searching
use kanta.Base.{
  ℕ, ◌+◌, ◌*◌, arith, ◌≡◌, ◌↔◌, refl, ap, true, false, none, some, List, [], ◌∷◌, length, ◌==◌,
  if◌then◌else◌, ◌≤◌, ◌<◌,
}
use kanta.Base.Bytes.{Bytes, little_endian, slice}
use kanta.Base.Int.{pos}
use kanta.Value.{
  Value, Fields, int, num, text, arr, cons, nil, obj, end, has_key, field, py_eq, UniqueKeys,
}
use kanta.Diff.{diff, starts_two_dollars}
use kanta.Diff.Unchanged.{diff-eq-none_iff}
use kanta.Patch.{apply_diff, unmarshal, apply}
use kanta.Patch.Survives.{is_command}
use kanta.Patch.RoundTrip.{apply_diff-diff}
use kanta.Structs.{ChangeRecord, Snapshot, Serializer}
use kanta.Framing.{ok}
use kanta.Framing.Bin.{
  Sync, bin_framer, frame, frame_change, frame_snapshot, framed, marker, checksum, iter_records,
  iter_records_internal, load_sync_seed_from_data, scan_last_snapshot, invert,
}
use kanta.Framing.Bin.Read.{IsSync}
use kanta.Framing.Bin.Journal.{Entry, written, records_at}
use kanta.Framing.Bin.RoundTrip.{iter_records-written}
use kanta.Framing.Bin.Resume.{scan-iter_records}
use kanta.Framing.Bin.Verified.{IsSound, iter_records_internal-IsSound}
use kanta.Replay.{ReplayResult, done, replay}
use kanta.Replay.Changes.{replay_changes, replay-after_snapshot}
use kanta.LockedFile.{File}
use kanta.SnapshotState.{SnapshotState, is_due, record_changes, maybe_write, weekday, midnight, day}
use kanta.SnapshotState.Outcomes.{after_write}
use kanta.SnapshotState.Policy.{maybe_write-unforced, is_due-after_write}
use kanta.Persistence.{Impl, now_time, unchanged_time, queue_change, flush, new_impl}
use kanta.Persistence.Commands.{Command, queue_command, flush_command, run, AllSurvive}
use kanta.Persistence.Recovery.{opened_new, replay-run}
use kanta.Persistence.Outcomes.{queue_change-eq-none_iff}

-- a digest of zeros
abbrev zeros : ℕ → Bytes
zeros ℕ.zero = []
zeros (ℕ.suc n) = 0 ∷ zeros n

abbrev hash : Bytes → Bytes → ℕ → Bytes
hash payload key n = zeros n

length-zeros : (n : ℕ) → length (zeros n) ≡ n
length-zeros ℕ.zero = refl
length-zeros (ℕ.suc n) = λ i. ℕ.suc (length-zeros n i)

abbrev seed : Sync
seed = record { sync_snapshot = 1 ∷ 2 ∷ 3 ∷ 4 ∷ []; sync_change = 254 ∷ 253 ∷ 252 ∷ 251 ∷ [] }

abbrev other_seed : Sync
other_seed = record { sync_snapshot = 9 ∷ 9 ∷ 9 ∷ 9 ∷ []; sync_change = 246 ∷ 246 ∷ 246 ∷ 246 ∷ [] }

seed-IsSync : IsSync seed
unfolding invert
seed-IsSync = record { size = refl; inverted = refl }

abbrev pub number : ℕ → Value
number n = num int (record { numerator = pos n; halvings = 0 })

abbrev state_one : Fields
state_one = field "x" (number 1) end

abbrev state_two : Fields
state_two = field "x" (number 1) (field "y" (text "t") end)

abbrev first_change : ChangeRecord
first_change = record { ts = 5; a = "create"; v = 1; u = none; m = some 5; diff = state_one }

abbrev second_change : ChangeRecord
second_change = record {
  ts = 7;
  a = "edit";
  v = 1;
  u = some "me";
  m = none;
  diff = field "y" (text "t") end;
}

abbrev snapshot_one : Snapshot
snapshot_one = record { ts = 6; v = 1; state = state_one; m = some 5 }

-- it knows these three records, by their times
abbrev codec : Serializer
codec = record {
  encode_change = λ c. c.ts ∷ [];
  encode_snapshot = λ s. s.ts ∷ [];
  decode_change = λ (bytes : Bytes). elim bytes [
    | [] ↦ none
    | ◌∷◌ b (bs → h) ↦ if b == 5 then some first_change else some second_change
  ];
  decode_snapshot = λ bytes. some snapshot_one;
}

two_dollars : starts_two_dollars "x" ≡ false
unfolding starts_two_dollars
two_dollars = refl

abbrev commands : List Command
commands =
    queue_command 5 "create" state_one none now_time false
    ∷ flush_command (record { open_ok = true; write_ok = true })
    ∷ queue_command 7 "edit" state_two (some "me") unchanged_time false
    ∷ flush_command (record { open_ok = false; write_ok = true })
    ∷ []

commands-AllSurvive : AllSurvive (bin_framer hash seed) codec (opened_new 1) commands
unfolding starts_two_dollars is_command queue_change diff py_eq flush new_impl frame_change framed
    marker little_endian checksum
commands-AllSurvive = (
  (refl, tt, tt),
  (refl, tt, tt),
  refl,
  ((refl, tt, (refl, tt, tt)), (refl, tt, (refl, refl, tt)), refl, tt),
)

final_pending : (run (bin_framer hash seed) codec (opened_new 1) commands).pending_changes ≡ []
unfolding queue_change diff py_eq flush new_impl frame_change framed marker little_endian checksum
final_pending = refl

replay-run_example :
    (out : ReplayResult) × (replay codec
        (bin_framer hash other_seed)
        (run (bin_framer hash seed) codec (opened_new 1) commands).file.content
      ≡ done out)
    × (fields : Fields) × (out.state ≡ obj fields)
    × (py_eq (obj (run (bin_framer hash seed) codec (opened_new 1) commands).statedict) (obj fields)
        ≡ true)
    × (out.m ≡ (run (bin_framer hash seed) codec (opened_new 1) commands).mtime)
replay-run_example =
    replay-run hash (λ payload key n. length-zeros n) seed other_seed seed-IsSync codec 1 commands
      commands-AllSurvive final_pending

-- `replayed` has the keys of `previous` in another order
abbrev replayed_two : Fields
replayed_two = field "y" (text "t") (field "x" (number 1) end)

abbrev state_three : Fields
state_three = field "y" (text "u") (field "$z" (obj (field "k" (number 3) end)) end)

state_three-UniqueKeys : UniqueKeys state_three
unfolding has_key
state_three-UniqueKeys = (refl, tt, (refl, (refl, tt, tt), tt))

apply_diff-diff_example :
    (out : Fields) × (apply_diff (obj replayed_two) (
        obj (
          field "$delete"
            (arr (cons (text "x") nil))
            (field "y" (text "u") (field "$$z" (obj (field "k" (number 3) end)) end))))
      ≡ some (obj out))
    × (py_eq (obj state_three) (obj out) ≡ true)
    × UniqueKeys out
unfolding diff py_eq starts_two_dollars is_command
apply_diff-diff_example =
    apply_diff-diff state_two state_three replayed_two
      (field "$delete" (arr (cons (text "x") nil))
        (field "y" (text "u") (field "$$z" (obj (field "k" (number 3) end)) end)))
      state_three-UniqueKeys (refl, tt, (refl, tt, tt)) (refl, refl, (refl, (refl, tt, tt), tt))
      refl refl

abbrev three_entries : List Entry
three_entries = (false, 7 ∷ 8 ∷ []) ∷ (true, 9 ∷ []) ∷ (false, 5 ∷ []) ∷ []

abbrev three_frames : Bytes
three_frames =
    1 ∷ 2 ∷ 3 ∷ 4 ∷ 254 ∷ 253 ∷ 252 ∷ 251 ∷ 2 ∷ 0 ∷ 0 ∷ 0 ∷ 0 ∷ 0 ∷ 0 ∷ 0 ∷ 0 ∷ 0 ∷ 0 ∷ 0 ∷ 7 ∷ 8
    ∷ 1 ∷ 2 ∷ 3 ∷ 4 ∷ 1 ∷ 0 ∷ 0 ∷ 0 ∷ 0 ∷ 0 ∷ 0 ∷ 0 ∷ 0 ∷ 0 ∷ 0 ∷ 0 ∷ 9 ∷ 254 ∷ 253 ∷ 252 ∷ 251 ∷ 1
    ∷ 0 ∷ 0 ∷ 0 ∷ 0 ∷ 0 ∷ 0 ∷ 0 ∷ 0 ∷ 0 ∷ 0 ∷ 0 ∷ 5 ∷ []

three-written : written hash seed 0 three_entries ≡ some three_frames
unfolding written frame framed marker little_endian checksum
three-written = refl

iter_records-written_example :
    iter_records hash other_seed three_frames 0 ≡ records_at 4 three_entries
iter_records-written_example =
    iter_records-written hash (λ payload key n. length-zeros n) seed other_seed seed-IsSync false
      (7 ∷ 8 ∷ []) ((true, 9 ∷ []) ∷ (false, 5 ∷ []) ∷ []) three_frames three-written

scan-iter_records_example :
    (scan_last_snapshot hash other_seed three_frames ≡ ok (some (9 ∷ []), 39, 22))
    × (iter_records hash other_seed three_frames 39 ≡ records_at 39 ((false, 5 ∷ []) ∷ []))
scan-iter_records_example =
    scan-iter_records hash (λ payload key n. length-zeros n) seed other_seed seed-IsSync
      ((false, 7 ∷ 8 ∷ []) ∷ []) ((false, 5 ∷ []) ∷ []) (9 ∷ []) three_frames (refl, tt)
      three-written

iter_records_internal-IsSound_example :
    IsSound hash seed three_frames 22 (iter_records_internal hash other_seed three_frames 22)
unfolding load_sync_seed_from_data slice invert
iter_records_internal-IsSound_example =
    iter_records_internal-IsSound hash other_seed seed three_frames 22 (λ e. cc) refl

diff-eq-none_iff_example :
    (diff state_two replayed_two ≡ none) ↔ (py_eq (obj state_two) (obj replayed_two) ≡ true)
unfolding py_eq
diff-eq-none_iff_example =
    diff-eq-none_iff state_two replayed_two (refl, tt, (refl, tt, tt)) (refl, tt, (refl, tt, tt))

abbrev log_frames : Bytes
log_frames =
    1 ∷ 2 ∷ 3 ∷ 4 ∷ 254 ∷ 253 ∷ 252 ∷ 251 ∷ 1 ∷ 0 ∷ 0 ∷ 0 ∷ 0 ∷ 0 ∷ 0 ∷ 0 ∷ 0 ∷ 0 ∷ 0 ∷ 0 ∷ 5 ∷ 1
    ∷ 2 ∷ 3 ∷ 4 ∷ 1 ∷ 0 ∷ 0 ∷ 0 ∷ 0 ∷ 0 ∷ 0 ∷ 0 ∷ 0 ∷ 0 ∷ 0 ∷ 0 ∷ 6 ∷ 254 ∷ 253 ∷ 252 ∷ 251 ∷ 1 ∷ 0
    ∷ 0 ∷ 0 ∷ 0 ∷ 0 ∷ 0 ∷ 0 ∷ 0 ∷ 0 ∷ 0 ∷ 0 ∷ 7 ∷ []

replay-after_snapshot_example :
    (out : ReplayResult) × (replay codec (bin_framer hash other_seed) log_frames ≡ done out)
    × (out.state ≡ obj state_two)
    × (out.version ≡ 1)
    × (out.m ≡ some 5)
unfolding written frame framed marker little_endian checksum replay_changes apply_diff unmarshal
    apply
replay-after_snapshot_example =
    replay-after_snapshot codec hash (λ payload key n. length-zeros n) seed other_seed seed-IsSync
      ((false, 5 ∷ []) ∷ []) snapshot_one (second_change ∷ []) log_frames (obj state_two) refl refl
      (refl, tt) refl

queue_change-eq-none_iff_example :
    (queue_change (opened_new 1) 5 "create" state_one none now_time false ≡ (opened_new 1, none))
    ↔ ((false ≡ false) × (py_eq (obj end) (obj state_one) ≡ true))
unfolding new_impl has_key
queue_change-eq-none_iff_example =
    queue_change-eq-none_iff (opened_new 1) 5 "create" state_one none now_time false tt
      (refl, tt, tt)

-- a Sunday, 6 days behind the Monday that time begins with
abbrev sunday : ℕ
sunday = 6 * day + 1000

abbrev many_changes : SnapshotState
many_changes = record { ts = none; changes = 120; force_pending = false; min_diffs = 100 }

abbrev empty_file : File
empty_file = record { is_open = true; exists = true; content = [] }

maybe_write-unforced_example :
    (true ≡ true)
    × (100 ≤ 120)
    × (weekday sunday ≡ 6)
    × ((last : ℕ) → none ≡ some last → last < midnight sunday)
unfolding maybe_write frame_snapshot framed marker little_endian checksum
maybe_write-unforced_example =
    maybe_write-unforced (bin_framer hash seed) codec many_changes empty_file 1 state_one none
      sunday true refl (λ e. cc (ap (λ (f : File). f.content) e))
