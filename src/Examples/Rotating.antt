-- ===== src/Examples/Rotating.antt =====
-- A log of two changes, one on each side of the cutoff.
use kanta.Patch.{apply_diff, apply, unmarshal}
use kanta.Base.{
  ℕ, ◌≡◌, refl, ap, true, false, none, some, Option, List, [], ◌∷◌, ◌==◌, if◌then◌else◌,
}
use kanta.Base.Bytes.{Bytes, bytes_eq, slice, from_bytes}
use kanta.Value.{Fields, field, end, obj}
use kanta.Structs.{ChangeRecord, Snapshot, Serializer}
use kanta.Framing.Bin.{
  bin_framer, frame_change, marker, checksum, framed, frame, iter_records, iter_records_internal,
  load_sync_seed_from_data, frames_from, read_frame, read_marker, invert, read_body,
}
use kanta.Rotation.{
  Entry, Planned, planned, RotationPlan, plan_rotation, scan, Walk, walk_entries, start_walk,
  find_base, change_record, collect, entries_of, decode_record, walk_logged,
}
use kanta.Rotation.Steps.{late_in}
use kanta.Rotation.Replayed.{IsLossless, IsWhole, ReplaysTo, plan_rotation-ReplaysTo}
use kanta.Examples.{number, hash, length-zeros, seed, other_seed, seed-IsSync}

abbrev old_change : ChangeRecord
old_change = record {
  ts = 5;
  a = "old";
  v = 1;
  u = none;
  m = none;
  diff = field "x" (number 3) end;
}

abbrev new_change : ChangeRecord
new_change = record {
  ts = 20;
  a = "new";
  v = 2;
  u = none;
  m = none;
  diff = field "y" (number 4) end;
}

abbrev left_over : Snapshot
left_over = record { ts = 5; v = 1; state = field "x" (number 3) end; m = none }

abbrev first_or_second : Bytes → ChangeRecord
first_or_second [] = new_change
first_or_second (ts ∷ rest) = if ts == 5 then old_change else new_change

abbrev at_last : Snapshot
at_last = record {
  ts = 30;
  v = 2;
  state = field "x" (number 3) (field "y" (number 4) end);
  m = none;
}

abbrev first_or_last : Bytes → Snapshot
first_or_last [] = at_last
first_or_last (ts ∷ rest) = if ts == 5 then left_over else at_last

abbrev two_codec : Serializer
two_codec = record {
  encode_change = λ c. c.ts ∷ [];
  encode_snapshot = λ s. s.ts ∷ [];
  decode_change = λ bytes. some (first_or_second bytes);
  decode_snapshot = λ bytes. some (first_or_last bytes);
}

abbrev log : Bytes
log =
    1 ∷ 2 ∷ 3 ∷ 4 ∷ 254 ∷ 253 ∷ 252 ∷ 251 ∷ 1 ∷ 0 ∷ 0 ∷ 0 ∷ 0 ∷ 0 ∷ 0 ∷ 0 ∷ 0 ∷ 0 ∷ 0 ∷ 0 ∷ 5 ∷ 254
    ∷ 253 ∷ 252 ∷ 251 ∷ 1 ∷ 0 ∷ 0 ∷ 0 ∷ 0 ∷ 0 ∷ 0 ∷ 0 ∷ 0 ∷ 0 ∷ 0 ∷ 0 ∷ 20 ∷ []

abbrev two_entries : List Entry
two_entries =
    record { logged = change_record old_change; byte_pos = 4; end_pos = 21 }
    ∷ record { logged = change_record new_change; byte_pos = 21; end_pos = 38 }
    ∷ []

log-scanned : scan two_codec (bin_framer hash seed) log ≡ planned two_entries
unfolding scan collect iter_records iter_records_internal load_sync_seed_from_data frames_from
    read_frame read_marker bytes_eq slice invert read_body from_bytes checksum entries_of
    decode_record
log-scanned = refl

abbrev last_walk : Walk
last_walk = record {
  state = obj (field "x" (number 3) (field "y" (number 4) end));
  version = 2;
  m = none;
  state_at_cutoff = some (obj (field "x" (number 3) end));
  version_at_cutoff = 1;
  m_at_cutoff = none;
  final_version = 2;
  final_m = none;
}

two_entries-walked :
    walk_entries 10
      (find_base 10 none two_entries)
      (start_walk (find_base 10 none two_entries))
      two_entries
    ≡ planned last_walk
unfolding walk_entries find_base start_walk walk_logged apply_diff apply unmarshal
two_entries-walked = refl

-- the leading snapshot, and the second change
abbrev rotated_log : Bytes
rotated_log =
    1 ∷ 2 ∷ 3 ∷ 4 ∷ 1 ∷ 2 ∷ 3 ∷ 4 ∷ 1 ∷ 0 ∷ 0 ∷ 0 ∷ 0 ∷ 0 ∷ 0 ∷ 0 ∷ 0 ∷ 0 ∷ 0 ∷ 0 ∷ 5 ∷ 254 ∷ 253
    ∷ 252 ∷ 251 ∷ 1 ∷ 0 ∷ 0 ∷ 0 ∷ 0 ∷ 0 ∷ 0 ∷ 0 ∷ 0 ∷ 0 ∷ 0 ∷ 0 ∷ 20 ∷ []

abbrev small_plan : RotationPlan
small_plan = record {
  new_content = rotated_log;
  cutoff_end = 21;
  rotated_ts = 5;
  retained_changes = 1;
}

log-planned : plan_rotation two_codec (bin_framer hash seed) log 10 30 5 ≡ planned (some small_plan)
unfolding plan_rotation scan kanta.Rotation.collect kanta.Framing.Bin.iter_records
    kanta.Framing.Bin.iter_records_internal kanta.Framing.Bin.load_sync_seed_from_data
    kanta.Framing.Bin.frames_from kanta.Framing.Bin.read_frame kanta.Framing.Bin.read_marker
    kanta.Base.Bytes.bytes_eq kanta.Base.Bytes.slice kanta.Framing.Bin.invert
    kanta.Framing.Bin.read_body kanta.Base.Bytes.from_bytes checksum kanta.Rotation.entries_of
    kanta.Rotation.decode_record walk_entries find_base kanta.Base.Bytes.little_endian
    kanta.Rotation.plan_dropped kanta.Rotation.plan_from start_walk kanta.Rotation.walk_logged
    kanta.Rotation.moved_walk kanta.Rotation.changes_where kanta.Rotation.frame_closing
    kanta.Rotation.frame_new_content kanta.Rotation.frame_retained kanta.Patch.apply_diff
    kanta.Patch.apply kanta.Patch.unmarshal kanta.Framing.Bin.frame_change
    kanta.Framing.Bin.frame_snapshot framed marker
log-planned = refl

left_over-state :
    (state : Fields)
    → last_walk.state_at_cutoff ≡ some (obj state)
    → some left_over ≡ some (record left_over { state = state })
left_over-state state h =
    let same : left_over.state ≡ state = cc in ap (λ s. some (record left_over { state = s })) same

at_last-state :
    (state : Fields)
    → last_walk.state ≡ obj state
    → some at_last ≡ some (record at_last { state = state })
at_last-state state h =
    let same : at_last.state ≡ state = cc in ap (λ s. some (record at_last { state = s })) same

last_walk-IsLossless : IsLossless two_codec 5 30 last_walk (late_in 10 two_entries)
last_walk-IsLossless = record {
  changes = (refl, tt);
  leading = left_over-state;
  closing = at_last-state;
}

plan_rotation-ReplaysTo_example :
    IsWhole hash
      (λ payload key n. length-zeros n)
      seed
      other_seed
      seed-IsSync
      two_codec
      10
      30
      5
      two_entries
      last_walk
      (find_base 10 none two_entries)
    × ReplaysTo hash
        (λ payload key n. length-zeros n)
        seed
        other_seed
        seed-IsSync
        two_codec
        rotated_log
        last_walk.state
        2
plan_rotation-ReplaysTo_example =
    plan_rotation-ReplaysTo hash (λ payload key n. length-zeros n) seed other_seed seed-IsSync
      two_codec 10 30 5 two_entries last_walk log small_plan log-scanned tt two_entries-walked
      log-planned last_walk-IsLossless
