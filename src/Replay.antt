-- ===== src/Replay.antt =====
-- serialization/base.py: `replay`.
pub mod Changes
use text.Mathlib.Text.{starts_with}
use kanta.Base.{ℕ, String, Bool, true, false, Option, none, some, if◌then◌else◌, ◌||◌}
use kanta.Base.Bytes.{Bytes}
use kanta.Value.{Value, Fields, obj, end}
use kanta.Patch.{apply_diff}
use kanta.Structs.{Time, ChangeRecord, Snapshot, Serializer}
use kanta.Framing.{
  Framer, Record, ReplayError, RecordType, snapshot, change, Message, invalid_snapshot_record,
  invalid_record, Result, ok, err, Stream, stop, raise, unfinished, yield, LastSnapshot,
}

-- `ReplayResult`. After a diff with `$replace` at its top the state need not be a dict.
pub record ReplayResult : Type 0 where
  pub state : Value
  pub version : ℕ
  pub has_migration : Bool
  pub last_snapshot_mtime : Option Time
  pub m : Option Time

-- a ReplayError, or another exception that a malformed diff raises
pub data Outcome {ℓ} (A : Type ℓ) : Type ℓ where
  done : A → Outcome A
  replay_error : ReplayError → Outcome A
  patch_error : Outcome A

abbrev pub or_else : Option Time → Option Time → Option Time
or_else none m = m
or_else (some new) m = some new

bad_record : Message → Record → RecordType → ReplayError
bad_record message r kind = record {
  message = message;
  line_number = r.line_number;
  byte_pos = r.byte_pos;
  record_type = some kind;
}

-- the state of the loop before the first record
unfoldable pub initial : ReplayResult
initial = record {
  state = obj end;
  version = 0;
  has_migration = false;
  last_snapshot_mtime = none;
  m = none;
}

-- a snapshot behind the base moves only the two times
unfoldable pub on_snapshot : ReplayResult → Snapshot → ReplayResult
on_snapshot r snap = record r { last_snapshot_mtime = some snap.ts; m = or_else snap.m r.m }

unfoldable pub on_change : ReplayResult → ChangeRecord → Outcome ReplayResult
on_change r c = elim (apply_diff r.state (obj c.diff)) [
  | none ↦ patch_error
  | some patched ↦ done (record r {
    state = patched;
    version = c.v;
    has_migration = r.has_migration || starts_with c.a "migrate";
    m = or_else c.m r.m;
  })
]

module _ (serializer : Serializer) where
  -- the body of the loop
  unfoldable pub replay_record : ReplayResult → Record → Outcome ReplayResult
  unfolding on_snapshot on_change bad_record
  replay_record result r =
      if r.is_snapshot
      then elim (serializer.decode_snapshot r.payload) [
        | none ↦ replay_error (bad_record invalid_snapshot_record r snapshot)
        | some snap ↦ done (on_snapshot result snap)
      ]
      else elim (serializer.decode_change r.payload) [
        | none ↦ replay_error (bad_record invalid_record r change)
        | some c ↦ on_change result c
      ]

  -- for … in framer.iter_records(data, offset)
  unfoldable pub replay_stream : ReplayResult → Stream Record → Outcome ReplayResult
  replay_stream result stop = done result
  replay_stream result (raise e) = replay_error e
  -- out of fuel
  replay_stream result unfinished = patch_error
  replay_stream result (yield r rest) = elim (replay_record result r) [
    | done next ↦ replay_stream next rest
    | replay_error e ↦ replay_error e
    | patch_error ↦ patch_error
  ]

  -- the last snapshot is the base of the replay
  unfoldable pub base_result : Option Bytes → ℕ → Outcome ReplayResult
  unfolding initial
  base_result none pos = done initial
  base_result (some payload) pos = elim (serializer.decode_snapshot payload) [
    | none ↦ replay_error (record {
      message = invalid_snapshot_record;
      line_number = 0;
      byte_pos = pos;
      record_type = some snapshot;
    })
    | some snap ↦ done (record {
      state = obj snap.state;
      version = snap.v;
      has_migration = false;
      last_snapshot_mtime = some snap.ts;
      m = snap.m;
    })
  ]

  unfoldable pub replay : Framer → Bytes → Outcome ReplayResult
  replay framer bytes = elim (framer.scan_last_snapshot bytes) [
    | err e ↦ replay_error e
    | ok (snap_payload, offset, snap_byte_pos) ↦ elim (base_result snap_payload snap_byte_pos) [
      | done result ↦ replay_stream result (framer.iter_records bytes offset)
      | replay_error e ↦ replay_error e
      | patch_error ↦ patch_error
    ]
  ]
