-- ===== src/ReplayLog.antt =====
-- replaylog.py: the events of a file, and the ranges of them that a user asks for. The texts of the
-- errors are left out, and so is the change event for the logger.
pub mod Select
use kanta.Base.{
  ℕ, zero, suc, ◌+◌, Bool, true, false, not, ◌&&◌, Option, none, some, List, [], ◌∷◌, ◌==◌, ltb,
  leb, if◌then◌else◌,
}
use kanta.Base.Bytes.{Bytes}
use kanta.Value.{Value, Fields, obj, end, py_eq}
use kanta.Patch.{apply_diff}
use kanta.Structs.{ChangeRecord, Snapshot, Serializer}
use kanta.Framing.{Framer, Record, ReplayError, Stream, stop, raise, unfinished, yield}

-- `SnapshotEvent` and `ChangeEvent`
pub data Content : Type 0 where
  snapshot_event : Snapshot → Content
  change_event : ChangeRecord → Content

pub record Event : Type 0 where
  pub line_number : ℕ
  pub byte_pos : ℕ
  pub record_index : ℕ
  pub content : Content

abbrev pub version_of : Content → ℕ
version_of (snapshot_event snap) = snap.v
version_of (change_event r) = r.v

abbrev pub is_change : Content → Bool
is_change (snapshot_event snap) = false
is_change (change_event r) = true

-- What `scan_events` raises: the framer's error, a snapshot that does not match the replayed state,
-- a DecodeError, with the line and the position, or what a malformed diff raises.
pub data ScanError : Type 0 where
  unreadable : ReplayError → ScanError
  snapshot_mismatch parse_error : ℕ → ℕ → ScanError
  malformed_diff : ScanError

pub data Scan {ℓ} (A : Type ℓ) : Type ℓ where
  scanned : A → Scan A
  failed : ScanError → Scan A

infixl 5 ◌>>=◌
abbrev pub ◌>>=◌ {ℓ κ} : {A : Type ℓ} {B : Type κ} → Scan A → (A → Scan B) → Scan B
failed e >>= next = failed e
scanned a >>= next = next a

module _ (serializer : Serializer) where
  -- the body of the loop, for a snapshot and for a change
  unfoldable pub scan_snapshot : ℕ → Value → Record → Scan (Event × Value)
  scan_snapshot index state r = elim (serializer.decode_snapshot r.payload) [
    | none ↦ failed (parse_error r.line_number r.byte_pos)
    | some snap ↦
        if ltb 1 index && not (py_eq state (obj snap.state))
        then failed (snapshot_mismatch r.line_number r.byte_pos)
        else scanned (
          record {
            line_number = r.line_number;
            byte_pos = r.byte_pos;
            record_index = index;
            content = snapshot_event snap;
          },
          obj snap.state,
        )
  ]

  unfoldable pub scan_change : ℕ → Value → Record → Scan (Event × Value)
  scan_change index state r = elim (serializer.decode_change r.payload) [
    | none ↦ failed (parse_error r.line_number r.byte_pos)
    | some c ↦ elim (apply_diff state (obj c.diff)) [
      | none ↦ failed malformed_diff
      | some patched ↦ scanned (
        record {
          line_number = r.line_number;
          byte_pos = r.byte_pos;
          record_index = index;
          content = change_event c;
        },
        patched,
      )
    ]
  ]

  -- the loop; the index of the next record, and the state
  unfoldable pub scan_stream : ℕ → Value → Stream Record → Scan (List Event)
  scan_stream index state stop = scanned []
  scan_stream index state (raise e) = failed (unreadable e)
  -- out of fuel
  scan_stream index state unfinished = failed malformed_diff
  scan_stream index state (yield r rest) = do
    (event, next) ← if r.is_snapshot then scan_snapshot index state r else scan_change index state r
    events ← scan_stream (suc index) next rest
    scanned (event ∷ events)

  -- `scan_events`, without the count of its changes
  unfoldable pub scan_events : Framer → Bytes → Scan (List Event)
  scan_events framer content = scan_stream 1 (obj end) (framer.iter_records content 0)

-- the count
unfoldable pub change_count : List Event → ℕ
change_count [] = 0
change_count (e ∷ events) =
    if is_change e.content then suc (change_count events) else change_count events

-- `replay_events`: an event with the state before a change, and the state after it. `none` is what
-- a malformed diff raises.
unfoldable pub replay_events : Value → List Event → ℕ → Option (List (Event × Option Value × Value))
replay_events state [] end_line = some []
replay_events state (e ∷ events) end_line =
    if leb end_line e.line_number then some [] else elim e.content [
      | snapshot_event snap ↦ elim (replay_events (obj snap.state) events end_line) [
        | none ↦ none
        | some rest ↦ some ((e, none, obj snap.state) ∷ rest)
      ]
      | change_event c ↦ elim (apply_diff state (obj c.diff)) [
        | none ↦ none
        | some next ↦ elim (replay_events next events end_line) [
          | none ↦ none
          | some rest ↦ some ((e, some state, next) ∷ rest)
        ]
      ]
    ]
