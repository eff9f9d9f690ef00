-- ===== src/Framing/Line.antt =====
-- `LineFramer`: one record on a line, as JSON is written.
pub mod Lines
pub mod Ends
use kanta.Base.{
  ℕ, zero, suc, ◌+◌, Bool, true, false, Option, none, some, List, [], ◌∷◌, ◌++◌, ltb, ◌==◌,
  if◌then◌else◌, length, take, drop, ◌>>=◌,
}
use kanta.Base.Bytes.{Bytes, slice, bytes_eq}
use kanta.Base.ParseInt.{codes, strip, is_space}
use kanta.Framing.{
  RecordType, snapshot, Message, incomplete_snapshot_line, ReplayError, Result, ok, err, Record,
  Stream, stop, raise, unfinished, yield, LastSnapshot, Framer,
}

abbrev pub newline : ℕ
newline = 10

abbrev pub snapshot_prefix : Bytes
snapshot_prefix = codes "SNAPSHOT "

unfoldable pub line_change : Bytes → ℕ → Option Bytes
line_change payload record_offset = some (payload ++ newline ∷ [])

unfoldable pub line_snapshot : Bytes → ℕ → Option Bytes
line_snapshot payload record_offset = some (snapshot_prefix ++ (payload ++ newline ∷ []))

-- line.startswith(prefix)
unfoldable pub starts : Bytes → Bytes → Bool
unfolding bytes_eq
starts prefix line = bytes_eq (take (length prefix) line) prefix

-- data.find(b"\n")
unfoldable pub find_newline : Bytes → Option ℕ
find_newline [] = none
find_newline (b ∷ bs) = if b == newline then some 0 else (do at ← find_newline bs; some (suc at))

-- data.rfind(marker)
unfoldable pub rfind : Bytes → Bytes → Option ℕ
unfolding starts
rfind marker [] = none
rfind marker (b ∷ bs) = elim (rfind marker bs) [
  | some at ↦ some (suc at)
  | none ↦ if starts marker (b ∷ bs) then some 0 else none
]

unfoldable pub count_newlines : Bytes → ℕ
count_newlines [] = 0
count_newlines (b ∷ bs) = let rest = count_newlines bs in if b == newline then suc rest else rest

-- the raw line at `idx`, and the position behind it
unfoldable pub raw_line : Bytes → ℕ → Bytes × ℕ
unfolding find_newline slice
raw_line bytes idx = elim (find_newline (drop idx bytes)) [
  | none ↦ (drop idx bytes, length bytes)
  | some at ↦ (slice idx (idx + at) bytes, suc (idx + at))
]

unfoldable pub line_record : Bytes → ℕ → ℕ → Record
unfolding starts
line_record line line_number line_start =
    let is_snapshot = starts snapshot_prefix line in
    record {
      is_snapshot = is_snapshot;
      payload = if is_snapshot then drop (length snapshot_prefix) line else line;
      line_number = line_number;
      byte_pos = line_start;
    }

-- a blank line yields nothing
unfoldable pub yield_line : Bytes → ℕ → ℕ → Stream Record → Stream Record
yield_line [] line_number line_start rest = rest
yield_line (b ∷ bs) line_number line_start rest =
    yield (line_record (b ∷ bs) line_number line_start) rest

-- while idx < len(data), on fuel
unfoldable pub lines_from : ℕ → Bytes → ℕ → ℕ → Stream Record
lines_from zero bytes idx line_number = unfinished
lines_from (suc fuel) bytes idx line_number =
    if ltb idx (length bytes)
    then (let raw = raw_line bytes idx in
        yield_line (strip is_space raw.0) line_number idx
          (lines_from fuel bytes raw.1 (suc line_number)))
    else stop

unfoldable pub line_records : Bytes → ℕ → Stream Record
unfolding lines_from count_newlines
line_records bytes offset =
    lines_from (suc (length bytes)) bytes offset (suc (count_newlines (take offset bytes)))

-- the position of the last snapshot's line
unfoldable pub snapshot_position : Bytes → Option ℕ
unfolding rfind starts
snapshot_position bytes = elim (rfind (newline ∷ snapshot_prefix) bytes) [
  | some at ↦ some (suc at)
  | none ↦ if starts snapshot_prefix bytes then some 0 else none
]

unfoldable pub scan_line_snapshot : Bytes → Result LastSnapshot
unfolding snapshot_position find_newline count_newlines slice
scan_line_snapshot bytes = elim (snapshot_position bytes) [
  | none ↦ ok (none, 0, 0)
  | some at ↦ elim (find_newline (drop at bytes)) [
    | none ↦ err (record {
      message = incomplete_snapshot_line;
      line_number = suc (count_newlines (take at bytes));
      byte_pos = at;
      record_type = some snapshot;
    })
    | some size ↦
        ok (some (slice (at + length snapshot_prefix) (at + size) bytes), suc (at + size), at)
  ]
]

abbrev pub line_framer : Framer
line_framer = record {
  frame_change = line_change;
  frame_snapshot = line_snapshot;
  scan_last_snapshot = scan_line_snapshot;
  iter_records = line_records;
}
