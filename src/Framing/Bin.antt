-- ===== src/Framing/Bin.antt =====
-- `BinFramer`. The keyed hash of the package blake3 is a parameter: payload, key, digest length.
pub mod Read
pub mod Seed
pub mod Journal
pub mod Written
pub mod RoundTrip
pub mod Resume
pub mod Verified
use kanta.Base.{
  ℕ, zero, suc, ◌+◌, ◌-◌, ◌≡◌, Bool, true, false, Option, none, some, List, [], ◌∷◌, ◌++◌, map, ltb,
  leb, ◌==◌, if◌then◌else◌, length, not, ◌&&◌, ◌^◌,
}
use kanta.Base.Bytes.{Bytes, slice, bytes_eq, little_endian, from_bytes}
use kanta.Base.ParseInt.{codes}
use kanta.Framing.{
  RecordType, snapshot, change, Message, missing_sync_header, incomplete_frame,
  invalid_frame_marker, invalid_frame_checksum, ReplayError, Result, ok, err, ◌>>=◌, ◌>>◌, raise_if,
  Record, Stream, stop, raise, unfinished, yield, map_stream, LastSnapshot, Framer,
}

abbrev pub sync_size : ℕ
sync_size = 4

abbrev pub len_size : ℕ
len_size = 4

abbrev pub offset_size : ℕ
offset_size = 8

abbrev pub checksum_size : ℕ
checksum_size = 8

pub record Sync : Type 0 where
  pub sync_snapshot : Bytes
  pub sync_change : Bytes

-- bytes((~b) & 0xFF for b in value)
unfoldable pub invert : Bytes → Bytes
invert = map (λ b. 255 - b)

-- set_sync; `none` is the ValueError
unfoldable pub set_sync : Bytes → Option Sync
set_sync value =
    if length value == sync_size
    then some (record { sync_snapshot = value; sync_change = invert value })
    else none

unfoldable pub ensure_sync_seed_for_write : Sync → ℕ → Bytes × ℕ
ensure_sync_seed_for_write self record_offset =
    if record_offset == 0 then (self.sync_snapshot, sync_size) else ([], record_offset)

error_at : Message → ℕ → Option RecordType → ReplayError
error_at message pos kind = record {
  message = message;
  line_number = 0;
  byte_pos = pos;
  record_type = kind;
}

-- the slice has four bytes, so that `set_sync` does not raise
unfoldable pub load_sync_seed_from_data : Sync → Bytes → Result Sync
unfolding error_at
load_sync_seed_from_data self [] = ok self
load_sync_seed_from_data self (b ∷ bs) =
    if ltb (length (b ∷ bs)) sync_size
    then err (error_at missing_sync_header 0 none)
    else let seed = slice 0 sync_size (b ∷ bs) in
      ok (record { sync_snapshot = seed; sync_change = invert seed })

abbrev type_name : Bool → RecordType
type_name is_snapshot = if is_snapshot then snapshot else change

-- what `_iter_records_internal` yields
pub record Frame : Type 0 where
  pub is_snapshot : Bool
  pub payload : Bytes
  pub next_offset : ℕ
  pub record_offset : ℕ

module _ (blake3 : Bytes → Bytes → ℕ → Bytes) where
  -- b"Kanta blake3" + domain + self._sync_snapshot + offset_part
  unfoldable pub hash_key : Bool → Sync → Bytes → Bytes
  hash_key is_snapshot self offset_part =
      codes "Kanta blake3"
      ++ ((if is_snapshot then codes "SNAPSHOT" else codes "DIFFRECD")
          ++ (self.sync_snapshot ++ offset_part))

  -- `_checksum`, once the offset is known to fit eight bytes, as every position in a file does
  unfoldable pub checksum : Sync → Bool → ℕ → Bytes → Bytes
  checksum self is_snapshot record_offset payload =
      blake3 payload (hash_key is_snapshot self (little_endian offset_size record_offset))
        checksum_size

  unfoldable pub marker : Sync → Bool → Bytes
  marker self is_snapshot = if is_snapshot then self.sync_snapshot else self.sync_change

  -- the frame after the header
  unfoldable pub framed : Sync → Bool → Bytes → ℕ → Bytes
  framed self is_snapshot payload offset =
      marker self is_snapshot
      ++ (little_endian len_size (length payload)
          ++ (checksum self is_snapshot offset payload ++ payload))

  -- `frame_change` and `frame_snapshot`; `none` is the OverflowError of a `to_bytes`
  unfoldable pub frame : Sync → Bool → Bytes → ℕ → Option Bytes
  unfolding ensure_sync_seed_for_write
  frame self is_snapshot payload record_offset =
      let (header, effective_offset) = ensure_sync_seed_for_write self record_offset in
      if ltb effective_offset (256 ^ offset_size) && ltb (length payload) (256 ^ len_size)
      then some (header ++ framed self is_snapshot payload effective_offset)
      else none

  unfoldable pub frame_change : Sync → Bytes → ℕ → Option Bytes
  unfolding frame
  frame_change self = frame self false

  unfoldable pub frame_snapshot : Sync → Bytes → ℕ → Option Bytes
  unfolding frame
  frame_snapshot self = frame self true

  -- the first four bytes tell a snapshot from a change
  unfoldable pub read_marker : Sync → Bytes → ℕ → Result Bool
  unfolding error_at
  read_marker self frame_seed pos =
      if bytes_eq frame_seed self.sync_snapshot
      then ok true
      else if bytes_eq frame_seed self.sync_change
      then ok false
      else err (error_at invalid_frame_marker pos none)

  -- a frame at `idx`, once its marker is read: the length, the checksum and the payload
  unfoldable pub read_body : Sync → Bool → Bytes → ℕ → Result Frame
  unfolding error_at
  read_body self is_snapshot bytes idx = do
    let head = idx + sync_size
    let kind = some (type_name is_snapshot)
    raise_if (ltb (length bytes) (head + (len_size + checksum_size)))
        (error_at incomplete_frame idx kind)
    let payload_len = from_bytes (slice head (head + len_size) bytes)
    let digest = slice (head + len_size) (head + len_size + checksum_size) bytes
    let body = head + len_size + checksum_size
    raise_if (ltb (length bytes) (body + payload_len)) (error_at incomplete_frame idx kind)
    let payload = slice body (body + payload_len) bytes
    raise_if (not (bytes_eq digest (checksum self is_snapshot idx payload)))
        (error_at invalid_frame_checksum idx kind)
    ok (record {
      is_snapshot = is_snapshot;
      payload = payload;
      next_offset = body + payload_len;
      record_offset = idx;
    })

  -- one round of the loop of `_iter_records_internal`, at a position before the end
  unfoldable pub read_frame : Sync → Bytes → ℕ → Result Frame
  unfolding error_at
  read_frame self bytes idx = do
    raise_if (ltb (length bytes) (idx + sync_size)) (error_at incomplete_frame idx none)
    is_snapshot ← read_marker self (slice idx (idx + sync_size) bytes) idx
    read_body self is_snapshot bytes idx

  -- while idx < len(data), on fuel; each round moves on by sixteen bytes at least
  unfoldable pub frames_from : ℕ → Sync → Bytes → ℕ → Stream Frame
  frames_from zero self bytes idx = unfinished
  frames_from (suc fuel) self bytes idx =
      if ltb idx (length bytes)
      then elim (read_frame self bytes idx) [
        | err e ↦ raise e
        | ok f ↦ yield f (frames_from fuel self bytes f.next_offset)
      ]
      else stop

  -- `_iter_records_internal`, after the seed is loaded
  unfoldable pub iter_records_internal : Sync → Bytes → ℕ → Stream Frame
  iter_records_internal self [] start = stop
  iter_records_internal self (b ∷ bs) start = elim (load_sync_seed_from_data self (b ∷ bs)) [
    | err e ↦ raise e
    | ok sync ↦ frames_from (suc (length (b ∷ bs))) sync (b ∷ bs) start
  ]

  unfoldable pub as_record : Frame → Record
  as_record f = record {
    is_snapshot = f.is_snapshot;
    payload = f.payload;
    line_number = 0;
    byte_pos = f.record_offset;
  }

  -- `iter_records`
  unfoldable pub iter_records : Sync → Bytes → ℕ → Stream Record
  unfolding as_record
  iter_records self bytes offset =
      map_stream as_record
        (iter_records_internal self bytes (if offset == 0 then sync_size else offset))

  -- the loop of `scan_last_snapshot`
  unfoldable pub last_snapshot : LastSnapshot → Stream Frame → Result LastSnapshot
  last_snapshot found stop = ok found
  last_snapshot found (raise e) = err e
  last_snapshot found unfinished = ok found
  last_snapshot found (yield f rest) =
      last_snapshot
        (if f.is_snapshot then (some f.payload, f.next_offset, f.record_offset) else found) rest

  unfoldable pub scan_last_snapshot : Sync → Bytes → Result LastSnapshot
  scan_last_snapshot self [] = ok (none, 0, 0)
  scan_last_snapshot self (b ∷ bs) =
      last_snapshot (none, sync_size, 0) (iter_records_internal self (b ∷ bs) sync_size)

  abbrev pub bin_framer : Sync → Framer
  bin_framer self = record {
    frame_change = frame_change self;
    frame_snapshot = frame_snapshot self;
    scan_last_snapshot = scan_last_snapshot self;
    iter_records = iter_records self;
  }
