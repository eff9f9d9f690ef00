-- ===== src/Framing/Bin/Journal.antt =====
-- A file written record by record, as `flush_sync` and `_write` append to it, and the records that
-- it should give back.
use kanta.Base.{
  ◌≡◌, false, if◌then◌else◌, ℕ, ◌+◌, Bool, Option, some, ◌>>=◌, List, [], ◌∷◌, ◌++◌, length,
}
use kanta.Base.Bytes.{Bytes}
use kanta.Framing.{LastSnapshot, Record, Stream, stop, yield}
use kanta.Framing.Bin.{Sync, Frame, frame}

-- a snapshot or a change, with its payload
abbrev pub Entry : Type 0
Entry = Bool × Bytes

-- the bytes that are appended to a file of `offset` bytes
unfoldable pub written : (Bytes → Bytes → ℕ → Bytes) → Sync → ℕ → List Entry → Option Bytes
written blake3 self offset [] = some []
written blake3 self offset ((s, payload) ∷ entries) = do
  first ← frame blake3 self s payload offset
  rest ← written blake3 self (offset + length first) entries
  some (first ++ rest)

abbrev pub frame_size : Bytes → ℕ
frame_size payload = 16 + length payload

-- the frames of entries that stand at a position
abbrev pub frames_at : ℕ → List Entry → Stream Frame
frames_at pos [] = stop
frames_at pos ((s, payload) ∷ entries) =
    yield
      (record {
        is_snapshot = s;
        payload = payload;
        next_offset = pos + frame_size payload;
        record_offset = pos;
      })
      (frames_at (pos + frame_size payload) entries)

abbrev pub total_size : List Entry → ℕ
total_size [] = 0
total_size ((s, payload) ∷ entries) = frame_size payload + total_size entries

-- the records that a consumer of `iter_records` should see
abbrev pub records_at : ℕ → List Entry → Stream Record
records_at pos [] = stop
records_at pos ((s, payload) ∷ entries) =
    yield (record { is_snapshot = s; payload = payload; line_number = 0; byte_pos = pos })
      (records_at (pos + frame_size payload) entries)

-- the last snapshot of entries that stand at a position, or `found` where there is none
abbrev pub last_at : LastSnapshot → ℕ → List Entry → LastSnapshot
last_at found pos [] = found
last_at found pos ((s, payload) ∷ entries) =
    last_at (if s then (some payload, pos + frame_size payload, pos) else found)
      (pos + frame_size payload) entries

abbrev pub AllChanges : List Entry → Type 0
AllChanges [] = Unit
AllChanges ((s, payload) ∷ entries) = (s ≡ false) × AllChanges entries
