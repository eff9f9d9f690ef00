-- ===== src/Framing/Bin/Verified.antt =====
-- `_iter_records_internal` on any bytes: the checks of its frames, and its end.
use kanta.Base.{
  ℕ, zero, suc, ◌+◌, ◌-◌, ◌≤◌, ◌<◌, ◌≡◌, ◌≢◌, Bool, [], arith, length, ltb, ltb→lt, Bool-cases, inl,
  inr,
}
use kanta.Base.Bytes.{Bytes, slice, bytes_eq_iff, from_bytes}
use kanta.Framing.{ok, err, ReplayError, Stream, stop, raise, unfinished, yield, Result-cases}
use kanta.Framing.Bin.Seed.{iter_records_internal-loaded}
use kanta.Framing.Bin.{
  Sync, Frame, iter_records_internal, marker, checksum, read_marker, read_body, read_frame,
  frames_from, load_sync_seed_from_data,
}

-- The bytes of the frame: its marker, its length, its checksum and its payload, inside the file.
pub record IsVerified (blake3 : Bytes → Bytes → ℕ → Bytes) (self : Sync) (bytes : Bytes) (f : Frame)
    : Type 0 where
  pub marked : slice f.record_offset (f.record_offset + 4) bytes ≡ marker blake3 self f.is_snapshot
  pub sized :
      f.next_offset
      ≡ f.record_offset
        + 4
        + 4
        + 8
        + from_bytes (slice (f.record_offset + 4) (f.record_offset + 4 + 4) bytes)
  pub sealed :
      slice (f.record_offset + 4 + 4) (f.record_offset + 4 + 4 + 8) bytes
      ≡ checksum blake3 self f.is_snapshot f.record_offset f.payload
  pub carried : f.payload ≡ slice (f.record_offset + 4 + 4 + 8) f.next_offset bytes
  pub inside : f.next_offset ≤ length bytes

-- The frames stand one behind the other from `pos` on and are verified, and the stream ends at the
-- end of the file or raises.
abbrev pub IsSound : (Bytes → Bytes → ℕ → Bytes) → Sync → Bytes → ℕ → Stream Frame → Type 0
IsSound blake3 self bytes pos stop = length bytes ≤ pos
IsSound blake3 self bytes pos (raise e) = e.byte_pos ≡ pos
IsSound blake3 self bytes pos unfinished = ⊥
IsSound blake3 self bytes pos (yield f rest) =
    (f.record_offset ≡ pos)
    × IsVerified blake3 self bytes f
    × IsSound blake3 self bytes f.next_offset rest

module _ (blake3 : Bytes → Bytes → ℕ → Bytes) (self : Sync) where
  read_marker-ok :
      (seed : Bytes) (pos : ℕ) (s : Bool)
      → read_marker blake3 self seed pos ≡ ok s
      → seed ≡ marker blake3 self s
  unfolding read_marker marker
  read_marker-ok seed pos s h =
      ground (arith, bytes_eq_iff seed self.sync_snapshot, bytes_eq_iff seed self.sync_change)

  read_body-IsVerified :
      (bytes : Bytes) (idx : ℕ) (s : Bool) (f : Frame)
      → slice idx (idx + 4) bytes ≡ marker blake3 self s
      → read_body blake3 self s bytes idx ≡ ok f
      → IsVerified blake3 self bytes f × (f.record_offset ≡ idx)
  unfolding read_body
  read_body-IsVerified bytes idx s f marked h =
      let n = from_bytes (slice (idx + 4) (idx + 4 + 4) bytes) in
      let body = idx + 4 + 4 + 8 in
      ground (
        arith,
        bytes_eq_iff (slice (idx + 4 + 4) (idx + 4 + 4 + 8) bytes)
            (checksum blake3 self s idx (slice body (body + n) bytes)),
      )

  read_frame-IsVerified :
      (bytes : Bytes) (idx : ℕ) (f : Frame)
      → read_frame blake3 self bytes idx ≡ ok f
      → IsVerified blake3 self bytes f × (f.record_offset ≡ idx)
  unfolding read_frame
  read_frame-IsVerified bytes idx f h =
      let seed = slice idx (idx + 4) bytes in
      elim (Result-cases (read_marker blake3 self seed idx)) [
        | inl (s, read) ↦
            read_body-IsVerified bytes idx s f (read_marker-ok seed idx s read) (ground arith)
        | inr (e, raised) ↦ absurd (ground arith)
      ]

  read_frame-err :
      (bytes : Bytes) (idx : ℕ) (e : ReplayError)
      → read_frame blake3 self bytes idx ≡ err e
      → e.byte_pos ≡ idx
  unfolding read_frame read_marker read_body
  read_frame-err bytes idx e h = ground arith

  -- each frame takes sixteen bytes at least, so that the fuel lasts
  frames_from-IsSound :
      (fuel : ℕ) (bytes : Bytes) (pos : ℕ)
      → length bytes - pos < fuel
      → IsSound blake3 self bytes pos (frames_from blake3 fuel self bytes pos)
  unfolding frames_from
  frames_from-IsSound zero bytes pos h = absurd (omega arith)
  frames_from-IsSound (suc fuel) bytes pos h = elim (Bool-cases (ltb pos (length bytes))) [
    | inr ended ↦ rw ended (ground arith)
    | inl more ↦ elim (Result-cases (read_frame blake3 self bytes pos)) [
      | inr (e, raised) ↦ rw (more, raised) (read_frame-err bytes pos e raised)
      | inl (f, read) ↦
          let (verified, at) = read_frame-IsVerified bytes pos f read in
          rw (more, read)
            (
              at,
              verified,
              frames_from-IsSound fuel bytes f.next_offset
                  (omega (arith, verified.sized, ltb→lt _ _ more)),
            )
    ]
  ]

-- From a file whose seed loads, `_iter_records_internal` yields frames that stand one behind the
-- other from `start` on, each with a known marker, inside the file, with the checksum of its
-- payload; and it stops at the end of the file, or raises at the position where the next frame
-- should stand.
pub iter_records_internal-IsSound :
    (blake3 : Bytes → Bytes → ℕ → Bytes) (other self : Sync) (bytes : Bytes) (start : ℕ)
    → bytes ≢ []
    → load_sync_seed_from_data other bytes ≡ ok self
    → IsSound blake3 self bytes start (iter_records_internal blake3 other bytes start)
iter_records_internal-IsSound blake3 other self bytes start h loaded =
    rw (iter_records_internal-loaded blake3 other self bytes start h loaded)
      (frames_from-IsSound blake3 self (suc (length bytes)) bytes start (omega arith))
