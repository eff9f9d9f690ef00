-- ===== src/Framing/Bin/Written.antt =====
-- The bytes that are written for a list of entries, frame by frame, and the loop that reads them.
use kanta.Base.{
  ℕ, zero, suc, ◌+◌, ◌^◌, ◌<◌, ◌≡◌, refl, ap, sym, ◌∙◌, Bool, true, some, List, [], ◌∷◌, ◌++◌,
  append_assoc, append-nil, arith, ltb, length, length-append, >>=-eq-some,
}
use kanta.Base.Bytes.{Bytes, little_endian, length-little_endian}
use kanta.Framing.{ok, stop, yield}
use kanta.Framing.Bin.{Sync, Frame, checksum, marker, framed, frame, read_frame, frames_from}
use kanta.Framing.Bin.Read.{IsSync, read-file, length-marker, length-checksum}
use kanta.Framing.Bin.Journal.{Entry, written, frame_size, frames_at}

module _ (blake3 : Bytes → Bytes → ℕ → Bytes)
    (digest_size : (payload key : Bytes) (n : ℕ) → length (blake3 payload key n) ≡ n) (self : Sync)
    (sync : IsSync self) where
  pub length-framed :
      (s : Bool) (payload : Bytes) (offset : ℕ)
      → length (framed blake3 self s payload offset) ≡ frame_size payload
  unfolding framed
  length-framed s payload offset =
      let m = marker blake3 self s in
      let l = little_endian 4 (length payload) in
      let c = checksum blake3 self s offset payload in
      omega (
        arith,
        length-append m (l ++ (c ++ payload)),
        length-append l (c ++ payload),
        length-append c payload,
        length-marker blake3 digest_size self sync s,
        length-little_endian 4 (length payload),
        length-checksum blake3 digest_size self sync s offset payload,
      )

  -- a frame that is not the first
  frame_inside :
      (s : Bool) (payload : Bytes) (offset : ℕ) (out : Bytes)
      → 0 < offset
      → frame blake3 self s payload offset ≡ some out
      → (out ≡ framed blake3 self s payload offset) × (length payload < 256 ^ 4)
  unfolding frame
  frame_inside s payload offset out h e = ground arith

  abbrev frame_at : ℕ → Bool → Bytes → Frame
  frame_at pos s payload = record {
    is_snapshot = s;
    payload = payload;
    next_offset = pos + frame_size payload;
    record_offset = pos;
  }

  read_frame-framed :
      (pre post payload : Bytes) (s : Bool)
      → length payload < 256 ^ 4
      → read_frame blake3 self
          (pre ++ (framed blake3 self s payload (length pre) ++ post))
          (length pre)
        ≡ ok (frame_at (length pre) s payload)
  unfolding framed
  read_frame-framed pre post payload s small =
      let next : length pre + frame_size payload ≡ length pre + 4 + 4 + 8 + length payload =
        omega arith in
      rw next (read-file blake3 digest_size self sync pre post payload s small)

  -- one frame, and then what follows it
  frames_from-framed :
      (fuel : ℕ) (pre post payload : Bytes) (s : Bool)
      → length payload < 256 ^ 4
      → frames_from blake3
          (suc fuel)
          self
          (pre ++ (framed blake3 self s payload (length pre) ++ post))
          (length pre)
        ≡ yield (frame_at (length pre) s payload) (
            frames_from blake3 fuel self
              (pre ++ (framed blake3 self s payload (length pre) ++ post))
              (length pre + frame_size payload))
  unfolding frames_from
  frames_from-framed fuel pre post payload s small =
      let f = framed blake3 self s payload (length pre) in
      let inside : ltb (length pre) (length (pre ++ (f ++ post))) ≡ true = ground (
        arith,
        length-append pre (f ++ post),
        length-append f post,
        length-framed s payload (length pre),
      ) in
      rw (inside, read_frame-framed pre post payload s small)

  -- the end of the file
  frames_from-end :
      (fuel : ℕ) (pre : Bytes) (pos : ℕ)
      → pos ≡ length pre
      → frames_from blake3 (suc fuel) self pre pos ≡ stop
  unfolding frames_from
  frames_from-end fuel pre pos h = ground arith

  pub written-cons :
      (s : Bool) (payload : Bytes) (entries : List Entry) (offset : ℕ) (out : Bytes)
      → 0 < offset
      → written blake3 self offset ((s, payload) ∷ entries) ≡ some out
      → (rest : Bytes) × (out ≡ framed blake3 self s payload offset ++ rest)
        × (length payload < 256 ^ 4)
        × (written blake3 self (offset + frame_size payload) entries ≡ some rest)
  unfolding written
  written-cons s payload entries offset out h w =
      let (first, e, w') = >>=-eq-some (frame blake3 self s payload offset) _ w in
      let (rest, e', w'') =
        >>=-eq-some (written blake3 self (offset + length first) entries) _ w' in
      let (is_framed, small) = frame_inside s payload offset first h e in
      let size : length first ≡ frame_size payload =
        rw is_framed (length-framed s payload offset) in
      let split : first ++ rest ≡ out = cc in
      (rest, rw (← is_framed) (sym split), small, rw (← size) e')

  -- Entries that are appended to a file which is not empty are read from where they begin.
  pub frames_from-written :
      (fuel : ℕ) (pre out : Bytes) (entries : List Entry)
      → 0 < length pre
      → length out < fuel
      → written blake3 self (length pre) entries ≡ some out
      → frames_from blake3 fuel self (pre ++ out) (length pre) ≡ frames_at (length pre) entries
  frames_from-written zero pre out entries h enough w = absurd (omega arith)
  frames_from-written (suc fuel) pre out [] h enough w =
      let nothing : [] ≡ out = unfold written in cc in
      rw (← nothing, append-nil) (frames_from-end fuel pre (length pre) refl)
  frames_from-written (suc fuel) pre out ((s, payload) ∷ entries) h enough w =
      let (rest, is_out, small, w') = written-cons s payload entries (length pre) out h w in
      let f = framed blake3 self s payload (length pre) in
      let size : length (pre ++ f) ≡ length pre + frame_size payload =
        omega (arith, length-append pre f, length-framed s payload (length pre)) in
      let shorter : length rest < fuel =
        omega
          (arith, ap length is_out, length-append f rest, length-framed s payload (length pre)) in
      let later : frames_from blake3 fuel self ((pre ++ f) ++ rest) (length (pre ++ f))
          ≡ frames_at (length (pre ++ f)) entries =
        frames_from-written fuel (pre ++ f) rest entries (omega arith) shorter (rw size w') in
      rw (is_out, frames_from-framed fuel pre rest payload s small)
        (ap (yield (frame_at (length pre) s payload)) (rw (size, append_assoc) at later))

  frame-zero :
      (s : Bool) (payload : Bytes) {first : Bytes}
      → frame blake3 self s payload 0 ≡ some first
      → (first ≡ self.sync_snapshot ++ framed blake3 self s payload 4)
        × (frame blake3 self s payload 4 ≡ some (framed blake3 self s payload 4))
  unfolding frame
  frame-zero s payload e = ground arith

  written-first :
      (s : Bool) (payload rest : Bytes) (entries : List Entry)
      → frame blake3 self s payload 4 ≡ some (framed blake3 self s payload 4)
      → written blake3 self (4 + frame_size payload) entries ≡ some rest
      → written blake3 self 4 ((s, payload) ∷ entries)
        ≡ some (framed blake3 self s payload 4 ++ rest)
  unfolding written
  written-first s payload rest entries e w = rw (e, length-framed s payload 4, w)

  -- The first frame of a file stands behind the seed.
  pub first-frame :
      (s : Bool) (payload : Bytes) (entries : List Entry) (out : Bytes)
      → written blake3 self 0 ((s, payload) ∷ entries) ≡ some out
      → (rest : Bytes) × (out ≡ self.sync_snapshot ++ rest)
        × (written blake3 self 4 ((s, payload) ∷ entries) ≡ some rest)
  unfolding written
  first-frame s payload entries out w =
      let f = framed blake3 self s payload 4 in
      let (first, e, w') = >>=-eq-some (frame blake3 self s payload 0) _ w in
      let (rest, e', w'') = >>=-eq-some (written blake3 self (0 + length first) entries) _ w' in
      let (behind_seed, later) = frame-zero s payload e in
      let size : 0 + length first ≡ 4 + frame_size payload = omega (
        arith,
        ap length behind_seed,
        length-append self.sync_snapshot f,
        length-framed s payload 4,
        sync.size,
      ) in
      let split : first ++ rest ≡ out = cc in
      let behind : first ++ rest ≡ self.sync_snapshot ++ (f ++ rest) =
        rw (behind_seed, append_assoc) in
      (f ++ rest, sym split ∙ behind, written-first s payload rest entries later (rw size at e'))
