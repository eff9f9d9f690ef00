-- ===== src/Framing/Bin/RoundTrip.antt =====
-- `iter_records` and `scan_last_snapshot` on a file that the framer writes.
use kanta.Base.{
  ℕ, suc, ◌+◌, ◌<◌, ◌≡◌, ◌≢◌, refl, ap, sym, ◌∙◌, Bool, none, some, List, [], ◌∷◌, ◌++◌,
  append_assoc, arith, if◌then◌else◌, length, length-append,
}
use kanta.Base.Bytes.{Bytes}
use kanta.Framing.{LastSnapshot, ok, yield, map_stream}
use kanta.Framing.Bin.{
  Sync, framed, iter_records_internal, iter_records, last_snapshot, scan_last_snapshot, as_record,
}
use kanta.Framing.Bin.Seed.{load_sync_seed-own, iter_records_internal-loaded}
use kanta.Framing.Bin.Read.{IsSync}
use kanta.Framing.Bin.Written.{length-framed, written-cons, first-frame, frames_from-written}
use kanta.Framing.Bin.Journal.{
  Entry, written, frame_size, frames_at, records_at, last_at, total_size,
}

pub map_stream-frames_at :
    (blake3 : Bytes → Bytes → ℕ → Bytes) (pos : ℕ) (entries : List Entry)
    → map_stream (as_record blake3) (frames_at pos entries) ≡ records_at pos entries
unfolding as_record
map_stream-frames_at blake3 pos [] = refl
map_stream-frames_at blake3 pos ((s, payload) ∷ entries) =
    ap (yield (record { is_snapshot = s; payload = payload; line_number = 0; byte_pos = pos }))
      (map_stream-frames_at blake3 (pos + frame_size payload) entries)

last_snapshot-frames_at :
    (blake3 : Bytes → Bytes → ℕ → Bytes) (found : LastSnapshot) (pos : ℕ) (entries : List Entry)
    → last_snapshot blake3 found (frames_at pos entries) ≡ ok (last_at found pos entries)
unfolding last_snapshot
last_snapshot-frames_at blake3 found pos [] = refl
last_snapshot-frames_at blake3 found pos ((s, payload) ∷ entries) =
    last_snapshot-frames_at blake3
      (if s then (some payload, pos + frame_size payload, pos) else found)
      (pos + frame_size payload) entries

module _ (blake3 : Bytes → Bytes → ℕ → Bytes)
    (digest_size : (payload key : Bytes) (n : ℕ) → length (blake3 payload key n) ≡ n)
    (self other : Sync) (sync : IsSync self) where
  -- a framer with any seed loads the seed of the file, and reads on from `pre`
  internal-written :
      (pre out : Bytes) (entries : List Entry)
      → 0 < length (self.sync_snapshot ++ pre)
      → written blake3 self (length (self.sync_snapshot ++ pre)) entries ≡ some out
      → iter_records_internal blake3 other
          ((self.sync_snapshot ++ pre) ++ out)
          (length (self.sync_snapshot ++ pre))
        ≡ frames_at (length (self.sync_snapshot ++ pre)) entries
  internal-written pre out entries h w =
      let file = (self.sync_snapshot ++ pre) ++ out in
      let size : length file ≡ length (self.sync_snapshot ++ pre) + length out =
        length-append (self.sync_snapshot ++ pre) out in
      let enough : length out < suc (length file) = omega arith in
      iter_records_internal-loaded blake3 other self file (length (self.sync_snapshot ++ pre))
        (λ e. absurd (omega (arith, ap length e)))
        (rw append_assoc (load_sync_seed-own other self (pre ++ out) sync))
      ∙ frames_from-written blake3 digest_size self sync (suc (length file))
          (self.sync_snapshot ++ pre) out entries h enough w

  pub internal-from :
      (pre out : Bytes) (entries : List Entry) (pos : ℕ)
      → pos ≡ 4 + length pre
      → written blake3 self pos entries ≡ some out
      → iter_records_internal blake3 other (self.sync_snapshot ++ (pre ++ out)) pos
        ≡ frames_at pos entries
  internal-from pre out entries pos at w =
      let here : pos ≡ length (self.sync_snapshot ++ pre) =
        omega (arith, length-append self.sync_snapshot pre, sync.size) in
      rw (here, ← append_assoc) (internal-written pre out entries (omega arith) (rw here at w))

  -- Let the hash give digests of the length asked for, and the seed be as `set_sync` makes it. A
  -- file that is written record by record, one or more, is read back whole, by a framer with any
  -- seed: every record in order, with its kind, its payload and its position, and then the end of
  -- the stream.
  pub iter_records-written :
      (s : Bool) (payload : Bytes) (entries : List Entry) (file : Bytes)
      → written blake3 self 0 ((s, payload) ∷ entries) ≡ some file
      → iter_records blake3 other file 0 ≡ records_at 4 ((s, payload) ∷ entries)
  unfolding iter_records
  iter_records-written s payload entries file w =
      let (rest, e, w') = first-frame blake3 digest_size self sync s payload entries file w in
      rw (e, internal-from [] rest ((s, payload) ∷ entries) 4 refl w')
        (map_stream-frames_at blake3 4 ((s, payload) ∷ entries))

  scan-part :
      (bytes : Bytes)
      → bytes ≢ []
      → scan_last_snapshot blake3 other bytes
        ≡ last_snapshot blake3 (none, 4, 0) (iter_records_internal blake3 other bytes 4)
  unfolding scan_last_snapshot
  scan-part [] h = absurd (h refl)
  scan-part (b ∷ bs) h = refl

  pub scan-written :
      (s : Bool) (payload : Bytes) (entries : List Entry) (file : Bytes)
      → written blake3 self 0 ((s, payload) ∷ entries) ≡ some file
      → scan_last_snapshot blake3 other file ≡ ok (last_at (none, 4, 0) 4 ((s, payload) ∷ entries))
  scan-written s payload entries file w =
      let (rest, e, w') = first-frame blake3 digest_size self sync s payload entries file w in
      let some_bytes : file ≢ [] = λ none_left. absurd (
        omega (
          arith,
          sync.size,
          ap length (sym e ∙ none_left),
          length-append self.sync_snapshot rest,
        )) in
      rw (scan-part file some_bytes, e, internal-from [] rest ((s, payload) ∷ entries) 4 refl w')
        (last_snapshot-frames_at blake3 (none, 4, 0) 4 ((s, payload) ∷ entries))

  -- the bytes of the first entries, and those of the others
  pub written-append :
      (before after : List Entry) (pos : ℕ) (out : Bytes)
      → 0 < pos
      → written blake3 self pos (before ++ after) ≡ some out
      → (pre : Bytes) × (post : Bytes) × (out ≡ pre ++ post)
        × (length pre ≡ total_size before)
        × (written blake3 self (pos + total_size before) after ≡ some post)
  written-append [] after pos out h w =
      let same : pos + 0 ≡ pos = omega arith in ([], out, refl, refl, rw same w)
  written-append ((s, payload) ∷ before) after pos out h w =
      let f = framed blake3 self s payload pos in
      let (rest, e, small, w') =
        written-cons blake3 digest_size self sync s payload (before ++ after) pos out h w in
      let (pre, post, e', size, w'') =
        written-append before after (pos + frame_size payload) rest (omega arith) w' in
      let same : pos + (frame_size payload + total_size before)
          ≡ pos + frame_size payload + total_size before =
        omega arith in
      (
        f ++ pre,
        post,
        e ∙ (rw e' (sym (append_assoc f pre post))),
        omega
            (arith, length-append f pre, length-framed blake3 digest_size self sync s payload pos),
        rw same w'',
      )
