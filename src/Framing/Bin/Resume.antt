-- ===== src/Framing/Bin/Resume.antt =====
-- `scan_last_snapshot`, and `iter_records` from the offset that it gives.
use kanta.Base.{
  ℕ, zero, suc, ◌+◌, ◌<◌, ◌≡◌, ◌≢◌, refl, ap, ◌∙◌, Bool, true, none, some, List, [], ◌∷◌, ◌++◌,
  append_assoc, arith, if◌then◌else◌, length, length-append,
}
use kanta.Base.Bytes.{Bytes}
use kanta.Framing.{LastSnapshot, ok, map_stream}
use kanta.Framing.Bin.{
  Sync, iter_records, iter_records_internal, framed, as_record, scan_last_snapshot, LastSnapshot,
}
use kanta.Framing.Bin.Read.{IsSync}
use kanta.Framing.Bin.Written.{first-frame, written-cons, length-framed}
use kanta.Framing.Bin.RoundTrip.{scan-written, written-append, internal-from, map_stream-frames_at}
use kanta.Framing.Bin.Journal.{
  Entry, written, frame_size, records_at, last_at, AllChanges, total_size,
}

some_entry : (before : List Entry) (e : Entry) (after : List Entry) → before ++ e ∷ after ≢ []
some_entry [] e after h = cc
some_entry (x ∷ before) e after h = cc

last_at-changes :
    (found : LastSnapshot) (pos : ℕ) (changes : List Entry)
    → AllChanges changes
    → last_at found pos changes ≡ found
last_at-changes found pos [] h = refl
last_at-changes found pos ((s, payload) ∷ changes) h =
    rw (h.0) (last_at-changes found (pos + frame_size payload) changes h.1)

last_at-snapshot :
    (found : LastSnapshot) (pos : ℕ) (before changes : List Entry) (payload : Bytes)
    → AllChanges changes
    → last_at found pos (before ++ (true, payload) ∷ changes)
      ≡ (some payload, pos + total_size before + frame_size payload, pos + total_size before)
last_at-snapshot found pos [] changes payload h =
    let here : pos + 0 ≡ pos = omega arith in rw here (last_at-changes _ _ changes h)
last_at-snapshot found pos ((s, first) ∷ before) changes payload h =
    let later : pos + (frame_size first + total_size before)
        ≡ pos + frame_size first + total_size before =
      omega arith in
    rw later (
      last_at-snapshot (if s then (some first, pos + frame_size first, pos) else found)
        (pos + frame_size first) before changes payload h)

module _ (blake3 : Bytes → Bytes → ℕ → Bytes)
    (digest_size : (payload key : Bytes) (n : ℕ) → length (blake3 payload key n) ≡ n)
    (self other : Sync) (sync : IsSync self) where
  entries_of_file :
      (entries : List Entry) (file : Bytes)
      → entries ≢ []
      → written blake3 self 0 entries ≡ some file
      → (rest : Bytes) × (file ≡ self.sync_snapshot ++ rest)
        × (written blake3 self 4 entries ≡ some rest)
        × (scan_last_snapshot blake3 other file ≡ ok (last_at (none, 4, 0) 4 entries))
  entries_of_file [] file h w = absurd (h refl)
  entries_of_file ((s, payload) ∷ entries) file h w =
      let (rest, e, w') = first-frame blake3 digest_size self sync s payload entries file w in
      (rest, e, w', scan-written blake3 digest_size self other sync s payload entries file w)

  iter_records-at :
      (bytes : Bytes) (pos : ℕ)
      → 0 < pos
      → iter_records blake3 other bytes pos
        ≡ map_stream (as_record blake3) (iter_records_internal blake3 other bytes pos)
  unfolding iter_records
  iter_records-at bytes zero h = absurd (omega arith)
  iter_records-at bytes (suc pos) h = ground arith

  -- iterating from behind an entry that is in the file
  iter_records-behind :
      (before after : List Entry) (s : Bool) (payload rest : Bytes)
      → written blake3 self 4 (before ++ (s, payload) ∷ after) ≡ some rest
      → iter_records blake3 other
          (self.sync_snapshot ++ rest)
          (4 + total_size before + frame_size payload)
        ≡ records_at (4 + total_size before + frame_size payload) after
  iter_records-behind before after s payload rest w =
      let (pre, post, e, size, w') =
        written-append blake3 digest_size self other sync before ((s, payload) ∷ after) 4 rest
          (omega arith) w in
      let at = 4 + total_size before in
      let f = framed blake3 self s payload at in
      let (more, e', small, w'') =
        written-cons blake3 digest_size self sync s payload after at post (omega arith) w' in
      let split : rest ≡ (pre ++ f) ++ more = e ∙ (rw (e', append_assoc)) in
      let behind : at + frame_size payload ≡ 4 + length (pre ++ f) = omega (
        arith,
        size,
        length-append pre f,
        length-framed blake3 digest_size self sync s payload at,
      ) in
      rw
        (
          split,
          iter_records-at _ (at + frame_size payload) (omega arith),
          internal-from blake3 digest_size self other sync (pre ++ f) more after
              (at + frame_size payload) behind w'',
        )
        (map_stream-frames_at blake3 (at + frame_size payload) after)

  -- Let the hash give digests of the length asked for, and the seed be as `set_sync` makes it.
  -- Where a written file ends with a snapshot and then changes alone, the scan finds that snapshot
  -- with its position and the offset behind it, and iterating from that offset yields those changes
  -- and ends.
  pub scan-iter_records :
      (before changes : List Entry) (payload : Bytes) (file : Bytes)
      → AllChanges changes
      → written blake3 self 0 (before ++ (true, payload) ∷ changes) ≡ some file
      → (scan_last_snapshot blake3 other file
          ≡ ok (some payload, 4 + total_size before + frame_size payload, 4 + total_size before))
        × (iter_records blake3 other file (4 + total_size before + frame_size payload)
            ≡ records_at (4 + total_size before + frame_size payload) changes)
  scan-iter_records before changes payload file all w =
      let (rest, e, w', scanned) =
        entries_of_file (before ++ (true, payload) ∷ changes) file
          (some_entry before (true, payload) changes) w in
      (
        scanned ∙ ap ok (last_at-snapshot (none, 4, 0) 4 before changes payload all),
        rw e (iter_records-behind before changes true payload rest w'),
      )

  -- Where a file holds changes alone, the scan finds no snapshot, and iterating from the offset
  -- that it gives yields them all.
  pub changes_of_file :
      (changes : List Entry) (file : Bytes)
      → changes ≢ []
      → AllChanges changes
      → written blake3 self 0 changes ≡ some file
      → (scan_last_snapshot blake3 other file ≡ ok (none, 4, 0))
        × (iter_records blake3 other file 4 ≡ records_at 4 changes)
  changes_of_file changes file some_change all w =
      let (rest, e, w', scanned) = entries_of_file changes file some_change w in
      (
        scanned ∙ ap ok (last_at-changes (none, 4, 0) 4 changes all),
        rw
            (
              e,
              iter_records-at _ 4 (omega arith),
              internal-from blake3 digest_size self other sync [] rest changes 4 refl w',
            )
            (map_stream-frames_at blake3 4 changes),
      )
