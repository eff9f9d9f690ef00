-- ===== src/Replay/Changes.antt =====
-- `replay` of serialization/base.py on files of changes, and of changes behind a snapshot.
use text.Mathlib.Text.{starts_with}
use kanta.Base.{
  ℕ, zero, suc, ◌+◌, ◌≡◌, ◌≢◌, refl, ap, sym, ◌∙◌, Bool, true, false, Option, none, some, List, [],
  ◌∷◌, ◌++◌, map, arith, ◌>>=◌, >>=-eq-some, ◌||◌, if◌then◌else◌, length,
}
use kanta.Base.Bytes.{Bytes}
use kanta.Value.{Value, obj, end}
use kanta.Patch.{apply_diff}
use kanta.Structs.{
  Time, ChangeRecord, Snapshot, Serializer, IsReadable, IsReadableSnapshot, AllReadable,
}
use kanta.Framing.{Framer, ok}
use kanta.Framing.Bin.{Sync, scan_last_snapshot, iter_records, iter_records_internal, bin_framer}
use kanta.Framing.Bin.Read.{IsSync}
use kanta.Framing.Bin.Journal.{Entry, written, frame_size, records_at, AllChanges, total_size}
use kanta.Framing.Bin.Resume.{changes_of_file, scan-iter_records}
use kanta.Replay.{
  ReplayResult, done, or_else, initial, on_change, replay_record, replay_stream, base_result,
  replay,
}

-- the diffs of the changes, applied in order
unfoldable pub replay_changes : Value → List ChangeRecord → Option Value
replay_changes state [] = some state
replay_changes state (c ∷ changes) = do
  next ← apply_diff state (obj c.diff)
  replay_changes next changes

pub replay_changes-append :
    (state : Value) (xs ys : List ChangeRecord)
    → replay_changes state (xs ++ ys) ≡ (replay_changes state xs >>= λ s. replay_changes s ys)
unfolding replay_changes
replay_changes-append state [] ys = refl
replay_changes-append state (c ∷ xs) ys =
    elim (kanta.Base.Option-cases (apply_diff state (obj c.diff))) [
      | kanta.Base.inl failed ↦ rw failed
      | kanta.Base.inr (s, patched) ↦ rw patched (replay_changes-append s xs ys)
    ]

-- the version after the changes
abbrev pub last_version : ℕ → List ChangeRecord → ℕ
last_version v [] = v
last_version v (c ∷ changes) = last_version c.v changes

abbrev pub last_mtime : Option Time → List ChangeRecord → Option Time
last_mtime m [] = m
last_mtime m (c ∷ changes) = last_mtime (or_else c.m m) changes

-- what a change that applies does to the state of the loop
abbrev changed : ReplayResult → ChangeRecord → Value → ReplayResult
changed r c next = record r {
  state = next;
  version = c.v;
  has_migration = r.has_migration || starts_with c.a "migrate";
  m = or_else c.m r.m;
}

on_change-changed :
    (r : ReplayResult) (c : ChangeRecord) (next : Value)
    → apply_diff r.state (obj c.diff) ≡ some next
    → on_change r c ≡ done (changed r c next)
unfolding on_change
on_change-changed r c next e = rw (on_change, e)

module _ (serializer : Serializer) where
  abbrev pub change_entry : ChangeRecord → Entry
  change_entry c = (false, serializer.encode_change c)

  replay_record-change :
      (r : ReplayResult) (c : ChangeRecord) (pos : ℕ)
      → IsReadable serializer c
      → replay_record serializer r (record {
        is_snapshot = false;
        payload = serializer.encode_change c;
        line_number = 0;
        byte_pos = pos;
      })
        ≡ on_change r c
  unfolding replay_record
  replay_record-change r c pos readable = rw readable

  replay_stream-changes :
      (changes : List ChangeRecord) (r : ReplayResult) (pos : ℕ) (state : Value)
      → AllReadable serializer changes
      → replay_changes r.state changes ≡ some state
      → (out : ReplayResult) × (replay_stream serializer r
            (records_at pos (map change_entry changes))
          ≡ done out)
        × (out.state ≡ state)
        × (out.version ≡ last_version r.version changes)
        × (out.m ≡ last_mtime r.m changes)
  unfolding replay_stream replay_changes replay_record
  replay_stream-changes [] r pos state readable h = (r, refl, ground arith, refl, refl)
  replay_stream-changes (c ∷ changes) r pos state readable h =
      let (next, e, h') = >>=-eq-some (apply_diff r.state (obj c.diff)) _ h in
      rw (replay_record-change r c pos (readable.0) ∙ on_change-changed r c next e) (
        replay_stream-changes changes (changed r c next)
          (pos + frame_size (serializer.encode_change c)) state readable.1 h')

  module _ (blake3 : Bytes → Bytes → ℕ → Bytes)
      (digest_size : (payload key : Bytes) (n : ℕ) → length (blake3 payload key n) ≡ n)
      (self other : Sync) (sync : IsSync self) where
    all-AllChanges : (changes : List ChangeRecord) → AllChanges (map change_entry changes)
    all-AllChanges [] = tt
    all-AllChanges (c ∷ changes) = (refl, all-AllChanges changes)

    replay-no_snapshot :
        (framer : Framer) (bytes : Bytes) (offset pos : ℕ)
        → framer.scan_last_snapshot bytes ≡ ok (none, offset, pos)
        → replay serializer framer bytes
          ≡ replay_stream serializer initial (framer.iter_records bytes offset)
    unfolding base_result replay replay_stream
    replay-no_snapshot framer bytes offset pos e = rw (replay, e)

    replay-empty : replay serializer (bin_framer blake3 other) [] ≡ done initial
    unfolding replay base_result scan_last_snapshot iter_records iter_records_internal replay_stream
    replay-empty = refl

    -- Let a file be written as the frames of some changes that can be decoded, whose diffs apply in
    -- order to the empty state. Then its replay, by a framer of any seed, is done: it has the state
    -- of those diffs, and the version and the time of the last change that has one.
    pub replay-changes :
        (changes : List ChangeRecord) (file : Bytes) (state : Value)
        → written blake3 self 0 (map change_entry changes) ≡ some file
        → AllReadable serializer changes
        → replay_changes (obj end) changes ≡ some state
        → (out : ReplayResult) × (replay serializer (bin_framer blake3 other) file ≡ done out)
          × (out.state ≡ state)
          × (out.version ≡ last_version 0 changes)
          × (out.m ≡ last_mtime none changes)
    unfolding initial
    replay-changes [] file state w readable h =
        let nothing : [] ≡ file = unfold written in cc in
        let same : obj end ≡ state = unfold replay_changes in cc in
        (initial, rw (← nothing) replay-empty, same, refl, refl)
    replay-changes (c ∷ changes) file state w readable h =
        let (scanned, read) =
          changes_of_file blake3 digest_size self other sync (map change_entry (c ∷ changes)) file
            (λ e. cc) (all-AllChanges (c ∷ changes)) w in
        rw (replay-no_snapshot (bin_framer blake3 other) file 4 0 scanned, read)
          (replay_stream-changes (c ∷ changes) initial 4 state readable h)

    abbrev from_snapshot : Snapshot → ReplayResult
    from_snapshot s = record {
      state = obj s.state;
      version = s.v;
      has_migration = false;
      last_snapshot_mtime = some s.ts;
      m = s.m;
    }

    replay-snapshot :
        (framer : Framer) (bytes : Bytes) (s : Snapshot) (offset pos : ℕ)
        → IsReadableSnapshot serializer s
        → framer.scan_last_snapshot bytes ≡ ok (some (serializer.encode_snapshot s), offset, pos)
        → replay serializer framer bytes
          ≡ replay_stream serializer (from_snapshot s) (framer.iter_records bytes offset)
    unfolding base_result replay replay_stream
    replay-snapshot framer bytes s offset pos readable e = rw (replay, e, readable)

    -- Let the hash give digests of the length asked for, and the seed be as `set_sync` makes it.
    -- Let a file end with the frame of a snapshot and those of some changes, all of which can be
    -- decoded, and whose diffs apply in order to the state of the snapshot. Then its replay, by a
    -- framer of any seed, is done: it has the state of those diffs, and the version and the time of
    -- the last record that has one, whatever stands before the snapshot.
    pub replay-after_snapshot :
        (before : List Entry) (s : Snapshot) (changes : List ChangeRecord) (file : Bytes)
        (state : Value)
        → written blake3 self 0
            (before ++ (true, serializer.encode_snapshot s) ∷ map change_entry changes)
          ≡ some file
        → IsReadableSnapshot serializer s
        → AllReadable serializer changes
        → replay_changes (obj s.state) changes ≡ some state
        → (out : ReplayResult) × (replay serializer (bin_framer blake3 other) file ≡ done out)
          × (out.state ≡ state)
          × (out.version ≡ last_version s.v changes)
          × (out.m ≡ last_mtime s.m changes)
    replay-after_snapshot before s changes file state w rs readable h =
        let payload = serializer.encode_snapshot s in
        let (scanned, read) =
          scan-iter_records blake3 digest_size self other sync before (map change_entry changes)
            payload file (all-AllChanges changes) w in
        rw (replay-snapshot (bin_framer blake3 other) file s _ _ rs scanned, read)
          (replay_stream-changes changes (from_snapshot s)
            (4 + total_size before + frame_size payload) state readable h)
