-- ===== src/Persistence/Recovery.antt =====
-- `flush` and `maybe_snapshot` of persistence.py, against `replay` of the file that they write.
use kanta.Base.{
  Option, ℕ, ◌+◌, ◌≡◌, refl, sym, ◌∙◌, Bool, true, not, none, some, List, [], ◌∷◌, ◌++◌, map,
  append-nil, length, arith, Option-cases, inl, inr, false,
}
use kanta.Base.Bytes.{Bytes}
use kanta.Value.{Fields, obj, end, py_eq, UniqueKeys}
use kanta.Value.Equal.{py_eq_refl}
use kanta.Structs.{Time, Snapshot, ChangeRecord, Serializer, IsReadable, IsReadableSnapshot}
use kanta.Framing.{Framer}
use kanta.Framing.Bin.{Sync, frame_snapshot, bin_framer}
use kanta.Framing.Bin.Read.{IsSync}
use kanta.Framing.Bin.Journal.{written}
use kanta.Replay.{ReplayResult, done, replay}
use kanta.Replay.Changes.{replay_changes, change_entry, replay-changes, replay-after_snapshot}
use kanta.Base.{if-holds, if◌then◌else◌}
use kanta.LockedFile.Outcomes.{open_file-holds}
use kanta.SnapshotState.Outcomes.{maybe_write-holds}
use kanta.LockedFile.{File}
use kanta.SnapshotState.{SnapshotState}
use kanta.Persistence.{
  new_impl, is_nil, all_written, Impl, Disk, FlushResult, frame_changes, write_pending, flush,
  maybe_snapshot, open_and_write, lock_failed,
}
use kanta.Persistence.Commands.{
  Command, queue_command, flush_command, snapshot_command, step, run, AllSurvive, IsReadableResult,
  snapshot_of,
}
use kanta.Persistence.Durable.{Base, Accounts}
use kanta.Persistence.Invariant.{
  written-both, frame_changes-written, entries, entries-append, IsDurable, queue_change-IsDurable,
  moved-IsDurable,
}

pub IsReadable-result :
    (framer : Framer) (serializer : Serializer) {result : Option ChangeRecord}
    → IsReadableResult framer serializer result
    → (r : ChangeRecord) → result ≡ some r
    → IsReadable serializer r
IsReadable-result framer serializer readable r e = rw e at readable

module _ (blake3 : Bytes → Bytes → ℕ → Bytes) (seed : Sync) (serializer : Serializer) where
  -- the frames of the pending changes stand at the end of the file
  appended-IsDurable :
      (self : Impl) (bytes : Bytes) (base : Base) (log : List ChangeRecord)
      → written blake3 seed 0 (entries blake3 seed serializer base log) ≡ some self.file.content
      → Accounts self base (log ++ self.pending_changes)
      → frame_changes
          (bin_framer blake3 seed)
          serializer
          (length self.file.content)
          self.pending_changes
        ≡ some bytes
      → written blake3 seed 0 (entries blake3 seed serializer base (log ++ self.pending_changes))
        ≡ some (self.file.content ++ bytes)
  appended-IsDurable self bytes base log w account e =
      let pending = map (change_entry serializer) self.pending_changes in
      let behind : 0 + length self.file.content ≡ length self.file.content = omega arith in
      let framed : written blake3 seed (0 + length self.file.content) pending ≡ some bytes =
        rw behind (
          sym (
            frame_changes-written blake3 seed serializer (length self.file.content)
              self.pending_changes)
          ∙ e) in
      rw (entries-append blake3 seed serializer base log self.pending_changes) (
        written-both blake3 seed 0 (entries blake3 seed serializer base log) pending
          self.file.content bytes w framed)

  all_written-IsDurable :
      (self : Impl) (bytes : Bytes)
      → frame_changes
          (bin_framer blake3 seed)
          serializer
          (length self.file.content)
          self.pending_changes
        ≡ some bytes
      → IsDurable blake3 seed serializer self
      → IsDurable blake3 seed serializer (all_written self bytes)
  unfolding IsDurable all_written
  all_written-IsDurable self bytes e (base, log, w, rb, readable, account) = (
    base,
    log ++ self.pending_changes,
    appended-IsDurable self bytes base log w account e,
    rb,
    rw append-nil readable,
    rw append-nil account,
  )

  write_pending-IsDurable :
      (self : Impl) (write_ok : Bool)
      → IsDurable blake3 seed serializer self
      → IsDurable blake3 seed serializer
          (write_pending (bin_framer blake3 seed) serializer self write_ok).0
  unfolding write_pending
  write_pending-IsDurable self write_ok h =
      elim (Option-cases (
        frame_changes (bin_framer blake3 seed) serializer (length self.file.content)
          self.pending_changes)) [
            | inl too_long ↦ rw (write_pending, too_long) h
            | inr (bytes, e) ↦
                rw (write_pending, e)
                  (if-holds (λ (r : FlushResult). IsDurable blake3 seed serializer r.0) write_ok
                    (all_written-IsDurable self bytes e h)
                    (moved-IsDurable blake3 seed serializer self _ refl refl refl refl h))
          ]

  open_and_write-IsDurable :
      (self : Impl) (disk : Disk)
      → IsDurable blake3 seed serializer self
      → IsDurable blake3 seed serializer
          (open_and_write (bin_framer blake3 seed) serializer self disk).0
  unfolding open_and_write
  open_and_write-IsDurable self disk h =
      open_file-holds
        (λ (r : File × Bool).
          IsDurable blake3 seed serializer
            (if r.1
              then write_pending (bin_framer blake3 seed) serializer (record self { file = r.0 })
                  disk.write_ok
              else (record self { file = r.0 }, some lock_failed)).0)
        self.file true false disk.open_ok
        (λ is_open exists locked.
          let file' : File = record (self.file) { is_open = is_open; exists = exists } in
          let moved =
            moved-IsDurable blake3 seed serializer self (record self { file = file' }) refl refl
              refl refl h in
          if-holds (λ (r : FlushResult). IsDurable blake3 seed serializer r.0) locked
            (write_pending-IsDurable _ disk.write_ok moved) moved)

  pub flush-IsDurable :
      (self : Impl) (disk : Disk)
      → IsDurable blake3 seed serializer self
      → IsDurable blake3 seed serializer (flush (bin_framer blake3 seed) serializer self disk).0
  unfolding flush
  flush-IsDurable self disk h =
      let P = λ (r : FlushResult). IsDurable blake3 seed serializer r.0 in
      if-holds P (not self.opened) h (
        if-holds P self.readonly h (
          if-holds P self.flush_failed h (
            if-holds P (is_nil self.pending_changes) h (
              if-holds P self.file.is_open (write_pending-IsDurable self disk.write_ok h)
                (open_and_write-IsDurable self disk h)))))

  snapshot-written :
      (base : Base) (log : List ChangeRecord) (s : Snapshot) (content framed : Bytes)
      → written blake3 seed 0 (entries blake3 seed serializer base log) ≡ some content
      → frame_snapshot blake3 seed (serializer.encode_snapshot s) (length content) ≡ some framed
      → written blake3 seed 0
          (entries blake3 seed serializer base log ++ (true, serializer.encode_snapshot s) ∷ [])
        ≡ some (content ++ framed)
  unfolding written frame_snapshot
  snapshot-written base log s content framed w e =
      let behind : 0 + length content ≡ length content = omega arith in
      written-both blake3 seed 0 (entries blake3 seed serializer base log)
        ((true, serializer.encode_snapshot s) ∷ []) content framed w (rw (behind, e, append-nil))

  -- a snapshot of the state, with nothing pending, is a new base
  snapshot-IsDurable :
      (self self' : Impl) (now : Time) (framed : Bytes)
      → self.pending_changes ≡ []
      → IsReadableSnapshot serializer (snapshot_of self now)
      → frame_snapshot blake3 seed
          (serializer.encode_snapshot (snapshot_of self now))
          (length self.file.content)
        ≡ some framed
      → self.statedict ≡ self'.statedict
      → self.pending_changes ≡ self'.pending_changes
      → self.mtime ≡ self'.mtime
      → self'.file.content ≡ self.file.content ++ framed
      → IsDurable blake3 seed serializer self
      → IsDurable blake3 seed serializer self'
  unfolding IsDurable replay_changes
  snapshot-IsDurable self self' now framed nothing rs e state queue mtime content
        (base, log, w, rb, readable, account) =
      let us : UniqueKeys self'.statedict = rw state at (account.4) in
      let empty : self'.pending_changes ≡ [] = sym queue ∙ nothing in
      (
        some (entries blake3 seed serializer base log, snapshot_of self now),
        [],
        rw content (snapshot-written base log (snapshot_of self now) self.file.content framed w e),
        rs,
        rw empty tt,
        (
          self'.statedict,
          rw (empty, state),
          py_eq_refl (obj self'.statedict) us,
          us,
          us,
          rw (empty, mtime),
        ),
      )

  pub maybe_snapshot-IsDurable :
      (self : Impl) (now : Time) (write_ok : Bool)
      → self.pending_changes ≡ []
      → IsReadableSnapshot serializer (snapshot_of self now)
      → IsDurable blake3 seed serializer self
      → IsDurable blake3 seed serializer
          (maybe_snapshot (bin_framer blake3 seed) serializer self now write_ok)
  unfolding maybe_snapshot
  maybe_snapshot-IsDurable self now write_ok nothing rs h =
      maybe_write-holds (bin_framer blake3 seed) serializer
        (λ (r : SnapshotState × File).
          IsDurable blake3 seed serializer (record self { snapshot = r.0; file = r.1 }))
        self.snapshot self.file self.version self.statedict self.mtime now write_ok
        (moved-IsDurable blake3 seed serializer self _ refl refl refl refl h)
        (λ framed e. snapshot-IsDurable self _ now framed nothing rs e refl refl refl refl h)

  step-IsDurable :
      (self : Impl) (c : Command) (cs : List Command)
      → AllSurvive (bin_framer blake3 seed) serializer self (c ∷ cs)
      → IsDurable blake3 seed serializer self
      → IsDurable blake3 seed serializer (step (bin_framer blake3 seed) serializer self c)
  step-IsDurable self (queue_command now action current user mtime force) cs s h =
      queue_change-IsDurable blake3 seed serializer self now action current user mtime force s.0 s.1
        (IsReadable-result (bin_framer blake3 seed) serializer s.2) h
  step-IsDurable self (flush_command disk) cs s h = flush-IsDurable self disk h
  step-IsDurable self (snapshot_command now write_ok) cs s h =
      maybe_snapshot-IsDurable self now write_ok s.0 s.1 h

  AllSurvive-rest :
      (self : Impl) (c : Command) (cs : List Command)
      → AllSurvive (bin_framer blake3 seed) serializer self (c ∷ cs)
      → AllSurvive
          (bin_framer blake3 seed)
          serializer
          (step (bin_framer blake3 seed) serializer self c)
          cs
  AllSurvive-rest self (queue_command now action current user mtime force) cs s = s.3
  AllSurvive-rest self (flush_command disk) cs s = s
  AllSurvive-rest self (snapshot_command now write_ok) cs s = s.2

  -- Queueing changes that survive being written, flushing, whatever the disk does, and asking for
  -- snapshots while nothing is pending all keep the invariant: the file's bytes are a journal whose
  -- replay, continued with the pending changes, gives the state and the modification time in
  -- memory.
  pub run-IsDurable :
      (self : Impl) (cs : List Command)
      → AllSurvive (bin_framer blake3 seed) serializer self cs
      → IsDurable blake3 seed serializer self
      → IsDurable blake3 seed serializer (run (bin_framer blake3 seed) serializer self cs)
  run-IsDurable self [] s h = h
  run-IsDurable self (c ∷ cs) s h =
      run-IsDurable (step (bin_framer blake3 seed) serializer self c) cs
        (AllSurvive-rest self c cs s) (step-IsDurable self c cs s h)

-- a new database, once it is open
abbrev pub opened_new : ℕ → Impl
opened_new v = record new_impl { version = v; opened = true }

module _ (blake3 : Bytes → Bytes → ℕ → Bytes)
    (digest_size : (payload key : Bytes) (n : ℕ) → length (blake3 payload key n) ≡ n)
    (seed other : Sync) (sync : IsSync seed) (serializer : Serializer) where
  -- Let an invariant database have nothing pending. Then a replay of its file, by a framer of any
  -- seed, is done, with a state that equals the state in memory by `==`, with distinct keys, and
  -- with the modification time in memory.
  pub replay-IsDurable :
      (self : Impl)
      → IsDurable blake3 seed serializer self
      → self.pending_changes ≡ []
      → (out : ReplayResult) × (replay serializer (bin_framer blake3 other) self.file.content
          ≡ done out)
        × (fields : Fields) × (out.state ≡ obj fields)
        × (py_eq (obj self.statedict) (obj fields) ≡ true)
        × (out.m ≡ self.mtime)
  unfolding IsDurable
  replay-IsDurable self (none, log, w, rb, readable, account) nothing =
      let (fields, replayed, eq, rest, rest', m) = rw (nothing, append-nil) at account in
      let (out, e, state, version, mtime) =
        replay-changes serializer blake3 digest_size seed other sync log self.file.content
          (obj fields) w (rw (nothing, append-nil) at readable) replayed in
      (out, e, fields, state, eq, mtime ∙ m)
  replay-IsDurable self (some (before, s), log, w, rb, readable, account) nothing =
      let (fields, replayed, eq, rest, rest', m) = rw (nothing, append-nil) at account in
      let (out, e, state, version, mtime) =
        replay-after_snapshot serializer blake3 digest_size seed other sync before s log
          self.file.content (obj fields) w rb (rw (nothing, append-nil) at readable) replayed in
      (out, e, fields, state, eq, mtime ∙ m)

  pub new-IsDurable : (version : ℕ) → IsDurable blake3 seed serializer (opened_new version)
  unfolding IsDurable new_impl written replay_changes py_eq
  new-IsDurable version = (none, [], refl, tt, tt, (end, refl, refl, tt, tt, refl))

  -- Let the hash give digests of the length asked for, and the seed be as `set_sync` makes it. Open
  -- a new database, and let it serve calls: states are queued that have distinct keys and survive
  -- being written, flushes may fail, and snapshots are asked for while nothing is pending; all
  -- records that are queued or asked for can be decoded. If nothing is pending at the end, then
  -- replaying its file, by a framer of any seed, is done, with a state that equals the state in
  -- memory by `==`, and with the modification time in memory.
  pub replay-run :
      (version : ℕ) (cs : List Command)
      → AllSurvive (bin_framer blake3 seed) serializer (opened_new version) cs
      → (run (bin_framer blake3 seed) serializer (opened_new version) cs).pending_changes ≡ []
      → (out : ReplayResult) × (replay serializer
            (bin_framer blake3 other)
            (run (bin_framer blake3 seed) serializer (opened_new version) cs).file.content
          ≡ done out)
        × (fields : Fields) × (out.state ≡ obj fields)
        × (py_eq
              (obj (run (bin_framer blake3 seed) serializer (opened_new version) cs).statedict)
              (obj fields)
            ≡ true)
        × (out.m ≡ (run (bin_framer blake3 seed) serializer (opened_new version) cs).mtime)
  replay-run version cs s nothing =
      replay-IsDurable (run (bin_framer blake3 seed) serializer (opened_new version) cs)
        (run-IsDurable blake3 seed serializer (opened_new version) cs s (new-IsDurable version))
        nothing
