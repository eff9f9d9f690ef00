-- ===== src/Database/Open/Durable.antt =====
-- What `open` makes of a file that an earlier database has left.
use kanta.Persistence.Outcomes.{flush-IsAllOrNothing}
use kanta.Database.Transaction.Sequence.{queue_change-follows}
use kanta.Persistence.Flushed.{flush-empties}
use kanta.Persistence.Recovery.{flush-IsDurable, IsReadable-result, maybe_snapshot-IsDurable}
use kanta.Persistence.Commands.{snapshot_of, IsReadableResult}
use kanta.Database.{open_action}
use kanta.Database.Open.{System, write_open_record, normalize, is_some}
use kanta.SnapshotState.{request_force}
use kanta.Base.{
  ◌≡◌, refl, ap, sym, ◌∙◌, ℕ, ◌==◌, ◌||◌, Bool, false, not, Option, none, some, List, [],
  append-nil, length, Option-cases, inl, inr, if-holds, String,
}
use kanta.Base.Bytes.{Bytes}
use kanta.Value.{Value, Fields, obj, UniqueKeys}
use kanta.Value.Equal.{py_eq_refl}
use kanta.Diff.{diff}
use kanta.Patch.Survives.{EntriesSurvive}
use kanta.Structs.{Time, ChangeRecord, Serializer, IsReadableSnapshot, AllReadable}
use kanta.Framing.Bin.{Sync, bin_framer}
use kanta.Framing.Bin.Read.{IsSync}
use kanta.Framing.Bin.Journal.{written}
use kanta.Replay.{patch_error, ReplayResult, done, replay, Outcome, replay_error}
use kanta.Replay.Changes.{replay_changes, last_mtime, replay-changes, replay-after_snapshot}
use kanta.Persistence.{
  Impl, queue_change, Mtime, unchanged_time, flush, delta_of, FlushResult, maybe_snapshot,
}
use kanta.Persistence.Durable.{Base, base_state, base_mtime}
use kanta.Persistence.Invariant.{
  IsDurable, entries, moved-IsDurable, IsReadableBase, queue_change-IsDurable,
}

-- the state as a dict
abbrev fields_of : Value → Fields → Fields
fields_of (obj fields) other = fields
fields_of value other = other

obj-injective : (a b : Fields) → obj a ≡ obj b → a ≡ b
obj-injective a b h = ap (λ v. fields_of v a) h

done-injective : (a b : ReplayResult) → done a ≡ done b → a ≡ b
done-injective a b h =
    ap (λ (o : Outcome ReplayResult). elim o [ done r ↦ r | replay_error e ↦ a | patch_error ↦ a ])
      h

-- before the flush of the record of an open
abbrev pub forced : Impl → Impl
forced impl = record impl { snapshot = request_force impl.snapshot }

queue_change-fine :
    (self : Impl) (now : Time) (action : String) (current : Fields) (user : Option String)
    (mtime : Mtime) (force : Bool)
    → self.flush_failed ≡ false
    → (queue_change self now action current user mtime force).0.flush_failed ≡ false
unfolding queue_change
queue_change-fine self now action current user mtime force h =
    elim (Option-cases (delta_of (diff self.statedict current) force)) [
      | inl same ↦ rw (queue_change, same) h
      | inr (delta, e) ↦ rw (queue_change, e) h
    ]

module _ (blake3 : Bytes → Bytes → ℕ → Bytes)
    (digest_size : (payload key : Bytes) (n : ℕ) → length (blake3 payload key n) ≡ n)
    (seed other : Sync) (sync : IsSync seed) (serializer : Serializer) where
  -- the base and the log of a file account for what its replay gives
  replay-base :
      (base : Base) (log : List ChangeRecord) (content : Bytes) (state : Value)
      → written blake3 seed 0 (entries blake3 seed serializer base log) ≡ some content
      → IsReadableBase blake3 seed serializer base
      → AllReadable serializer log
      → replay_changes (obj (base_state base)) log ≡ some state
      → (out : ReplayResult) × (replay serializer (bin_framer blake3 other) content ≡ done out)
        × (out.state ≡ state)
        × (out.m ≡ last_mtime (base_mtime base) log)
  replay-base none log content state w rb readable replayed =
      let (out, e, same, version, m) =
        replay-changes serializer blake3 digest_size seed other sync log content state w readable
          replayed in
      (out, e, same, m)
  replay-base (some (before, s)) log content state w rb readable replayed =
      let (out, e, same, version, m) =
        replay-after_snapshot serializer blake3 digest_size seed other sync before s log content
          state w rb readable replayed in
      (out, e, same, m)

  pub replayed-IsDurable :
      (before self : Impl) (out : ReplayResult) (state : Fields)
      → IsDurable blake3 seed serializer before
      → before.pending_changes ≡ []
      → replay serializer (bin_framer blake3 other) before.file.content ≡ done out
      → out.state ≡ obj state
      → self.statedict ≡ state
      → self.pending_changes ≡ []
      → self.mtime ≡ out.m
      → self.file.content ≡ before.file.content
      → IsDurable blake3 seed serializer self
  unfolding IsDurable
  replayed-IsDurable before self out state (base, log, w, rb, readable, account) nothing e is_state
        h k m c =
      let (fields, replayed, eq, uf, us, m') = rw (nothing, append-nil) at account in
      let readable' = rw (nothing, append-nil) at readable in
      let (out', e', state', m'') =
        replay-base base log before.file.content (obj fields) w rb readable' replayed in
      let same : out' ≡ out = done-injective out' out (sym e' ∙ e) in
      let fields_eq : fields ≡ state =
        obj-injective fields state
          (sym state' ∙ ap (λ (r : ReplayResult). r.state) same ∙ is_state) in
      let self_fields : fields ≡ self.statedict = fields_eq ∙ sym h in
      (
        base,
        log,
        rw c w,
        rb,
        rw (k, append-nil) readable',
        (
          fields,
          rw (k, append-nil) replayed,
          rw (← self_fields) (py_eq_refl (obj fields) uf),
          uf,
          rw self_fields at uf,
          rw (k, append-nil) (sym m'' ∙ ap (λ (r : ReplayResult). r.m) same ∙ sym m),
        ),
      )

  -- what the record of an open needs: the state that is written survives it, and the record and the
  -- snapshot can be decoded
  abbrev pub NormalizeSurvives : System → ℕ → Fields → Impl → Type 0
  NormalizeSurvives sys previous normalized impl =
      let framer = bin_framer blake3 seed in
      let queued =
        queue_change impl sys.change_now (open_action (not (impl.version == previous)) impl.version)
          normalized none unchanged_time false in
      UniqueKeys normalized
      × EntriesSurvive impl.statedict normalized
      × IsReadableResult framer serializer queued.1
      × IsReadableSnapshot serializer
          (snapshot_of (flush framer serializer (forced queued.0) sys.disk).0 sys.snapshot_now)

  write_open_record-IsDurable :
      (sys : System) (impl : Impl)
      → IsReadableSnapshot serializer (
          snapshot_of
            (flush (bin_framer blake3 seed) serializer (forced impl) sys.disk).0
            sys.snapshot_now)
      → impl.flush_failed ≡ false
      → IsDurable blake3 seed serializer impl
      → IsDurable blake3 seed serializer
          (write_open_record (bin_framer blake3 seed) serializer sys impl).0
  unfolding write_open_record
  write_open_record-IsDurable sys impl readable fine h =
      let framer = bin_framer blake3 seed in
      let flushed =
        flush-IsDurable blake3 seed serializer (forced impl) sys.disk
          (moved-IsDurable blake3 seed serializer impl (forced impl) refl refl refl refl h) in
      elim (Option-cases (flush framer serializer (forced impl) sys.disk).1) [
        | inl good ↦
            let empty = flush-empties framer serializer (forced impl) sys.disk fine good in
            rw (write_open_record, good)
              (maybe_snapshot-IsDurable blake3 seed serializer _ sys.snapshot_now sys.snapshot_ok
                empty readable flushed)
        | inr (e, bad) ↦ rw (write_open_record, bad) flushed
      ]

  pub normalize-IsDurable :
      (sys : System) (previous : ℕ) (normalized : Fields) (impl : Impl)
      → NormalizeSurvives sys previous normalized impl
      → impl.flush_failed ≡ false
      → IsDurable blake3 seed serializer impl
      → IsDurable blake3 seed serializer
          (normalize (bin_framer blake3 seed) serializer sys previous normalized impl).0
  unfolding normalize
  normalize-IsDurable sys previous normalized impl (u, survive, record_readable, snapshot_readable)
        fine h =
      let framer = bin_framer blake3 seed in
      let action = open_action (not (impl.version == previous)) impl.version in
      let queued = queue_change impl sys.change_now action normalized none unchanged_time false in
      let durable =
        queue_change-IsDurable blake3 seed serializer impl sys.change_now action normalized none
          unchanged_time false u survive (IsReadable-result framer serializer record_readable) h in
      if-holds (λ (r : FlushResult). IsDurable blake3 seed serializer r.0)
        (not (impl.version == previous) || is_some queued.1)
        {x = write_open_record framer serializer sys queued.0} {y = (queued.0, none)}
        (write_open_record-IsDurable sys queued.0 snapshot_readable
          (queue_change-fine impl _ _ _ _ _ _ fine) durable)
        durable

  write_open_record-statedict :
      (sys : System) (impl : Impl)
      → (write_open_record (bin_framer blake3 seed) serializer sys impl).0.statedict
        ≡ impl.statedict
  unfolding write_open_record maybe_snapshot
  write_open_record-statedict sys impl =
      let framer = bin_framer blake3 seed in
      let kept = (flush-IsAllOrNothing framer serializer (forced impl) sys.disk).0 in
      elim (Option-cases (flush framer serializer (forced impl) sys.disk).1) [
        | inl good ↦ rw (write_open_record, good) kept
        | inr (e, bad) ↦ rw (write_open_record, bad) kept
      ]

  pub normalize-follows :
      (sys : System) (previous : ℕ) (normalized : Fields) (impl : Impl)
      → UniqueKeys normalized
      → diff
          (normalize (bin_framer blake3 seed) serializer sys previous normalized impl).0.statedict
          normalized
        ≡ none
  unfolding normalize
  normalize-follows sys previous normalized impl u =
      let action = open_action (not (impl.version == previous)) impl.version in
      let queued = queue_change impl sys.change_now action normalized none unchanged_time false in
      let follows =
        queue_change-follows impl sys.change_now action normalized none unchanged_time u in
      if-holds (λ (r : FlushResult). diff r.0.statedict normalized ≡ none)
        (not (impl.version == previous) || is_some queued.1)
        {x = write_open_record (bin_framer blake3 seed) serializer sys queued.0}
        {y = (queued.0, none)} (rw (write_open_record-statedict sys queued.0) follows) follows
