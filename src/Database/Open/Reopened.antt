-- ===== src/Database/Open/Reopened.antt =====
-- `open` on a file with content, as a whole.
use mathlib.Core.Path.{subst}
use kanta.Framing.{Framer}
use kanta.Persistence.Invariant.{IsDurable, entries}
use kanta.Database.Open.{
  is_empty, load, open_database, load_value, rotate_and_read, load_state, read_content,
  replayed_result, System, migrated_result, restored_result, migrate, finish_load, OpenError,
  lock_failed, nothing_there, rotated_result, maybe_rotate, already_open, normalized_result,
  normalize, shut, invalid,
}
use kanta.Base.{
  ◌≡◌, refl, ap, sym, ◌∙◌, ℕ, ◌&&◌, ◌||◌, Bool, true, false, not, Option, none, some, [], length,
  if-cases, if◌then◌else◌,
}
use kanta.Base.Bytes.{Bytes}
use kanta.Value.{Fields, obj}
use kanta.Diff.{diff}
use kanta.Structs.{Time, Serializer}
use kanta.Framing.Bin.{Sync, bin_framer}
use kanta.Framing.Bin.Read.{IsSync}
use kanta.Replay.{ReplayResult, done, replay}
use kanta.LockedFile.{File, open_file, close_file}
use kanta.Persistence.{Impl, FlushError}
use kanta.Database.{Program, Database, FramerClass}
use kanta.Database.Open.Framers.{bin_framer_class, bin_framer_class-written, bin_framer_class-empty}
use kanta.Database.Open.Durable.{
  replayed-IsDurable, normalize-IsDurable, normalize-follows, NormalizeSurvives,
}

-- a database that is not open, on a file that is there
abbrev pub IsFresh : Impl → Type 0
IsFresh impl =
    (impl.opened ≡ false)
    × (impl.file.is_open ≡ false)
    × (impl.file.exists ≡ true)
    × (is_empty impl.file.content ≡ false)
    × (impl.pending_changes ≡ [])
    × (impl.flush_failed ≡ false)

-- once its file is open for writing
abbrev pub held : Impl → Impl
held impl = record impl {
  opened = true;
  readonly = false;
  file = record (impl.file) { is_open = true; exists = true };
}

-- once its state is replayed, and migrated to a version
abbrev pub loaded : Impl → ReplayResult → Fields → Impl
loaded impl out state = record impl {
  statedict = state;
  snapshot = record (impl.snapshot) { ts = out.last_snapshot_mtime };
}

not_missing : (exists create : Bool) → exists ≡ true → (not exists && create) ≡ true → ⊥
not_missing true create h k = cc
not_missing false create h k = cc

empty_not : {b : Bool} → b ≡ true → b ≡ false → ⊥
empty_not h k = cc

clash : (b : Bool) → b ≡ true → not b ≡ true → ⊥
clash true h k = cc
clash false h k = cc

not_both : (b : Bool) → b ≡ false → (b || false) ≡ true → ⊥
not_both true h k = cc
not_both false h k = cc

never_missing :
    (create exists empty : Bool)
    → exists ≡ true
    → empty ≡ false
    → (not create && (not exists || empty)) ≡ true
    → ⊥
never_missing true exists empty h k e = cc
never_missing false true true h k e = cc
never_missing false true false h k e = cc
never_missing false false empty h k e = cc

granted :
    (file : File) (create : Bool)
    → file.is_open ≡ false
    → file.exists ≡ true
    → open_file file create false true ≡ (record file { is_open = true; exists = true }, true)
unfolding open_file
granted file create closed there =
    let result : File × Bool = (record file { is_open = true; exists = true }, true) in
    let P = λ (r : File × Bool). r ≡ result in
    if-cases P file.is_open {x = (file, true)} (λ e. cc)
      (λ e.
        if-cases P (not file.exists && (false || not create)) {x = (file, false)}
          (λ missing. absurd (not_missing file.exists (not create) there missing)) (λ e'. refl))

module _ {ℓ} {Data : Type ℓ} (framer_class : FramerClass) (serializer : Serializer)
    (program : Program Data) where
  load-eq :
      (sys : System) (self : Database Data) (out : ReplayResult) (state after : Fields)
      (version : ℕ) (value : Data)
      → replay serializer (framer_class []) self.impl.file.content ≡ done out
      → out.state ≡ obj state
      → migrate framer_class serializer program state out.version ≡ ((after, version), none)
      → program.dict_to_struct after ≡ some value
      → load framer_class serializer program sys self
        ≡ finish_load framer_class serializer program sys
            (record self { impl = loaded self.impl out state })
            value
            out
            version
  unfolding load load_value load_state replayed_result migrated_result restored_result
  load-eq sys self out state after version value replayed is_state migrated decoded =
      let self' : Database Data = record self { impl = loaded self.impl out state } in
      ap (replayed_result framer_class serializer program sys self) replayed
      ∙ ap (load_value framer_class serializer program sys self out) is_state
      ∙ ap (migrated_result framer_class serializer program sys self self' out) migrated
      ∙ ap (restored_result framer_class serializer program sys self' out version) decoded

  open_database-eq :
      (sys : System) (create : Bool) (self : Database Data)
      → IsFresh self.impl
      → sys.lock_free ≡ true
      → program.retention ≡ none
      → open_database framer_class serializer program sys create false self
        ≡ load framer_class serializer program sys (record self { impl = held self.impl })
  unfolding open_database rotate_and_read read_content
  open_database-eq sys create self (o, f, there, content, nothing, fine) free whole =
      let file = self.impl.file in
      let self' : Database Data = record self { impl = held self.impl } in
      let result = load framer_class serializer program sys self' in
      let P : Database Data × Option OpenError → Type ℓ = λ r. r ≡ result in
      let impl : Impl = record (self.impl) { readonly = false } in
      let body : File × Bool → Database Data × Option OpenError = λ r.
        if not r.1
        then (record self { impl = record impl { file = r.0 } }, some lock_failed)
        else if not create && (not file.exists || is_empty r.0.content)
        then (record self { impl = record impl { file = close_file r.0 } }, some nothing_there)
        else rotate_and_read framer_class serializer program sys
            (record self { impl = record impl { opened = true; file = r.0 } }) in
      let opens : open_file file (create && true) false sys.lock_free
          ≡ (record file { is_open = true; exists = true }, true) =
        ap (λ free'. open_file file (create && true) false free') free
        ∙ granted file (create && true) f there in
      let reads : rotate_and_read framer_class serializer program sys self' ≡ result =
        if-cases P (is_empty file.content || false)
          {x = read_content framer_class serializer program sys self'}
          (λ empty. absurd (not_both (is_empty file.content) content empty))
          (λ e.
            ap
              (λ (r : Option Time). elim r as (λ _. Database Data × Option OpenError) [
                | none ↦ read_content framer_class serializer program sys self'
                | some retention ↦ rotated_result framer_class serializer program sys self' (
                    maybe_rotate framer_class serializer program sys retention
                      self'.impl.snapshot.min_diffs self'.impl.file)
              ])
              whole
            ∙ if-cases P (not (is_empty file.content)) {x = result} (λ e. refl) (λ e. cc)) in
      if-cases P self.impl.opened {x = (self, some already_open)} (λ e. cc)
        (λ e.
          ap body opens
          ∙ if-cases P (not create && (not file.exists || is_empty file.content))
              (λ missing.
                absurd
                  (never_missing create file.exists (is_empty file.content) there content missing))
              (λ e'. reads))

-- once its data is decoded, before its record is queued
abbrev pub decoded : Impl → ReplayResult → Fields → ℕ → Impl
decoded impl out state version = record (loaded (held impl) out state) {
  version = version;
  mtime = out.m;
}

module _ {ℓ} {Data : Type ℓ} (blake3 : Bytes → Bytes → ℕ → Bytes)
    (digest_size : (payload key : Bytes) (n : ℕ) → length (blake3 payload key n) ≡ n)
    (seed other : Sync) (sync : IsSync seed) (serializer : Serializer)
    (program : Program Data) where
  -- what an open database is: its file and its queue account for its state, which is that of its
  -- data
  pub record IsReopened (value : Data) (result : Database Data × Option OpenError) : Type ℓ where
    pub durable : IsDurable blake3 seed serializer result.0.impl
    pub has_value : result.0.value ≡ value
    pub unmodified : diff result.0.impl.statedict (program.struct_to_dict value) ≡ none

  normalized_result-IsReopened :
      (self : Database Data) (value : Data) (result : Impl × Option FlushError)
      → IsDurable blake3 seed serializer result.0
      → diff result.0.statedict (program.struct_to_dict value) ≡ none
      → IsReopened value
          (normalized_result (bin_framer_class blake3 other) serializer program self value result)
  unfolding normalized_result
  normalized_result-IsReopened self value (impl, some e) h k = record {
    durable = h;
    has_value = refl;
    unmodified = k;
  }
  normalized_result-IsReopened self value (impl, none) h k = record {
    durable = h;
    has_value = refl;
    unmodified = k;
  }

  finish_load-IsReopened :
      (sys : System) (self : Database Data) (value : Data) (out : ReplayResult) (version : ℕ)
      → bin_framer_class blake3 other self.impl.file.content ≡ bin_framer blake3 seed
      → program.validate value ≡ true
      → self.impl.readonly ≡ false
      → self.impl.flush_failed ≡ false
      → NormalizeSurvives blake3 digest_size seed other sync serializer sys out.version
          (program.struct_to_dict value)
          (record (self.impl) { version = version; mtime = out.m })
      → IsDurable blake3 seed serializer (record (self.impl) { version = version; mtime = out.m })
      → IsReopened value (
          finish_load (bin_framer_class blake3 other) serializer program sys self value out version)
  unfolding finish_load
  finish_load-IsReopened sys self value out version own valid writing fine survive h =
      let normalized = program.struct_to_dict value in
      let impl : Impl = record (self.impl) { version = version; mtime = out.m } in
      let durable =
        normalize-IsDurable blake3 digest_size seed other sync serializer sys out.version normalized
          impl survive fine h in
      let follows =
        normalize-follows blake3 digest_size seed other sync serializer sys out.version normalized
          impl survive.0 in
      let result = normalize (bin_framer blake3 seed) serializer sys out.version normalized impl in
      let done = normalized_result-IsReopened self value result durable follows in
      let next = λ (framer : Framer).
        normalized_result (bin_framer_class blake3 other) serializer program self value
          (normalize framer serializer sys out.version normalized impl) in
      if-cases (IsReopened value) (not (program.validate value))
        {x = (record self { value = value; impl = shut self.impl }, some invalid)}
        (λ e. absurd (clash (program.validate value) valid e))
        (λ e.
          if-cases (IsReopened value) self.impl.readonly
            {x = (
              record self { value = value; impl = record impl { statedict = normalized } },
              none,
            )}
            (λ e'. cc) (λ e'. subst (λ framer. IsReopened value (next framer)) (sym own) done))

  own_framer :
      (before : Impl) (content : Bytes)
      → IsDurable blake3 seed serializer before
      → content ≡ before.file.content
      → is_empty content ≡ false
      → bin_framer_class blake3 other content ≡ bin_framer blake3 seed
  unfolding IsDurable
  own_framer before content (base, log, w, rb, readable, account) same some_bytes =
      bin_framer_class-written blake3 digest_size seed other sync
        (entries blake3 seed serializer base log) content (rw same w)
        (λ nothing. absurd (empty_not (ap is_empty nothing) some_bytes))

  -- Let the hash give digests of the length asked for, and a database leave a file behind with
  -- nothing pending, such that its file and queue account for its state. Open that file for writing
  -- with a framer of any seed and no retention, whatever the disk does. If the state is migrated
  -- and decoded to data that the callbacks accept, and what is written survives it, then the new
  -- database accounts for its state too, whether its record is written or not; it has that data,
  -- and no transaction finds it modified.
  pub open_database-IsReopened :
      (before : Impl) (self : Database Data) (sys : System) (create : Bool) (out : ReplayResult)
      (state after : Fields) (version : ℕ) (value : Data)
      → IsDurable blake3 seed serializer before
      → before.pending_changes ≡ []
      → IsFresh self.impl
      → self.impl.file.content ≡ before.file.content
      → sys.lock_free ≡ true
      → program.retention ≡ none
      → replay serializer (bin_framer blake3 other) before.file.content ≡ done out
      → out.state ≡ obj state
      → migrate (bin_framer_class blake3 other) serializer program state out.version
        ≡ ((after, version), none)
      → program.dict_to_struct after ≡ some value
      → program.validate value ≡ true
      → NormalizeSurvives blake3 digest_size seed other sync serializer sys out.version
          (program.struct_to_dict value)
          (decoded self.impl out state version)
      → IsReopened value
          (open_database (bin_framer_class blake3 other) serializer program sys create false self)
  open_database-IsReopened before self sys create out state after version value durable nothing
        fresh same free whole replayed is_state migrated restored valid survive =
      let (o, f, there, content, empty, fine) = fresh in
      let framer_class = bin_framer_class blake3 other in
      let opened : Database Data = record self { impl = held self.impl } in
      let own = own_framer before self.impl.file.content durable same content in
      let new =
        replayed-IsDurable blake3 digest_size seed other sync serializer before
          (decoded self.impl out state version) out state durable nothing replayed is_state refl
          empty refl same in
      let read : replay serializer (framer_class []) self.impl.file.content ≡ done out =
        rw (bin_framer_class-empty blake3 digest_size seed other sync, same) replayed in
      rw
        (
          open_database-eq framer_class serializer program sys create self fresh free whole,
          load-eq framer_class serializer program sys opened out state after version value read
              is_state migrated restored,
        )
        (finish_load-IsReopened sys (record opened { impl = loaded opened.impl out state }) value
          out version own valid refl fine survive new)
