-- ===== src/Database/Open.antt =====
-- `KantaImpl.open`. What the clock reads, what the disk does and whether the lock is free are
-- arguments.
pub mod Held
pub mod Closed
pub mod Framers
pub mod Durable
pub mod Reopened
use kanta.Base.{
  ℕ, ◌-◌, String, Bool, true, false, not, ◌&&◌, ◌||◌, Option, none, some, [], ◌∷◌, ◌==◌,
  if◌then◌else◌,
}
use kanta.Base.Bytes.{Bytes}
use kanta.Value.{Value, Fields, obj, end}
use kanta.Structs.{Time, ChangeRecord, Serializer}
use kanta.Framing.{Framer, ReplayError}
use kanta.Replay.{ReplayResult, Outcome, done, replay_error, patch_error, replay}
use kanta.LockedFile.{File, open_file, close_file, unlink}
use kanta.SnapshotState.{request_force}
use kanta.Persistence.{Impl, Disk, FlushError, queue_change, flush, maybe_snapshot, unchanged_time}
use kanta.Migrations.{
  Registry, MigrationOutcome, too_new, too_old, raised, migrated, apply_migrations,
}
use kanta.Rotation.{
  RotationPlan, RotationError, Planned, planned, aborted, plan_rotation, execute_rotation,
}
use kanta.Database.{Program, Database, FramerClass, created, open_action}

-- a version that is too new or too old, or what a migration raises
pub data MigrationError : Type 0 where
  unsupported_version migration_raised : MigrationError

pub data RotationFailure : Type 0 where
  not_planned : RotationError → RotationFailure
  not_written : RotationFailure

-- what `open` raises
pub data OpenError : Type 0 where
  already_open lock_failed read_failed nothing_there : OpenError
  rotation_failed : RotationFailure → OpenError
  replay_failed : ReplayError → OpenError
  malformed_diff : OpenError
  migration_failed : MigrationError → OpenError
  undecodable invalid : OpenError
  flush_failed : FlushError → OpenError
  empty_readonly bootstrap_failed : OpenError

-- The readings of the clock, in the order of the code, and what the system answers. Where
-- `rotated_ok` is false, the copy of the old content fails, before the file is touched. `log_built`
-- says that the chain of formatters for the log of a bootstrap can be built, or that there is no
-- log.
pub record System : Type 0 where
  pub lock_free : Bool
  pub cutoff_now : Time
  pub rotation_now : Time
  pub rotated_ok : Bool
  pub change_now : Time
  pub disk : Disk
  pub snapshot_now : Time
  pub snapshot_ok : Bool
  pub log_built : Bool

abbrev pub is_empty : Bytes → Bool
is_empty [] = true
is_empty (b ∷ bs) = false

abbrev pub is_some {ℓ} : {A : Type ℓ} → Option A → Bool
is_some none = false
is_some (some a) = true

-- self.opened = False; self.file.close()
unfoldable pub shut : Impl → Impl
shut impl = record impl { opened = false; file = close_file impl.file }

-- after the record is queued
unfoldable pub write_open_record : Framer → Serializer → System → Impl → Impl × Option FlushError
write_open_record framer serializer sys impl =
    let forced = record impl { snapshot = request_force impl.snapshot } in
    let (impl', error) = flush framer serializer forced sys.disk in
    elim error [
      | some e ↦ (impl', some e)
      | none ↦ (maybe_snapshot framer serializer impl' sys.snapshot_now sys.snapshot_ok, none)
    ]

-- One record of the migrations and of the drift of the codec, if there is one. `version` is that of
-- the state, and `previous` that of the file.
unfoldable pub normalize :
    Framer → Serializer → System → ℕ → Fields → Impl → Impl × Option FlushError
normalize framer serializer sys previous normalized impl =
    let migrations_ran = not (impl.version == previous) in
    let (impl', change) =
      queue_change impl sys.change_now (open_action migrations_ran impl.version) normalized none
        unchanged_time false in
    if migrations_ran || is_some change
    then write_open_record framer serializer sys impl'
    else (impl', none)

-- the plan of a rotation is executed
unfoldable pub executed :
    System → File → Planned (Option RotationPlan) → File × Option RotationFailure
executed sys file (aborted e) = (file, some (not_planned e))
executed sys file (planned none) = (file, none)
executed sys file (planned (some plan)) =
    if sys.rotated_ok then ((execute_rotation file plan).1, none) else (file, some not_written)

module _ {ℓ} {Data : Type ℓ} (framer_class : FramerClass) (serializer : Serializer)
    (program : Program Data) where
  -- `_maybe_rotate`; a cutoff before the first year is that year
  unfoldable pub maybe_rotate : System → Time → ℕ → File → File × Option RotationFailure
  maybe_rotate sys retention min_diffs file = executed sys file (
      plan_rotation serializer (framer_class []) file.content (sys.cutoff_now - retention)
        sys.rotation_now min_diffs)

  -- the migrated state and its version, or what is raised
  unfoldable pub migrate : Fields → ℕ → (Fields × ℕ) × Option MigrationError
  migrate state version = elim program.migrations [
    | none ↦ ((state, version), none)
    | some registry ↦ elim (apply_migrations registry state version) [
      | too_new ↦ ((state, version), some unsupported_version)
      | too_old ↦ ((state, version), some unsupported_version)
      | raised ↦ ((state, version), some migration_raised)
      | migrated after current original infos ↦ ((after, current), none)
    ]
  ]

  -- the end of `open`, unless the record is not written
  unfoldable pub normalized_result :
      Database Data → Data → Impl × Option FlushError → Database Data × Option OpenError
  normalized_result self value (impl, some e) =
      (record self { value = value; impl = impl }, some (flush_failed e))
  normalized_result self value (impl, none) =
      (record self { value = value; impl = impl; background_task = created }, none)

  -- once the data is restored: `data` is what the state decodes to
  unfoldable pub finish_load :
      System → Database Data → Data → ReplayResult → ℕ → Database Data × Option OpenError
  finish_load sys self value rr version =
      let impl = record (self.impl) { version = version; mtime = rr.m } in
      let normalized = program.struct_to_dict value in
      if not (program.validate value)
      then (record self { value = value; impl = shut self.impl }, some invalid)
      else if self.impl.readonly
      then (record self { value = value; impl = record impl { statedict = normalized } }, none)
      else normalized_result self value (
          normalize (framer_class self.impl.file.content) serializer sys rr.version normalized impl)

  unfoldable pub restored_result :
      System → Database Data → ReplayResult → ℕ → Option Data → Database Data × Option OpenError
  restored_result sys self rr version none = (self, some undecodable)
  restored_result sys self rr version (some value) = finish_load sys self value rr version

  -- after the migrations; `self'` has the state
  unfoldable pub migrated_result :
      System
      → Database Data
      → Database Data
      → ReplayResult
      → (Fields × ℕ) × Option MigrationError
      → Database Data × Option OpenError
  migrated_result sys self self' rr ((after, version), some e) = (self, some (migration_failed e))
  migrated_result sys self self' rr ((after, version), none) =
      restored_result sys self' rr version (program.dict_to_struct after)

  -- after the replay. `statedict` is the state before the migrations.
  unfoldable pub load_state :
      System → Database Data → ReplayResult → Fields → Database Data × Option OpenError
  load_state sys self rr state =
      let impl = record (self.impl) {
        statedict = state;
        snapshot = record (self.impl.snapshot) { ts = rr.last_snapshot_mtime };
      } in
      migrated_result sys self (record self { impl = impl }) rr (migrate state rr.version)

  -- a state that is not a dict is taken for one that cannot be decoded
  unfoldable pub load_value :
      System → Database Data → ReplayResult → Value → Database Data × Option OpenError
  load_value sys self rr (obj fields) = load_state sys self rr fields
  load_value sys self rr state = (self, some undecodable)

  unfoldable pub replayed_result :
      System → Database Data → Outcome ReplayResult → Database Data × Option OpenError
  replayed_result sys self (replay_error e) = (self, some (replay_failed e))
  replayed_result sys self patch_error = (self, some malformed_diff)
  replayed_result sys self (done rr) = load_value sys self rr rr.state

  -- the branch of a file with content
  unfoldable pub load : System → Database Data → Database Data × Option OpenError
  load sys self =
      replayed_result sys self (replay serializer (framer_class []) self.impl.file.content)

  -- the branch of an empty file that can be written
  unfoldable pub bootstrap : System → Database Data → Database Data × Option OpenError
  bootstrap sys self =
      let (value, returned) = program.bootstrap self.value in
      let closed = shut self.impl in
      let gone = record closed { file = unlink closed.file } in
      let (impl, change) =
        queue_change (record (self.impl) { statedict = end }) sys.change_now
          program.bootstrap_action (program.struct_to_dict value) program.bootstrap_user
          program.bootstrap_mtime true in
      if returned && program.validate value
      then (if sys.log_built
          then (record self { value = value; impl = impl; background_task = created }, none)
          else (
            record self {
              value = value;
              impl = record (shut impl) { file = unlink (shut impl).file };
            },
            some bootstrap_failed,
          ))
      else (record self { value = value; impl = gone }, some bootstrap_failed)

  -- once the file is open and kept
  unfoldable pub read_content : System → Database Data → Database Data × Option OpenError
  read_content sys self =
      if not (is_empty self.impl.file.content)
      then load sys self
      else if self.impl.readonly
      then (record self { impl = shut self.impl }, some empty_readonly)
      else bootstrap sys self

  unfoldable pub rotated_result :
      System → Database Data → File × Option RotationFailure → Database Data × Option OpenError
  rotated_result sys self (file, some e) =
      (record self { impl = record (self.impl) { file = file } }, some (rotation_failed e))
  rotated_result sys self (file, none) =
      read_content sys (record self { impl = record (self.impl) { file = file } })

  -- with the rotation of a file with content
  unfoldable pub rotate_and_read : System → Database Data → Database Data × Option OpenError
  rotate_and_read sys self =
      if is_empty self.impl.file.content || self.impl.readonly
      then read_content sys self
      else elim program.retention [
        | none ↦ read_content sys self
        | some retention ↦
            rotated_result sys self
              (maybe_rotate sys retention self.impl.snapshot.min_diffs self.impl.file)
      ]

  -- `open`, where the file can be read once it is open
  unfoldable pub open_database :
      System → Bool → Bool → Database Data → Database Data × Option OpenError
  open_database sys create readonly self =
      if self.impl.opened
      then (self, some already_open)
      else let (file, locked) =
          open_file self.impl.file (create && not readonly) readonly sys.lock_free in
        let impl = record (self.impl) { readonly = readonly; file = file } in
        if not locked
        then (record self { impl = impl }, some lock_failed)
        else if not create && (not self.impl.file.exists || is_empty file.content)
        then (record self { impl = record impl { file = close_file file } }, some nothing_there)
        else rotate_and_read sys (record self { impl = record impl { opened = true } })

  -- `open`, of a file that the system lets be read or not. Where it is not read, `open_and_read`
  -- raises with the file open.
  unfoldable pub try_open :
      Bool → System → Bool → Bool → Database Data → Database Data × Option OpenError
  try_open read_ok sys create readonly self =
      let (file, locked) =
        open_file self.impl.file (create && not readonly) readonly sys.lock_free in
      let impl = record (self.impl) { readonly = readonly; file = file } in
      if locked && not self.impl.opened && not read_ok
      then (record self { impl = impl }, some read_failed)
      else open_database sys create readonly self
