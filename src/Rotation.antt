-- ===== src/Rotation.antt =====
-- rotation.py: the plan that bounds the history of a file to the time after a cutoff, and its
-- execution. The name of the file for the old history, and the copying, are `shutil`'s and
-- `pathlib`'s.
pub mod Steps
pub mod Walked
pub mod Based
pub mod Ordered
pub mod Whole
pub mod Content
pub mod Replayed
use kanta.Base.{
  ℕ, Bool, false, Option, none, some, List, [], ◌∷◌, ◌++◌, length, take, ltb, leb, if◌then◌else◌,
}
use kanta.Base.Bytes.{Bytes}
use kanta.Value.{Value, Fields, obj, end, py_eq}
use kanta.Patch.{apply_diff}
use kanta.Structs.{Time, ChangeRecord, Snapshot, Serializer}
use kanta.Framing.{Framer, Record, ReplayError, Stream, stop, raise, unfinished, yield}
use kanta.Replay.{or_else}
use kanta.LockedFile.{File, replace_content}

-- `_Entry`, with `is_snapshot` in the type of the record
pub data Logged : Type 0 where
  snapshot_record : Snapshot → Logged
  change_record : ChangeRecord → Logged

pub record Entry : Type 0 where
  pub logged : Logged
  pub byte_pos : ℕ
  pub end_pos : ℕ

-- `RotationPlan`
pub record RotationPlan : Type 0 where
  pub new_content : Bytes
  pub cutoff_end : ℕ
  pub rotated_ts : Time
  pub retained_changes : ℕ

-- What `plan_rotation` raises: the framer's error, a DecodeError, what a malformed diff raises, for
-- a snapshot that does not match the TypeError of a DatabaseError that takes no action, the failed
-- assertion, or the framer's OverflowError. The encoding of a state that is not a dict is not
-- modelled.
pub data RotationError : Type 0 where
  unreadable : ReplayError → RotationError
  undecodable malformed_diff : RotationError
  mismatch : ℕ → RotationError
  no_cutoff_state too_long not_a_dict : RotationError

pub data Planned {ℓ} (A : Type ℓ) : Type ℓ where
  planned : A → Planned A
  aborted : RotationError → Planned A

infixl 5 ◌>>=◌
abbrev pub ◌>>=◌ {ℓ κ} : {A : Type ℓ} {B : Type κ} → Planned A → (A → Planned B) → Planned B
aborted e >>= f = aborted e
planned a >>= f = f a

abbrev pub present {ℓ} : {A : Type ℓ} → RotationError → Option A → Planned A
present e none = aborted e
present e (some a) = planned a

-- list(framer.iter_records(content, 0))
unfoldable pub collect : Stream Record → Planned (List Record)
collect stop = planned []
collect (raise e) = aborted (unreadable e)
-- out of fuel
collect unfinished = aborted undecodable
collect (yield r rest) = do rs ← collect rest; planned (r ∷ rs)

abbrev pub next_position : List Record → ℕ → ℕ
next_position [] size = size
next_position (r ∷ rs) size = r.byte_pos

-- the changes that the test on their time takes, with their positions
unfoldable pub changes_where : (Time → Bool) → List Entry → List (ChangeRecord × ℕ)
changes_where test [] = []
changes_where test (e ∷ es) =
    let rest = changes_where test es in
    elim e.logged [
      | snapshot_record s ↦ rest
      | change_record c ↦ if test c.ts then (c, e.byte_pos) ∷ rest else rest
    ]

-- dropped[-1].record.ts
abbrev pub last_ts : Time → List (ChangeRecord × ℕ) → Time
last_ts ts [] = ts
last_ts ts ((c, pos) ∷ cs) = last_ts c.ts cs

-- retained[0].byte_pos, or len(content)
abbrev pub cutoff_position : List (ChangeRecord × ℕ) → ℕ → ℕ
cutoff_position [] size = size
cutoff_position ((c, pos) ∷ cs) size = pos

abbrev pub newer_base : Time → Option (Snapshot × ℕ) → Logged → ℕ → Option (Snapshot × ℕ)
newer_base cutoff found (change_record c) byte_pos = found
newer_base cutoff found (snapshot_record s) byte_pos =
    if leb s.ts cutoff then some (s, byte_pos) else found

-- the last snapshot of the file that is not behind the cutoff
unfoldable pub find_base : Time → Option (Snapshot × ℕ) → List Entry → Option (Snapshot × ℕ)
find_base cutoff found [] = found
find_base cutoff found (e ∷ es) = find_base cutoff (newer_base cutoff found e.logged e.byte_pos) es

-- the variables of the loop over the entries
pub record Walk : Type 0 where
  pub state : Value
  pub version : ℕ
  pub m : Option Time
  pub state_at_cutoff : Option Value
  pub version_at_cutoff : ℕ
  pub m_at_cutoff : Option Time
  pub final_version : ℕ
  pub final_m : Option Time

-- before the loop
unfoldable pub start_walk : Option (Snapshot × ℕ) → Walk
start_walk none = record {
  state = obj end;
  version = 0;
  m = none;
  state_at_cutoff = none;
  version_at_cutoff = 0;
  m_at_cutoff = none;
  final_version = 0;
  final_m = none;
}
start_walk (some (snap, pos)) = record {
  state = obj snap.state;
  version = snap.v;
  m = snap.m;
  state_at_cutoff = some (obj snap.state);
  version_at_cutoff = snap.v;
  m_at_cutoff = snap.m;
  final_version = snap.v;
  final_m = snap.m;
}

-- `if base is not None and e.byte_pos <= base.byte_pos`
abbrev pub is_in_base : Option (Snapshot × ℕ) → ℕ → Bool
is_in_base none pos = false
is_in_base (some (snap, base_pos)) pos = leb pos base_pos

-- the end of the loop's body, for a change
unfoldable pub moved_walk : Time → Walk → ChangeRecord → Value → Walk
moved_walk cutoff walk change state =
    let m = or_else change.m walk.m in
    let walk' = record walk {
      state = state;
      version = change.v;
      m = m;
      final_version = change.v;
      final_m = m;
    } in
    if ltb change.ts cutoff
    then record walk' {
      state_at_cutoff = some state;
      version_at_cutoff = change.v;
      m_at_cutoff = m;
    }
    else walk'

-- the body of the loop behind the test for the base
unfoldable pub walk_logged : Time → Walk → Logged → ℕ → Planned Walk
unfolding moved_walk
walk_logged cutoff walk (snapshot_record snap) byte_pos =
    if py_eq (obj snap.state) walk.state
    then planned (record walk { m = or_else snap.m walk.m })
    else aborted (mismatch byte_pos)
walk_logged cutoff walk (change_record change) byte_pos =
    elim (apply_diff walk.state (obj change.diff)) [
      | none ↦ aborted malformed_diff
      | some state ↦ planned (moved_walk cutoff walk change state)
    ]

unfoldable pub walk_entries : Time → Option (Snapshot × ℕ) → Walk → List Entry → Planned Walk
walk_entries cutoff base walk [] = planned walk
walk_entries cutoff base walk (e ∷ es) = do
  next ←
      if is_in_base base e.byte_pos
      then planned walk
      else walk_logged cutoff walk e.logged e.byte_pos
  walk_entries cutoff base next es

abbrev pub dict_of : Value → Planned Fields
dict_of (obj fields) = planned fields
dict_of state = aborted not_a_dict

module _ (serializer : Serializer) where
  unfoldable pub decode_record : Record → Planned Logged
  decode_record r =
      if r.is_snapshot
      then elim (serializer.decode_snapshot r.payload) [
        | none ↦ aborted undecodable
        | some s ↦ planned (snapshot_record s)
      ]
      else elim (serializer.decode_change r.payload) [
        | none ↦ aborted undecodable
        | some c ↦ planned (change_record c)
      ]

  -- the loop of `_scan`, where `size` is the length of the content
  unfoldable pub entries_of : List Record → ℕ → Planned (List Entry)
  entries_of [] size = planned []
  entries_of (r ∷ rs) size = do
    logged ← decode_record r
    rest ← entries_of rs size
    planned
        (record { logged = logged; byte_pos = r.byte_pos; end_pos = next_position rs size } ∷ rest)

  -- `_scan`
  unfoldable pub scan : Framer → Bytes → Planned (List Entry)
  scan framer content = do
    raw ← collect (framer.iter_records content 0)
    entries_of raw (length content)

  -- the loop over `retained`, with the bytes so far
  unfoldable pub frame_retained : Framer → Bytes → List (ChangeRecord × ℕ) → Planned Bytes
  frame_retained framer out [] = planned out
  frame_retained framer out ((c, pos) ∷ cs) = do
    framed ← present too_long (framer.frame_change (serializer.encode_change c) (length out))
    frame_retained framer (out ++ framed) cs

  -- the closing snapshot
  unfoldable pub frame_closing : Framer → Bytes → Walk → Time → Planned Bytes
  frame_closing framer out walk now = do
    state ← dict_of walk.state
    framed ← present too_long (
        framer.frame_snapshot
          (serializer.encode_snapshot
            (record { ts = now; v = walk.final_version; state = state; m = walk.final_m }))
          (length out))
    planned (out ++ framed)

  -- the new content
  unfoldable pub frame_new_content :
      Framer → Time → ℕ → Time → Walk → List (ChangeRecord × ℕ) → Planned Bytes
  frame_new_content framer now min_diffs rotated_ts walk retained = do
    at_cutoff ← present no_cutoff_state walk.state_at_cutoff
    state ← dict_of at_cutoff
    leading ← present too_long (
        framer.frame_snapshot
          (serializer.encode_snapshot (record {
            ts = rotated_ts;
            v = walk.version_at_cutoff;
            state = state;
            m = walk.m_at_cutoff;
          }))
          0)
    out ← frame_retained framer leading retained
    if leb min_diffs (length retained) then frame_closing framer out walk now else planned out

  -- the rest of `plan_rotation`, once there is a dropped change
  unfoldable pub plan_from :
      Framer → Bytes → Time → Time → ℕ → List Entry → Time → Planned RotationPlan
  plan_from framer content cutoff now min_diffs entries rotated_ts =
      let retained = changes_where (λ ts. leb cutoff ts) entries in
      let base = find_base cutoff none entries in
      do
        walk ← walk_entries cutoff base (start_walk base) entries
        new_content ← frame_new_content framer now min_diffs rotated_ts walk retained
        planned (record {
          new_content = new_content;
          cutoff_end = cutoff_position retained (length content);
          rotated_ts = rotated_ts;
          retained_changes = length retained;
        })

  -- `plan_rotation` behind the scan, with the dropped changes
  unfoldable pub plan_dropped :
      Framer
      → Bytes
      → Time
      → Time
      → ℕ
      → List Entry
      → List (ChangeRecord × ℕ)
      → Planned (Option RotationPlan)
  unfolding plan_from
  plan_dropped framer content cutoff now min_diffs entries [] = planned none
  plan_dropped framer content cutoff now min_diffs entries ((c, pos) ∷ dropped) = do
    plan ← plan_from framer content cutoff now min_diffs entries (last_ts c.ts dropped)
    planned (some plan)

  -- `plan_rotation`; none is that there is nothing to do
  unfoldable pub plan_rotation : Framer → Bytes → Time → Time → ℕ → Planned (Option RotationPlan)
  unfolding scan changes_where plan_dropped
  plan_rotation framer [] cutoff now min_diffs = planned none
  plan_rotation framer (b ∷ bs) cutoff now min_diffs = do
    entries ← scan framer (b ∷ bs)
    plan_dropped framer (b ∷ bs) cutoff now min_diffs entries
        (changes_where (λ ts. ltb ts cutoff) entries)

-- `execute_rotation`: the file for the old history, and the rewritten file
unfoldable pub execute_rotation : File → RotationPlan → Bytes × File
execute_rotation file plan =
    (take plan.cutoff_end file.content, replace_content file plan.new_content)
