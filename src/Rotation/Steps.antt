-- ===== src/Rotation/Steps.antt =====
-- Histories in the order of time, and one round of the loop of `plan_rotation`.
use kanta.Base.{
  ℕ, suc, ◌≤◌, ◌<◌, Option, none, some, List, [], ◌∷◌, map, ltb, leb, if◌then◌else◌, ◌≡◌, refl, sym,
  ap, ◌∙◌, arith, Option-cases, inl, inr, if-cases, ◌⊎◌,
}
use mathlib.Core.Path.{subst}
use kanta.Value.{Value, obj, py_eq}
use kanta.Patch.{apply_diff}
use kanta.Structs.{Time, ChangeRecord, Snapshot}
use kanta.Replay.{or_else}
use kanta.Replay.Changes.{replay_changes, last_version}
use kanta.Rotation.{
  Logged, snapshot_record, change_record, Entry, Planned, planned, aborted, Walk, walk_logged,
  moved_walk, ◌>>=◌, changes_where,
}

pub planned-inv {ℓ κ} :
    {A : Type ℓ} {B : Type κ} (p : Planned A) (f : A → Planned B) (b : B)
    → (p >>= f) ≡ planned b
    → (a : A) × (p ≡ planned a) × (f a ≡ planned b)
planned-inv (planned a) f b h = (a, refl, h)
planned-inv (aborted e) f b h = cc

pub planned-injective {ℓ} : {A : Type ℓ} (x y : A) → planned x ≡ planned y → x ≡ y
planned-injective x y h = cc

abbrev pub if_change : Logged → List ChangeRecord → List ChangeRecord
if_change (snapshot_record s) cs = cs
if_change (change_record c) cs = c ∷ cs

abbrev pub if_late : Time → Logged → List ChangeRecord → List ChangeRecord
if_late cutoff (snapshot_record s) cs = cs
if_late cutoff (change_record c) cs = if leb cutoff c.ts then c ∷ cs else cs

-- the changes among the entries, and those that are not before the cutoff
abbrev pub changes_in : List Entry → List ChangeRecord
changes_in [] = []
changes_in (e ∷ es) = if_change e.logged (changes_in es)

abbrev pub late_in : Time → List Entry → List ChangeRecord
late_in cutoff [] = []
late_in cutoff (e ∷ es) = if_late cutoff e.logged (late_in cutoff es)

-- the changes from the cutoff on, and snapshots behind it
abbrev pub IsLate : Time → Logged → Type 0
IsLate cutoff (snapshot_record s) = cutoff < s.ts
IsLate cutoff (change_record c) = cutoff ≤ c.ts

abbrev pub AllLate : Time → List Entry → Type 0
AllLate cutoff [] = Unit
AllLate cutoff (e ∷ es) = IsLate cutoff e.logged × AllLate cutoff es

abbrev pub SplitCase : Time → Logged → Type 0 → Type 0 → Type 0
SplitCase cutoff (snapshot_record s) early late = early
SplitCase cutoff (change_record c) early late = if ltb c.ts cutoff then early else late

-- behind the first change that is not before the cutoff, no change is before it, and every snapshot
-- is after it
abbrev pub IsSplit : Time → List Entry → Type 0
IsSplit cutoff [] = Unit
IsSplit cutoff (e ∷ es) = SplitCase cutoff e.logged (IsSplit cutoff es) (AllLate cutoff es)

-- the entries stand in order, from a position on
abbrev pub StandFrom : ℕ → List Entry → Type 0
StandFrom pos [] = Unit
StandFrom pos (e ∷ es) = (pos ≤ e.byte_pos) × StandFrom (suc e.byte_pos) es

pub changes_where-late :
    (cutoff : Time) (es : List Entry)
    → map (λ (p : ChangeRecord × ℕ). p.0) (changes_where (λ ts. leb cutoff ts) es)
      ≡ late_in cutoff es
unfolding changes_where
changes_where-late cutoff [] = refl
changes_where-late cutoff (e ∷ es) = ground (arith, changes_where-late cutoff es)

-- a snapshot moves only the modification time
pub record SameButTime (w next : Walk) : Type 0 where
  pub state : next.state ≡ w.state
  pub at_cutoff : next.state_at_cutoff ≡ w.state_at_cutoff
  pub version_at_cutoff : next.version_at_cutoff ≡ w.version_at_cutoff
  pub final_version : next.final_version ≡ w.final_version

abbrev pub unmoved : (w : Walk) (m : Option Time) → SameButTime w (record w { m = m })
unmoved w m = record {
  state = refl;
  at_cutoff = refl;
  version_at_cutoff = refl;
  final_version = refl;
}

pub snapshot-walked :
    (cutoff : Time) (w next : Walk) (s : Snapshot) (pos : ℕ)
    → walk_logged cutoff w (snapshot_record s) pos ≡ planned next
    → SameButTime w next
unfolding walk_logged
snapshot-walked cutoff w next s pos =
    if-cases (λ p. p ≡ planned next → SameButTime w next) (py_eq (obj s.state) w.state)
      (λ same h. subst (SameButTime w) (planned-injective _ next h) (unmoved w (or_else s.m w.m)))
      (λ other h. cc)

pub change-walked :
    (cutoff : Time) (w next : Walk) (c : ChangeRecord) (pos : ℕ)
    → walk_logged cutoff w (change_record c) pos ≡ planned next
    → (state : Value) × (apply_diff w.state (obj c.diff) ≡ some state)
      × (moved_walk cutoff w c state ≡ next)
unfolding walk_logged
change-walked cutoff w next c pos h = elim (Option-cases (apply_diff w.state (obj c.diff))) [
  | inl failed ↦ cc
  | inr (state, e) ↦ (state, e, cc)
]

pub moved-final :
    (cutoff : Time) (w : Walk) (c : ChangeRecord) (state : Value)
    → ((moved_walk cutoff w c state).state ≡ state)
      × ((moved_walk cutoff w c state).final_version ≡ c.v)
unfolding moved_walk
moved-final cutoff w c state = ground arith

-- A history of changes leads from a state and a version to others.
abbrev pub LeadsTo : Value → ℕ → List ChangeRecord → Value → ℕ → Type 0
LeadsTo state version cs state' version' =
    (replay_changes state cs ≡ some state') × (version' ≡ last_version version cs)

pub one-LeadsTo :
    (state patched state' : Value) (version version' : ℕ) (c : ChangeRecord)
    (cs : List ChangeRecord)
    → apply_diff state (obj c.diff) ≡ some patched
    → LeadsTo patched c.v cs state' version'
    → LeadsTo state version (c ∷ cs) state' version'
unfolding replay_changes
one-LeadsTo state patched state' version version' c cs e h = (rw (replay_changes, e) (h.0), h.1)

pub logged-LeadsTo :
    (cutoff : Time) (l : Logged) (cs : List ChangeRecord) (w next : Walk) (pos : ℕ) (state' : Value)
    (version' : ℕ)
    → walk_logged cutoff w l pos ≡ planned next
    → LeadsTo next.state next.final_version cs state' version'
    → LeadsTo w.state w.final_version (if_change l cs) state' version'
logged-LeadsTo cutoff (snapshot_record s) cs w next pos state' version' h leads =
    let same = snapshot-walked cutoff w next s pos h in
    subst (λ v. LeadsTo v w.final_version cs state' version') same.state
      (subst (λ v. LeadsTo next.state v cs state' version') same.final_version leads)
logged-LeadsTo cutoff (change_record c) cs w next pos state' version' h leads =
    let (patched, e, moved) = change-walked cutoff w next c pos h in
    one-LeadsTo w.state patched state' w.final_version version' c cs e (
      subst (λ v. LeadsTo v c.v cs state' version')
        (sym (ap (λ n. n.state) moved) ∙ (moved-final cutoff w c patched).0)
        (subst (λ v. LeadsTo next.state v cs state' version')
          (sym (ap (λ n. n.final_version) moved) ∙ (moved-final cutoff w c patched).1) leads))

-- what the loop keeps for the cutoff
abbrev pub SameCutoff : Walk → Walk → Type 0
SameCutoff w next =
    (next.state_at_cutoff ≡ w.state_at_cutoff) × (next.version_at_cutoff ≡ w.version_at_cutoff)

pub moved-late :
    (cutoff : Time) (w : Walk) (c : ChangeRecord) (state : Value)
    → cutoff ≤ c.ts
    → SameCutoff w (moved_walk cutoff w c state)
unfolding moved_walk
moved-late cutoff w c state h = ground arith

pub logged-late :
    (cutoff : Time) (l : Logged) (w next : Walk) (pos : ℕ)
    → IsLate cutoff l
    → walk_logged cutoff w l pos ≡ planned next
    → SameCutoff w next
logged-late cutoff (snapshot_record s) w next pos late h =
    let same = snapshot-walked cutoff w next s pos h in (same.at_cutoff, same.version_at_cutoff)
logged-late cutoff (change_record c) w next pos late h =
    let (patched, e, moved) = change-walked cutoff w next c pos h in
    subst (SameCutoff w) moved (moved-late cutoff w c patched late)

pub if_late-change :
    (cutoff : Time) (l : Logged) (cs : List ChangeRecord)
    → IsLate cutoff l
    → if_late cutoff l cs ≡ if_change l cs
if_late-change cutoff (snapshot_record s) cs late = refl
if_late-change cutoff (change_record c) cs late = ground arith

pub AllLate-late_in :
    (cutoff : Time) (es : List Entry) → AllLate cutoff es → late_in cutoff es ≡ changes_in es
AllLate-late_in cutoff [] late = refl
AllLate-late_in cutoff (e ∷ es) late =
    ap (if_late cutoff e.logged) (AllLate-late_in cutoff es late.1)
    ∙ if_late-change cutoff e.logged (changes_in es) late.0

-- where a state is kept for the cutoff, it is that of the loop
abbrev pub IsKept : Walk → Type 0
IsKept w =
    ((w.state_at_cutoff ≡ some w.state) × (w.version_at_cutoff ≡ w.final_version))
    ⊎ (w.state_at_cutoff ≡ none)

pub moved-early :
    (cutoff : Time) (w : Walk) (c : ChangeRecord) (state : Value)
    → c.ts < cutoff
    → IsKept (moved_walk cutoff w c state)
unfolding moved_walk
moved-early cutoff w c state h = inl (ground arith)

pub snapshot-IsKept : (w next : Walk) → SameButTime w next → IsKept w → IsKept next
snapshot-IsKept w next same (inl (state, version)) = inl (
  same.at_cutoff ∙ state ∙ ap some (sym same.state),
  same.version_at_cutoff ∙ version ∙ sym same.final_version,
)
snapshot-IsKept w next same (inr nothing) = inr (same.at_cutoff ∙ nothing)
