-- ===== src/Rotation/Whole.antt =====
-- The loop of `plan_rotation` as a whole.
use kanta.Base.{
  ℕ, suc, ◌<◌, Option, none, some, List, [], ◌∷◌, if◌then◌else◌, ◌≡◌, refl, sym, ◌∙◌, arith,
  if-cases, Bool-cases, inl, inr,
}
use mathlib.Core.Path.{subst}
use kanta.Value.{Value, obj, end}
use kanta.Structs.{Time, Snapshot}
use kanta.Rotation.{
  Entry, planned, Walk, start_walk, walk_entries, find_base, is_in_base, walk_logged, ◌>>=◌,
}
use kanta.Rotation.Steps.{planned-inv, IsSplit, StandFrom, changes_in, late_in, LeadsTo}
use kanta.Rotation.Walked.{AllBehind, walked-changes, walked-kept, LateLead}
use kanta.Rotation.Based.{find_base-RestsOn}

-- the entries behind a base
abbrev pub behind : Option (Snapshot × ℕ) → List Entry → List Entry
behind base [] = []
behind base (e ∷ es) = if is_in_base base e.byte_pos then behind base es else e ∷ behind base es

-- the state and the version that a history starts from
abbrev pub base_state : Option (Snapshot × ℕ) → Value
base_state none = obj end
base_state (some (snap, pos)) = obj snap.state

abbrev pub base_version : Option (Snapshot × ℕ) → ℕ
base_version none = 0
base_version (some (snap, pos)) = snap.v

behind-AllBehind :
    (cutoff : Time) (base : Option (Snapshot × ℕ)) (es : List Entry)
    → AllBehind cutoff base (behind base es)
behind-AllBehind cutoff base [] = tt
behind-AllBehind cutoff base (e ∷ es) =
    if-cases (λ rest. AllBehind cutoff base rest) (is_in_base base e.byte_pos)
      (λ inside. behind-AllBehind cutoff base es)
      (λ after. (after, behind-AllBehind cutoff base es))

walked-behind :
    (cutoff : Time) (base : Option (Snapshot × ℕ)) (es : List Entry) (w w' : Walk)
    → walk_entries cutoff base w es ≡ planned w'
    → walk_entries cutoff base w (behind base es) ≡ planned w'
unfolding walk_entries
walked-behind cutoff base [] w w' h = h
walked-behind cutoff base (e ∷ es) w w' h =
    let step = walk_logged cutoff w e.logged e.byte_pos in
    elim (Bool-cases (is_in_base base e.byte_pos)) [
      | inl inside ↦ rw inside (
          walked-behind cutoff base es w w' (
            subst
              (λ b.
                ((if b then planned w else step) >>= λ next. walk_entries cutoff base next es)
                ≡ planned w')
              inside h))
      | inr after ↦
          let (next, here, rest) =
            planned-inv step (λ next. walk_entries cutoff base next es) w'
              (subst
                (λ b.
                  ((if b then planned w else step) >>= λ next. walk_entries cutoff base next es)
                  ≡ planned w')
                after h) in
          rw (after, after, here) (walked-behind cutoff base es next w' rest)
    ]

stand-AllBehind :
    (cutoff : Time) (snap : Snapshot) (pos from : ℕ) (es : List Entry)
    → pos < from
    → StandFrom from es
    → AllBehind cutoff (some (snap, pos)) es
stand-AllBehind cutoff snap pos from [] h stands = tt
stand-AllBehind cutoff snap pos from (e ∷ es) h stands = (
  ground arith,
  stand-AllBehind cutoff snap pos (suc e.byte_pos) es (omega (arith, stands.0)) stands.1,
)

all-AllBehind : (cutoff : Time) (es : List Entry) → AllBehind cutoff none es
all-AllBehind cutoff [] = tt
all-AllBehind cutoff (e ∷ es) = (refl, all-AllBehind cutoff es)

-- the whole loop of `plan_rotation`
pub late-leads :
    (cutoff : Time) (base : Option (Snapshot × ℕ)) (es : List Entry) (w' : Walk) (at_cutoff : Value)
    → StandFrom 4 es
    → IsSplit cutoff es
    → find_base cutoff none es ≡ base
    → walk_entries cutoff base (start_walk base) es ≡ planned w'
    → w'.state_at_cutoff ≡ some at_cutoff
    → LateLead cutoff base (late_in cutoff es) w' at_cutoff
unfolding start_walk
late-leads cutoff none es w' at_cutoff stands split e_base h found =
    walked-kept cutoff none es (start_walk none) w' at_cutoff (all-AllBehind cutoff es) split
      (inr refl) h found
late-leads cutoff (some (snap, pos)) es w' at_cutoff stands split e_base h found =
    elim (find_base-RestsOn cutoff snap pos none 4 es stands split e_base) [
      | inl nothing ↦ cc
      | inr (post, rests) ↦
          subst (λ cs. LateLead cutoff (some (snap, pos)) cs w' at_cutoff) (sym rests.late)
            (walked-kept cutoff (some (snap, pos)) post (start_walk (some (snap, pos))) w' at_cutoff
              (stand-AllBehind cutoff snap pos (suc pos) post (omega arith) rests.stands)
              rests.split (inl (refl, refl))
              (sym (rests.walked (start_walk (some (snap, pos)))) ∙ h) found)
    ]

pub whole-leads :
    (cutoff : Time) (base : Option (Snapshot × ℕ)) (es : List Entry) (w' : Walk)
    → walk_entries cutoff base (start_walk base) es ≡ planned w'
    → LeadsTo
        (base_state base)
        (base_version base)
        (changes_in (behind base es))
        w'.state
        w'.final_version
unfolding start_walk
whole-leads cutoff none es w' h =
    walked-changes cutoff none (behind none es) (start_walk none) w'
      (behind-AllBehind cutoff none es) (walked-behind cutoff none es (start_walk none) w' h)
whole-leads cutoff (some (snap, pos)) es w' h =
    let base = some (snap, pos) in
    walked-changes cutoff base (behind base es) (start_walk base) w'
      (behind-AllBehind cutoff base es) (walked-behind cutoff base es (start_walk base) w' h)
