-- ===== src/Rotation/Walked.antt =====
-- The loop of `plan_rotation` over the entries, on a history whose records are in the order of
-- time.
use kanta.Base.{
  ℕ, ◌≤◌, true, false, Option, some, List, [], ◌∷◌, ltb, leb, if◌then◌else◌, ◌≡◌, refl, sym, ap,
  ◌∙◌, arith, Bool-cases, inl, inr,
}
use mathlib.Core.Path.{subst}
use kanta.Value.{Value}
use kanta.Structs.{Time, ChangeRecord, Snapshot}
use kanta.Replay.Changes.{replay_changes}
use kanta.Rotation.{
  Logged, snapshot_record, change_record, Entry, planned, Walk, walk_logged, walk_entries,
  is_in_base,
}
use kanta.Rotation.Steps.{
  planned-inv, planned-injective, if_late, changes_in, late_in, AllLate, SplitCase, IsSplit,
  snapshot-walked, change-walked, LeadsTo, logged-LeadsTo, SameCutoff, logged-late, AllLate-late_in,
  IsKept, moved-early, snapshot-IsKept,
}

module _ (cutoff : Time) (base : Option (Snapshot × ℕ)) where
  -- the entries stand behind the base
  abbrev pub AllBehind : List Entry → Type 0
  AllBehind [] = Unit
  AllBehind (e ∷ es) = (is_in_base base e.byte_pos ≡ false) × AllBehind es

  -- the step of the loop behind the base
  walked-inv :
      (w w' : Walk) (e : Entry) (es : List Entry)
      → is_in_base base e.byte_pos ≡ false
      → walk_entries cutoff base w (e ∷ es) ≡ planned w'
      → (next : Walk) × (walk_logged cutoff w e.logged e.byte_pos ≡ planned next)
        × (walk_entries cutoff base next es ≡ planned w')
  unfolding walk_entries
  walked-inv w w' e es behind h =
      let step = walk_logged cutoff w e.logged e.byte_pos in
      let (next, here, rest) =
        planned-inv (if is_in_base base e.byte_pos then planned w else step) _ w' h in
      (next, subst (λ b. (if b then planned w else step) ≡ planned next) behind here, rest)

  -- what the walk does to the state is what the changes do
  pub walked-changes :
      (es : List Entry) (w w' : Walk)
      → AllBehind es
      → walk_entries cutoff base w es ≡ planned w'
      → LeadsTo w.state w.final_version (changes_in es) w'.state w'.final_version
  unfolding walk_entries replay_changes
  walked-changes [] w w' behind h =
      let same = planned-injective w w' h in
      (ap (λ v. some v.state) same, sym (ap (λ v. v.final_version) same))
  walked-changes (e ∷ es) w w' behind h =
      let (next, here, rest) = walked-inv w w' e es behind.0 h in
      logged-LeadsTo cutoff e.logged (changes_in es) w next e.byte_pos w'.state w'.final_version
        here (walked-changes es next w' behind.1 rest)

  walked-late :
      (es : List Entry) (w w' : Walk)
      → AllBehind es
      → AllLate cutoff es
      → walk_entries cutoff base w es ≡ planned w'
      → SameCutoff w w'
  unfolding walk_entries
  walked-late [] w w' behind late h = subst (SameCutoff w) (planned-injective w w' h) (refl, refl)
  walked-late (e ∷ es) w w' behind late h =
      let (next, here, rest) = walked-inv w w' e es behind.0 h in
      let before = logged-late cutoff e.logged w next e.byte_pos late.0 here in
      let after = walked-late es next w' behind.1 late.1 rest in
      (after.0 ∙ before.0, after.1 ∙ before.1)

  abbrev pub LateLead : List ChangeRecord → Walk → Value → Type 0
  LateLead cs w' at_cutoff = LeadsTo at_cutoff w'.version_at_cutoff cs w'.state w'.final_version

  late-change :
      (c : ChangeRecord) (es : List Entry) (w next w' : Walk) (pos : ℕ) (at_cutoff : Value)
      → cutoff ≤ c.ts
      → AllBehind es
      → AllLate cutoff es
      → IsKept w
      → walk_logged cutoff w (change_record c) pos ≡ planned next
      → walk_entries cutoff base next es ≡ planned w'
      → w'.state_at_cutoff ≡ some at_cutoff
      → LateLead (c ∷ late_in cutoff es) w' at_cutoff
  late-change c es w next w' pos at_cutoff after behind late kept here rest found =
      let before = logged-late cutoff (change_record c) w next pos after here in
      let behind_it = walked-late es next w' behind late rest in
      let whole =
        logged-LeadsTo cutoff (change_record c) (changes_in es) w next pos w'.state w'.final_version
          here (walked-changes es next w' behind rest) in
      elim kept [
        | inr nothing ↦ cc
        | inl (state, version) ↦
            let same : w.state ≡ at_cutoff = cc in
            let same_version : w.final_version ≡ w'.version_at_cutoff =
              sym version ∙ sym before.1 ∙ sym behind_it.1 in
            rw (AllLate-late_in cutoff es late) (
              subst
                (λ v. LeadsTo v w'.version_at_cutoff (c ∷ changes_in es) w'.state w'.final_version)
                same
                (subst (λ v. LeadsTo w.state v (c ∷ changes_in es) w'.state w'.final_version)
                  same_version whole))
      ]

  kept-logged :
      (l : Logged) (es : List Entry) (w next w' : Walk) (pos : ℕ) (at_cutoff : Value)
      → SplitCase cutoff l (IsSplit cutoff es) (AllLate cutoff es)
      → AllBehind es
      → IsKept w
      → walk_logged cutoff w l pos ≡ planned next
      → walk_entries cutoff base next es ≡ planned w'
      → w'.state_at_cutoff ≡ some at_cutoff
      → (IsSplit cutoff es → IsKept next → LateLead (late_in cutoff es) w' at_cutoff)
      → LateLead (if_late cutoff l (late_in cutoff es)) w' at_cutoff
  kept-logged (snapshot_record s) es w next w' pos at_cutoff split behind kept here rest found
        after =
      after split (snapshot-IsKept w next (snapshot-walked cutoff w next s pos here) kept)
  kept-logged (change_record c) es w next w' pos at_cutoff split behind kept here rest found after =
      elim (Bool-cases (ltb c.ts cutoff)) [
        | inl early ↦
            let (patched, e, moved) = change-walked cutoff w next c pos here in
            let next_kept = subst IsKept moved (moved-early cutoff w c patched (ground arith)) in
            let still : IsSplit cutoff es =
              subst (λ b. if b then IsSplit cutoff es else AllLate cutoff es) early split in
            let dropped : leb cutoff c.ts ≡ false = ground arith in
            subst
              (λ b. LateLead (if b then c ∷ late_in cutoff es else late_in cutoff es) w' at_cutoff)
              (sym dropped) (after still next_kept)
        | inr late ↦
            let all_late : AllLate cutoff es =
              subst (λ b. if b then IsSplit cutoff es else AllLate cutoff es) late split in
            let retained : leb cutoff c.ts ≡ true = ground arith in
            subst
              (λ b. LateLead (if b then c ∷ late_in cutoff es else late_in cutoff es) w' at_cutoff)
              (sym retained)
              (late-change c es w next w' pos at_cutoff (ground arith) behind all_late kept here
                rest found)
      ]

  -- From the state at the cutoff, the changes that are retained lead to the state of the whole
  -- history.
  pub walked-kept :
      (es : List Entry) (w w' : Walk) (at_cutoff : Value)
      → AllBehind es
      → IsSplit cutoff es
      → IsKept w
      → walk_entries cutoff base w es ≡ planned w'
      → w'.state_at_cutoff ≡ some at_cutoff
      → LateLead (late_in cutoff es) w' at_cutoff
  unfolding walk_entries replay_changes
  walked-kept [] w w' at_cutoff behind split kept h found =
      let same = subst IsKept (planned-injective w w' h) kept in
      elim same [ inr nothing ↦ cc | inl (state, version) ↦ (cc, sym version) ]
  walked-kept (e ∷ es) w w' at_cutoff behind split kept h found =
      let (next, here, rest) = walked-inv w w' e es behind.0 h in
      kept-logged e.logged es w next w' e.byte_pos at_cutoff split behind.1 kept here rest found
        (λ still next_kept. walked-kept es next w' at_cutoff behind.1 still next_kept rest found)
