-- ===== src/Rotation/Based.antt =====
-- The snapshot that a rotation starts from, and the entries behind it.
use kanta.Base.{
  ℕ, suc, ◌≤◌, true, false, Option, some, List, [], ◌∷◌, ltb, leb, if◌then◌else◌, ◌≡◌, refl, sym,
  ap, ◌∙◌, arith, Bool-cases, inl, inr, ◌⊎◌,
}
use mathlib.Core.Path.{subst}
use kanta.Structs.{Time, Snapshot}
use kanta.Rotation.{
  Logged, snapshot_record, change_record, Entry, planned, Walk, walk_logged, walk_entries,
  find_base, ◌>>=◌, newer_base,
}
use kanta.Rotation.Steps.{IsLate, AllLate, SplitCase, IsSplit, late_in, if_late, StandFrom}

newer_base-late :
    (cutoff : Time) (found : Option (Snapshot × ℕ)) (l : Logged) (pos : ℕ)
    → IsLate cutoff l
    → newer_base cutoff found l pos ≡ found
newer_base-late cutoff found (change_record c) pos late = refl
newer_base-late cutoff found (snapshot_record s) pos late = ground arith

find_base-late :
    (cutoff : Time) (found : Option (Snapshot × ℕ)) (es : List Entry)
    → AllLate cutoff es
    → find_base cutoff found es ≡ found
unfolding find_base
find_base-late cutoff found [] late = refl
find_base-late cutoff found (e ∷ es) late =
    find_base-late cutoff (newer_base cutoff found e.logged e.byte_pos) es late.1
    ∙ newer_base-late cutoff found e.logged e.byte_pos late.0

module _ (cutoff : Time) (snap : Snapshot) (base_pos : ℕ) where
  abbrev base : Option (Snapshot × ℕ)
  base = some (snap, base_pos)

  -- The loop over `es` is one over `post`, which stands behind the base, and holds all that is
  -- retained.
  pub record RestsOn (pos : ℕ) (es post : List Entry) : Type 0 where
    pub inside : pos ≤ base_pos
    pub stands : StandFrom (suc base_pos) post
    pub split : IsSplit cutoff post
    pub late : late_in cutoff es ≡ late_in cutoff post
    pub walked : (w : Walk) → walk_entries cutoff base w es ≡ walk_entries cutoff base w post

  skipped :
      (w : Walk) (e : Entry) (es : List Entry)
      → e.byte_pos ≤ base_pos
      → walk_entries cutoff base w (e ∷ es) ≡ walk_entries cutoff base w es
  unfolding walk_entries
  skipped w e es h =
      let here : leb e.byte_pos base_pos ≡ true = ground arith in
      ap
        (λ b. (if b then planned w else walk_logged cutoff w e.logged e.byte_pos) >>= λ next.
          walk_entries cutoff base next es)
        here

  dropped-first :
      (pos : ℕ) (e : Entry) (es post : List Entry)
      → pos ≤ e.byte_pos
      → late_in cutoff (e ∷ es) ≡ late_in cutoff es
      → RestsOn (suc e.byte_pos) es post
      → RestsOn pos (e ∷ es) post
  dropped-first pos e es post h none_late rests = record {
    inside = omega (arith, rests.inside);
    stands = rests.stands;
    split = rests.split;
    late = none_late ∙ rests.late;
    walked = λ w. skipped w e es (omega (arith, rests.inside)) ∙ rests.walked w;
  }

  abbrev Found : Option (Snapshot × ℕ) → ℕ → List Entry → Type 0
  Found found pos es = (found ≡ base) ⊎ ((post : List Entry) × RestsOn pos es post)

  Found-cons :
      (found : Option (Snapshot × ℕ)) (pos : ℕ) (l : Logged) (e : Entry) (es : List Entry)
      → e.logged ≡ l
      → pos ≤ e.byte_pos
      → StandFrom (suc e.byte_pos) es
      → SplitCase cutoff l (IsSplit cutoff es) (AllLate cutoff es)
      → find_base cutoff (newer_base cutoff found l e.byte_pos) es ≡ base
      → (IsSplit cutoff es → Found (newer_base cutoff found l e.byte_pos) (suc e.byte_pos) es)
      → Found found pos (e ∷ es)
  Found-cons found pos (snapshot_record s) e es is h stands split e_base after =
      elim (after split) [
        | inl now ↦ elim (Bool-cases (leb s.ts cutoff)) [
          | inl early ↦
              let this : some (s, e.byte_pos) ≡ base =
                subst (λ b. (if b then some (s, e.byte_pos) else found) ≡ base) early now in
              let here : e.byte_pos ≡ base_pos = cc in
              inr (
                es,
                record {
                  inside = omega arith;
                  stands = subst (λ p. StandFrom (suc p) es) here stands;
                  split = split;
                  late = ap (λ l. if_late cutoff l (late_in cutoff es)) is;
                  walked = λ w. skipped w e es (omega arith);
                },
              )
          | inr later ↦
              inl (subst (λ b. (if b then some (s, e.byte_pos) else found) ≡ base) later now)
        ]
        | inr (post, rests) ↦ inr (
          post,
          dropped-first pos e es post h (ap (λ l. if_late cutoff l (late_in cutoff es)) is) rests,
        )
      ]
  Found-cons found pos (change_record c) e es is h stands split e_base after =
      elim (Bool-cases (ltb c.ts cutoff)) [
        | inl early ↦
            let still : IsSplit cutoff es =
              subst (λ b. if b then IsSplit cutoff es else AllLate cutoff es) early split in
            let dropped : leb cutoff c.ts ≡ false = ground arith in
            elim (after still) [
              | inl now ↦ inl now
              | inr (post, rests) ↦ inr (
                post,
                dropped-first pos e es post h
                    (ap (λ l. if_late cutoff l (late_in cutoff es)) is
                      ∙ ap (λ b. if b then c ∷ late_in cutoff es else late_in cutoff es) dropped)
                    rests,
              )
            ]
        | inr late ↦
            let all_late : AllLate cutoff es =
              subst (λ b. if b then IsSplit cutoff es else AllLate cutoff es) late split in
            inl (sym (find_base-late cutoff found es all_late) ∙ e_base)
      ]

  pub find_base-RestsOn :
      (found : Option (Snapshot × ℕ)) (pos : ℕ) (es : List Entry)
      → StandFrom pos es
      → IsSplit cutoff es
      → find_base cutoff found es ≡ base
      → Found found pos es
  unfolding find_base
  find_base-RestsOn found pos [] stands split e_base = inl e_base
  find_base-RestsOn found pos (e ∷ es) stands split e_base =
      Found-cons found pos e.logged e es refl stands.0 stands.1 split e_base (λ still.
        find_base-RestsOn (newer_base cutoff found e.logged e.byte_pos) (suc e.byte_pos) es stands.1
          still e_base)
