-- ===== src/Rotation/Replayed.antt =====
-- The replay of a rotated file.
use kanta.Base.{ℕ, Option, none, some, List, [], ◌∷◌, length, leb, ltb, ◌≡◌, refl, sym, ap, ◌∙◌}
use mathlib.Core.Path.{subst}
use kanta.Base.Bytes.{Bytes}
use kanta.Value.{Value, Fields, obj}
use kanta.Structs.{Time, ChangeRecord, Snapshot, Serializer, IsReadableSnapshot, AllReadable}
use kanta.Framing.Bin.{Sync, bin_framer}
use kanta.Framing.Bin.Read.{IsSync}
use kanta.Replay.{ReplayResult, done, replay}
use kanta.Replay.Changes.{replay_changes, replay-after_snapshot}
use kanta.Rotation.{
  Entry, RotationPlan, planned, Walk, start_walk, walk_entries, find_base, changes_where, last_ts,
  scan, plan_from, plan_dropped, plan_rotation, frame_new_content,
}
use kanta.Rotation.Steps.{
  planned-inv, planned-injective, IsSplit, StandFrom, changes_in, late_in, LeadsTo,
  changes_where-late,
}
use kanta.Rotation.Content.{
  leading_snapshot, closing_snapshot, IsContent, open_ended, closed, frame_new_content-IsContent,
}
use kanta.Rotation.Ordered.{scan-StandFrom}
use kanta.Rotation.Whole.{behind, base_state, base_version, late-leads, whole-leads}

-- what the serializer gives back: the retained changes, and the snapshots that are framed
pub record IsLossless (serializer : Serializer) (rotated_ts now : Time) (walk : Walk)
    (retained : List ChangeRecord) : Type 0 where
  pub changes : AllReadable serializer retained
  pub leading :
      (state : Fields)
      → walk.state_at_cutoff ≡ some (obj state)
      → IsReadableSnapshot serializer (leading_snapshot rotated_ts walk state)
  pub closing :
      (state : Fields)
      → walk.state ≡ obj state
      → IsReadableSnapshot serializer (closing_snapshot now walk state)

module _ (blake3 : Bytes → Bytes → ℕ → Bytes)
    (digest_size : (payload key : Bytes) (n : ℕ) → length (blake3 payload key n) ≡ n)
    (self other : Sync) (sync : IsSync self) (serializer : Serializer) where
  -- a replay that ends with a state and a version
  pub record ReplaysTo (file : Bytes) (state : Value) (version : ℕ) : Type 0 where
    pub result : ReplayResult
    pub is_done : replay serializer (bin_framer blake3 other) file ≡ done result
    pub same_state : result.state ≡ state
    pub same_version : result.version ≡ version

  content-ReplaysTo :
      (rotated_ts now : Time) (walk : Walk) (at_cutoff : Value) (retained : List ChangeRecord)
      (file : Bytes)
      → IsLossless serializer rotated_ts now walk retained
      → walk.state_at_cutoff ≡ some at_cutoff
      → LeadsTo at_cutoff walk.version_at_cutoff retained walk.state walk.final_version
      → IsContent blake3 self serializer rotated_ts now walk at_cutoff retained file
      → ReplaysTo file walk.state walk.final_version
  unfolding replay_changes
  content-ReplaysTo rotated_ts now walk at_cutoff retained file lossless known leads
        (open_ended state is_state w) =
      let (out, is_done, same, version, m) =
        replay-after_snapshot serializer blake3 digest_size self other sync []
          (leading_snapshot rotated_ts walk state) retained file walk.state w
          (lossless.leading state (known ∙ ap some is_state)) lossless.changes
          (subst (λ v. replay_changes v retained ≡ some walk.state) is_state leads.0) in
      record {
        result = out;
        is_done = is_done;
        same_state = same;
        same_version = version ∙ sym leads.1;
      }
  content-ReplaysTo rotated_ts now walk at_cutoff retained file lossless known leads
        (closed before state is_state w) =
      let (out, is_done, same, version, m) =
        replay-after_snapshot serializer blake3 digest_size self other sync before
          (closing_snapshot now walk state) [] file walk.state w (lossless.closing state is_state)
          tt (ap some (sym is_state)) in
      record { result = out; is_done = is_done; same_state = same; same_version = version }

  module _ (cutoff now : Time) (min_diffs : ℕ) (entries : List Entry) (walk : Walk) where
    -- what the snapshot that a rotation starts from, or the empty state, becomes by all changes
    -- behind it
    abbrev pub IsWhole : Option (Snapshot × ℕ) → Type 0
    IsWhole base =
        LeadsTo (base_state base) (base_version base) (changes_in (behind base entries)) walk.state
          walk.final_version

    plan_from-ReplaysTo :
        (content : Bytes) (rotated_ts : Time) (plan : RotationPlan)
        → StandFrom 4 entries
        → IsSplit cutoff entries
        → walk_entries cutoff
            (find_base cutoff none entries)
            (start_walk (find_base cutoff none entries))
            entries
          ≡ planned walk
        → IsLossless serializer plan.rotated_ts now walk (late_in cutoff entries)
        → plan_from serializer
            (bin_framer blake3 self)
            content
            cutoff
            now
            min_diffs
            entries
            rotated_ts
          ≡ planned plan
        → IsWhole (find_base cutoff none entries)
          × ReplaysTo plan.new_content walk.state walk.final_version
    unfolding plan_from
    plan_from-ReplaysTo content rotated_ts plan stands split walked lossless h =
        let base = find_base cutoff none entries in
        let retained = changes_where (λ ts. leb cutoff ts) entries in
        let (walk', walked', h1) =
          planned-inv (walk_entries cutoff base (start_walk base) entries) _ plan h in
        let same_walk : walk' ≡ walk = planned-injective walk' walk (sym walked' ∙ walked) in
        let (new_content, framed', h2) =
          planned-inv
            (frame_new_content serializer (bin_framer blake3 self) now min_diffs rotated_ts walk'
              retained)
            _ plan h1 in
        let framed =
          subst
            (λ w.
              frame_new_content serializer (bin_framer blake3 self) now min_diffs rotated_ts w
                retained
              ≡ planned new_content)
            same_walk framed' in
        let (at_cutoff, known, is_content) =
          frame_new_content-IsContent blake3 self serializer now min_diffs rotated_ts walk retained
            new_content framed in
        let leads = late-leads cutoff base entries walk at_cutoff stands split refl walked known in
        let same = planned-injective _ plan h2 in
        let is_late = changes_where-late cutoff entries in
        (
          whole-leads cutoff base entries walk walked,
          subst (λ file. ReplaysTo file walk.state walk.final_version)
              (ap (λ p. p.new_content) same)
              (content-ReplaysTo rotated_ts now walk at_cutoff (late_in cutoff entries) new_content
                (subst (λ ts. IsLossless serializer ts now walk (late_in cutoff entries))
                  (sym (ap (λ p. p.rotated_ts) same)) lossless)
                known leads
                (subst
                  (λ cs.
                    IsContent blake3 self serializer rotated_ts now walk at_cutoff cs new_content)
                  is_late is_content)),
        )

    dropped-ReplaysTo :
        (content : Bytes) (dropped : List (ChangeRecord × ℕ)) (plan : RotationPlan)
        → StandFrom 4 entries
        → IsSplit cutoff entries
        → walk_entries cutoff
            (find_base cutoff none entries)
            (start_walk (find_base cutoff none entries))
            entries
          ≡ planned walk
        → IsLossless serializer plan.rotated_ts now walk (late_in cutoff entries)
        → plan_dropped serializer
            (bin_framer blake3 self)
            content
            cutoff
            now
            min_diffs
            entries
            dropped
          ≡ planned (some plan)
        → IsWhole (find_base cutoff none entries)
          × ReplaysTo plan.new_content walk.state walk.final_version
    unfolding plan_dropped
    dropped-ReplaysTo content [] plan stands split walked lossless h = cc
    dropped-ReplaysTo content ((c, pos) ∷ dropped) plan stands split walked lossless h =
        let (plan', here, same) =
          planned-inv
            (plan_from serializer (bin_framer blake3 self) content cutoff now min_diffs entries
              (last_ts c.ts dropped))
            _ (some plan) h in
        let is_plan : plan' ≡ plan = cc in
        plan_from-ReplaysTo content (last_ts c.ts dropped) plan stands split walked lossless
          (here ∙ ap planned is_plan)

    -- Let the hash give digests of the length asked for, and the seed be as `set_sync` makes it.
    -- Let a file be scanned to entries in the order of time: behind the first change that is not
    -- before the cutoff, no change is before it, and every snapshot is after it. Let the loop over
    -- the entries end with `walk`, and let a rotation be planned, whose changes and snapshots can
    -- be decoded again. Then the state and the version of `walk` are what all changes behind the
    -- base snapshot make of it (of the empty state, where there is none), and the replay of the new
    -- content, by a framer of any seed, is done with that state and that version.
    pub plan_rotation-ReplaysTo :
        (content : Bytes) (plan : RotationPlan)
        → scan serializer (bin_framer blake3 self) content ≡ planned entries
        → IsSplit cutoff entries
        → walk_entries cutoff
            (find_base cutoff none entries)
            (start_walk (find_base cutoff none entries))
            entries
          ≡ planned walk
        → plan_rotation serializer (bin_framer blake3 self) content cutoff now min_diffs
          ≡ planned (some plan)
        → IsLossless serializer plan.rotated_ts now walk (late_in cutoff entries)
        → IsWhole (find_base cutoff none entries)
          × ReplaysTo plan.new_content walk.state walk.final_version
    unfolding plan_rotation
    plan_rotation-ReplaysTo [] plan scanned split walked h lossless = cc
    plan_rotation-ReplaysTo (b ∷ bs) plan scanned split walked h lossless =
        let dropped = (λ (es : List Entry). changes_where (λ ts. ltb ts cutoff) es) in
        let (entries', scanned', h') =
          planned-inv (scan serializer (bin_framer blake3 self) (b ∷ bs)) _ (some plan) h in
        let same : entries' ≡ entries =
          planned-injective entries' entries (sym scanned' ∙ scanned) in
        dropped-ReplaysTo (b ∷ bs) (dropped entries) plan
          (scan-StandFrom blake3 serializer self b bs entries scanned) split walked lossless
          (subst
            (λ es.
              plan_dropped serializer (bin_framer blake3 self) (b ∷ bs) cutoff now min_diffs es
                (dropped es)
              ≡ planned (some plan))
            same h')
