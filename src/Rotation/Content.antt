-- ===== src/Rotation/Content.antt =====
-- The frames of a rotated file.
use kanta.Base.{
  ℕ, ◌+◌, Bool, true, false, Option, none, some, List, [], ◌∷◌, ◌++◌, map, length, leb, ◌≡◌, refl,
  sym, ap, ◌∙◌, arith, if-cases, append-nil, append_assoc, length-append,
}
use kanta.Base.Bytes.{Bytes}
use kanta.Value.{Value, Fields, null, num, text, arr, obj}
use kanta.Structs.{Time, ChangeRecord, Snapshot, Serializer}
use kanta.Framing.Bin.{Sync, bin_framer, frame, frame_change, frame_snapshot}
use kanta.Framing.Bin.Journal as Journal
use kanta.Framing.Bin.Journal.{written}
use kanta.Replay.Changes.{change_entry}
use kanta.Persistence.Invariant.{written-both}
use kanta.Rotation.{
  planned, Walk, present, dict_of, too_long, no_cutoff_state, frame_retained, frame_closing,
  frame_new_content, RotationError,
}
use kanta.Rotation.Steps.{planned-inv, planned-injective}

present-inv {ℓ} :
    {A : Type ℓ} (e : RotationError) (o : Option A) (a : A) → present e o ≡ planned a → o ≡ some a
present-inv e none a h = cc
present-inv e (some b) a h = cc

dict_of-inv : (v : Value) (fields : Fields) → dict_of v ≡ planned fields → v ≡ obj fields
dict_of-inv null fields h = cc
dict_of-inv (num kind n) fields h = cc
dict_of-inv (text s) fields h = cc
dict_of-inv (arr items) fields h = cc
dict_of-inv (obj state) fields h = cc

abbrev pub changes_of : List (ChangeRecord × ℕ) → List ChangeRecord
changes_of = map (λ p. p.0)

-- the snapshots that a plan frames
abbrev pub leading_snapshot : Time → Walk → Fields → Snapshot
leading_snapshot rotated_ts walk state = record {
  ts = rotated_ts;
  v = walk.version_at_cutoff;
  state = state;
  m = walk.m_at_cutoff;
}

abbrev pub closing_snapshot : Time → Walk → Fields → Snapshot
closing_snapshot now walk state = record {
  ts = now;
  v = walk.final_version;
  state = state;
  m = walk.final_m;
}

module _ (blake3 : Bytes → Bytes → ℕ → Bytes) (self : Sync) (serializer : Serializer) where
  one_frame :
      (s : Bool) (payload : Bytes) (offset : ℕ) (framed : Bytes)
      → frame blake3 self s payload offset ≡ some framed
      → written blake3 self offset ((s, payload) ∷ []) ≡ some framed
  unfolding written
  one_frame s payload offset framed e = rw (written, e) (ap some (append-nil framed))

  written-behind :
      (xs ys : List Journal.Entry) (a b : Bytes)
      → written blake3 self 0 xs ≡ some a
      → written blake3 self (length a) ys ≡ some b
      → written blake3 self 0 (xs ++ ys) ≡ some (a ++ b)
  written-behind xs ys a b h k =
      let here : 0 + length a ≡ length a = omega arith in
      written-both blake3 self 0 xs ys a b h (rw here k)

  retained-written :
      (cs : List (ChangeRecord × ℕ)) (out out' : Bytes)
      → frame_retained serializer (bin_framer blake3 self) out cs ≡ planned out'
      → (rest : Bytes) × (out' ≡ out ++ rest)
        × (written blake3 self (length out) (map (change_entry serializer) (changes_of cs))
            ≡ some rest)
  unfolding frame_retained written frame_change
  retained-written [] out out' h =
      ([], sym (planned-injective out out' h) ∙ sym (append-nil out), refl)
  retained-written ((c, pos) ∷ cs) out out' h =
      let (framed, here, after) =
        planned-inv
          (present too_long (frame blake3 self false (serializer.encode_change c) (length out))) _
          out' h in
      let e = present-inv too_long _ framed here in
      let (rest, whole, w) = retained-written cs (out ++ framed) out' after in
      (
        framed ++ rest,
        whole ∙ append_assoc out framed rest,
        rw (e, ← length-append out framed, w) refl,
      )

  -- The frames of a plan: the leading snapshot and what is retained, or frames that end with the
  -- closing snapshot.
  pub data IsContent (rotated_ts now : Time) (walk : Walk) (at_cutoff : Value)
      (retained : List ChangeRecord) (out : Bytes) : Type 0 where
    open_ended :
        (state : Fields)
        → at_cutoff ≡ obj state
        → written blake3 self 0 (
            (true, serializer.encode_snapshot (leading_snapshot rotated_ts walk state))
            ∷ map (change_entry serializer) retained)
          ≡ some out
        → IsContent rotated_ts now walk at_cutoff retained out
    closed :
        (before : List Journal.Entry) (state : Fields)
        → walk.state ≡ obj state
        → written blake3 self 0
            (before ++ (true, serializer.encode_snapshot (closing_snapshot now walk state)) ∷ [])
          ≡ some out
        → IsContent rotated_ts now walk at_cutoff retained out

  closing-IsContent :
      (entries : List Journal.Entry) (out out' : Bytes) (walk : Walk) (rotated_ts now : Time)
      (at_cutoff : Value) (retained : List ChangeRecord)
      → written blake3 self 0 entries ≡ some out
      → frame_closing serializer (bin_framer blake3 self) out walk now ≡ planned out'
      → IsContent rotated_ts now walk at_cutoff retained out'
  unfolding frame_closing frame_snapshot
  closing-IsContent entries out out' walk rotated_ts now at_cutoff retained w h =
      let (state, is_dict, h') = planned-inv (dict_of walk.state) _ out' h in
      let s = closing_snapshot now walk state in
      let payload = serializer.encode_snapshot s in
      let (framed, here, all) =
        planned-inv (present too_long (frame blake3 self true payload (length out))) _ out' h' in
      let e = one_frame true payload (length out) framed (present-inv too_long _ framed here) in
      closed entries state (dict_of-inv walk.state state is_dict) (
        written-behind entries ((true, payload) ∷ []) out framed w e
        ∙ ap some (planned-injective _ out' all))

  pub frame_new_content-IsContent :
      (now : Time) (min_diffs : ℕ) (rotated_ts : Time) (walk : Walk) (cs : List (ChangeRecord × ℕ))
      (out : Bytes)
      → frame_new_content serializer (bin_framer blake3 self) now min_diffs rotated_ts walk cs
        ≡ planned out
      → (at_cutoff : Value) × (walk.state_at_cutoff ≡ some at_cutoff)
        × IsContent rotated_ts now walk at_cutoff (changes_of cs) out
  unfolding frame_new_content frame_snapshot
  frame_new_content-IsContent now min_diffs rotated_ts walk cs out h =
      let (at_cutoff, known, h1) =
        planned-inv (present no_cutoff_state walk.state_at_cutoff) _ out h in
      let (state, is_dict, h2) = planned-inv (dict_of at_cutoff) _ out h1 in
      let s = leading_snapshot rotated_ts walk state in
      let payload = serializer.encode_snapshot s in
      let (leading, here, h3) =
        planned-inv (present too_long (frame blake3 self true payload 0)) _ out h2 in
      let (all, h4, h5) =
        planned-inv (frame_retained serializer (bin_framer blake3 self) leading cs) _ out h3 in
      let (rest, whole, w) = retained-written cs leading all h4 in
      let first = one_frame true payload 0 leading (present-inv too_long _ leading here) in
      let both =
        written-behind ((true, payload) ∷ []) (map (change_entry serializer) (changes_of cs))
          leading rest first w in
      (
        at_cutoff,
        present-inv no_cutoff_state walk.state_at_cutoff at_cutoff known,
        if-cases
            (λ p. p ≡ planned out → IsContent rotated_ts now walk at_cutoff (changes_of cs) out)
            (leb min_diffs (length cs))
            (λ enough h6.
              closing-IsContent ((true, payload) ∷ map (change_entry serializer) (changes_of cs))
                all out walk rotated_ts now at_cutoff (changes_of cs) (both ∙ ap some (sym whole))
                h6)
            (λ few h6.
              open_ended state (dict_of-inv at_cutoff state is_dict)
                (both ∙ ap some (sym whole ∙ planned-injective all out h6)))
            h5,
      )
