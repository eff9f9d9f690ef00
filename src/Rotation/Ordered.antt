-- ===== src/Rotation/Ordered.antt =====
-- The positions of the entries that `_scan` gives.
use kanta.Base.{ℕ, suc, ◌≤◌, ◌≡◌, List, [], ◌∷◌, length, arith, inl, inr}
use mathlib.Core.Path.{subst}
use kanta.Base.Bytes.{Bytes}
use kanta.Structs.{Serializer}
use kanta.Framing.{
  err, ReplayError, Record, Stream, stop, raise, unfinished, yield, map_stream, Result-cases,
}
use kanta.Framing.Bin.{
  Sync, Frame, bin_framer, as_record, iter_records, iter_records_internal, load_sync_seed_from_data,
}
use kanta.Framing.Bin.Verified.{IsSound, iter_records_internal-IsSound}
use kanta.Rotation.{Entry, planned, aborted, collect, entries_of, decode_record, scan, unreadable}
use kanta.Rotation.Steps.{planned-inv, planned-injective, StandFrom}

RecordsFrom : ℕ → List Record → Type 0
RecordsFrom pos [] = Unit
RecordsFrom pos (r ∷ rs) = (pos ≤ r.byte_pos) × RecordsFrom (suc r.byte_pos) rs

RecordsFrom-below :
    (low high : ℕ) (rs : List Record) → low ≤ high → RecordsFrom high rs → RecordsFrom low rs
unfolding RecordsFrom
RecordsFrom-below low high [] h from = tt
RecordsFrom-below low high (r ∷ rs) h from = (omega (arith, from.0), from.1)

module _ (blake3 : Bytes → Bytes → ℕ → Bytes) where
  collect-RecordsFrom :
      (self : Sync) (bytes : Bytes) (pos : ℕ) (frames : Stream Frame) (rs : List Record)
      → IsSound blake3 self bytes pos frames
      → collect (map_stream (as_record blake3) frames) ≡ planned rs
      → RecordsFrom pos rs
  unfolding collect as_record RecordsFrom
  collect-RecordsFrom self bytes pos stop rs sound h =
      subst (RecordsFrom pos) (planned-injective [] rs h) tt
  collect-RecordsFrom self bytes pos (raise e) rs sound h = cc
  collect-RecordsFrom self bytes pos unfinished rs sound h = cc
  collect-RecordsFrom self bytes pos (yield f rest) rs sound h =
      let (rest', here, all) = planned-inv (collect (map_stream (as_record blake3) rest)) _ rs h in
      let after = collect-RecordsFrom self bytes f.next_offset rest rest' sound.2 here in
      subst (RecordsFrom pos) (planned-injective _ rs all) (
        omega (arith, sound.0),
        RecordsFrom-below (suc f.record_offset) f.next_offset rest' (omega (arith, sound.1.sized))
            after,
      )

  entries_of-StandFrom :
      (serializer : Serializer) (pos size : ℕ) (rs : List Record) (es : List Entry)
      → RecordsFrom pos rs
      → entries_of serializer rs size ≡ planned es
      → StandFrom pos es
  unfolding entries_of RecordsFrom
  entries_of-StandFrom serializer pos size [] es from h =
      subst (StandFrom pos) (planned-injective [] es h) tt
  entries_of-StandFrom serializer pos size (r ∷ rs) es from h =
      let (logged, here, h') = planned-inv (decode_record serializer r) _ es h in
      let (rest, there, all) = planned-inv (entries_of serializer rs size) _ es h' in
      subst (StandFrom pos) (planned-injective _ es all)
        (from.0, entries_of-StandFrom serializer (suc r.byte_pos) size rs rest from.1 there)

  not_empty : (b : ℕ) (bs : Bytes) → b ∷ bs ≡ [] → ⊥
  not_empty b bs h = cc

  internal-unloaded :
      (self : Sync) (b : ℕ) (bs : Bytes) (pos : ℕ) (e : ReplayError)
      → load_sync_seed_from_data self (b ∷ bs) ≡ err e
      → iter_records_internal blake3 self (b ∷ bs) pos ≡ raise e
  unfolding iter_records_internal
  internal-unloaded self b bs pos e failed = rw (failed, iter_records_internal)

  pub scan-StandFrom :
      (serializer : Serializer) (self : Sync) (b : ℕ) (bs : Bytes) (es : List Entry)
      → scan serializer (bin_framer blake3 self) (b ∷ bs) ≡ planned es
      → StandFrom 4 es
  unfolding scan iter_records collect
  scan-StandFrom serializer self b bs es h =
      let bytes = b ∷ bs in
      let (raw, here, there) =
        planned-inv
          (collect (map_stream (as_record blake3) (iter_records_internal blake3 self bytes 4))) _ es
          h in
      elim (Result-cases (load_sync_seed_from_data self bytes)) [
        | inr (e, failed) ↦
            let nothing : aborted (unreadable e) ≡ planned raw =
              subst (λ s. collect (map_stream (as_record blake3) s) ≡ planned raw)
                (internal-unloaded self b bs 4 e failed) here in
            cc
        | inl (own, loaded) ↦
            let sound =
              iter_records_internal-IsSound blake3 self own bytes 4 (not_empty b bs) loaded in
            entries_of-StandFrom serializer 4 (length bytes) raw es
              (collect-RecordsFrom own bytes 4 _ raw sound here) there
      ]
