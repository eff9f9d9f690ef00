-- ===== src/Framing/Bin/Seed.antt =====
-- The seed at the start of a file.
use kanta.Base.{
  ℕ, suc, ◌≡◌, ◌≢◌, refl, ap, sym, false, [], ◌∷◌, ◌++◌, arith, length, length-append, ltb,
}
use kanta.Base.Bytes.{Bytes, slice, slice_of_part}
use kanta.Framing.{ok}
use kanta.Framing.Bin.{Sync, load_sync_seed_from_data, iter_records_internal, frames_from}
use kanta.Framing.Bin.Read.{IsSync, not_ltb}

load_sync_seed-part :
    (other self : Sync) (xs out : Bytes)
    → IsSync self
    → xs ≡ self.sync_snapshot
    → load_sync_seed_from_data other (xs ++ out) ≡ ok self
unfolding load_sync_seed_from_data
load_sync_seed-part other self [] out sync h = absurd (omega (arith, sync.size, ap length h))
load_sync_seed-part other self (b ∷ bs) out sync h =
    let four : length (b ∷ bs) ≡ 4 = omega (arith, sync.size, ap length h) in
    let enough : ltb (length (b ∷ (bs ++ out))) 4 ≡ false =
      not_ltb _ _ (omega (arith, length-append bs out)) in
    let seed : slice 0 4 (b ∷ (bs ++ out)) ≡ b ∷ bs =
      slice_of_part [] (b ∷ bs) out 0 4 refl (omega arith) in
    rw (enough, seed, h)
      (λ i. ok (record { sync_snapshot = self.sync_snapshot; sync_change = sym sync.inverted i }))

-- A file that begins with a seed gives it back, whatever seed the framer had.
pub load_sync_seed-own :
    (other self : Sync) (out : Bytes)
    → IsSync self
    → load_sync_seed_from_data other (self.sync_snapshot ++ out) ≡ ok self
load_sync_seed-own other self out sync =
    load_sync_seed-part other self self.sync_snapshot out sync refl

pub iter_records_internal-loaded :
    (blake3 : Bytes → Bytes → ℕ → Bytes) (other self : Sync) (bytes : Bytes) (start : ℕ)
    → bytes ≢ []
    → load_sync_seed_from_data other bytes ≡ ok self
    → iter_records_internal blake3 other bytes start
      ≡ frames_from blake3 (suc (length bytes)) self bytes start
unfolding iter_records_internal
iter_records_internal-loaded blake3 other self [] start h e = absurd (h refl)
iter_records_internal-loaded blake3 other self (b ∷ bs) start h e = rw (e, iter_records_internal)
