-- ===== src/Database/Open/Framers.antt =====
-- The framer of a file, where it is a `BinFramer`: reading a file sets its seed.
use kanta.Base.{◌≡◌, ◌≢◌, refl, some, [], ◌∷◌, List, length, ℕ}
use kanta.Base.Bytes.{Bytes}
use kanta.Framing.{Result, ok, err}
use kanta.Framing.Bin.{Sync, bin_framer, load_sync_seed_from_data}
use kanta.Framing.Bin.Read.{IsSync}
use kanta.Framing.Bin.Seed.{load_sync_seed-own}
use kanta.Framing.Bin.Journal.{Entry, written}
use kanta.Framing.Bin.Written.{first-frame}
use kanta.Database.{FramerClass}

-- the seed after the reading calls
abbrev pub seed_or : Sync → Result Sync → Sync
seed_or own (ok sync) = sync
seed_or own (err e) = own

unfoldable pub bin_framer_class : (Bytes → Bytes → ℕ → Bytes) → Sync → FramerClass
bin_framer_class blake3 own content =
    bin_framer blake3 (seed_or own (load_sync_seed_from_data own content))

module _ (blake3 : Bytes → Bytes → ℕ → Bytes)
    (digest_size : (payload key : Bytes) (n : ℕ) → length (blake3 payload key n) ≡ n)
    (seed other : Sync) (sync : IsSync seed) where
  pub bin_framer_class-written :
      (entries : List Entry) (content : Bytes)
      → written blake3 seed 0 entries ≡ some content
      → content ≢ []
      → bin_framer_class blake3 other content ≡ bin_framer blake3 seed
  unfolding bin_framer_class
  bin_framer_class-written [] content w h = absurd (h (unfold written in cc))
  bin_framer_class-written ((s, payload) ∷ entries) content w h =
      let (rest, e, w') = first-frame blake3 digest_size seed sync s payload entries content w in
      rw (e, load_sync_seed-own other seed rest sync) refl

  pub bin_framer_class-empty : bin_framer_class blake3 other [] ≡ bin_framer blake3 other
  unfolding bin_framer_class load_sync_seed_from_data
  bin_framer_class-empty = refl
