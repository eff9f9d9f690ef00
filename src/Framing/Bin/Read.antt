-- ===== src/Framing/Bin/Read.antt =====
-- Reading one frame back.
use kanta.Base.{
  ℕ, suc, ◌+◌, ◌^◌, ◌≤◌, ◌<◌, ◌≡◌, ◌≢◌, refl, ap, sym, ◌∙◌, Bool, true, false, [], ◌∷◌, ◌++◌,
  append_assoc, arith, ltb, length, length-append, Bool-cases, inl, inr,
}
use kanta.Base.Bytes.{
  Bytes, slice, bytes_eq, bytes_eq_iff, little_endian, length-little_endian,
  from_bytes-little_endian, slice_of_part,
}
use kanta.Framing.{ok}
use kanta.Framing.Bin.{Sync, invert, checksum, marker, read_marker, read_body, read_frame}

pub not_ltb : (a b : ℕ) → b ≤ a → ltb a b ≡ false
not_ltb a b h = ground arith

-- a frame between two other parts of a file
module _ (pre a b c d post : Bytes) where
  abbrev whole : Bytes
  whole = pre ++ ((a ++ (b ++ (c ++ d))) ++ post)

  slice_a :
      (start stop : ℕ) → start ≡ length pre → stop ≡ start + length a → slice start stop whole ≡ a
  slice_a start stop h k =
      let e : whole ≡ pre ++ (a ++ ((b ++ (c ++ d)) ++ post)) = simp append_assoc in
      rw e (slice_of_part pre a ((b ++ (c ++ d)) ++ post) start stop h k)

  slice_b :
      (start stop : ℕ)
      → start ≡ length pre + length a
      → stop ≡ start + length b
      → slice start stop whole ≡ b
  slice_b start stop h k =
      let e : whole ≡ (pre ++ a) ++ (b ++ ((c ++ d) ++ post)) = simp append_assoc in
      rw e
        (slice_of_part (pre ++ a) b ((c ++ d) ++ post) start stop (h ∙ sym (length-append pre a)) k)

  slice_c :
      (start stop : ℕ)
      → start ≡ length pre + length a + length b
      → stop ≡ start + length c
      → slice start stop whole ≡ c
  slice_c start stop h k =
      let e : whole ≡ (pre ++ (a ++ b)) ++ (c ++ (d ++ post)) = simp append_assoc in
      rw e (
        slice_of_part (pre ++ (a ++ b)) c (d ++ post) start stop
          (omega (arith, length-append pre (a ++ b), length-append a b)) k)

  slice_d :
      (start stop : ℕ)
      → start ≡ length pre + length a + length b + length c
      → stop ≡ start + length d
      → slice start stop whole ≡ d
  slice_d start stop h k =
      let e : whole ≡ (pre ++ (a ++ (b ++ c))) ++ (d ++ post) = simp append_assoc in
      rw e (
        slice_of_part (pre ++ (a ++ (b ++ c))) d post start stop
          (omega
            (arith, length-append pre (a ++ (b ++ c)), length-append a (b ++ c), length-append b c))
          k)

  length-whole : length whole ≡ length pre + length a + length b + length c + length d + length post
  length-whole = omega (
    arith,
    length-append pre ((a ++ (b ++ (c ++ d))) ++ post),
    length-append (a ++ (b ++ (c ++ d))) post,
    length-append a (b ++ (c ++ d)),
    length-append b (c ++ d),
    length-append c d,
  )

-- a seed as `set_sync` makes it
pub record IsSync (self : Sync) : Type 0 where
  pub size : length self.sync_snapshot ≡ 4
  pub inverted : self.sync_change ≡ invert self.sync_snapshot

length-invert : (xs : Bytes) → length (invert xs) ≡ length xs
unfolding invert
length-invert [] = refl
length-invert (x ∷ xs) = ap suc (length-invert xs)

-- No byte is its own inverse, so that the two markers differ.
invert-ne : (xs : Bytes) → 0 < length xs → invert xs ≢ xs
unfolding invert
invert-ne [] h e = absurd (omega arith)
invert-ne (x ∷ xs) h e = ground arith

bytes_eq_refl : (xs : Bytes) → bytes_eq xs xs ≡ true
bytes_eq_refl xs = (bytes_eq_iff xs xs).1 refl

module _ (blake3 : Bytes → Bytes → ℕ → Bytes)
    (digest_size : (payload key : Bytes) (n : ℕ) → length (blake3 payload key n) ≡ n) (self : Sync)
    (sync : IsSync self) where
  pub length-marker : (s : Bool) → length (marker blake3 self s) ≡ 4
  unfolding marker
  length-marker true = sync.size
  length-marker false = rw (sync.inverted, length-invert) (sync.size)

  read_marker-marker :
      (s : Bool) (pos : ℕ) → read_marker blake3 self (marker blake3 self s) pos ≡ ok s
  unfolding read_marker marker
  read_marker-marker true pos = rw bytes_eq_refl
  read_marker-marker false pos = elim (Bool-cases (bytes_eq self.sync_change self.sync_snapshot)) [
    | inl same ↦ absurd (
        invert-ne self.sync_snapshot (omega (arith, sync.size))
          (sym sync.inverted ∙ (bytes_eq_iff self.sync_change self.sync_snapshot).0 same))
    | inr other ↦ rw (other, bytes_eq_refl)
  ]

  pub length-checksum :
      (s : Bool) (pos : ℕ) (payload : Bytes) → length (checksum blake3 self s pos payload) ≡ 8
  unfolding checksum
  length-checksum s pos payload = digest_size payload _ 8

  module _ (pre post payload : Bytes) (s : Bool) (small : length payload < 256 ^ 4) where
    abbrev pub file : Bytes
    file =
        pre
        ++ ((marker blake3 self s
              ++ (little_endian 4 (length payload)
                  ++ (checksum blake3 self s (length pre) payload ++ payload)))
            ++ post)

    pub read-file :
        read_frame blake3 self file (length pre)
        ≡ ok (record {
          is_snapshot = s;
          payload = payload;
          next_offset = length pre + 4 + 4 + 8 + length payload;
          record_offset = length pre;
        })
    unfolding read_frame read_body
    read-file =
        let n = length pre in
        let m = marker blake3 self s in
        let l = little_endian 4 (length payload) in
        let c = checksum blake3 self s n payload in
        let total : length file ≡ n + 4 + 4 + 8 + length payload + length post = omega (
          arith,
          length-whole pre m l c payload post,
          length-marker s,
          length-little_endian 4 (length payload),
          length-checksum s n payload,
        ) in
        let at_marker : slice n (n + 4) file ≡ m =
          slice_a pre m l c payload post n (n + 4) refl (omega (arith, length-marker s)) in
        let at_len : slice (n + 4) (n + 4 + 4) file ≡ l =
          slice_b pre m l c payload post (n + 4) (n + 4 + 4) (omega (arith, length-marker s))
            (omega (arith, length-little_endian 4 (length payload))) in
        let at_digest : slice (n + 4 + 4) (n + 4 + 4 + 8) file ≡ c =
          slice_c pre m l c payload post (n + 4 + 4) (n + 4 + 4 + 8)
            (omega (arith, length-marker s, length-little_endian 4 (length payload)))
            (omega (arith, length-checksum s n payload)) in
        let at_payload : slice (n + 4 + 4 + 8) (n + 4 + 4 + 8 + length payload) file ≡ payload =
          slice_d pre m l c payload post (n + 4 + 4 + 8) (n + 4 + 4 + 8 + length payload)
            (omega (
              arith,
              length-marker s,
              length-little_endian 4 (length payload),
              length-checksum s n payload,
            ))
            refl in
        let room_marker : ltb (length file) (n + 4) ≡ false = not_ltb _ _ (omega arith) in
        let room_head : ltb (length file) (n + 4 + 12) ≡ false = not_ltb _ _ (omega arith) in
        let room_body : ltb (length file) (n + 4 + 4 + 8 + length payload) ≡ false =
          not_ltb _ _ (omega arith) in
        rw (
          room_marker,
          at_marker,
          read_marker-marker s n,
          room_head,
          at_len,
          from_bytes-little_endian 4 (length payload) small,
          room_body,
          at_digest,
          at_payload,
          bytes_eq_refl,
        )
