-- ===== src/Base/Bytes.antt =====
-- Byte strings as lists of numbers below 256: slices, and integers in little-endian order.
use Prim.Native.Nat.{ℕ, zero, suc, ◌+◌, ◌-◌, ◌*◌, ◌/◌, ◌%◌, ◌^◌, ◌<◌}
use mathlib.Core.Path.{◌≡◌, refl, ap}
use mathlib.Core.List.{List, [], ◌∷◌, ◌++◌}
use mathlib.Core.Bool.{Bool, true, false, ◌&&◌}
use mathlib.Core.Logic.{◌↔◌}
use mathlib.Core.Option.{Option, none, some}
use native.Mathlib.Omega.{arith}
use native.Mathlib.Nat.{pow-suc}
use kanta.Base.Tests.{ltb, ◌==◌, if◌then◌else◌}
use kanta.Base.Lists.{length, take, drop, take-append, drop-append}

abbrev pub Bytes : Type 0
Bytes = List ℕ

-- data[start:stop]
unfoldable pub slice : ℕ → ℕ → Bytes → Bytes
slice start stop xs = take (stop - start) (drop start xs)

-- a == b
unfoldable pub bytes_eq : Bytes → Bytes → Bool
bytes_eq [] [] = true
bytes_eq (x ∷ xs) (y ∷ ys) = x == y && bytes_eq xs ys
bytes_eq _ _ = false

pub bytes_eq_iff : (xs ys : Bytes) → (bytes_eq xs ys ≡ true) ↔ (xs ≡ ys)
unfolding bytes_eq
bytes_eq_iff [] [] = ground arith
bytes_eq_iff [] (y ∷ ys) = ground arith
bytes_eq_iff (x ∷ xs) [] = ground arith
bytes_eq_iff (x ∷ xs) (y ∷ ys) = ground (arith, bytes_eq_iff xs ys)

-- the digits of n in base 256, lowest first
unfoldable pub little_endian : ℕ → ℕ → Bytes
little_endian zero n = []
little_endian (suc width) n = (n % 256) ∷ little_endian width (n / 256)

-- n.to_bytes(width, "little"); `none` is an OverflowError
unfoldable pub to_bytes : ℕ → ℕ → Option Bytes
unfolding little_endian
to_bytes width n = if ltb n (256 ^ width) then some (little_endian width n) else none

-- int.from_bytes(data, "little")
unfoldable pub from_bytes : Bytes → ℕ
from_bytes [] = 0
from_bytes (x ∷ xs) = x + 256 * from_bytes xs

pub length-little_endian : (width n : ℕ) → length (little_endian width n) ≡ width
unfolding little_endian
length-little_endian zero n = refl
length-little_endian (suc width) n = ap suc (length-little_endian width (n / 256))

pub from_bytes-little_endian :
    (width n : ℕ) → n < 256 ^ width → from_bytes (little_endian width n) ≡ n
unfolding from_bytes little_endian
from_bytes-little_endian zero n h = omega arith
from_bytes-little_endian (suc width) n h =
    let shorter : n / 256 < 256 ^ width = omega (arith, pow-suc 256 width) in
    omega (arith, from_bytes-little_endian width (n / 256) shorter)

module _ {ℓ} {A : Type ℓ} where
  pub drop-append_add : (xs ys : List A) (n : ℕ) → drop (length xs + n) (xs ++ ys) ≡ drop n ys
  drop-append_add [] ys n = let e : 0 + n ≡ n = omega arith in rw e
  drop-append_add (x ∷ xs) ys n =
      let e : suc (length xs) + n ≡ suc (length xs + n) = omega arith in
      rw e (drop-append_add xs ys n)

-- the slice that holds a part
pub slice_of_part :
    (pre part post : Bytes) (start stop : ℕ)
    → start ≡ length pre
    → stop ≡ start + length part
    → slice start stop (pre ++ (part ++ post)) ≡ part
unfolding slice
slice_of_part pre part post start stop at upto =
    let width : stop - start ≡ length part = omega arith in
    rw (width, at, drop-append) (take-append part post)
