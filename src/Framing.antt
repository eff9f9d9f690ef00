-- ===== src/Framing.antt =====
-- serialization/framing.py: what the two framers share. A framer turns encoded payloads into the
-- bytes of a file and back.
pub mod Bin
pub mod Line
use kanta.Base.{◌≡◌, refl, ◌⊎◌, inl, inr, ℕ, Bool, true, false, Option, none, some}
use kanta.Base.Bytes.{Bytes}

pub data RecordType : Type 0 where
  snapshot change : RecordType

-- the texts of the errors
pub data Message : Type 0 where
  missing_sync_header incomplete_frame invalid_frame_marker invalid_frame_checksum : Message
  incomplete_snapshot_line invalid_snapshot_record invalid_record : Message

-- exceptions.py
pub record ReplayError : Type 0 where
  pub message : Message
  pub line_number : ℕ
  pub byte_pos : ℕ
  pub record_type : Option RecordType

pub data Result {ℓ} (A : Type ℓ) : Type ℓ where
  ok : A → Result A
  err : ReplayError → Result A

pub Result-cases {ℓ} :
    {A : Type ℓ} (r : Result A) → ((a : A) × (r ≡ ok a)) ⊎ ((e : ReplayError) × (r ≡ err e))
Result-cases (ok a) = inl (a, refl)
Result-cases (err e) = inr (e, refl)

infixl 5 ◌>>=◌ ◌>>◌
abbrev pub ◌>>=◌ {ℓ κ} : {A : Type ℓ} {B : Type κ} → Result A → (A → Result B) → Result B
err e >>= next = err e
ok value >>= next = next value

abbrev pub ◌>>◌ {ℓ} : {B : Type ℓ} → Result (Unit {0}) → Result B → Result B
first >> second = first >>= λ done. second

-- if test: raise error
abbrev pub raise_if : Bool → ReplayError → Result (Unit {0})
raise_if true e = err e
raise_if false e = ok tt

-- what `iter_records` yields
pub record Record : Type 0 where
  pub is_snapshot : Bool
  pub payload : Bytes
  pub line_number : ℕ
  pub byte_pos : ℕ

-- A generator: it yields, and ends or raises when the consumer asks for more. `unfinished` is the
-- end of the fuel of the model.
pub data Stream {ℓ} (A : Type ℓ) : Type ℓ where
  stop : Stream A
  raise : ReplayError → Stream A
  unfinished : Stream A
  yield : A → Stream A → Stream A

module _ {ℓ κ} {A : Type ℓ} {B : Type κ} where
  abbrev pub map_stream : (A → B) → Stream A → Stream B
  map_stream f stop = stop
  map_stream f (raise e) = raise e
  map_stream f unfinished = unfinished
  map_stream f (yield a s) = yield (f a) (map_stream f s)

-- the snapshot payload, the offset to go on from, and the position of the snapshot
abbrev pub LastSnapshot : Type 0
LastSnapshot = Option Bytes × ℕ × ℕ

-- the protocol `Framer`; `none` is an OverflowError
pub record Framer : Type 0 where
  pub frame_change : Bytes → ℕ → Option Bytes
  pub frame_snapshot : Bytes → ℕ → Option Bytes
  pub scan_last_snapshot : Bytes → Result LastSnapshot
  pub iter_records : Bytes → ℕ → Stream Record
