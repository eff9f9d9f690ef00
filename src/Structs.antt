-- ===== src/Structs.antt =====
-- structs.py: the records of the log; and the serializer of serialization/base.py, whose encoding
-- is the package msgspec's: a parameter of what uses it.
use kanta.Base.{some, List, [], ◌∷◌, ◌++◌, ℕ, String, Option, some, ◌≡◌}
use kanta.Base.Bytes.{Bytes}
use kanta.Value.{Fields}

-- A datetime: the microseconds since the midnight that 0001-01-01, a Monday, begins with, in UTC.
abbrev pub Time : Type 0
Time = ℕ

pub record ChangeRecord : Type 0 where
  pub ts : Time
  pub a : String
  pub v : ℕ
  pub u : Option String
  pub m : Option Time
  pub diff : Fields

pub record Snapshot : Type 0 where
  pub ts : Time
  pub v : ℕ
  pub state : Fields
  pub m : Option Time

-- `encode` and `decode` at the two types of records; `none` is a DecodeError
pub record Serializer : Type 0 where
  pub encode_change : ChangeRecord → Bytes
  pub encode_snapshot : Snapshot → Bytes
  pub decode_change : Bytes → Option ChangeRecord
  pub decode_snapshot : Bytes → Option Snapshot

-- What msgspec documents of a value that it can encode: decoding at the same type gives it back.
abbrev pub IsReadable : Serializer → ChangeRecord → Type 0
IsReadable serializer c = serializer.decode_change (serializer.encode_change c) ≡ some c

abbrev pub IsReadableSnapshot : Serializer → Snapshot → Type 0
IsReadableSnapshot serializer s = serializer.decode_snapshot (serializer.encode_snapshot s) ≡ some s

abbrev pub AllReadable : Serializer → List ChangeRecord → Type 0
AllReadable serializer [] = Unit
AllReadable serializer (c ∷ changes) = IsReadable serializer c × AllReadable serializer changes

pub AllReadable-snoc :
    (serializer : Serializer) (changes : List ChangeRecord) (r : ChangeRecord)
    → AllReadable serializer changes
    → IsReadable serializer r
    → AllReadable serializer (changes ++ r ∷ [])
AllReadable-snoc serializer [] r h k = (k, tt)
AllReadable-snoc serializer (c ∷ changes) r h k = (h.0, AllReadable-snoc serializer changes r h.1 k)
