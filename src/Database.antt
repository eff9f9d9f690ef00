-- ===== src/Database.antt =====
-- kantaimpl.py: the state of `KantaImpl`, and what a program gives to it: its type of data, its
-- migrations and its callbacks. Logging is left out.
pub mod Open
pub mod Close
pub mod Transaction
use kanta.Base.{ℕ, zero, suc, ◌/◌, ◌%◌, String, Bool, false, Option, none, ltb, if◌then◌else◌}
use kanta.Base.Bytes.{Bytes}
use Prim.Native.String.{char_at, ◌++◌}
use kanta.Value.{Fields}
use kanta.Structs.{Time}
use kanta.Framing.{Framer}
use kanta.Migrations.{Registry}
use kanta.Persistence.{Impl, Mtime, FlushError, new_impl}

-- The codec of the program's type, its callbacks, and the other arguments of `Kanta`. Where no
-- callback is registered, `bootstrap` keeps the data and `validate` accepts it.
pub record Program {ℓ} (Data : Type ℓ) : Type ℓ where
  -- `struct_to_dict`, and `dict_to_struct`, where none is a DecodeError
  pub struct_to_dict : Data → Fields
  pub dict_to_struct : Fields → Option Data
  -- the data behind the callback, and whether it returns
  pub bootstrap : Data → Data × Bool
  -- whether the callbacks return
  pub validate : Data → Bool
  pub bootstrap_action : String
  pub bootstrap_user : Option String
  pub bootstrap_mtime : Mtime
  pub migrations : Option Registry
  pub retention : Option Time

-- The framer of a file: a framer takes the seed of what it reads. On an empty file it has its own.
abbrev pub FramerClass : Type 0
FramerClass = Bytes → Framer

-- `background_task`: none, created but not begun, in its sleep, ended, or ended by an exception,
-- which every `await` of it raises again
pub data Task : Type 0 where
  no_task created sleeping ended : Task
  failed : FlushError → Task

-- `value` is `data`
pub record Database {ℓ} (Data : Type ℓ) : Type ℓ where
  pub impl : Impl
  pub value : Data
  pub in_transaction : Bool
  pub transaction_snapshot : Option Fields
  pub background_task : Task
  pub background_error : Option FlushError

-- str(n), on fuel of one digit each
abbrev pub decimal : ℕ → ℕ → String → String
decimal zero n text = text
decimal (suc fuel) n text =
    let text' = String.◌∷◌ (char_at "0123456789" (n % 10)) text in
    let rest = decimal fuel (n / 10) text' in if ltb n 10 then text' else rest

-- the action of the record that `open` queues
unfoldable pub open_action : Bool → ℕ → String
open_action migrations_ran version =
    if migrations_ran then "migrate:v" ++ decimal (suc version) version "" else "migrate:msgspec"
