-- ===== src/Database/Open/Closed.antt =====
-- `open` ends with the file open, or closed again, by its outcome.
use kanta.Base.{◌≡◌, Bool, true, false, Option, some}
use kanta.Value.{Value}
use kanta.Database.{Database}
use kanta.Database.Open.{
  OpenError, already_open, lock_failed, read_failed, nothing_there, invalid, empty_readonly,
  bootstrap_failed,
}

-- Whether the database stays open with such an outcome, so that `close` is what releases the lock.
abbrev pub stays_open : Option OpenError → Bool
stays_open (some already_open) = true
stays_open (some lock_failed) = false
stays_open (some read_failed) = false
stays_open (some nothing_there) = false
stays_open (some invalid) = false
stays_open (some empty_readonly) = false
stays_open (some bootstrap_failed) = false
stays_open error = true

-- Whether the file stays open with such an outcome, with its lock.
abbrev pub holds_file : Option OpenError → Bool
holds_file (some read_failed) = true
holds_file error = stays_open error

pub record IsSettled {ℓ} {Data : Type ℓ} (result : Database Data × Option OpenError) : Type 0 where
  pub database : result.0.impl.opened ≡ stays_open result.1
  pub locked_file : result.0.impl.file.is_open ≡ holds_file result.1
