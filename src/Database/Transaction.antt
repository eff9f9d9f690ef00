-- ===== src/Database/Transaction.antt =====
-- transaction.py: a transaction around a body, which is the program's. Of the logging, whether the
-- chain of formatters can be built is kept: it is what can raise there.
pub mod Outcome
pub mod Atomic
pub mod Sequence
use kanta.Base.{String, Bool, true, false, not, ◌&&◌, Option, none, some, if◌then◌else◌}
use text.Mathlib.Text.{◌==◌ as str_eq}
use kanta.Value.{Fields, field, end, obj, py_eq}
use kanta.Diff.{diff}
use kanta.Structs.{Time, ChangeRecord}
use kanta.Persistence.{Impl, Mtime, queue_change}
use kanta.Database.{Program, Database}

-- What the body leaves of the data, and whether it returns, raises an `Exception`, or raises what
-- is none, such as a KeyboardInterrupt.
pub data Ending : Type 0 where
  returned excepted interrupted : Ending

-- What a transaction raises: a DataIntegrityError, a RuntimeError, the AttributeError of
-- `impl.db_path`, what the callbacks raise, what the body does, or what a LogFmt class raises.
pub data TransactionError : Type 0 where
  read_only nested modified_outside invalid body_error body_interrupt log_error : TransactionError

-- `log is not False`, and whether `_build_logfmt` returns, for the event of the change and for that
-- of the abort: the classes of the chain are the program's.
pub record Logs : Type 0 where
  pub log : Bool
  pub change_built : Bool
  pub abort_built : Bool

-- the event of a change raises
abbrev pub fails_change : Logs → Bool
fails_change logs = logs.log && not logs.change_built

-- the event of an abort raises, where there is a user
abbrev pub fails_abort : Option String → Logs → Bool
fails_abort none logs = false
fails_abort (some user) logs = not logs.abort_built

-- `record is not None`
abbrev pub is_queued : Option ChangeRecord → Bool
is_queued none = false
is_queued (some change) = true

abbrev pub is_end : Fields → Bool
is_end end = true
is_end (field k v d) = false

-- the guard on the state, before a transaction begins
unfoldable pub is_modified_outside : String → Fields → Fields → Bool
is_modified_outside action statedict current_dict =
    if py_eq (obj current_dict) (obj statedict)
    then false
    else if str_eq action "bootstrap" && is_end statedict
    then false
    else elim (diff statedict current_dict) [ none ↦ false | some delta ↦ true ]

module _ {ℓ} {Data : Type ℓ} (program : Program Data) where
  -- `finally`
  unfoldable pub leave : Database Data → Database Data
  leave self = record self { in_transaction = false; transaction_snapshot = none }

  -- The `except` block: the data of the beginning is decoded again. Where that raises, the data
  -- stays.
  unfoldable pub roll_back : Database Data → Database Data
  roll_back self = elim self.transaction_snapshot [
    | none ↦ self
    | some snapshot ↦ elim (program.dict_to_struct snapshot) [
      | none ↦ self
      | some value ↦ record self { value = value }
    ]
  ]

  -- the `except` block, with the exception
  unfoldable pub abort :
      Database Data
      → Option String
      → Logs
      → TransactionError
      → Database Data × Option TransactionError
  abort self user logs error =
      if fails_abort user logs then (self, some log_error) else (roll_back self, some error)

  -- behind the call of `queue_change`
  unfoldable pub log_change :
      Database Data
      → Option ChangeRecord
      → Option String
      → Logs
      → Database Data × Option TransactionError
  log_change self queued user logs =
      if is_queued queued && fails_change logs then abort self user logs log_error else (self, none)

  -- behind the `yield`
  unfoldable pub commit :
      Database Data
      → Time
      → String
      → Option String
      → Mtime
      → Logs
      → Database Data × Option TransactionError
  commit self now action user mtime logs =
      let new_dict = program.struct_to_dict self.value in
      elim (diff self.impl.statedict new_dict) [
        | none ↦ (self, none)
        | some delta ↦
            let result = queue_change self.impl now action new_dict user mtime false in
            if program.validate self.value
            then log_change (record self { impl = result.0 }) result.1 user logs
            else abort self user logs invalid
      ]

  -- from the end of the body to the end of the `except` block
  unfoldable pub after_body :
      Database Data
      → Ending
      → Time
      → String
      → Option String
      → Mtime
      → Logs
      → Database Data × Option TransactionError
  after_body self returned now action user mtime logs = commit self now action user mtime logs
  after_body self excepted now action user mtime logs = abort self user logs body_error
  after_body self interrupted now action user mtime logs = (self, some body_interrupt)

  -- `transaction` around a body
  unfoldable pub transaction :
      Database Data
      → (Data → Data × Ending)
      → Time
      → String
      → Option String
      → Mtime
      → Logs
      → Database Data × Option TransactionError
  transaction self body now action user mtime logs =
      let current_dict = program.struct_to_dict self.value in
      if self.impl.readonly
      then (self, some read_only)
      else if self.in_transaction
      then (self, some nested)
      else if is_modified_outside action self.impl.statedict current_dict
      then (self, some modified_outside)
      else let (value, ending) = body self.value in
        let entered = record self {
          value = value;
          in_transaction = true;
          transaction_snapshot = some current_dict;
        } in
        let (self', error) = after_body entered ending now action user mtime logs in
        (leave self', error)
