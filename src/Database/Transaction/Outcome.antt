-- ===== src/Database/Transaction/Outcome.antt =====
-- What a transaction comes to, and what its steps leave on an idle database.
use kanta.Base.{
  ◌≡◌, ◌≢◌, refl, sym, String, true, false, Option, none, some, ◌&&◌, if-holds, ◌⊎◌, str_eq,
  if◌then◌else◌,
}
use kanta.Value.{Fields, obj, py_eq}
use kanta.Diff.{diff}
use kanta.Structs.{Time}
use kanta.Persistence.{Impl, Mtime, queue_change}
use kanta.Database.{Program, Database}
use kanta.Database.Transaction.{
  Ending, returned, excepted, interrupted, TransactionError, read_only, invalid, body_error,
  body_interrupt, is_modified_outside, leave, roll_back, abort, log_change, commit, after_body,
  transaction, is_end, log_error, Logs, fails_change, fails_abort, is_queued,
}

pub not-modified :
    (action : String) (statedict current_dict : Fields)
    → diff statedict current_dict ≡ none
    → is_modified_outside action statedict current_dict ≡ false
unfolding is_modified_outside
not-modified action statedict current_dict same =
    if-holds (λ b. b ≡ false) (py_eq (obj current_dict) (obj statedict)) refl
      (if-holds (λ b. b ≡ false) (str_eq action "bootstrap" && is_end statedict) refl
        (rw same refl))

module _ {ℓ} {Data : Type ℓ} (program : Program Data) where
  -- between transactions: the data has not been changed since the last of them
  abbrev pub IsIdle : Database Data → Type 0
  IsIdle self =
      (self.in_transaction ≡ false)
      × (self.transaction_snapshot ≡ none)
      × (diff self.impl.statedict (program.struct_to_dict self.value) ≡ none)

  -- The state can be decoded to the data that it was encoded from.
  abbrev pub IsRestorable : Data → Type ℓ
  IsRestorable value = program.dict_to_struct (program.struct_to_dict value) ≡ some value

  -- in the body
  abbrev pub entered : Database Data → Data → Database Data
  entered self value = record self {
    value = value;
    in_transaction = true;
    transaction_snapshot = some (program.struct_to_dict self.value);
  }

  -- What a transaction comes to, whose body leaves `value`: it is refused, or the new state is
  -- queued, or nothing is changed, or the value of a body that is interrupted stays unqueued. Where
  -- the log of the abort raises, the value stays unqueued as well; and where that of the change
  -- raises, the new state is queued, whether the value stays or not.
  pub data IsOutcome (self : Database Data) (value : Data) (now : Time) (action : String)
      (user : Option String) (mtime : Mtime) (logs : Logs)
      : Ending → Database Data × Option TransactionError → Type ℓ where
    refused :
        {ending : Ending}
        → self.impl.readonly ≡ true
        → IsOutcome self value now action user mtime logs ending (self, some read_only)
    committed :
        self.impl.readonly ≡ false
        → ((program.validate value ≡ true) × (fails_change logs ≡ false))
          ⊎ (diff self.impl.statedict (program.struct_to_dict value) ≡ none)
        → IsOutcome self value now action user mtime logs returned (
          record self {
            value = value;
            impl =
                (queue_change self.impl now action
                  (program.struct_to_dict value)
                  user
                  mtime
                  false).0;
          },
          none,
        )
    vetoed :
        self.impl.readonly ≡ false
        → program.validate value ≡ false
        → diff self.impl.statedict (program.struct_to_dict value) ≢ none
        → fails_abort user logs ≡ false
        → IsOutcome self value now action user mtime logs returned (self, some invalid)
    rolled_back :
        self.impl.readonly ≡ false
        → fails_abort user logs ≡ false
        → IsOutcome self value now action user mtime logs excepted (self, some body_error)
    broken_off :
        self.impl.readonly ≡ false
        → IsOutcome self value now action user mtime logs interrupted
            (record self { value = value }, some body_interrupt)
    unrestored :
        {ending : Ending}
        → self.impl.readonly ≡ false
        → fails_abort user logs ≡ true
        → (ending ≡ excepted)
          ⊎ ((ending ≡ returned)
              × (program.validate value ≡ false)
              × (diff self.impl.statedict (program.struct_to_dict value) ≢ none))
        → IsOutcome self value now action user mtime logs ending
            (record self { value = value }, some log_error)
    unlogged :
        self.impl.readonly ≡ false
        → program.validate value ≡ true
        → diff self.impl.statedict (program.struct_to_dict value) ≢ none
        → fails_change logs ≡ true
        → IsOutcome self value now action user mtime logs returned (
          record self {
            value = if fails_abort user logs then value else self.value;
            impl =
                (queue_change self.impl now action
                  (program.struct_to_dict value)
                  user
                  mtime
                  false).0;
          },
          some log_error,
        )

  pub left-eq :
      (self : Database Data) (value : Data) (impl : Impl)
      → IsIdle self
      → leave program (record (entered self value) { impl = impl })
        ≡ record self { value = value; impl = impl }
  unfolding leave
  left-eq self value impl (h, k, same) = λ i. record self {
    value = value;
    impl = impl;
    in_transaction = sym h i;
    transaction_snapshot = sym k i;
  }

  -- behind `finally`
  abbrev pub left :
      Database Data × Option TransactionError → Database Data × Option TransactionError
  left result = (leave program result.0, result.1)

  -- what the `except` block leaves, whatever was queued before
  module _ (self : Database Data) (value : Data) (impl : Impl) (user : Option String) (logs : Logs)
      (error : TransactionError) (idle : IsIdle self) where
    pub abort-restored :
        IsRestorable self.value
        → fails_abort user logs ≡ false
        → left (abort program (record (entered self value) { impl = impl }) user logs error)
          ≡ (record self { impl = impl }, some error)
    unfolding abort roll_back
    abort-restored r logged =
        rw (abort, logged, r) (λ i. (left-eq self self.value impl idle i, some error))

    pub abort-unrestored :
        fails_abort user logs ≡ true
        → left (abort program (record (entered self value) { impl = impl }) user logs error)
          ≡ (record self { value = value; impl = impl }, some log_error)
    unfolding abort
    abort-unrestored fails =
        rw (abort, fails) (λ i. (left-eq self value impl idle i, some log_error))

  -- an idle database whose file can be written runs the body
  pub transaction-runs :
      (self : Database Data) (body : Data → Data × Ending) (now : Time) (action : String)
      (user : Option String) (mtime : Mtime) (logs : Logs)
      → IsIdle self
      → self.impl.readonly ≡ false
      → transaction program self body now action user mtime logs ≡ (
        leave program
            (after_body program
              (entered self (body self.value).0)
              (body self.value).1
              now
              action
              user
              mtime
              logs).0,
        (after_body program
            (entered self (body self.value).0)
            (body self.value).1
            now
            action
            user
            mtime
            logs).1,
      )
  unfolding transaction
  transaction-runs self body now action user mtime logs (h, k, same) w =
      let inside : is_modified_outside action self.impl.statedict
            (program.struct_to_dict self.value)
          ≡ false =
        not-modified action self.impl.statedict (program.struct_to_dict self.value) same in
      rw (transaction, w, h, inside) refl

  queue_change-same :
      (impl : Impl) (value : Data) (now : Time) (action : String) (user : Option String)
      (mtime : Mtime)
      → diff impl.statedict (program.struct_to_dict value) ≡ none
      → (queue_change impl now action (program.struct_to_dict value) user mtime false).0 ≡ impl
  unfolding queue_change
  queue_change-same impl value now action user mtime same = rw (queue_change, same) refl

  pub commit-same :
      (self : Database Data) (value : Data) (now : Time) (action : String) (user : Option String)
      (mtime : Mtime) (logs : Logs)
      → diff self.impl.statedict (program.struct_to_dict value) ≡ none
      → commit program (entered self value) now action user mtime logs ≡ (
        record (entered self value) {
          impl =
              (queue_change self.impl now action (program.struct_to_dict value) user mtime false).0;
        },
        none,
      )
  unfolding commit
  commit-same self value now action user mtime logs same =
      let kept = queue_change-same self.impl value now action user mtime same in
      rw (commit, same) (λ i. (record (entered self value) { impl = sym kept i }, none))

  module _ (self : Database Data) (value : Data) (now : Time) (action : String)
      (user : Option String) (mtime : Mtime) (logs : Logs) (delta : Fields)
      (changed : diff self.impl.statedict (program.struct_to_dict value) ≡ some delta) where
    -- the change is queued
    abbrev pub queued : Impl
    queued = (queue_change self.impl now action (program.struct_to_dict value) user mtime false).0

    queue_change-queued :
        is_queued
          (queue_change self.impl now action (program.struct_to_dict value) user mtime false).1
        ≡ true
    unfolding queue_change
    queue_change-queued = rw (queue_change, changed) refl

    pub commit-logged :
        program.validate value ≡ true
        → fails_change logs ≡ false
        → commit program (entered self value) now action user mtime logs
          ≡ (record (entered self value) { impl = queued }, none)
    unfolding commit log_change
    commit-logged valid logged =
        rw (commit, changed, valid, log_change, queue_change-queued, logged) refl

    pub commit-unlogged :
        program.validate value ≡ true
        → fails_change logs ≡ true
        → commit program (entered self value) now action user mtime logs
          ≡ abort program (record (entered self value) { impl = queued }) user logs log_error
    unfolding commit log_change
    commit-unlogged valid fails =
        rw (commit, changed, valid, log_change, queue_change-queued, fails) refl

    pub commit-invalid :
        program.validate value ≡ false
        → commit program (entered self value) now action user mtime logs
          ≡ abort program (entered self value) user logs invalid
    unfolding commit
    commit-invalid bad = rw (commit, changed, bad) refl
