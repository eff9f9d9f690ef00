-- ===== src/Database/Transaction/Atomic.antt =====
-- A transaction does all of its change, or none.
use kanta.Base.{
  Bool-cases, ◌≡◌, ◌≢◌, refl, sym, String, true, false, Option, none, some, Option-cases, inl, inr,
  if◌then◌else◌,
}
use mathlib.Core.Path.{subst}
use kanta.Value.{Fields}
use kanta.Diff.{diff}
use kanta.Structs.{Time}
use kanta.Persistence.{Mtime, queue_change}
use kanta.Database.{Program, Database}
use kanta.Database.Transaction.{
  Ending, returned, excepted, interrupted, TransactionError, read_only, invalid, body_error,
  body_interrupt, abort, commit, after_body, transaction, log_error, Logs, fails_change,
  fails_abort,
}
use kanta.Database.Transaction.Outcome.{
  IsIdle, IsRestorable, IsOutcome, refused, committed, vetoed, rolled_back, broken_off, unrestored,
  unlogged, entered, left, left-eq, abort-restored, abort-unrestored, transaction-runs, commit-same,
  queued, commit-logged, commit-unlogged, commit-invalid,
}

module _ {ℓ} {Data : Type ℓ} (program : Program Data) where
  transaction-refused :
      (self : Database Data) (body : Data → Data × Ending) (now : Time) (action : String)
      (user : Option String) (mtime : Mtime) (logs : Logs)
      → self.impl.readonly ≡ true
      → transaction program self body now action user mtime logs ≡ (self, some read_only)
  unfolding transaction
  transaction-refused self body now action user mtime logs reading = rw (transaction, reading) refl

  module _ (self : Database Data) (value : Data) (now : Time) (action : String)
      (user : Option String) (mtime : Mtime) (logs : Logs) (idle : IsIdle program self)
      (r : IsRestorable program self.value) (w : self.impl.readonly ≡ false) where
    -- of the endings of the body
    Outcome : Ending → Database Data × Option TransactionError → Type ℓ
    Outcome = IsOutcome program self value now action user mtime logs

    excepted-IsOutcome :
        Outcome excepted
          (left program (abort program (entered program self value) user logs body_error))
    unfolding Outcome
    excepted-IsOutcome = elim (Bool-cases (fails_abort user logs)) [
      | inl fails ↦
          subst (Outcome excepted)
            (sym (abort-unrestored program self value self.impl user logs body_error idle fails))
            (unrestored w fails (inl refl))
      | inr logged ↦
          subst (Outcome excepted)
            (sym (abort-restored program self value self.impl user logs body_error idle r logged))
            (rolled_back w logged)
    ]

    module _ (delta : Fields)
        (changed : diff self.impl.statedict (program.struct_to_dict value) ≡ some delta) where
      changed-some : diff self.impl.statedict (program.struct_to_dict value) ≢ none
      changed-some same = cc

      invalid-IsOutcome :
          program.validate value ≡ false
          → Outcome returned
              (left program (abort program (entered program self value) user logs invalid))
      unfolding Outcome
      invalid-IsOutcome bad = elim (Bool-cases (fails_abort user logs)) [
        | inl fails ↦
            subst (Outcome returned)
              (sym (abort-unrestored program self value self.impl user logs invalid idle fails))
              (unrestored w fails (inr (refl, bad, changed-some)))
        | inr logged ↦
            subst (Outcome returned)
              (sym (abort-restored program self value self.impl user logs invalid idle r logged))
              (vetoed w bad changed-some logged)
      ]

      unlogged-IsOutcome :
          program.validate value ≡ true
          → fails_change logs ≡ true
          → Outcome returned (
              left program (
                abort program
                  (record (entered program self value) {
                    impl = queued program self value now action user mtime logs delta changed;
                  })
                  user
                  logs
                  log_error))
      unfolding Outcome
      unlogged-IsOutcome valid unlog =
          let impl =
            (queue_change self.impl now action (program.struct_to_dict value) user mtime false).0 in
          let kept : Outcome returned (
            record self {
              value = if fails_abort user logs then value else self.value;
              impl = impl;
            },
            some log_error,
          ) =
            unlogged w valid changed-some unlog in
          elim (Bool-cases (fails_abort user logs)) [
            | inl fails ↦
                subst (Outcome returned)
                  (sym (abort-unrestored program self value impl user logs log_error idle fails))
                  (rw fails at kept)
            | inr logged ↦
                subst (Outcome returned)
                  (sym (abort-restored program self value impl user logs log_error idle r logged))
                  (rw logged at kept)
          ]

      changed-IsOutcome :
          Outcome returned
            (left program (commit program (entered program self value) now action user mtime logs))
      unfolding Outcome
      changed-IsOutcome = elim (Bool-cases (program.validate value)) [
        | inr bad ↦
            subst (λ result. Outcome returned (left program result))
              (sym (commit-invalid program self value now action user mtime logs delta changed bad))
              (invalid-IsOutcome bad)
        | inl valid ↦ elim (Bool-cases (fails_change logs)) [
          | inl unlog ↦
              subst (λ result. Outcome returned (left program result))
                (sym (
                  commit-unlogged program self value now action user mtime logs delta changed valid
                    unlog))
                (unlogged-IsOutcome valid unlog)
          | inr logged ↦
              subst (λ result. Outcome returned (left program result))
                (sym (
                  commit-logged program self value now action user mtime logs delta changed valid
                    logged))
                (subst (λ (d : Database Data). Outcome returned (d, none))
                  (sym (left-eq program self value _ idle)) (committed w (inl (valid, logged))))
        ]
      ]

    -- behind the body, on each of its endings
    after_body-IsOutcome :
        (ending : Ending)
        → Outcome ending (
            left program
              (after_body program (entered program self value) ending now action user mtime logs))
    unfolding after_body Outcome
    after_body-IsOutcome excepted = excepted-IsOutcome
    after_body-IsOutcome interrupted =
        subst (λ (d : Database Data). Outcome interrupted (d, some body_interrupt))
          (sym (left-eq program self value self.impl idle)) (broken_off w)
    after_body-IsOutcome returned =
        elim (Option-cases (diff self.impl.statedict (program.struct_to_dict value))) [
          | inl same ↦ rw (commit-same program self value now action user mtime logs same) (
              subst (λ (d : Database Data). Outcome returned (d, none))
                (sym (left-eq program self value _ idle)) (committed w (inr same)))
          | inr (delta, changed) ↦ changed-IsOutcome delta changed
        ]

  -- A transaction of an idle database, whose data can be decoded from its state, is refused, and
  -- changes nothing, exactly where the database is opened for reading. Else it queues the change
  -- from the state to what the body leaves, and keeps what the body leaves, where the body returns,
  -- and the state is not changed, or the callbacks accept the data and the event of the change can
  -- be logged. It changes nothing at all where the body raises an exception, or the callbacks do
  -- for a change of the state, and the event of the abort can be logged; where that can not be
  -- logged, it keeps what the body leaves, and queues nothing, as it does where the body is
  -- interrupted. And where the event of a change that is accepted can not be logged, it queues the
  -- change all the same, and raises; it keeps what the body leaves exactly where the event of that
  -- abort can not be logged either.
  pub transaction-IsOutcome :
      (self : Database Data) (body : Data → Data × Ending) (now : Time) (action : String)
      (user : Option String) (mtime : Mtime) (logs : Logs)
      → IsIdle program self
      → IsRestorable program self.value
      → IsOutcome program self
          (body self.value).0
          now
          action
          user
          mtime
          logs
          (body self.value).1
          (transaction program self body now action user mtime logs)
  unfolding Outcome
  transaction-IsOutcome self body now action user mtime logs idle r =
      elim (Bool-cases self.impl.readonly) [
        | inl reading ↦
            rw (transaction-refused self body now action user mtime logs reading) (refused reading)
        | inr writing ↦
            rw (transaction-runs program self body now action user mtime logs idle writing) (
              after_body-IsOutcome self (body self.value).0 now action user mtime logs idle r
                writing (body self.value).1)
      ]
