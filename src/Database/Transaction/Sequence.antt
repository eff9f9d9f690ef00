-- ===== src/Database/Transaction/Sequence.antt =====
-- Transactions one after the other.
use kanta.Base.{
  ◌≡◌, ◌≢◌, refl, String, false, Option, none, some, List, [], ◌∷◌, Option-cases, inl, inr,
}
use kanta.Value.{Fields, obj, UniqueKeys}
use kanta.Value.Equal.{py_eq_refl}
use kanta.Diff.{diff}
use kanta.Diff.Unchanged.{diff-eq-none_iff}
use kanta.Structs.{Time}
use kanta.Persistence.{Impl, Mtime, enqueue, queue_change}
use kanta.Database.{Program, Database}
use kanta.Database.Transaction.{
  Ending, interrupted, TransactionError, nested, modified_outside, transaction, Logs, fails_change,
  fails_abort,
}
use kanta.Database.Transaction.Outcome.{
  IsIdle, IsRestorable, IsOutcome, refused, committed, vetoed, rolled_back, broken_off, unrestored,
  unlogged,
}
use kanta.Database.Transaction.Atomic.{transaction-IsOutcome}

-- a call of `transaction`, with the clock's reading
pub record Call {ℓ} (Data : Type ℓ) : Type ℓ where
  pub body : Data → Data × Ending
  pub now : Time
  pub action : String
  pub user : Option String
  pub mtime : Mtime
  pub logs : Logs

diff-same : (state : Fields) → UniqueKeys state → diff state state ≡ none
diff-same state u = (diff-eq-none_iff state state u u).1 (py_eq_refl (obj state) u)

-- the state in memory follows the data
pub queue_change-follows :
    (impl : Impl) (now : Time) (action : String) (current : Fields) (user : Option String)
    (mtime : Mtime)
    → UniqueKeys current
    → diff (queue_change impl now action current user mtime false).0.statedict current ≡ none
unfolding queue_change enqueue
queue_change-follows impl now action current user mtime u =
    elim (Option-cases (diff impl.statedict current)) [
      | inl same ↦ rw (queue_change, same) same
      | inr (delta, changed) ↦ rw (queue_change, changed) (diff-same current u)
    ]

-- an error that is not a misuse of transactions
abbrev pub IsOwnError : Option TransactionError → Type 0
IsOwnError (some nested) = ⊥
IsOwnError (some modified_outside) = ⊥
IsOwnError error = Unit

module _ {ℓ} {Data : Type ℓ} (program : Program Data) where
  abbrev pub perform : Database Data → Call Data → Database Data × Option TransactionError
  perform self c = transaction program self c.body c.now c.action c.user c.mtime c.logs

  abbrev pub perform_all : Database Data → List (Call Data) → Database Data
  perform_all self [] = self
  perform_all self (c ∷ cs) = perform_all (perform self c).0 cs

  -- no body is interrupted, whatever data it is given, and no call is refused for its state
  abbrev pub AllUninterrupted : List (Call Data) → Type ℓ
  AllUninterrupted [] = Unit
  AllUninterrupted (c ∷ cs) =
      ((value : Data) → (c.body value).1 ≢ interrupted) × AllUninterrupted cs

  -- the events of each call can be logged
  abbrev pub AllLogged : List (Call Data) → Type 0
  AllLogged [] = Unit
  AllLogged (c ∷ cs) =
      (fails_change c.logs ≡ false) × (fails_abort c.user c.logs ≡ false) × AllLogged cs

  abbrev pub AllOwnErrors : Database Data → List (Call Data) → Type 0
  AllOwnErrors self [] = Unit
  AllOwnErrors self (c ∷ cs) = IsOwnError (perform self c).1 × AllOwnErrors (perform self c).0 cs

  IsOutcome-IsIdle :
      (self : Database Data) {value : Data} {now : Time} {action : String} {user : Option String}
      {mtime : Mtime} {logs : Logs} {ending : Ending}
      {result : Database Data × Option TransactionError}
      → IsOutcome program self value now action user mtime logs ending result
      → IsIdle program self
      → UniqueKeys (program.struct_to_dict value)
      → ending ≢ interrupted
      → fails_change logs ≡ false
      → fails_abort user logs ≡ false
      → IsIdle program result.0 × IsOwnError result.1
  IsOutcome-IsIdle self (refused reading) idle u h change abort = (idle, tt)
  IsOutcome-IsIdle self (committed w valid) idle u h change abort =
      ((idle.0, idle.1, queue_change-follows self.impl _ _ _ _ _ u), tt)
  IsOutcome-IsIdle self (vetoed w bad changed logged) idle u h change abort = (idle, tt)
  IsOutcome-IsIdle self (rolled_back w logged) idle u h change abort = (idle, tt)
  IsOutcome-IsIdle self (broken_off w) idle u h change abort = absurd (h refl)
  IsOutcome-IsIdle self (unrestored w fails ending) idle u h change abort = cc
  IsOutcome-IsIdle self (unlogged w valid changed fails) idle u h change abort = cc

  -- Let the codec give back the data that it encodes, as dicts with distinct keys. Then
  -- transactions whose bodies are not interrupted and whose events can be logged, one after the
  -- other on an idle database, leave it idle: the state is that of the data. And none of them is
  -- refused as nested, or for a state that was modified outside a transaction.
  pub perform_all-IsIdle :
      (restorable : (value : Data) → IsRestorable program value)
      → (keys : (value : Data) → UniqueKeys (program.struct_to_dict value))
      → (self : Database Data) (cs : List (Call Data)) → AllUninterrupted cs
      → AllLogged cs
      → IsIdle program self
      → IsIdle program (perform_all self cs) × AllOwnErrors self cs
  perform_all-IsIdle restorable keys self [] un logged idle = (idle, tt)
  perform_all-IsIdle restorable keys self (c ∷ cs) un logged idle =
      let outcome =
        transaction-IsOutcome program self c.body c.now c.action c.user c.mtime c.logs idle
          (restorable self.value) in
      let (idle', own) =
        IsOutcome-IsIdle self outcome idle (keys (c.body self.value).0) (un.0 self.value) logged.0
          logged.1 in
      let (last, rest) =
        perform_all-IsIdle restorable keys (perform self c).0 cs un.1 logged.2 idle' in
      (last, (own, rest))
