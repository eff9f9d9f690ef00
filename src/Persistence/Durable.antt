-- ===== src/Persistence/Durable.antt =====
-- What is queued and flushed is what a later replay of the file gives.
use kanta.Base.{
  ◌≡◌, refl, ◌∙◌, Bool, true, false, Option, none, some, List, [], ◌∷◌, ◌++◌, append_assoc,
  Option-cases, inl, inr,
}
use mathlib.Core.Option.{some-injective}
use kanta.Value.{Value, Fields, obj, end, field, py_eq, UniqueKeys}
use kanta.Diff.{diff}
use kanta.Patch.{apply, apply_diff, unmarshal}
use kanta.Patch.Survives.{EntriesSurvive}
use kanta.Patch.Step.{after}
use kanta.Patch.RoundTrip.{reach_dict}
use kanta.Structs.{Snapshot, Time, ChangeRecord}
use kanta.Framing.Bin.Journal.{Entry}
use kanta.Replay.{or_else}
use kanta.Replay.Changes.{replay_changes, replay_changes-append, last_mtime}
use kanta.Persistence.{Impl, delta_of, enqueue}

-- an empty diff applies to a dict, and gives it back
unchanged-applies :
    (out d next : Fields) (force : Bool)
    → delta_of none force ≡ some d
    → after none (obj out) ≡ some (obj next)
    → apply_diff (obj out) (obj d) ≡ some (obj next)
unfolding after apply_diff apply unmarshal
unchanged-applies out end next force e same = same
unchanged-applies out (field k v d) next true e same = cc
unchanged-applies out (field k v d) next false e same = cc

-- the diff of a forced record is empty, and applies too
delta-applies :
    (previous current out d : Fields) (force : Bool)
    → UniqueKeys current
    → UniqueKeys out
    → EntriesSurvive previous current
    → py_eq (obj previous) (obj out) ≡ true
    → delta_of (diff previous current) force ≡ some d
    → (next : Fields) × (apply_diff (obj out) (obj d) ≡ some (obj next))
      × (py_eq (obj current) (obj next) ≡ true)
      × UniqueKeys next
unfolding after apply_diff
delta-applies previous current out d force u uo s eq e =
    elim (Option-cases (diff previous current)) [
      | inl same ↦
          let (next, reached, eq', un) = rw same at (reach_dict previous current out u uo s eq) in
          (next, unchanged-applies out d next force (rw same at e) reached, eq', un)
      | inr (changed, is_changed) ↦
          let is_d : changed ≡ d = some-injective changed d (rw is_changed at e) in
          let (next, reached, eq', un) =
            rw is_changed at (reach_dict previous current out u uo s eq) in
          (next, rw is_d at reached, eq', un)
    ]

last_mtime-append :
    (m : Option Time) (xs : List ChangeRecord) (r : ChangeRecord)
    → last_mtime m (xs ++ r ∷ []) ≡ or_else r.m (last_mtime m xs)
last_mtime-append m [] r = refl
last_mtime-append m (c ∷ xs) r = last_mtime-append (or_else c.m m) xs r

-- one more change
replay_changes-snoc :
    (state : Value) (xs : List ChangeRecord) (r : ChangeRecord) {mid out : Value}
    → replay_changes state xs ≡ some mid
    → apply_diff mid (obj r.diff) ≡ some out
    → replay_changes state (xs ++ r ∷ []) ≡ some out
unfolding replay_changes
replay_changes-snoc state xs r e h = replay_changes-append state xs (r ∷ []) ∙ rw (e, h)

-- the last snapshot of a file with the entries before it, or none
abbrev pub Base : Type 0
Base = Option (List Entry × Snapshot)

abbrev pub base_state : Base → Fields
base_state none = end
base_state (some (before, s)) = s.state

abbrev pub base_mtime : Base → Option Time
base_mtime none = none
base_mtime (some (before, s)) = s.m

-- what replaying the logged and then the pending changes gives
abbrev pub Accounts : Impl → Base → List ChangeRecord → Type 0
Accounts self base changes =
    (out : Fields) × (replay_changes (obj (base_state base)) changes ≡ some (obj out))
    × (py_eq (obj self.statedict) (obj out) ≡ true)
    × UniqueKeys out
    × UniqueKeys self.statedict
    × (last_mtime (base_mtime base) changes ≡ self.mtime)

pub enqueue-Accounts :
    (self : Impl) (r : ChangeRecord) (current : Fields) (force : Bool) (base : Base)
    (log : List ChangeRecord)
    → UniqueKeys current
    → EntriesSurvive self.statedict current
    → delta_of (diff self.statedict current) force ≡ some r.diff
    → Accounts self base (log ++ self.pending_changes)
    → Accounts (enqueue self r current) base (log ++ (enqueue self r current).pending_changes)
unfolding enqueue
enqueue-Accounts self r current force base log u s e (out, replayed, eq, uo, us, m) =
    let (next, applied, eq', un) =
      delta-applies self.statedict current out r.diff force u uo s eq e in
    let changes = log ++ self.pending_changes in
    rw (← append_assoc log self.pending_changes (r ∷ [])) (
      next,
      replay_changes-snoc (obj (base_state base)) changes r replayed applied,
      eq',
      un,
      u,
      last_mtime-append (base_mtime base) changes r ∙ rw m,
    )
