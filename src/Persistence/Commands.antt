-- ===== src/Persistence/Commands.antt =====
-- Runs of the calls that PersistenceMixin serves, one after the other.
use kanta.Base.{none, some, ◌≡◌, Bool, Option, List, [], ◌∷◌, String}
use kanta.Value.{Fields, UniqueKeys}
use kanta.Patch.Survives.{EntriesSurvive}
use kanta.Structs.{Time, ChangeRecord, Snapshot, Serializer, IsReadable, IsReadableSnapshot}
use kanta.Framing.{Framer}
use kanta.Persistence.{Impl, Mtime, Disk, queue_change, flush, maybe_snapshot}

-- a call that the program makes, with the clock's reading or what the disk does
pub data Command : Type 0 where
  queue_command : Time → String → Fields → Option String → Mtime → Bool → Command
  flush_command : Disk → Command
  snapshot_command : Time → Bool → Command

abbrev pub snapshot_of : Impl → Time → Snapshot
snapshot_of self now = record { ts = now; v = self.version; state = self.statedict; m = self.mtime }

module _ (framer : Framer) (serializer : Serializer) where
  abbrev pub step : Impl → Command → Impl
  step self (queue_command now action current user mtime force) =
      (queue_change self now action current user mtime force).0
  step self (flush_command disk) = (flush framer serializer self disk).0
  step self (snapshot_command now write_ok) = maybe_snapshot framer serializer self now write_ok

  abbrev pub run : Impl → List Command → Impl
  run self [] = self
  run self (c ∷ cs) = run (step self c) cs

  abbrev pub IsReadableResult : Option ChangeRecord → Type 0
  IsReadableResult none = Unit
  IsReadableResult (some r) = IsReadable serializer r

  -- Every queued state has distinct keys, its change survives being written, and its record can be
  -- decoded; and where a snapshot is asked for, no change is pending, and it can be decoded.
  abbrev pub AllSurvive : Impl → List Command → Type 0
  AllSurvive self [] = Unit
  AllSurvive self (queue_command now action current user mtime force ∷ cs) =
      UniqueKeys current
      × EntriesSurvive self.statedict current
      × IsReadableResult (queue_change self now action current user mtime force).1
      × AllSurvive (step self (queue_command now action current user mtime force)) cs
  AllSurvive self (flush_command disk ∷ cs) = AllSurvive (step self (flush_command disk)) cs
  AllSurvive self (snapshot_command now write_ok ∷ cs) =
      (self.pending_changes ≡ [])
      × IsReadableSnapshot serializer (snapshot_of self now)
      × AllSurvive (step self (snapshot_command now write_ok)) cs
