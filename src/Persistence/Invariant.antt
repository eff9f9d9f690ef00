-- ===== src/Persistence/Invariant.antt =====
-- The invariant of a database that is open: what its file and its queue stand for.
use kanta.Base.{
  ℕ, ◌+◌, ◌≡◌, refl, ap, Bool, true, false, Option, none, some, ◌>>=◌, >>=-eq-some, List, [], ◌∷◌,
  ◌++◌, map, map-append, append_assoc, length, length-append, arith, Option-cases, inl, inr, String,
}
use kanta.Base.Bytes.{Bytes}
use kanta.Value.{Fields, UniqueKeys}
use kanta.Diff.{diff}
use kanta.Patch.Survives.{EntriesSurvive}
use kanta.Structs.{
  Time, ChangeRecord, Serializer, IsReadable, IsReadableSnapshot, AllReadable, AllReadable-snoc,
}
use kanta.Framing.Bin.{Sync, frame, frame_change, bin_framer}
use kanta.Framing.Bin.Journal.{Entry, written}
use kanta.Replay.Changes.{change_entry}
use kanta.Persistence.{Impl, Mtime, delta_of, enqueue, queue_change, frame_changes}
use kanta.Persistence.Durable.{Base, Accounts, enqueue-Accounts}

module _ (blake3 : Bytes → Bytes → ℕ → Bytes) (seed : Sync) where
  pub written-both :
      (offset : ℕ) (xs ys : List Entry) (a b : Bytes)
      → written blake3 seed offset xs ≡ some a
      → written blake3 seed (offset + length a) ys ≡ some b
      → written blake3 seed offset (xs ++ ys) ≡ some (a ++ b)
  unfolding written
  written-both offset [] ys [] b h k = let here : offset + 0 ≡ offset = omega arith in rw here at k
  written-both offset [] ys (x ∷ a) b h k = cc
  written-both offset ((s, payload) ∷ xs) ys a b h k =
      let (first, e, h') = >>=-eq-some (frame blake3 seed s payload offset) _ h in
      let (rest, e', h'') = >>=-eq-some (written blake3 seed (offset + length first) xs) _ h' in
      let split : first ++ rest ≡ a = cc in
      let behind : offset + length a ≡ offset + length first + length rest =
        omega (arith, ap length split, length-append first rest) in
      rw (
        e,
        ← split,
        append_assoc,
        written-both (offset + length first) xs ys rest b e' (rw behind at k),
      )

module _ (blake3 : Bytes → Bytes → ℕ → Bytes) (seed : Sync) (serializer : Serializer) where
  pub frame_changes-written :
      (offset : ℕ) (changes : List ChangeRecord)
      → frame_changes (bin_framer blake3 seed) serializer offset changes
        ≡ written blake3 seed offset (map (change_entry serializer) changes)
  unfolding written frame_changes frame_change
  frame_changes-written offset [] = refl
  frame_changes-written offset (c ∷ changes) = λ i.
      frame blake3 seed false (serializer.encode_change c) offset >>= λ framed.
      frame_changes-written (offset + length framed) changes i >>= λ rest. some (framed ++ rest)

  -- the entries of a file
  abbrev pub entries : Base → List ChangeRecord → List Entry
  entries none log = map (change_entry serializer) log
  entries (some (before, s)) log =
      before ++ (true, serializer.encode_snapshot s) ∷ map (change_entry serializer) log

  abbrev pub IsReadableBase : Base → Type 0
  IsReadableBase none = Unit
  IsReadableBase (some (before, s)) = IsReadableSnapshot serializer s

  -- The file holds a last snapshot, or none, and then changes; and these with the pending ones
  -- account for the state, and all of them can be decoded.
  unfoldable pub IsDurable : Impl → Type 0
  IsDurable self =
      (base : Base) × (log : List ChangeRecord) × (written blake3 seed 0 (entries base log)
        ≡ some self.file.content)
      × IsReadableBase base
      × AllReadable serializer (log ++ self.pending_changes)
      × Accounts self base (log ++ self.pending_changes)

  pub entries-append :
      (base : Base) (xs ys : List ChangeRecord)
      → entries base (xs ++ ys) ≡ entries base xs ++ map (change_entry serializer) ys
  entries-append none xs ys = map-append (change_entry serializer) xs ys
  entries-append (some (before, s)) xs ys =
      rw (map-append (change_entry serializer) xs ys, append_assoc)

  enqueue-IsDurable :
      (self : Impl) (r : ChangeRecord) (current : Fields) (force : Bool)
      → UniqueKeys current
      → EntriesSurvive self.statedict current
      → delta_of (diff self.statedict current) force ≡ some r.diff
      → IsReadable serializer r
      → IsDurable self
      → IsDurable (enqueue self r current)
  unfolding enqueue IsDurable
  enqueue-IsDurable self r current force u s e ir (base, log, w, rb, readable, account) = (
    base,
    log,
    w,
    rb,
    rw (← append_assoc log self.pending_changes (r ∷ []))
        (AllReadable-snoc serializer (log ++ self.pending_changes) r readable ir),
    enqueue-Accounts self r current force base log u s e account,
  )

  pub queue_change-IsDurable :
      (self : Impl) (now : Time) (action : String) (current : Fields) (user : Option String)
      (mtime : Mtime) (force : Bool)
      → UniqueKeys current
      → EntriesSurvive self.statedict current
      → ((r : ChangeRecord)
          → (queue_change self now action current user mtime force).1 ≡ some r
          → IsReadable serializer r)
      → IsDurable self
      → IsDurable (queue_change self now action current user mtime force).0
  unfolding queue_change
  queue_change-IsDurable self now action current user mtime force u s readable h =
      elim (Option-cases (delta_of (diff self.statedict current) force)) [
        | inl same ↦ rw (queue_change, same) h
        | inr (delta, e) ↦
            rw (queue_change, e)
              (enqueue-IsDurable self _ current force u s e (readable _ (rw (queue_change, e))) h)
      ]

  -- the invariant is about nothing but the state, the queue and the file's bytes
  pub moved-IsDurable :
      (self self' : Impl)
      → self.statedict ≡ self'.statedict
      → self.pending_changes ≡ self'.pending_changes
      → self.mtime ≡ self'.mtime
      → self.file.content ≡ self'.file.content
      → IsDurable self
      → IsDurable self'
  unfolding IsDurable
  moved-IsDurable self self' e e' e'' e3 (base, log, w, rb, readable, account) =
      let (out, replayed, eq, uo, us, m) = account in
      (
        base,
        log,
        rw e3 at w,
        rb,
        rw e' at readable,
        (out, rw e' at replayed, rw e at eq, uo, rw e at us, rw (e', e'') at m),
      )
