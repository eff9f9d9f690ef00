-- ===== src/Migrations/Versions.antt =====
-- Which migrations run, and the version that they lead to.
use kanta.Base.{
  ℕ, ◌≤◌, ◌≡◌, refl, ap, sym, ◌∙◌, max, min, true, false, some, List, [], ◌∷◌, ltb, leb,
  >>=-eq-some, arith, Bool-cases, Option-cases, inl, inr,
}
use mathlib.Core.Option.{some-injective}
use kanta.Value.{Fields}
use kanta.Migrations.{
  Registry, Migration, MigrationInfo, migrated, versions, find, max_from, min_from, dbver, minver,
  insert_sorted, sorted, run_pending, info_of, apply_migrations,
}

max_from-insert_sorted :
    (m v : ℕ) (ws : List ℕ) → max_from m (insert_sorted v ws) ≡ max_from (max m v) ws
unfolding insert_sorted
max_from-insert_sorted m v [] = refl
max_from-insert_sorted m v (w ∷ ws) = elim (Bool-cases (leb v w)) [
  | inl before ↦ rw before
  | inr behind ↦
      let same : max (max m w) v ≡ max (max m v) w = omega arith in
      rw behind (max_from-insert_sorted (max m w) v ws ∙ ap (λ k. max_from k ws) same)
]

max_from-sorted : (m : ℕ) (vs : List ℕ) → max_from m (sorted vs) ≡ max_from m vs
unfolding sorted
max_from-sorted m [] = refl
max_from-sorted m (v ∷ vs) = max_from-insert_sorted m v (sorted vs) ∙ max_from-sorted (max m v) vs

max_from-max : (m : ℕ) (vs : List ℕ) → max_from m vs ≡ max m (max_from 0 vs)
max_from-max m [] = omega arith
max_from-max m (v ∷ vs) = omega (arith, max_from-max (max m v) vs, max_from-max (max 0 v) vs)

-- a migration that runs
pub run_pending-new :
    (self : Registry) (v : ℕ) (vs : List ℕ) (state : Fields) (current : ℕ)
    (out : Fields × ℕ × List MigrationInfo)
    → leb v current ≡ false
    → run_pending self (v ∷ vs) state current ≡ some out
    → (fn : Migration) × (after : Fields) × (rest : Fields × ℕ × List MigrationInfo) × (run_pending
          self vs after v
        ≡ some rest)
      × (out.1 ≡ rest.1)
      × (out.2 ≡ info_of fn v state after ∷ rest.2)
      × (find v self ≡ some fn)
      × (fn.run state ≡ some after)
      × (out.0 ≡ rest.0)
unfolding run_pending
run_pending-new self v vs state current out new h =
    let (fn, e, h') = >>=-eq-some (find v self) _ (rw new at h) in
    let (after, e', h'') = >>=-eq-some (fn.run state) _ h' in
    let (rest, e3, h3) = >>=-eq-some (run_pending self vs after v) _ h'' in
    let same = some-injective _ out h3 in
    (
      fn,
      after,
      rest,
      e3,
      sym (ap (λ (r : Fields × ℕ × List MigrationInfo). r.1) same),
      sym (ap (λ (r : Fields × ℕ × List MigrationInfo). r.2) same),
      e,
      e',
      sym (ap (λ (r : Fields × ℕ × List MigrationInfo). r.0) same),
    )

-- a migration that is skipped
pub run_pending-old :
    (self : Registry) (v : ℕ) (vs : List ℕ) (state : Fields) (current : ℕ)
    → leb v current ≡ true
    → run_pending self (v ∷ vs) state current ≡ run_pending self vs state current
unfolding run_pending
run_pending-old self v vs state current old = rw old

-- the loop ends at the greatest version
run_pending-version :
    (self : Registry) (vs : List ℕ) (state : Fields) (current : ℕ)
    (out : Fields × ℕ × List MigrationInfo)
    → run_pending self vs state current ≡ some out
    → out.1 ≡ max_from current vs
run_pending-version self [] state current out h =
    unfold run_pending in
    sym (
      ap (λ (r : Fields × ℕ × List MigrationInfo). r.1) (some-injective (state, current, []) out h))
run_pending-version self (v ∷ vs) state current out h = elim (Bool-cases (leb v current)) [
  | inl old ↦
      let low : max current v ≡ current = ground arith in
      rw low (
        run_pending-version self vs state current out
          (sym (run_pending-old self v vs state current old) ∙ h))
  | inr new ↦
      let high : max current v ≡ v = ground arith in
      let (fn, after, rest, e, same, infos, found, ran, is_out) =
        run_pending-new self v vs state current out new h in
      rw high (same ∙ run_pending-version self vs after v rest e)
]

-- nothing runs where no version lies above the current one
run_pending-done :
    (self : Registry) (vs : List ℕ) (state : Fields) (current : ℕ)
    → max_from 0 vs ≤ current
    → run_pending self vs state current ≡ some (state, current, [])
unfolding run_pending
run_pending-done self [] state current h = refl
run_pending-done self (v ∷ vs) state current h =
    let old : leb v current ≡ true = ground (arith, max_from-max (max 0 v) vs) in
    let below : max_from 0 vs ≤ current = omega (arith, max_from-max (max 0 v) vs) in
    rw old (run_pending-done self vs state current below)

min_from-bound : (m : ℕ) (vs : List ℕ) → min_from m vs ≤ m
min_from-bound m [] = omega arith
min_from-bound m (v ∷ vs) = omega (arith, min_from-bound (min m v) vs)

minver-le-dbver : (self : Registry) → minver self ≤ dbver self
unfolding minver dbver
minver-le-dbver [] = omega arith
minver-le-dbver ((v, fn) ∷ reg) =
    omega (arith, min_from-bound v (versions reg), max_from-max (max 0 v) (versions reg))

-- a success is a run of the loop, from a version that is not too new
pub apply_migrations-migrated :
    (self : Registry) (state : Fields) (current : ℕ) (out : Fields) (version original : ℕ)
    (infos : List MigrationInfo)
    → apply_migrations self state current ≡ migrated out version original infos
    → (done : Fields × ℕ × List MigrationInfo) × (run_pending self
          (sorted (versions self))
          state
          current
        ≡ some done)
      × (current ≤ dbver self)
      × (version ≡ done.1)
      × (original ≡ current)
      × (infos ≡ done.2)
      × (out ≡ done.0)
unfolding apply_migrations
apply_migrations-migrated self state current out version original infos h =
    elim (Bool-cases (ltb (dbver self) current)) [
      | inl new ↦ let e = rw new at h in absurd cc
      | inr not_new ↦ elim (Bool-cases (ltb current (minver self))) [
        | inl old ↦ let e = rw (not_new, old) at h in absurd cc
        | inr not_old ↦
            elim (Option-cases (run_pending self (sorted (versions self)) state current)) [
              | inl failed ↦ let e = rw (not_new, not_old, failed) at h in absurd cc
              | inr (done, ran) ↦
                  let e = rw (not_new, not_old, ran) at h in
                  (done, ran, ground arith, cc, cc, cc, cc)
            ]
      ]
    ]

-- Where the migrations are applied, the state is left at the highest registered version, or at 0
-- where none is registered, whatever version it had; and the report names that one as the original.
pub apply_migrations-version :
    (self : Registry) (state : Fields) (current : ℕ) (out : Fields) (version original : ℕ)
    (infos : List MigrationInfo)
    → apply_migrations self state current ≡ migrated out version original infos
    → (version ≡ dbver self) × (original ≡ current)
unfolding apply_migrations
apply_migrations-version self state current out version original infos h =
    let (done, e, in_range, is_version, is_original, is_infos, is_out) =
      apply_migrations-migrated self state current out version original infos h in
    let reached = run_pending-version self (sorted (versions self)) state current done e in
    (
      is_version
          ∙ reached
          ∙ max_from-sorted current (versions self)
          ∙ max_from-max current (versions self)
          ∙ omega (arith, in_range),
      is_original,
    )

-- Applied at the highest version, as after a success, the migrations do nothing: the state is
-- unchanged, and no migration runs.
pub apply_migrations-again :
    (self : Registry) (state : Fields)
    → apply_migrations self state (dbver self) ≡ migrated state (dbver self) (dbver self) []
unfolding apply_migrations dbver
apply_migrations-again self state =
    let not_new : ltb (dbver self) (dbver self) ≡ false = ground arith in
    let not_old : ltb (dbver self) (minver self) ≡ false = ground (arith, minver-le-dbver self) in
    let below : max_from 0 (sorted (versions self)) ≤ dbver self =
      omega (arith, max_from-sorted 0 (versions self)) in
    rw (
      apply_migrations,
      not_new,
      not_old,
      run_pending-done self (sorted (versions self)) state (dbver self) below,
    )
