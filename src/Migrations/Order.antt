-- ===== src/Migrations/Order.antt =====
-- Which migrations run, and in which order.
use kanta.Base.{
  ◌==◌, String, ℕ, ◌≤◌, ◌<◌, ◌≡◌, ◌≢◌, refl, ap, sym, ◌∙◌, false, some, List, [], ◌∷◌, leb,
  if◌then◌else◌, >>=-eq-some, arith, Bool-cases, inl, inr,
}
use mathlib.Core.Option.{some-injective}
use mathlib.Core.Path.{subst}
use kanta.Value.{Fields}
use kanta.Migrations.{
  put, find, register, migration_version, Registry, Migration, MigrationInfo, migrated, versions,
  insert_sorted, sorted, run_pending, info_of, apply_migrations,
}
use kanta.Migrations.Versions.{run_pending-new, run_pending-old, apply_migrations-migrated}

-- the versions above the current one
abbrev pub pending : ℕ → List ℕ → List ℕ
pending current [] = []
pending current (v ∷ vs) = let rest = pending current vs in if leb v current then rest else v ∷ rest

-- every version lies above `low`, and they ascend
abbrev pub IsAscending : ℕ → List ℕ → Type 0
IsAscending low [] = Unit
IsAscending low (v ∷ vs) = (low < v) × IsAscending v vs

pending-IsAscending :
    (current low : ℕ) (vs : List ℕ) → current ≤ low → IsAscending low vs → pending current vs ≡ vs
pending-IsAscending current low [] h up = refl
pending-IsAscending current low (v ∷ vs) h up =
    let new : leb v current ≡ false = ground (arith, up.0) in
    let above : low < v = up.0 in
    rw (new, pending-IsAscending current v vs (omega (arith, above)) up.1)

abbrev pub info_versions : List MigrationInfo → List ℕ
info_versions [] = []
info_versions (i ∷ infos) = i.version ∷ info_versions infos

-- the migrations of these versions turn one state into another: each runs on what the one before
-- it returned
pub data Ran (self : Registry) : List ℕ → Fields → Fields → Type 0 where
  no_version : {state : Fields} → Ran self [] state state
  runs :
      {v : ℕ} {vs : List ℕ} {state after out : Fields} (fn : Migration)
      → find v self ≡ some fn
      → fn.run state ≡ some after
      → Ran self vs after out
      → Ran self (v ∷ vs) state out

run_pending-pending :
    (self : Registry) (low : ℕ) (vs : List ℕ) (state : Fields) (current : ℕ)
    (out : Fields × ℕ × List MigrationInfo)
    → IsAscending low vs
    → run_pending self vs state current ≡ some out
    → (info_versions out.2 ≡ pending current vs) × Ran self (pending current vs) state out.0
unfolding info_of
run_pending-pending self low [] state current out up h =
    unfold run_pending in
    let same = some-injective (state, current, []) out h in
    (
      sym (ap (λ (r : Fields × ℕ × List MigrationInfo). info_versions r.2) same),
      subst (λ (r : Fields × ℕ × List MigrationInfo). Ran self [] state r.0) same no_version,
    )
run_pending-pending self low (v ∷ vs) state current out up h = elim (Bool-cases (leb v current)) [
  | inl old ↦ rw old (
      run_pending-pending self v vs state current out up.1
        (sym (run_pending-old self v vs state current old) ∙ h))
  | inr new ↦
      let (fn, after, rest, e, same, infos, found, ran, is_out) =
        run_pending-new self v vs state current out new h in
      let below : current ≤ v = ground arith in
      let later = run_pending-pending self v vs after v rest up.1 e in
      let all : pending current vs ≡ vs = pending-IsAscending current v vs below up.1 in
      let all_later : pending v vs ≡ vs = pending-IsAscending v v vs (omega arith) up.1 in
      let rest_ran : Ran self vs after out.0 =
        subst (λ s. Ran self vs after s) (sym is_out)
          (subst (λ ws. Ran self ws after rest.0) all_later later.1) in
      (
        rw (new, infos, all) (ap (λ ws. v ∷ ws) (later.0 ∙ all_later)),
        rw (new, all) (runs fn found ran rest_ran),
      )
]

-- a dict has each version once, and a version is positive
abbrev pub IsFresh : ℕ → List ℕ → Type 0
IsFresh v [] = Unit
IsFresh v (w ∷ ws) = (v ≢ w) × IsFresh v ws

abbrev pub AreVersions : List ℕ → Type 0
AreVersions [] = Unit
AreVersions (v ∷ vs) = (0 < v) × IsFresh v vs × AreVersions vs

insert_sorted-IsFresh :
    (v w : ℕ) (vs : List ℕ) → v ≢ w → IsFresh v vs → IsFresh v (insert_sorted w vs)
unfolding insert_sorted
insert_sorted-IsFresh v w [] h f = (h, tt)
insert_sorted-IsFresh v w (u ∷ us) h f = elim (Bool-cases (leb w u)) [
  | inl before ↦ rw before (h, f)
  | inr behind ↦ rw behind (f.0, insert_sorted-IsFresh v w us h f.1)
]

sorted-IsFresh : (v : ℕ) (vs : List ℕ) → IsFresh v vs → IsFresh v (sorted vs)
unfolding sorted
sorted-IsFresh v [] f = tt
sorted-IsFresh v (w ∷ ws) f = insert_sorted-IsFresh v w (sorted ws) f.0 (sorted-IsFresh v ws f.1)

insert_sorted-IsAscending :
    (low v : ℕ) (ws : List ℕ)
    → low < v
    → IsFresh v ws
    → IsAscending low ws
    → IsAscending low (insert_sorted v ws)
unfolding insert_sorted
insert_sorted-IsAscending low v [] h f up = (h, tt)
insert_sorted-IsAscending low v (w ∷ ws) h f up = elim (Bool-cases (leb v w)) [
  | inl before ↦ let below : v < w = ground (arith, f.0) in rw before (h, (below, up.1))
  | inr behind ↦
      let below : w < v = ground arith in
      rw behind (up.0, insert_sorted-IsAscending w v ws below f.1 up.1)
]

sorted-IsAscending : (vs : List ℕ) → AreVersions vs → IsAscending 0 (sorted vs)
unfolding sorted
sorted-IsAscending [] h = tt
sorted-IsAscending (v ∷ vs) h =
    insert_sorted-IsAscending 0 v (sorted vs) h.0 (sorted-IsFresh v vs h.1)
      (sorted-IsAscending vs h.2)

-- Let the registered versions be positive and distinct. Where the migrations are applied, those
-- that run are the ones above the version of the state, all of them, once each and in ascending
-- order; each was registered under its version, and ran on what the one before it returned, the
-- first on the given state; and the new state is what the last one returned.
pub apply_migrations-pending :
    (self : Registry) (state : Fields) (current : ℕ) (out : Fields) (version original : ℕ)
    (infos : List MigrationInfo)
    → AreVersions (versions self)
    → apply_migrations self state current ≡ migrated out version original infos
    → (info_versions infos ≡ pending current (sorted (versions self)))
      × IsAscending 0 (sorted (versions self))
      × Ran self (pending current (sorted (versions self))) state out
apply_migrations-pending self state current out version original infos are h =
    let (done, e, in_range, is_version, is_original, is_infos, is_out) =
      apply_migrations-migrated self state current out version original infos h in
    let up = sorted-IsAscending (versions self) are in
    let all = run_pending-pending self 0 (sorted (versions self)) state current done up e in
    (rw is_infos all.0, up, rw is_out all.1)

put-IsFresh :
    (w v : ℕ) (fn : Migration) (reg : Registry)
    → w ≢ v
    → IsFresh w (versions reg)
    → IsFresh w (versions (put v fn reg))
unfolding put
put-IsFresh w v fn [] h f = (h, tt)
put-IsFresh w v fn ((u, old) ∷ reg) h f = elim (Bool-cases (u == v)) [
  | inl same ↦ rw same (h, f.1)
  | inr other ↦ rw other (f.0, put-IsFresh w v fn reg h f.1)
]

put-AreVersions :
    (v : ℕ) (fn : Migration) (reg : Registry)
    → 0 < v
    → AreVersions (versions reg)
    → AreVersions (versions (put v fn reg))
unfolding put
put-AreVersions v fn [] h are = (h, tt, tt)
put-AreVersions v fn ((u, old) ∷ reg) h are = elim (Bool-cases (u == v)) [
  | inl same ↦ let e : u ≡ v = ground arith in rw same (h, rw e at (are.1), are.2)
  | inr other ↦
      let e : u ≢ v = ground arith in
      rw other (are.0, put-IsFresh u v fn reg e are.1, put-AreVersions v fn reg h are.2)
]

migration_version-positive : (name : String) (v : ℕ) → migration_version name ≡ some v → 0 < v
unfolding migration_version
migration_version-positive name v h = ground arith

-- A registry with positive and distinct versions keeps them so when a migration is registered.
pub register-AreVersions :
    (self : Registry) (fn : Migration) (out : Registry)
    → AreVersions (versions self)
    → register self fn ≡ some out
    → AreVersions (versions out)
unfolding register
register-AreVersions self fn out are h =
    let (v, e, h') = >>=-eq-some (migration_version fn.name) _ h in
    let same = some-injective (put v fn self) out h' in
    rw (← same) (put-AreVersions v fn self (migration_version-positive fn.name v e) are)
