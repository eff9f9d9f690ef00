-- ===== src/Migrations.antt =====
-- migrations.py: the registry of numbered migrations, and their application to a state. A migration
-- itself is a parameter: what it makes of the dict, or `none` where it raises. Its docstring, which
-- only labels a report, is left out.
pub mod Versions
pub mod Order
use kanta.Base.{
  ℕ, zero, suc, ◌+◌, ◌-◌, ◌*◌, ◌||◌, max, min, String, Bool, true, false, not, ◌&&◌, Option, none,
  some, List, [], ◌∷◌, ltb, leb, ◌==◌, if◌then◌else◌, ◌>>=◌, take, drop,
}
use kanta.Base.Bytes.{bytes_eq}
use kanta.Base.ParseInt.{codes, is_digit}
use kanta.Value.{Fields, obj, py_eq}
use kanta.Diff.{diff}

pub record Migration : Type 0 where
  pub name : String
  pub run : Fields → Option Fields

-- `_migrations`, a dict by version
abbrev pub Registry : Type 0
Registry = List (ℕ × Migration)

-- suffix.isdigit(), for ASCII
all_digits : List ℕ → Bool
unfolding is_digit
all_digits [] = true
all_digits (c ∷ cs) = is_digit c && all_digits cs

digits_value : ℕ → List ℕ → ℕ
digits_value n [] = n
digits_value n (c ∷ cs) = digits_value (10 * n + (c - b'0')) cs

is_nil : List ℕ → Bool
is_nil [] = true
is_nil (c ∷ cs) = false

-- `_migration_version`; `none` is the ValueError
unfoldable pub migration_version : String → Option ℕ
unfolding all_digits digits_value is_nil bytes_eq
migration_version name =
    let suffix = drop 9 (codes name) in
    if not (bytes_eq (take 9 (codes name)) (codes "migrate_v"))
    then none
    else if is_nil suffix || not (all_digits suffix)
    then none
    else if digits_value 0 suffix == 0
    then none
    else some (digits_value 0 suffix)

-- self._migrations[version] = fn
unfoldable pub put : ℕ → Migration → Registry → Registry
put version fn [] = (version, fn) ∷ []
put version fn ((v, old) ∷ reg) =
    let rest = put version fn reg in if v == version then (version, fn) ∷ reg else (v, old) ∷ rest

unfoldable pub register : Registry → Migration → Option Registry
unfolding migration_version put
register self fn = do version ← migration_version fn.name; some (put version fn self)

abbrev pub versions : Registry → List ℕ
versions [] = []
versions ((v, fn) ∷ reg) = v ∷ versions reg

unfoldable pub find : ℕ → Registry → Option Migration
find version [] = none
find version ((v, fn) ∷ reg) = let rest = find version reg in if v == version then some fn else rest

abbrev pub max_from : ℕ → List ℕ → ℕ
max_from m [] = m
max_from m (v ∷ vs) = max_from (max m v) vs

abbrev pub min_from : ℕ → List ℕ → ℕ
min_from m [] = m
min_from m (v ∷ vs) = min_from (min m v) vs

-- max(keys, default=0)
unfoldable pub dbver : Registry → ℕ
dbver self = max_from 0 (versions self)

-- min(keys, default=1) - 1; a version is positive
unfoldable pub minver : Registry → ℕ
minver [] = 0
minver ((v, fn) ∷ reg) = min_from v (versions reg) - 1

-- sorted(keys)
unfoldable pub insert_sorted : ℕ → List ℕ → List ℕ
insert_sorted v [] = v ∷ []
insert_sorted v (w ∷ ws) = let rest = insert_sorted v ws in if leb v w then v ∷ w ∷ ws else w ∷ rest

unfoldable pub sorted : List ℕ → List ℕ
unfolding insert_sorted
sorted [] = []
sorted (v ∷ vs) = insert_sorted v (sorted vs)

pub record MigrationInfo : Type 0 where
  pub name : String
  pub version : ℕ
  pub changed : Bool
  pub diff : Option Fields
  pub before : Fields

unfoldable pub info_of : Migration → ℕ → Fields → Fields → MigrationInfo
info_of fn version before after =
    let changed = not (py_eq (obj before) (obj after)) in
    record {
      name = fn.name;
      version = version;
      changed = changed;
      diff = if changed then diff before after else none;
      before = before;
    }

-- the loop of `apply`: the state, the version and the report so far; `none` is an exception of a
-- migration
unfoldable pub run_pending :
    Registry → List ℕ → Fields → ℕ → Option (Fields × ℕ × List MigrationInfo)
run_pending self [] state current = some (state, current, [])
run_pending self (version ∷ vs) state current =
    if leb version current then run_pending self vs state current else (do
      fn ← find version self
      after ← fn.run state
      rest ← run_pending self vs after version
      some (rest.0, rest.1, info_of fn version state after ∷ rest.2))

pub data MigrationOutcome : Type 0 where
  too_new too_old raised : MigrationOutcome
  migrated : Fields → ℕ → ℕ → List MigrationInfo → MigrationOutcome

-- `apply`: the new state, and the report with the version, the original version and what ran
unfoldable pub apply_migrations : Registry → Fields → ℕ → MigrationOutcome
unfolding run_pending dbver minver sorted
apply_migrations self state current =
    if ltb (dbver self) current
    then too_new
    else if ltb current (minver self)
    then too_old
    else elim (run_pending self (sorted (versions self)) state current) [
      | none ↦ raised
      | some done ↦ migrated done.0 done.1 current done.2
    ]
