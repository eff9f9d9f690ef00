-- ===== src/Examples/Schema.antt =====
-- The theorems on migrations at a registry of three, and their registration.
use kanta.Base.{arith, ℕ, ◌≡◌, refl, some, List, [], ◌∷◌, String}
use kanta.Value.{Fields, null, end, field}
use kanta.Migrations.{
  Migration, Registry, MigrationInfo, migrated, versions, dbver, sorted, find, info_of,
  apply_migrations,
}
use kanta.Migrations.Versions.{apply_migrations-version}
use kanta.Migrations.Order.{
  info_versions, pending, IsAscending, AreVersions, Ran, apply_migrations-pending,
}

-- a migration that adds one key
abbrev adding : String → String → Migration
adding name key = record { name = name; run = λ state. some (field key null state) }

abbrev registry : Registry
registry =
    (5, adding "migrate_v5" "e") ∷ (2, adding "migrate_v2" "b") ∷ (3, adding "migrate_v3" "c") ∷ []

registry-AreVersions : AreVersions (versions registry)
registry-AreVersions = (
  omega arith,
  (λ e. absurd (omega arith), (λ e. absurd (omega arith), tt)),
  (omega arith, (λ e. absurd (omega arith), tt), (omega arith, tt, tt)),
)

abbrev migrated_state : Fields
migrated_state = field "e" null (field "c" null end)

abbrev ran : List MigrationInfo
ran =
    info_of (adding "migrate_v3" "c") 3 end (field "c" null end)
    ∷ info_of (adding "migrate_v5" "e") 5 (field "c" null end) migrated_state
    ∷ []

from_two : apply_migrations registry end 2 ≡ migrated migrated_state 5 2 ran
unfolding apply_migrations find
from_two = refl

apply_migrations-version_example : (5 ≡ dbver registry) × (◌≡◌ {A = ℕ} 2 2)
apply_migrations-version_example =
    apply_migrations-version registry end 2 migrated_state 5 2 ran from_two

apply_migrations-pending_example :
    (info_versions ran ≡ pending 2 (sorted (versions registry)))
    × IsAscending 0 (sorted (versions registry))
    × Ran registry (pending 2 (sorted (versions registry))) end migrated_state
apply_migrations-pending_example =
    apply_migrations-pending registry end 2 migrated_state 5 2 ran registry-AreVersions from_two
