-- ===== src/Examples/Adoption.antt =====
-- A database that `drizzle-kit push` made, up to the third migration.
use identity_platform.Prelude.{
  true, false, none, some, List, [], ◌∷◌, ◌≡◌, refl, ◌↔◌, ◌⊎◌, str_eq, if◌then◌else◌,
}
use identity_platform.Adoption.{
  MigrationRow, Database, MigrationsFolder, assert_safe_to_migrate, baseline, database_is_populated,
  load_migration_rows, probe_exists, returned, rows_of,
}
use identity_platform.Adoption.Applied.{baseline-assert_safe_to_migrate}
use identity_platform.Adoption.Guard.{IsAdopted, assert_safe_to_migrate_iff}

abbrev folder : MigrationsFolder
folder = record {
  entries = some (
      record { tag = "0000_known_maria_hill"; when = 100 }
      ∷ record { tag = "0001_clear_fixer"; when = 200 }
      ∷ record { tag = "0002_stormy_steel_serpent"; when = 300 }
      ∷ record { tag = "0003_stormy_adam_destine"; when = 400 }
      ∷ record { tag = "0004_odd_cargill"; when = 500 }
      ∷ record { tag = "0005_tearful_nightcrawler"; when = 600 }
      ∷ record { tag = "0006_amusing_punisher"; when = 700 }
      ∷ record { tag = "0007_strong_multiple_man"; when = 800 }
      ∷ record { tag = "0008_naive_payback"; when = 900 }
      ∷ []);
  sql_hash = λ tag. if str_eq tag "0001_clear_fixer" then some 8 else some 7;
}

abbrev pushed : Database
pushed = record {
  tables = "users" ∷ "clients" ∷ "account_tokens" ∷ [];
  columns = ("clients", "name") ∷ ("clients", "is_public") ∷ [];
  journal = none;
}

abbrev adopted : Database
adopted = record pushed {
  journal = some (
      record { hash = 7; created_at = some 100 }
      ∷ record { hash = 8; created_at = some 200 }
      ∷ record { hash = 7; created_at = some 300 }
      ∷ []);
}

abbrev rows : List MigrationRow
rows =
    record { hash = 7; when = 100 }
    ∷ record { hash = 8; when = 200 }
    ∷ record { hash = 7; when = 300 }
    ∷ []

baseline-assert_safe_to_migrate_example :
    (baseline folder false pushed ≡ returned pushed)
    × (baseline folder true pushed ≡ returned adopted)
    × (assert_safe_to_migrate folder adopted ≡ returned tt)
unfolding database_is_populated probe_exists load_migration_rows rows_of
baseline-assert_safe_to_migrate_example =
    baseline-assert_safe_to_migrate folder pushed 3 rows refl refl refl refl
      (refl, (refl, (refl, (refl, (refl, (refl, (refl, (refl, (refl, tt))))))))) refl

assert_safe_to_migrate_iff_example : (assert_safe_to_migrate folder adopted ≡ returned tt) ↔ (
    ((adopted.journal ≡ none) × (database_is_populated adopted ≡ false)) ⊎ IsAdopted folder adopted)
assert_safe_to_migrate_iff_example = assert_safe_to_migrate_iff folder adopted
