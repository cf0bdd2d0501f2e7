-- ===== src/Migrations/Tests.antt =====
-- Migrations at concrete inputs. The state holds the recorded version and the scripts that ran.
use vendor_cat.Base.{Bool, String, true, false, none, some, List, [], ◌∷◌, ◌≡◌, refl, string_eq}
use vendor_cat.Workflow.Payload.{ℤ, pos, int_of_text}
use vendor_cat.Migrations.{
  MigrationFile, Repository, get_migration_version, get_migration_files, get_current_version,
  apply_migration, apply_newer, apply_pending_migrations, ltz, verify_schema_version,
}
use vendor_cat.Migrations.Progress.{pending, Ran, apply_pending_migrations-Ran}

version_test :
    (get_migration_version "migration_007_add_flag" ≡ pos 7)
    × (get_migration_version "migration_x_1" ≡ pos 0)
    × (get_migration_version "readme" ≡ pos 0)
unfolding get_migration_version
version_test = (refl, refl, refl)

abbrev seven : MigrationFile
seven = record { stem = "migration_7_a"; sql = some "7" }

abbrev eight : MigrationFile
eight = record { stem = "migration_8_b"; sql = some "x" }

abbrev nine : MigrationFile
nine = record { stem = "migration_9_c"; sql = some "9" }

abbrev found : List MigrationFile
found = nine ∷ seven ∷ eight ∷ []

-- A script is the text of the version it records; any other text raises and spoils the state.
abbrev run_text : String → ℤ → Bool × ℤ
run_text sql db = elim (int_of_text sql) [ none ↦ (false, pos 0) | some n ↦ (true, n) ]

abbrev repo : Repository ℤ
repo = record { schema_version = some; run_script = run_text }

order_test : get_migration_files found ≡ seven ∷ eight ∷ nine ∷ []
unfolding get_migration_files get_migration_version
order_test = refl

-- The second script raises, so the third does not run, and what the second one did stays.
run_test :
    (apply_pending_migrations repo found (pos 6) ≡ (1, pos 0))
    × (apply_pending_migrations repo found (pos 8) ≡ (1, pos 9))
unfolding apply_pending_migrations get_current_version get_migration_files apply_newer
    apply_migration get_migration_version
run_test = (refl, refl)

verify_test :
    (verify_schema_version repo (pos 7) (pos 6) ≡ false)
    × (verify_schema_version repo (pos 7) (pos 8) ≡ true)
unfolding verify_schema_version get_current_version ltz
verify_test = (refl, refl)

apply_pending_migrations-Ran_example :
    Ran repo
      (pending (get_current_version repo (pos 6)) (get_migration_files found))
      (pos 6)
      (apply_pending_migrations repo found (pos 6))
apply_pending_migrations-Ran_example = apply_pending_migrations-Ran repo found (pos 6)
