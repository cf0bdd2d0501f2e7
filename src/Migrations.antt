-- ===== src/Migrations.antt =====
-- infrastructure/migrations.py: `MigrationRunner`. A file is its name without the suffix and its text,
-- a file that cannot be read has none. The database is a state with the two calls that the runner makes
-- of the repository: `schema_version`, the answer to the query for the highest recorded version, and
-- `run_script`, whether a script runs without raising, and the state after it.
pub mod Order
pub mod Progress
pub mod Tests
use vendor_cat.Base.{
  ℕ, zero, suc, ◌+◌, String, Bool, true, false, Option, none, some, List, [], ◌∷◌, ltb, leb,
  nat_beq, if◌then◌else◌,
}
use vendor_cat.Base.Patterns.{split_by, has_code}
use vendor_cat.Base.Text.{strip}
use vendor_cat.Workflow.Payload.{ℤ, pos, negsuc, int_of_text}

pub record MigrationFile : Type 0 where
  pub stem : String
  pub sql : Option String

pub record Repository (D : Type 0) : Type 0 where
  -- the value of `MAX(version_number)`, `none` where the read raises or there is no row or no value
  pub schema_version : D → Option ℤ
  pub run_script : String → D → Bool × D

-- a < b on whole numbers
unfoldable pub ltz : ℤ → ℤ → Bool
ltz (pos a) (pos b) = ltb a b
ltz (pos a) (negsuc b) = false
ltz (negsuc a) (pos b) = true
ltz (negsuc a) (negsuc b) = ltb b a

-- `_get_migration_version`, and `get_version` in `get_migration_files`
unfoldable pub get_migration_version : String → ℤ
unfolding split_by int_of_text strip
get_migration_version stem = elim (split_by (has_code 95) stem) [
  | [] ↦ pos 0
  | part ∷ parts ↦ elim parts [
    | [] ↦ pos 0
    | number ∷ more ↦ elim (int_of_text (strip number)) [ none ↦ pos 0 | some n ↦ n ]
  ]
]

abbrev pub version : MigrationFile → ℤ
version file = get_migration_version file.stem

-- `sorted(..., key=get_version)`: stable, a file goes before those of its version that came later
unfoldable pub insert_file : MigrationFile → List MigrationFile → List MigrationFile
unfolding ltz
insert_file file [] = file ∷ []
insert_file file (other ∷ files) =
    let rest = insert_file file files in
    if ltz (version other) (version file) then other ∷ rest else file ∷ other ∷ files

-- `get_migration_files`, for the files that the pattern finds
unfoldable pub get_migration_files : List MigrationFile → List MigrationFile
unfolding insert_file
get_migration_files [] = []
get_migration_files (file ∷ files) = insert_file file (get_migration_files files)

module _ {D : Type 0} (repo : Repository D) where
  -- `get_current_version`
  unfoldable pub get_current_version : D → ℤ
  get_current_version db = elim (repo.schema_version db) [ none ↦ pos 0 | some n ↦ n ]

  -- `apply_migration`: whether it returns True, and the state that the script leaves. What a script did
  -- before it raised stays.
  unfoldable pub apply_migration : MigrationFile → D → Bool × D
  apply_migration file db = elim file.sql [ none ↦ (false, db) | some sql ↦ repo.run_script sql db ]

  -- The loop of `apply_pending_migrations`: the count and the state it ends with.
  unfoldable pub apply_newer : ℤ → ℕ → List MigrationFile → D → ℕ × D
  apply_newer current count [] db = (count, db)
  apply_newer current count (file ∷ files) db = elim (ltz current (version file)) [
    | false ↦ apply_newer current count files db
    | true ↦
        let applied = apply_migration file db in
        elim applied.0 [
          | true ↦ apply_newer current (suc count) files applied.1
          | false ↦ (count, applied.1)
        ]
  ]

  -- `apply_pending_migrations`, on the files that the pattern finds
  unfoldable pub apply_pending_migrations : List MigrationFile → D → ℕ × D
  apply_pending_migrations found db =
      apply_newer (get_current_version db) 0 (get_migration_files found) db

  -- `verify_schema_version`: false where it raises
  unfoldable pub verify_schema_version : ℤ → D → Bool
  verify_schema_version expected db = if ltz (get_current_version db) expected then false else true
