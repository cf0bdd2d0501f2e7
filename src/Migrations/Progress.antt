-- ===== src/Migrations/Progress.antt =====
-- What a run of the migrations executes and where it stops.
use vendor_cat.Base.{
  ℕ, suc, ◌+◌, true, false, List, [], ◌∷◌, ◌++◌, ◌≡◌, refl, sym, subst, ◌∙◌, ap, keep, length,
  arith, inl, inr, Bool-cases,
}
use vendor_cat.Workflow.Payload.{ℤ}
use vendor_cat.Migrations.{
  MigrationFile, Repository, version, ltz, get_migration_files, get_current_version,
  apply_migration, apply_newer, apply_pending_migrations,
}

-- The files that are newer than a version, in their order.
abbrev pub pending : ℤ → List MigrationFile → List MigrationFile
pending current files = keep (λ file. ltz current (version file)) files

module _ {D : Type 0} (repo : Repository D) where
  -- The scripts of these files succeed one after the other, from the first state to the second.
  abbrev pub Succeed : List MigrationFile → D → D → Type 0
  Succeed [] db db' = db ≡ db'
  Succeed (file ∷ files) db db' =
      ((apply_migration repo file db).0 ≡ true) × Succeed files (apply_migration repo file db).1 db'

  -- Nothing is left to run, or the first of the files left fails and leaves the second state.
  abbrev pub Stopped : List MigrationFile → D → D → Type 0
  Stopped [] db db' = db ≡ db'
  Stopped (file ∷ files) db db' =
      ((apply_migration repo file db).0 ≡ false) × ((apply_migration repo file db).1 ≡ db')

  -- A run over the files `files` that ends with a count and a state
  abbrev pub Ran : List MigrationFile → D → ℕ × D → Type 0
  Ran files db r =
      (ran : List MigrationFile) × (rest : List MigrationFile) × (mid : D) × (files ≡ ran ++ rest)
      × Succeed ran db mid
      × Stopped rest mid r.1
      × (r.0 ≡ length ran)

  apply_newer-Ran :
      (current : ℤ) (count : ℕ) (files : List MigrationFile) (db : D)
      → (r : ℕ × D) × (apply_newer repo current count files db ≡ (count + r.0, r.1))
        × Ran (pending current files) db r
  unfolding apply_newer keep
  apply_newer-Ran current count [] db =
      ((0, db), ground arith, ([], [], db, refl, refl, refl, refl))
  apply_newer-Ran current count (file ∷ files) db = elim (Bool-cases (ltz current (version file))) [
    | inr old ↦ rw (old, apply_newer) (apply_newer-Ran current count files db)
    | inl new ↦
        let applied = apply_migration repo file db in
        elim (Bool-cases applied.0) [
          | inr fails ↦
              rw (new, apply_newer)
                (
                  (0, applied.1),
                  rw fails (ground arith),
                  ([], file ∷ pending current files, db, refl, refl, (fails, refl), refl),
                )
          | inl works ↦
              let (r, ends, (ran, rest, mid, split, done, stopped, counted)) =
                apply_newer-Ran current (suc count) files applied.1 in
              rw (new, apply_newer)
                (
                  (suc r.0, r.1),
                  rw works (ends ∙ ground arith),
                  (
                    file ∷ ran,
                    rest,
                    mid,
                    ap (λ fs. file ∷ fs) split,
                    (works, done),
                    stopped,
                    ap suc counted,
                  ),
                )
        ]
  ]

  -- A run splits the files newer than the recorded version, in the order of get_migration_files, in two:
  -- the scripts of the first ones succeed one after the other, and the count is their number; then
  -- either none is left, or the next script fails, and the run ends with what that script left behind.
  pub apply_pending_migrations-Ran :
      (found : List MigrationFile) (db : D)
      → Ran
          (pending (get_current_version repo db) (get_migration_files found))
          db
          (apply_pending_migrations repo found db)
  unfolding apply_pending_migrations
  apply_pending_migrations-Ran found db =
      let (r, ends, h) =
        apply_newer-Ran (get_current_version repo db) 0 (get_migration_files found) db in
      subst (Ran (pending (get_current_version repo db) (get_migration_files found)) db)
        (sym (ends ∙ ground arith)) h
