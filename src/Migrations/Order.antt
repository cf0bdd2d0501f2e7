-- ===== src/Migrations/Order.antt =====
-- The order in which migration files are taken: by version, and files of one version as they were
-- found.
use vendor_cat.Base.{
  Bool, true, false, not, ◌&&◌, List, [], ◌∷◌, ◌≡◌, refl, keep, All, arith, inl, inr, Bool-cases,
  &&-true, not-true,
}
use vendor_cat.Workflow.Payload.{ℤ, pos, negsuc}
use vendor_cat.Migrations.{MigrationFile, version, ltz, insert_file, get_migration_files}

pub ltz_irrefl : (a : ℤ) → ltz a a ≡ false
unfolding ltz
ltz_irrefl (pos a) = ground arith
ltz_irrefl (negsuc a) = ground arith

pub ltz_asym : (a b : ℤ) → ltz a b ≡ true → ltz b a ≡ false
unfolding ltz
ltz_asym (pos a) (pos b) h = ground arith
ltz_asym (pos a) (negsuc b) h = ground arith
ltz_asym (negsuc a) (pos b) h = ground arith
ltz_asym (negsuc a) (negsuc b) h = ground arith

-- From c ≤ b and a ≤ b: what is not below stays so.
pub ltz_trans_le : (a b c : ℤ) → ltz b a ≡ false → ltz c b ≡ false → ltz c a ≡ false
unfolding ltz
ltz_trans_le (pos a) (pos b) (pos c) h k = ground arith
ltz_trans_le (pos a) (pos b) (negsuc c) h k = ground arith
ltz_trans_le (pos a) (negsuc b) (pos c) h k = ground arith
ltz_trans_le (pos a) (negsuc b) (negsuc c) h k = ground arith
ltz_trans_le (negsuc a) (pos b) (pos c) h k = ground arith
ltz_trans_le (negsuc a) (pos b) (negsuc c) h k = ground arith
ltz_trans_le (negsuc a) (negsuc b) (pos c) h k = ground arith
ltz_trans_le (negsuc a) (negsuc b) (negsuc c) h k = ground arith

-- From a < b and b ≤ c.
pub ltz_trans : (a b c : ℤ) → ltz a b ≡ true → ltz c b ≡ false → ltz a c ≡ true
ltz_trans a b c h k = elim (Bool-cases (ltz a c)) [
  | inl below ↦ below
  | inr above ↦ let q = ltz_trans_le b c a k above in absurd (cc)
]

-- From a ≤ b and b < c.
pub ltz_le_trans : (a b c : ℤ) → ltz b a ≡ false → ltz b c ≡ true → ltz a c ≡ true
ltz_le_trans a b c h k = elim (Bool-cases (ltz a c)) [
  | inl below ↦ below
  | inr above ↦ let q = ltz_trans_le c a b above h in absurd (cc)
]

abbrev pub NotBelow : MigrationFile → MigrationFile → Type 0
NotBelow file other = ltz (version other) (version file) ≡ false

-- No file has a lower version than one before it.
abbrev pub Ascending : List MigrationFile → Type 0
Ascending [] = Unit
Ascending (file ∷ files) = All (NotBelow file) files × Ascending files

-- The files of one version, in the order of the list.
abbrev pub has_version : ℤ → MigrationFile → Bool
has_version v file = not (ltz (version file) v) && not (ltz v (version file))

insert_file-All :
    (P : MigrationFile → Type 0) (file : MigrationFile) (files : List MigrationFile)
    → P file
    → All P files
    → All P (insert_file file files)
unfolding insert_file
insert_file-All P file [] p h = (p, tt)
insert_file-All P file (other ∷ files) p (q, h) =
    elim (Bool-cases (ltz (version other) (version file))) [
      | inl later ↦ rw later (q, insert_file-All P file files p h)
      | inr here ↦ rw here (p, (q, h))
    ]

NotBelow-trans :
    (file other : MigrationFile) (files : List MigrationFile)
    → NotBelow file other
    → All (NotBelow other) files
    → All (NotBelow file) files
NotBelow-trans file other [] le h = tt
NotBelow-trans file other (next ∷ files) le (q, h) = (
  ltz_trans_le (version file) (version other) (version next) le q,
  NotBelow-trans file other files le h,
)

insert_file-Ascending :
    (file : MigrationFile) (files : List MigrationFile)
    → Ascending files
    → Ascending (insert_file file files)
unfolding insert_file
insert_file-Ascending file [] h = (tt, tt)
insert_file-Ascending file (other ∷ files) (least, h) =
    elim (Bool-cases (ltz (version other) (version file))) [
      | inl later ↦ rw later (
        insert_file-All (NotBelow other) file files (ltz_asym (version other) (version file) later)
            least,
        insert_file-Ascending file files h,
      )
      | inr here ↦ rw here ((here, NotBelow-trans file other files here least), (least, h))
    ]

-- Two files of one version are not out of order.
has_version-false :
    (v : ℤ) (file other : MigrationFile)
    → ltz (version other) (version file) ≡ true
    → has_version v other ≡ true
    → has_version v file ≡ false
has_version-false v file other later h =
    let (le, ge) = &&-true (not (ltz (version other) v)) (not (ltz v (version other))) h in
    let q =
      ltz_le_trans v (version other) (version file) (not-true (ltz (version other) v) le) later in
    ground (arith, q)

keep-insert_file :
    (v : ℤ) (file : MigrationFile) (files : List MigrationFile)
    → keep (has_version v) (insert_file file files) ≡ keep (has_version v) (file ∷ files)
unfolding insert_file keep
keep-insert_file v file [] = refl
keep-insert_file v file (other ∷ files) =
    ground (arith, keep-insert_file v file files, has_version-false v file other)

-- The files are taken in ascending order of their versions, and those of one version as they were
-- found: sorting drops no file, adds none, and is stable.
pub get_migration_files_order :
    (found : List MigrationFile)
    → Ascending (get_migration_files found)
      × ((v : ℤ) → keep (has_version v) (get_migration_files found) ≡ keep (has_version v) found)
unfolding get_migration_files keep
get_migration_files_order [] = (tt, λ v. refl)
get_migration_files_order (file ∷ files) =
    let (ascending, stable) = get_migration_files_order files in
    (
      insert_file-Ascending file (get_migration_files files) ascending,
      λ v. ground (arith, keep-insert_file v file (get_migration_files files), stable v),
    )
