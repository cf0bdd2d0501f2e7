-- ===== src/Imports/Refused.antt =====
-- `apply_import_row` and its errors: what a refused row leaves behind.
use vendor_cat.Base.{
  String, Bool, true, false, ◌&&◌, Option, none, some, [], ◌∷◌, ◌≡◌, refl, sym, ◌∙◌, ◌==◌,
  string_eq, arith, inl, inr, Bool-cases, Option-cases, if◌then◌else◌,
}
use vendor_cat.Base.Text.{strip, normalize, is_empty, or_text}
use vendor_cat.Base.Dict.{Dict, some_inj}
use vendor_cat.Imports.{Contact, Repository, contact_keys, is_known, resolve_contact}
use vendor_cat.Imports.Applying.{
  ApplyContext, maybe_add_vendor_contact, load_vendor_contact_keys, added,
}
use vendor_cat.Imports.Searches.{value}
use vendor_cat.Imports.Rows.{
  RowRepository, Applied, applied, refused, raised, apply_import_row, new_vendor, merge_vendor,
  new_offering, merge_offering, new_project, merge_project, vendor_done, created, merged, updated,
  vendor_form, offering_form, project_form, is_none_given, vendor_updates_from_row, support_contact,
  stripped, offering_updates_from_row, project_updates_from_row,
}

module _ {D : Type 0} where
  -- A row that is refused leaves the repository as it was.
  abbrev pub KeepsRefused : D → Applied D → Type 0
  KeepsRefused db (applied status message target s) = Unit
  KeepsRefused db (refused message s) = s.1 ≡ db
  KeepsRefused db raised = Unit

  -- The contacts that a repository adds get ids that are not empty.
  abbrev pub Naming : Repository D → Type 0
  Naming repo =
      (key : String) (contact : Contact) (db db' : D) (id : String)
      → repo.add_vendor_contact key contact db ≡ some (id, db')
      → is_empty (strip id) ≡ false

  created-KeepsRefused :
      (result : String → String × Dict String String) (ctx : ApplyContext) (db : D)
      (r : Option (String × D))
      → KeepsRefused db (created result ctx r)
  unfolding created
  created-KeepsRefused result ctx db none = tt
  created-KeepsRefused result ctx db (some (id, db')) = tt

  merged-KeepsRefused :
      (message : String) (target : Dict String String) (ctx : ApplyContext) (db : D) (r : Option D)
      → KeepsRefused db (merged message target ctx r)
  unfolding merged
  merged-KeepsRefused message target ctx db none = tt
  merged-KeepsRefused message target ctx db (some db') = tt

  -- Nothing is added where no id is answered.
  abbrev Idle : D → Option (String × (ApplyContext × D)) → Type 0
  Idle db none = Unit
  Idle db (some (id, s)) = is_empty id ≡ true → s.1 ≡ db

  added-Idle :
      (repo : Repository D) (key : String) (contact : Contact) (ctx : ApplyContext) (db : D)
      (r : Option (String × D))
      → Naming repo
      → repo.add_vendor_contact key contact db ≡ r
      → Idle db (added repo ctx r)
  added-Idle repo key contact ctx db none naming h = tt
  added-Idle repo key contact ctx db (some (id, db')) naming h =
      λ blank. absurd (ground (arith, blank, naming key contact db db' id h))

  maybe_add_vendor_contact-Idle :
      (repo : Repository D) (vendor_id : String) (given : Contact) (ctx : ApplyContext) (db : D)
      → Naming repo
      → Idle db (maybe_add_vendor_contact repo vendor_id given (ctx, db))
  unfolding maybe_add_vendor_contact
  maybe_add_vendor_contact-Idle repo vendor_id given ctx db naming =
      elim (Bool-cases (is_empty (strip vendor_id))) [
        | inl unnamed ↦ rw unnamed (λ blank. refl)
        | inr named ↦ elim (Option-cases (resolve_contact "Support Contact" given)) [
          | inl nothing ↦ rw (named, nothing) (λ blank. refl)
          | inr (contact, given_as) ↦
              let key = strip vendor_id in
              let keys = load_vendor_contact_keys repo key (ctx, db) in
              elim (Bool-cases (is_known keys (contact_keys contact))) [
                | inl known ↦ rw (named, given_as, known) (λ blank. refl)
                | inr unknown ↦
                    rw (named, given_as, unknown)
                      (added-Idle repo key contact _ db (repo.add_vendor_contact key contact db)
                        naming refl)
              ]
        ]
      ]

  vendor_done-KeepsRefused :
      (unchanged : Bool) (status done vendor_id : String) (db db' : D)
      (r : Option (String × (ApplyContext × D)))
      → Idle db' r
      → (unchanged ≡ true → db' ≡ db)
      → KeepsRefused db (vendor_done unchanged status done vendor_id r)
  unfolding vendor_done
  vendor_done-KeepsRefused unchanged status done vendor_id db db' none idle same = tt
  vendor_done-KeepsRefused false status done vendor_id db db' (some (id, s)) idle same = tt
  vendor_done-KeepsRefused true status done vendor_id db db' (some (id, s)) idle same =
      elim (Bool-cases (is_empty id)) [
        | inl blank ↦ rw blank (idle blank ∙ same refl)
        | inr named ↦ rw named tt
      ]

  updated_same :
      (updates : Dict String String) (update : D → Option D) (db db' : D)
      → updated updates update db ≡ some db'
      → is_none_given updates ≡ true
      → db' ≡ db
  unfolding updated
  updated_same [] update db db' h none_given = sym (some_inj db db' h)
  updated_same (x ∷ updates) update db db' h none_given = absurd (cc)

module _ {D : Type 0} (repo : RowRepository D) where
  new_vendor-KeepsRefused :
      (row : Dict String String) (ctx : ApplyContext) (db : D)
      → Naming repo.calls
      → KeepsRefused db (new_vendor repo row (ctx, db))
  unfolding new_vendor
  new_vendor-KeepsRefused row ctx db naming =
      elim (Bool-cases (is_empty (value "legal_name" row))) [
        | inl blank ↦ rw blank refl
        | inr named ↦ elim (Bool-cases (is_empty (value "owner_org_id" row))) [
          | inl blank ↦ rw (named, blank) refl
          | inr owned ↦ elim (Option-cases (repo.create_vendor_profile (vendor_form row) db)) [
            | inl fails ↦ rw (named, owned, fails) tt
            | inr ((vendor_id, db'), done) ↦
                rw (named, owned, done)
                  (vendor_done-KeepsRefused false "created" "Vendor created: " vendor_id db db'
                    (maybe_add_vendor_contact repo.calls vendor_id (support_contact row) (ctx, db'))
                    (maybe_add_vendor_contact-Idle repo.calls vendor_id (support_contact row) ctx
                      db' naming)
                    (λ h. absurd (cc)))
          ]
        ]
      ]

  merge_vendor-KeepsRefused :
      (target_id : String) (row : Dict String String) (ctx : ApplyContext) (db : D)
      → Naming repo.calls
      → KeepsRefused db (merge_vendor repo target_id row (ctx, db))
  unfolding merge_vendor
  merge_vendor-KeepsRefused target_id row ctx db naming =
      let updates = vendor_updates_from_row row in
      elim (Bool-cases (is_empty target_id)) [
        | inl blank ↦ rw blank refl
        | inr named ↦
            elim (Option-cases
              (updated updates (repo.apply_vendor_profile_update target_id updates) db)) [
                | inl fails ↦ rw (named, fails) tt
                | inr (db', done) ↦
                    rw (named, done)
                      (vendor_done-KeepsRefused (is_none_given updates) "merged" "Vendor merged: "
                        target_id db db'
                        (maybe_add_vendor_contact repo.calls target_id (support_contact row)
                          (ctx, db'))
                        (maybe_add_vendor_contact-Idle repo.calls target_id (support_contact row)
                          ctx db' naming)
                        (updated_same updates _ db db' done))
              ]
      ]

  new_offering-KeepsRefused :
      (fallback : String) (row : Dict String String) (ctx : ApplyContext) (db : D)
      → KeepsRefused db (new_offering repo fallback row (ctx, db))
  unfolding new_offering
  new_offering-KeepsRefused fallback row ctx db =
      let vendor_id = or_text (value "vendor_id" row) (strip fallback) in
      elim (Bool-cases (is_empty vendor_id)) [
        | inl blank ↦ rw blank refl
        | inr owned ↦ elim (Bool-cases (is_empty (value "offering_name" row))) [
          | inl blank ↦ rw (owned, blank) refl
          | inr named ↦
              rw (owned, named)
                (created-KeepsRefused _ ctx db
                  (repo.create_offering vendor_id (offering_form row) db))
        ]
      ]

  merge_offering-KeepsRefused :
      (target_id fallback : String) (row : Dict String String) (ctx : ApplyContext) (db : D)
      → KeepsRefused db (merge_offering repo target_id fallback row (ctx, db))
  unfolding merge_offering
  merge_offering-KeepsRefused target_id fallback row ctx db =
      let given = or_text (value "vendor_id" row) (strip fallback) in
      let found : Option (Option String) =
        if is_empty given
        then stripped (repo.calls.get_offering_vendor target_id db)
        else some (some given) in
      elim (Bool-cases (is_empty target_id)) [
        | inl blank ↦ rw blank refl
        | inr named ↦ elim (Option-cases found) [
          | inl fails ↦ rw (named, fails) tt
          | inr (none, missing) ↦ rw (named, missing) refl
          | inr (some vendor_id, there) ↦
              elim (Bool-cases (is_none_given (offering_updates_from_row row))) [
                | inl unchanged ↦ rw (named, there, unchanged) refl
                | inr changed ↦ rw (named, there, changed) (merged-KeepsRefused _ _ ctx db _)
              ]
        ]
      ]

  new_project-KeepsRefused :
      (row : Dict String String) (ctx : ApplyContext) (db : D)
      → KeepsRefused db (new_project repo row (ctx, db))
  unfolding new_project
  new_project-KeepsRefused row ctx db = elim (Bool-cases (is_empty (value "project_name" row))) [
    | inl blank ↦ rw blank refl
    | inr named ↦ rw named (
        created-KeepsRefused _ ctx db
          (repo.create_project (value "vendor_id" row) (project_form row) db))
  ]

  merge_project-KeepsRefused :
      (target_id : String) (row : Dict String String) (ctx : ApplyContext) (db : D)
      → KeepsRefused db (merge_project repo target_id row (ctx, db))
  unfolding merge_project
  merge_project-KeepsRefused target_id row ctx db = elim (Bool-cases (is_empty target_id)) [
    | inl blank ↦ rw blank refl
    | inr named ↦ elim (Option-cases (repo.get_project_vendor target_id db)) [
      | inl fails ↦ rw (named, fails) tt
      | inr (none, missing) ↦ rw (named, missing) refl
      | inr (some stored_vendor, there) ↦
          let vendor_id = or_text (value "vendor_id" row) (strip stored_vendor) in
          elim (Bool-cases (is_none_given (project_updates_from_row row) && is_empty vendor_id)) [
            | inl unchanged ↦ rw (named, there, unchanged) refl
            | inr changed ↦ rw (named, there, changed) (merged-KeepsRefused _ _ ctx db _)
          ]
    ]
  ]

  -- A row that is refused with an error of its own, before or after some of its calls, leaves the
  -- repository as it was, where the contacts that the repository adds get ids that are not empty.
  pub apply_import_row-KeepsRefused :
      (layout_key : String) (row : Dict String String) (action target_id fallback : String)
      (ctx : ApplyContext) (db : D)
      → Naming repo.calls
      → KeepsRefused db (apply_import_row repo layout_key row action target_id fallback (ctx, db))
  unfolding apply_import_row
  apply_import_row-KeepsRefused layout_key row action target_id fallback ctx db naming =
      let selected = normalize action in
      elim (Bool-cases (selected == "skip")) [
        | inl skipped ↦ rw skipped tt
        | inr kept ↦ elim (Bool-cases (layout_key == "vendors")) [
          | inl vendors ↦ elim (Bool-cases (selected == "new")) [
            | inl news ↦ rw (kept, vendors, news) (new_vendor-KeepsRefused row ctx db naming)
            | inr merge ↦
                rw (kept, vendors, merge) (merge_vendor-KeepsRefused target_id row ctx db naming)
          ]
          | inr others ↦ elim (Bool-cases (layout_key == "offerings")) [
            | inl offerings ↦ elim (Bool-cases (selected == "new")) [
              | inl news ↦
                  rw (kept, others, offerings, news) (new_offering-KeepsRefused fallback row ctx db)
              | inr merge ↦
                  rw (kept, others, offerings, merge)
                    (merge_offering-KeepsRefused target_id fallback row ctx db)
            ]
            | inr projects ↦ elim (Bool-cases (selected == "new")) [
              | inl news ↦ rw (kept, others, projects, news) (new_project-KeepsRefused row ctx db)
              | inr merge ↦
                  rw (kept, others, projects, merge)
                    (merge_project-KeepsRefused target_id row ctx db)
            ]
          ]
        ]
      ]
