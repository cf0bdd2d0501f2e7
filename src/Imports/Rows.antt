-- ===== src/Imports/Rows.antt =====
-- web/routers/imports/apply_ops.py: `apply_import_row`, which creates the record of an imported row or
-- merges the row into a stored one. A value that the code passes on as None is the empty text here. The
-- actor and the reason, which the repository only stores, are left out.
use Prim.Native.String.{◌++◌ as append}
use vendor_cat.Base.{
  String, Bool, true, false, ◌&&◌, Option, none, some, List, [], ◌∷◌, ◌==◌, string_eq,
  if◌then◌else◌,
}
use vendor_cat.Base.Text.{strip, normalize, is_empty, or_text}
use vendor_cat.Base.Dict.{Dict}
use vendor_cat.Imports.{Contact, Repository}
use vendor_cat.Imports.Applying.{ApplyContext, maybe_add_vendor_contact}
use vendor_cat.Imports.Searches.{raw, value}

-- The calls that the rows make beside those of `Repository`; `none` is a call that raises.
pub record RowRepository (D : Type 0) : Type 0 where
  pub calls : Repository D
  pub create_vendor_profile : Dict String String → D → Option (String × D)
  pub apply_vendor_profile_update : String → Dict String String → D → Option D
  pub create_offering : String → Dict String String → D → Option (String × D)
  pub update_offering_fields : String → String → Dict String String → D → Option D
  pub create_project : String → Dict String String → D → Option (String × D)
  -- the vendor of a project, `some none` where there is no project
  pub get_project_vendor : String → D → Option (Option String)
  pub update_project : String → String → Dict String String → D → Option D

-- The result of a row: its status, message and record, the error of the row itself, or the error of a
-- call, of which it is not said what it leaves behind.
pub data Applied (D : Type 0) : Type 0 where
  applied : String → String → Dict String String → ApplyContext × D → Applied D
  refused : String → ApplyContext × D → Applied D
  raised : Applied D

-- The fields that a row gives, in the order of the list
unfoldable pub updates_from : List String → Dict String String → Dict String String
unfolding value
updates_from [] row = []
updates_from (field ∷ fields) row =
    let rest = updates_from fields row in
    if is_empty (value field row) then rest else (field, value field row) ∷ rest

-- `_vendor_updates_from_row`
unfoldable pub vendor_updates_from_row : Dict String String → Dict String String
unfolding updates_from
vendor_updates_from_row row =
    updates_from
      ("legal_name" ∷ "display_name" ∷ "lifecycle_state" ∷ "owner_org_id" ∷ "risk_tier" ∷ []) row

-- `_offering_updates_from_row`
unfoldable pub offering_updates_from_row : Dict String String → Dict String String
unfolding updates_from
offering_updates_from_row row =
    updates_from
      ("offering_name" ∷ "offering_type" ∷ "lob" ∷ "service_type" ∷ "lifecycle_state"
        ∷ "criticality_tier" ∷ [])
      row

-- `_project_updates_from_row`
unfoldable pub project_updates_from_row : Dict String String → Dict String String
unfolding updates_from
project_updates_from_row row =
    updates_from
      ("project_name" ∷ "project_type" ∷ "status" ∷ "start_date" ∷ "target_date" ∷ "owner_principal"
        ∷ "description" ∷ [])
      row

-- The fields of a new record; a state that is not given is "draft".
unfoldable pub fields_of : List String → Dict String String → Dict String String
unfolding value
fields_of [] row = []
fields_of (field ∷ fields) row = (field, value field row) ∷ fields_of fields row

abbrev pub drafted : String → Dict String String → String × String
drafted field row = (field, or_text (value field row) "draft")

-- What a new vendor, offering or project is created with
unfoldable pub vendor_form : Dict String String → Dict String String
vendor_form row =
    drafted "lifecycle_state" row
    ∷ fields_of ("legal_name" ∷ "display_name" ∷ "owner_org_id" ∷ "risk_tier" ∷ []) row

unfoldable pub offering_form : Dict String String → Dict String String
offering_form row =
    drafted "lifecycle_state" row
    ∷ fields_of
        ("offering_name" ∷ "offering_type" ∷ "lob" ∷ "service_type" ∷ "criticality_tier" ∷ []) row

unfoldable pub project_form : Dict String String → Dict String String
project_form row =
    drafted "status" row
    ∷ fields_of
        ("project_name" ∷ "project_type" ∷ "start_date" ∷ "target_date" ∷ "owner_principal"
          ∷ "description" ∷ [])
        row

abbrev pub is_none_given : Dict String String → Bool
is_none_given [] = true
is_none_given (_ ∷ _) = false

-- The contact that `maybe_add_vendor_support_contact` passes on
unfoldable pub support_contact : Dict String String → Contact
unfolding value raw strip or_text
support_contact row = record {
  full_name = value "support_contact_name" row;
  contact_type = or_text (strip (or_text (raw "support_contact_type" row) "business")) "business";
  email = value "support_email" row;
  phone = value "support_phone" row;
}

abbrev pub vendor_message : String → String → String → String
vendor_message done vendor_id contact_id = append done (
    if is_empty contact_id
    then vendor_id
    else append vendor_id (append " (support contact: " (append contact_id ")")))

abbrev pub vendor_entity : String → Dict String String
vendor_entity vendor_id = ("entity_type", "vendor") ∷ ("vendor_id", strip vendor_id) ∷ []

abbrev pub entity : String → String → String → String → Dict String String
entity kind vendor_id id_field id =
    ("entity_type", kind) ∷ ("vendor_id", strip vendor_id) ∷ (id_field, strip id) ∷ []

-- The vendor of a stored offering, stripped
abbrev pub stripped : Option (Option String) → Option (Option String)
stripped (some (some vendor_id)) = some (some (strip vendor_id))
stripped (some none) = some none
stripped none = none

module _ {D : Type 0} where
  -- A call that is made only for updates that are there
  unfoldable pub updated : Dict String String → (D → Option D) → D → Option D
  updated [] update db = some db
  updated (_ ∷ _) update db = update db

  -- The end of a new vendor, and of a merged one
  unfoldable pub vendor_done :
      Bool → String → String → String → Option (String × (ApplyContext × D)) → Applied D
  vendor_done unchanged status done vendor_id none = raised
  vendor_done unchanged status done vendor_id (some (contact_id, s)) =
      if unchanged && is_empty contact_id
      then refused "No merge updates were provided for vendor row." s
      else applied status (vendor_message done vendor_id contact_id) (vendor_entity vendor_id) s

  -- The end of the other rows: what a call returned, or that it raised
  unfoldable pub created :
      (String → String × Dict String String) → ApplyContext → Option (String × D) → Applied D
  created result ctx none = raised
  created result ctx (some (new_id, db)) =
      applied "created" (result new_id).0 (result new_id).1 (ctx, db)

  unfoldable pub merged : String → Dict String String → ApplyContext → Option D → Applied D
  merged message target ctx none = raised
  merged message target ctx (some db) = applied "merged" message target (ctx, db)

module _ {D : Type 0} (repo : RowRepository D) where
  unfoldable pub new_vendor : Dict String String → ApplyContext × D → Applied D
  new_vendor row (ctx, db) =
      if is_empty (value "legal_name" row)
      then refused "legal_name is required for new vendor records." (ctx, db)
      else if is_empty (value "owner_org_id" row)
      then refused "owner_org_id is required for new vendor records." (ctx, db)
      else elim (repo.create_vendor_profile (vendor_form row) db) [
        | none ↦ raised
        | some (vendor_id, db') ↦
            vendor_done false "created" "Vendor created: " vendor_id
              (maybe_add_vendor_contact repo.calls vendor_id (support_contact row) (ctx, db'))
      ]

  unfoldable pub merge_vendor : String → Dict String String → ApplyContext × D → Applied D
  merge_vendor target_id row (ctx, db) =
      let updates = vendor_updates_from_row row in
      if is_empty target_id
      then refused "Target vendor_id is required for merge." (ctx, db)
      else elim (updated updates (repo.apply_vendor_profile_update target_id updates) db) [
        | none ↦ raised
        | some db' ↦
            vendor_done (is_none_given updates) "merged" "Vendor merged: " target_id
              (maybe_add_vendor_contact repo.calls target_id (support_contact row) (ctx, db'))
      ]

  unfoldable pub new_offering : String → Dict String String → ApplyContext × D → Applied D
  new_offering fallback row (ctx, db) =
      let vendor_id = or_text (value "vendor_id" row) (strip fallback) in
      let result : String → String × Dict String String =
        λ id. (append "Offering created: " id, entity "offering" vendor_id "offering_id" id) in
      if is_empty vendor_id
      then refused "vendor_id is required for new offering records." (ctx, db)
      else if is_empty (value "offering_name" row)
      then refused "offering_name is required for new offering records." (ctx, db)
      else created result ctx (repo.create_offering vendor_id (offering_form row) db)

  unfoldable pub merge_offering :
      String → String → Dict String String → ApplyContext × D → Applied D
  merge_offering target_id fallback row (ctx, db) =
      let updates = offering_updates_from_row row in
      let given = or_text (value "vendor_id" row) (strip fallback) in
      let found : Option (Option String) =
        if is_empty given
        then stripped (repo.calls.get_offering_vendor target_id db)
        else some (some given) in
      if is_empty target_id
      then refused "Target offering_id is required for merge." (ctx, db)
      else elim found [
        | none ↦ raised
        | some none ↦ refused "Target offering was not found." (ctx, db)
        | some (some vendor_id) ↦
            if is_none_given updates
            then refused "No merge updates were provided for offering row." (ctx, db)
            else merged (append "Offering merged: " target_id)
                (entity "offering" vendor_id "offering_id" target_id) ctx
                (repo.update_offering_fields vendor_id target_id updates db)
      ]

  unfoldable pub new_project : Dict String String → ApplyContext × D → Applied D
  new_project row (ctx, db) =
      let vendor_id = value "vendor_id" row in
      let result : String → String × Dict String String =
        λ id. (append "Project created: " id, entity "project" vendor_id "project_id" id) in
      if is_empty (value "project_name" row)
      then refused "project_name is required for new project records." (ctx, db)
      else created result ctx (repo.create_project vendor_id (project_form row) db)

  unfoldable pub merge_project : String → Dict String String → ApplyContext × D → Applied D
  merge_project target_id row (ctx, db) =
      let updates = project_updates_from_row row in
      if is_empty target_id
      then refused "Target project_id is required for merge." (ctx, db)
      else elim (repo.get_project_vendor target_id db) [
        | none ↦ raised
        | some none ↦ refused "Target project was not found." (ctx, db)
        | some (some stored_vendor) ↦
            let vendor_id = or_text (value "vendor_id" row) (strip stored_vendor) in
            if is_none_given updates && is_empty vendor_id
            then refused "No merge updates were provided for project row." (ctx, db)
            else merged (append "Project merged: " target_id)
                (entity "project" vendor_id "project_id" target_id) ctx
                (repo.update_project vendor_id target_id updates db)
      ]

  -- `apply_import_row`
  unfoldable pub apply_import_row :
      String → Dict String String → String → String → String → ApplyContext × D → Applied D
  apply_import_row layout_key row action target_id fallback s =
      let selected = normalize action in
      if selected == "skip"
      then applied "skipped" "Skipped by user." [] s
      else if layout_key == "vendors"
      then if selected == "new" then new_vendor row s else merge_vendor target_id row s
      else if layout_key == "offerings"
      then if selected == "new"
        then new_offering fallback row s
        else merge_offering target_id fallback row s
      else if selected == "new"
      then new_project row s
      else merge_project target_id row s
