-- ===== src/Imports/Suggestions.antt =====
-- web/routers/imports/matching.py: the record that an imported row is likely to be, suggested with notes.
use Prim.Native.String.{◌++◌ as append}
use vendor_cat.Base.{
  String, Bool, true, false, not, ◌||◌, Option, none, some, List, [], ◌∷◌, ◌++◌, keep, length, ltb,
  ◌==◌, string_eq, if◌then◌else◌,
}
use vendor_cat.Base.Text.{strip, normalize, lower, is_empty, or_text}
use vendor_cat.Base.Dict.{Dict}
use vendor_cat.Imports.Matching.{match_vendor_by_contact}
use vendor_cat.Imports.Searches.{
  VendorRow, OfferingRow, ProjectRow, Answers, label_for_vendor_row, label_for_offering_row,
  label_for_project_row, raw, value, vendor_profile, offering_by_id, project_by_id, search_vendors,
  search_offerings, search_projects,
}

-- A suggestion: the target, its vendor and its label, and the notes.
pub record Suggestion : Type 0 where
  pub target_id : String
  pub target_vendor_id : String
  pub label : String
  pub notes : List String

-- The one exact match, or else the one candidate, which is noted as near.
unfoldable pub pick : {R : Type 0} → List R → List R → Option (R × Bool)
pick (row ∷ []) candidates = some (row, true)
pick _ (row ∷ []) = some (row, false)
pick _ _ = none

abbrev pub near : Bool → String → List String
near true note = []
near false note = note ∷ []

abbrev pub names_vendor : String → VendorRow → Bool
names_vendor lowered row =
    normalize row.vendor_id == lowered
    || normalize row.display_name == lowered
    || normalize row.legal_name == lowered

abbrev pub names_offering : String → OfferingRow → Bool
names_offering lowered row =
    normalize row.offering_id == lowered || normalize row.offering_name == lowered

abbrev pub names_project : String → ProjectRow → Bool
names_project lowered row =
    normalize row.project_id == lowered || normalize row.project_name == lowered

abbrev pub not_found : String → String → List String
not_found kind given =
    if is_empty given then [] else append kind (append " '" (append given "' was not found.")) ∷ []

abbrev pub noted : String → List String
noted note = if is_empty note then [] else note ∷ []

-- The email and the number that a row gives for its vendor
abbrev pub row_email : Dict String String → String
row_email row = strip (or_text (raw "support_email" row) (raw "vendor_contact_email" row))

abbrev pub row_phone : Dict String String → String
row_phone row = strip (or_text (raw "support_phone" row) (raw "vendor_support_phone" row))

-- The last part of `_suggest_vendor_match`: by the contact
unfoldable pub suggest_vendor_by_contact : Answers → Dict String String → List String → Suggestion
suggest_vendor_by_contact a row notes =
    let (vendor_id, note) = match_vendor_by_contact a.maps (row_email row) (row_phone row) in
    let label : String = elim (vendor_profile a vendor_id) [
      | none ↦ strip vendor_id
      | some profile ↦ label_for_vendor_row profile
    ] in
    record {
      target_id = vendor_id;
      target_vendor_id = "";
      label = if is_empty vendor_id then "" else label;
      notes = notes ++ noted note;
    }

-- `_suggest_vendor_match`
unfoldable pub suggest_vendor_match : Answers → Dict String String → Suggestion
suggest_vendor_match a row =
    let explicit = value "vendor_id" row in
    let query =
      strip (
        or_text (raw "legal_name" row)
          (or_text (raw "display_name" row) (raw "vendor_name" row))) in
    let candidates = search_vendors a query 10 in
    let notes = not_found "vendor_id" explicit in
    elim (vendor_profile a explicit) [
      | some existing ↦ record {
        target_id = explicit;
        target_vendor_id = "";
        label = label_for_vendor_row existing;
        notes = [];
      }
      | none ↦ elim (pick (keep (names_vendor (lower query)) candidates) candidates) [
        | some (found, exact) ↦ record {
          target_id = strip found.vendor_id;
          target_vendor_id = "";
          label = label_for_vendor_row found;
          notes = notes ++ near exact "Single near-match found by name.";
        }
        | none ↦ suggest_vendor_by_contact a row notes
      ]
    ]

-- `_infer_vendor_for_offering`
unfoldable pub infer_vendor_for_offering : Answers → Dict String String → String × List String
infer_vendor_for_offering a row =
    let explicit = value "vendor_id" row in
    let name = value "vendor_name" row in
    let candidates = search_vendors a name 10 in
    let (by_contact, note) =
      match_vendor_by_contact a.maps (value "vendor_contact_email" row)
        (value "vendor_support_phone" row) in
    let ambiguous : List String =
      if ltb 1 (length candidates) then "vendor_name matched multiple vendors." ∷ [] else [] in
    if not (is_empty explicit)
    then (explicit, [])
    else elim (pick (keep (names_vendor (lower name)) candidates) candidates) [
      | some (found, true) ↦ (strip found.vendor_id, "Inferred vendor from vendor_name." ∷ [])
      | some (found, false) ↦
          (strip found.vendor_id, "Single near-match found for vendor_name." ∷ [])
      | none ↦ (by_contact, ambiguous ++ noted note)
    ]

abbrev pub no_target : String → List String → Suggestion
no_target vendor_id notes = record {
  target_id = "";
  target_vendor_id = vendor_id;
  label = "";
  notes = notes;
}

abbrev pub offering_target : OfferingRow → String → List String → Suggestion
offering_target row target_id notes = record {
  target_id = target_id;
  target_vendor_id = strip row.vendor_id;
  label = label_for_offering_row row;
  notes = notes;
}

-- `_suggest_offering_match`, once the vendor is inferred
unfoldable pub suggest_offering_by_name :
    Answers → Dict String String → String → List String → Suggestion
suggest_offering_by_name a row vendor_id notes =
    let query = value "offering_name" row in
    let candidates = search_offerings a vendor_id query 10 in
    if is_empty query then no_target vendor_id notes else elim candidates [
      | [] ↦
          if is_empty vendor_id
          then no_target "" notes
          else no_target vendor_id
              (notes ++ "No offering matched by name for inferred vendor." ∷ [])
      | c ∷ cs ↦ elim (pick (keep (names_offering (lower query)) (c ∷ cs)) (c ∷ cs)) [
        | some (found, exact) ↦
            offering_target found (strip found.offering_id)
              (notes ++ near exact "Single near-match found by offering name.")
        | none ↦ no_target vendor_id notes
      ]
    ]

-- `_suggest_offering_match`
unfoldable pub suggest_offering_match : Answers → Dict String String → Suggestion
suggest_offering_match a row =
    let explicit = value "offering_id" row in
    let inferred = infer_vendor_for_offering a row in
    elim (offering_by_id a explicit) [
      | some existing ↦ offering_target existing explicit []
      | none ↦
          if is_empty explicit
          then suggest_offering_by_name a row inferred.0 inferred.1
          else no_target "" (not_found "offering_id" explicit)
    ]

abbrev pub project_target : ProjectRow → String → List String → Suggestion
project_target row target_id notes = record {
  target_id = target_id;
  target_vendor_id = strip row.vendor_id;
  label = label_for_project_row row;
  notes = notes;
}

abbrev pub of_vendor : String → ProjectRow → Bool
of_vendor vendor_id row = is_empty vendor_id || strip row.vendor_id == vendor_id

-- `_suggest_project_match`
unfoldable pub suggest_project_match : Answers → Dict String String → Suggestion
suggest_project_match a row =
    let explicit = value "project_id" row in
    let query = value "project_name" row in
    let candidates = keep (of_vendor (value "vendor_id" row)) (search_projects a query 10) in
    elim (project_by_id a explicit) [
      | some project ↦ project_target project explicit []
      | none ↦
          if not (is_empty explicit)
          then no_target "" (not_found "project_id" explicit)
          else elim (pick (keep (names_project (lower query)) candidates) candidates) [
            | some (found, exact) ↦
                project_target found (strip found.project_id)
                  (near exact "Single near-match found by name.")
            | none ↦ no_target "" []
          ]
    ]
