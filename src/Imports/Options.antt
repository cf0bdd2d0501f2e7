-- ===== src/Imports/Options.antt =====
-- web/routers/imports/matching.py: the records offered for a merge, and the preview row with its status.
use Prim.Native.String.{char_at, compare, ◌++◌ as append}
use Prim.Native.Nat.{Ordering}
use Prim.Native.String
use vendor_cat.Base.{
  ℕ, zero, suc, ◌/◌, ◌%◌, String, Bool, true, false, not, Option, none, some, List, [], ◌∷◌, ◌++◌,
  map, keep, take, contains, length, leb, ltb, string_eq, if◌then◌else◌,
}
use vendor_cat.Base.Text.{strip, is_empty, or_text}
use vendor_cat.Base.Dict.{Dict}
use vendor_cat.Imports.{normalize_email, normalize_phone}
use vendor_cat.Imports.Matching.{email_domain, phone_suffix, ids_under}
use vendor_cat.Imports.Suggestions.{Suggestion, row_email, row_phone, of_vendor}
use vendor_cat.Imports.Searches.{
  VendorRow, OfferingRow, ProjectRow, Answers, label_for_vendor_row, label_for_offering_row,
  label_for_project_row, value, vendor_profile, offering_by_id, project_by_id, search_vendors,
  search_offerings, search_projects,
}

pub record MergeOption : Type 0 where
  pub id : String
  pub label : String

abbrev pub ids : List MergeOption → List String
ids options = map (λ o. strip o.id) options

-- `_append_option`
unfoldable pub append_option : List MergeOption → String → String → List MergeOption
append_option options target_id label =
    let item_id = strip target_id in
    if is_empty item_id
    then options
    else if contains (ids options) item_id
    then options
    else options
      ++ record { id = item_id; label = or_text (strip (or_text label item_id)) item_id } ∷ []

-- One option after the other
unfoldable pub append_options : List MergeOption → List (String × String) → List MergeOption
append_options options [] = options
append_options options ((target_id, label) ∷ more) =
    append_options (append_option options target_id label) more

abbrev pub vendor_option : VendorRow → String × String
vendor_option row = (strip row.vendor_id, label_for_vendor_row row)

abbrev pub offering_option : OfferingRow → String × String
offering_option row = (strip row.offering_id, label_for_offering_row row)

abbrev pub project_option : ProjectRow → String × String
project_option row = (strip row.project_id, label_for_project_row row)

abbrev pub optional : {R : Type 0} → (R → String × String) → Option R → List (String × String)
optional f none = []
optional f (some row) = f row ∷ []

-- `_stable_ids`: sorted, empty ones left out
unfoldable pub insert_sorted : String → List String → List String
insert_sorted new_id [] = new_id ∷ []
insert_sorted new_id (other ∷ rest) = elim (compare new_id other) [
  | Ordering.gt ↦ other ∷ insert_sorted new_id rest
  | _ ↦ new_id ∷ other ∷ rest
]

unfoldable pub stable_ids : List String → List String
stable_ids [] = []
stable_ids (given ∷ rest) =
    let sorted = stable_ids rest in
    if is_empty (strip given) then sorted else insert_sorted (strip given) sorted

-- The decimal digits of a number, on fuel
unfoldable pub digits_of : ℕ → ℕ → String
digits_of zero n = ""
digits_of (suc fuel) n = elim (ltb n 10) [
  | true ↦ String.◌∷◌ (char_at "0123456789" n) ""
  | false ↦ append (digits_of fuel (n / 10)) (String.◌∷◌ (char_at "0123456789" (n % 10)) "")
]

-- The notes and the ranked ids of `candidate_vendors_by_contact`
abbrev pub Ranking : Type 0
Ranking = List String × List String

-- `for item in stable`
unfoldable pub rank : List String → List String → List String
rank ranked [] = ranked
rank ranked (item ∷ items) =
    rank (if contains ranked item then ranked else ranked ++ item ∷ []) items

-- `add_ids`, under the test that guards it
unfoldable pub add_ids : Bool → List String → String → Ranking → Ranking
add_ids wanted found reason (notes, ranked) =
    let stable = stable_ids found in
    let note : String = elim stable [
      | [] ↦ reason
      | one ∷ [] ↦ reason
      | one ∷ other ∷ more ↦
          let n = suc (suc (length more)) in
          append reason (append " (" (append (digits_of (suc n) n) " candidates)"))
    ] in
    elim (if wanted then stable else []) [
      | [] ↦ (notes, ranked)
      | _ ∷ _ ↦ (notes ++ note ∷ [], rank ranked stable)
    ]

-- `candidate_vendors_by_contact`
unfoldable pub candidate_vendors_by_contact :
    Answers → String → String → List (String × String) × List String
candidate_vendors_by_contact a given_email given_phone =
    let email = normalize_email given_email in
    let domain = email_domain email in
    let phone = normalize_phone given_phone in
    let tail = phone_suffix phone in
    let label_of : String → String × String = λ vendor_id. elim (vendor_profile a vendor_id) [
      | none ↦ (vendor_id, vendor_id)
      | some profile ↦ (vendor_id, label_for_vendor_row profile)
    ] in
    let by_email =
      add_ids (not (is_empty email)) (ids_under email a.maps.by_email)
        "Exact support/contact email match" ([], []) in
    let by_phone =
      add_ids (leb 7 (Prim.Native.String.count phone)) (ids_under phone a.maps.by_phone)
        "Exact support/contact phone match" by_email in
    let by_domain =
      add_ids (not (is_empty domain)) (ids_under domain a.maps.by_email_domain)
        "Support/contact email domain match" by_phone in
    let (notes, ranked) =
      add_ids (not (is_empty tail)) (ids_under tail a.maps.by_phone_suffix)
        "Support/contact phone suffix match" by_domain in
    (map label_of (take 12 ranked), notes)

-- The suggested target, which each list of options starts with
abbrev pub suggested : Suggestion → String × String
suggested s = (s.target_id, s.label)

-- `_collect_vendor_merge_options`
unfoldable pub collect_vendor_merge_options :
    Answers → Dict String String → Suggestion → List MergeOption × List String
collect_vendor_merge_options a row s =
    let named : String → List (String × String) =
      λ key. map vendor_option (search_vendors a (value key row) 12) in
    let (by_contact, notes) = candidate_vendors_by_contact a (row_email row) (row_phone row) in
    let wanted =
      suggested s ∷ optional vendor_option (vendor_profile a (value "vendor_id" row))
      ++ named "legal_name"
      ++ named "display_name"
      ++ named "vendor_name"
      ++ by_contact in
    (take 15 (append_options [] wanted), notes)

-- `_collect_offering_merge_options`
unfoldable pub collect_offering_merge_options :
    Answers → Dict String String → Suggestion → List MergeOption
collect_offering_merge_options a row s =
    let wanted =
      suggested s ∷ optional offering_option (offering_by_id a (value "offering_id" row))
      ++ map offering_option
          (search_offerings a (value "vendor_id" row) (value "offering_name" row) 12) in
    take 15 (append_options [] wanted)

-- `_collect_project_merge_options`
unfoldable pub collect_project_merge_options :
    Answers → Dict String String → Suggestion → List MergeOption
collect_project_merge_options a row s =
    let wanted =
      suggested s ∷ optional project_option (project_by_id a (value "project_id" row))
      ++ map project_option (
          keep (of_vendor (value "vendor_id" row))
            (search_projects a (value "project_name" row) 12)) in
    take 15 (append_options [] wanted)
