-- ===== src/Imports/Searches.antt =====
-- web/routers/imports/matching.py: the records that rows are matched with, their labels, and the accessors
-- of `ImportMatchContext`. Each accessor keeps the first answer of the repository under a key and repeats
-- it for every later call under the same key, so in one run of an import its answers are a function of
-- the key: `Answers` is that function. The keys of the searches are in lower case.
use vendor_cat.Base.{ℕ, String, Option, none, some, List, [], string_eq, if◌then◌else◌}
use vendor_cat.Base.Text.{lower, strip, is_empty, or_text}
use vendor_cat.Base.Dict.{Dict, lookup}
use vendor_cat.Imports.Matching.{ContactMaps}

pub record VendorRow : Type 0 where
  pub vendor_id : String
  pub display_name : String
  pub legal_name : String

pub record OfferingRow : Type 0 where
  pub offering_id : String
  pub vendor_id : String
  pub offering_name : String

pub record ProjectRow : Type 0 where
  pub project_id : String
  pub vendor_id : String
  pub project_name : String

-- What the context answers in one run: a record by its id, and the rows of a search by its key, the
-- vendor and the text in lower case and the limit.
pub record Answers : Type 0 where
  pub get_vendor_profile : String → Option VendorRow
  pub get_offering : String → Option OfferingRow
  pub get_project : String → Option ProjectRow
  pub search_vendors_typeahead : String → ℕ → List VendorRow
  pub search_offerings_typeahead : String → String → ℕ → List OfferingRow
  pub search_projects_typeahead : String → ℕ → List ProjectRow
  pub maps : ContactMaps

-- `_label_for_vendor_row`
unfoldable pub label_for_vendor_row : VendorRow → String
unfolding strip or_text
label_for_vendor_row row =
    let vendor_id = strip row.vendor_id in
    or_text (strip (or_text row.display_name (or_text row.legal_name vendor_id))) vendor_id

-- `_label_for_offering_row`
unfoldable pub label_for_offering_row : OfferingRow → String
unfolding strip or_text
label_for_offering_row row =
    let offering_id = strip row.offering_id in
    or_text (strip (or_text row.offering_name offering_id)) offering_id

-- `_label_for_project_row`
unfoldable pub label_for_project_row : ProjectRow → String
unfolding strip or_text
label_for_project_row row =
    let project_id = strip row.project_id in
    or_text (strip (or_text row.project_name project_id)) project_id

-- str(row_data.get(key) or ""), and the same stripped
unfoldable pub raw : String → Dict String String → String
unfolding lookup
raw key row = elim (lookup key row) [ none ↦ "" | some text ↦ text ]

unfoldable pub value : String → Dict String String → String
unfolding strip raw
value key row = strip (raw key row)

-- The accessors of `ImportMatchContext`
unfoldable pub vendor_profile : Answers → String → Option VendorRow
vendor_profile a vendor_id =
    let key = strip vendor_id in if is_empty key then none else a.get_vendor_profile key

unfoldable pub offering_by_id : Answers → String → Option OfferingRow
offering_by_id a offering_id =
    let key = strip offering_id in if is_empty key then none else a.get_offering key

unfoldable pub project_by_id : Answers → String → Option ProjectRow
project_by_id a project_id =
    let key = strip project_id in if is_empty key then none else a.get_project key

unfoldable pub search_vendors : Answers → String → ℕ → List VendorRow
search_vendors a q limit =
    let query = strip q in
    if is_empty query then [] else a.search_vendors_typeahead (lower query) limit

unfoldable pub search_offerings : Answers → String → String → ℕ → List OfferingRow
search_offerings a vendor_id q limit =
    let query = strip q in
    if is_empty query
    then []
    else a.search_offerings_typeahead (lower (strip vendor_id)) (lower query) limit

unfoldable pub search_projects : Answers → String → ℕ → List ProjectRow
search_projects a q limit =
    let query = strip q in
    if is_empty query then [] else a.search_projects_typeahead (lower query) limit
