-- ===== src/Imports/PreviewRows.antt =====
-- web/routers/imports/matching.py: `build_preview_rows`, the rows of a preview with their status.
use vendor_cat.Base.{
  ℕ, suc, String, Bool, not, ◌&&◌, List, [], ◌∷◌, ◌++◌, keep, contains, ◌==◌, string_eq,
  if◌then◌else◌,
}
use vendor_cat.Base.Text.{is_empty}
use vendor_cat.Base.Dict.{Dict}
use vendor_cat.Imports.Suggestions.{
  Suggestion, suggest_vendor_match, suggest_offering_match, suggest_project_match,
}
use vendor_cat.Imports.Searches.{Answers, raw, value}
use vendor_cat.Imports.Options.{
  MergeOption, collect_vendor_merge_options, collect_offering_merge_options,
  collect_project_merge_options,
}

pub data RowStatus : Type 0 where
  ready : RowStatus
  review : RowStatus
  error : RowStatus

pub record PreviewRow : Type 0 where
  pub row_index : ℕ
  pub line_number : String
  pub row_data : Dict String String
  pub suggested_action : String
  pub suggested_target_id : String
  pub suggested_target_vendor_id : String
  pub suggested_target_label : String
  pub merge_options : List MergeOption
  pub notes : List String
  pub errors : List String
  pub row_status : RowStatus

-- The record that a layout imports
abbrev pub suggest : Answers → String → Dict String String → Suggestion
suggest a layout_key row =
    if layout_key == "vendors"
    then suggest_vendor_match a row
    else if layout_key == "offerings"
    then suggest_offering_match a row
    else suggest_project_match a row

abbrev pub collect : Answers → String → Dict String String → List MergeOption × List String
collect a layout_key row =
    if layout_key == "vendors"
    then collect_vendor_merge_options a row (suggest_vendor_match a row)
    else if layout_key == "offerings"
    then (collect_offering_merge_options a row (suggest_offering_match a row), [])
    else (collect_project_merge_options a row (suggest_project_match a row), [])

-- What a new record would miss
unfoldable pub row_errors : String → Dict String String → String → List String
row_errors layout_key row target_vendor_id =
    let when : Bool → String → List String =
      λ missing message. if missing then message ∷ [] else [] in
    when (layout_key == "vendors" && is_empty (value "legal_name" row))
      "legal_name is required for new records."
    ++ when (layout_key == "offerings" && is_empty (value "offering_name" row))
        "offering_name is required for new records."
    ++ when
        (layout_key == "offerings" && is_empty (value "vendor_id" row) && is_empty target_vendor_id)
        "vendor_id is required, or provide vendor_name/contact fields for auto-match."
    ++ when (layout_key == "projects" && is_empty (value "project_name" row))
        "project_name is required for new records."

abbrev pub status_of : List String → List String → RowStatus
status_of (_ ∷ _) notes = error
status_of [] (_ ∷ _) = review
status_of [] [] = ready

abbrev pub without_line : Dict String String → Dict String String
without_line row = keep (λ entry. not (entry.0 == "_line")) row

-- One turn of the loop in `build_preview_rows`
unfoldable pub build_preview_row : Answers → String → ℕ → Dict String String → PreviewRow
build_preview_row a layout_key idx row =
    let s = suggest a layout_key row in
    let (options, extra) = collect a layout_key row in
    let notes = s.notes ++ keep (λ note. not (contains s.notes note)) extra in
    let errors = row_errors layout_key row s.target_vendor_id in
    record {
      row_index = idx;
      line_number = raw "_line" row;
      row_data = without_line row;
      suggested_action = if is_empty s.target_id then "new" else "merge";
      suggested_target_id = s.target_id;
      suggested_target_vendor_id = s.target_vendor_id;
      suggested_target_label = s.label;
      merge_options = options;
      notes = notes;
      errors = errors;
      row_status = status_of errors notes;
    }

-- `build_preview_rows`, the rows numbered from `idx`
unfoldable pub build_preview_rows :
    Answers → String → ℕ → List (Dict String String) → List PreviewRow
build_preview_rows a layout_key idx [] = []
build_preview_rows a layout_key idx (row ∷ rows) =
    build_preview_row a layout_key idx row ∷ build_preview_rows a layout_key (suc idx) rows
