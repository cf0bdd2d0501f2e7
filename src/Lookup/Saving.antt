-- ===== src/Lookup/Saving.antt =====
-- `save_lookup_option` and `delete_lookup_option` (domains/repository_lookup.py) over the rows of the
-- table. The type is one that `_normalize_lookup_type` lets pass; `earliest` and `latest` are the
-- moments that stand for a missing start and end.
use vendor_cat.Base.{
  ℕ, zero, suc, ◌+◌, ◌-◌, String, Bool, true, false, not, ◌&&◌, Option, none, some, List, [], ◌∷◌,
  ◌++◌, map, keep, any, length, min, max, ltb, ◌==◌, string_eq, if◌then◌else◌, ◌⊎◌, inl, inr,
}
use vendor_cat.Base.Text.{strip, lower, is_empty, or_text}
use vendor_cat.Lookup.Codes.{normalize_lookup_code, lookup_label_from_code}
use vendor_cat.Lookup.Windows.{normalize_lookup_window, lookup_windows_overlap}
use vendor_cat.Lookup.Versions.{
  Version, has_code, sort, close_version, current_options, Slot, target, prior, insert_at, Change,
  changes, apply_changes,
}

pub data LookupError : Type 0 where
  code_required : LookupError
  bad_window : LookupError
  not_available : LookupError
  label_exists : LookupError
  id_required : LookupError

pub record OptionForm : Type 0 where
  pub option_id : String
  pub option_code : String
  pub option_label : String
  pub sort_order : ℕ
  pub valid_from : Option ℕ
  pub valid_to : Option ℕ

pub record Calendar : Type 0 where
  pub ticks : ℕ
  pub earliest : ℕ
  pub latest : ℕ

abbrev pub moment_or : Option ℕ → ℕ → ℕ
moment_or none fallback = fallback
moment_or (some moment) fallback = moment

unfoldable pub find_version : String → List Version → Option Version
find_version id [] = none
find_version id (v ∷ versions) = if v.option_id == id then some v else find_version id versions

abbrev pub code_raises : Version → Bool
code_raises v = elim (normalize_lookup_code v.option_code) [ none ↦ true | some c ↦ false ]

abbrev single : List Version → Option Version
single [] = none
single (v ∷ []) = some v
single (v ∷ w ∷ versions) = none

-- The row that a form without an identifier replaces: the only one of its code, if there is just one.
unfoldable pub select_row : OptionForm → String → List Version → LookupError ⊎ Option Version
unfolding find_version keep any normalize_lookup_code
select_row form code rows =
    let id = strip form.option_id in
    if not (is_empty id)
    then elim (find_version id rows) [ none ↦ inl not_available | some v ↦ inr (some v) ]
    else if any code_raises rows
    then inl code_required
    else inr (single (keep (has_code code) rows))

-- The rows but the selected one.
unfoldable pub other_rows : Option Version → List Version → List Version
unfolding keep
other_rows none rows = rows
other_rows (some s) rows = keep (λ v. not (v.option_id == s.option_id)) rows

abbrev pub overlaps : Calendar → ℕ → ℕ → Version → Bool
overlaps cal start end v = lookup_windows_overlap cal.ticks start end v.valid_from v.valid_to

abbrev pub same_label : String → Version → Bool
same_label label v = lower (strip v.option_label) == lower label

-- The new order: the rows that overlap the window, and the target at its place among them.
unfoldable pub new_order : Calendar → Version → List Version → List Slot
unfolding sort keep insert_at
new_order cal row others =
    let overlapping = sort (keep (overlaps cal row.valid_from row.valid_to) others) in
    insert_at (min row.sort_order (length overlapping + 1) - 1) target (map prior overlapping)

abbrev pub window_is_bad : Version → Bool
window_is_bad v = ltb v.valid_to v.valid_from

-- The part of the method below the selection, which raises or gives the changes.
unfoldable pub plan_save :
    Calendar → (ℕ → String) → Option Version → Version → List Version → LookupError ⊎ List Change
unfolding other_rows new_order changes any
plan_save cal fresh selected row rows =
    let others = other_rows selected rows in
    if any (λ v. same_label row.option_label v && overlaps cal row.valid_from row.valid_to v) others
    then inl label_exists
    else elim (changes fresh (record { row = row; selected = selected }) 1
        (new_order cal row others)) [ none ↦ inl code_required | some cs ↦ inr cs ]

-- The row to save, before its place is known; `none` where its code or its window raises.
unfoldable pub form_row : Calendar → String → OptionForm → LookupError ⊎ Version
unfolding normalize_lookup_code lookup_label_from_code normalize_lookup_window strip
form_row cal type form = elim (normalize_lookup_code form.option_code) [
  | none ↦ inl code_required
  | some code ↦
      elim (normalize_lookup_window (moment_or form.valid_from cal.earliest)
        (moment_or form.valid_to cal.latest)) [
          | none ↦ inl bad_window
          | some (start, end) ↦ inr (record {
            option_id = "";
            lookup_type = type;
            option_code = code;
            option_label = or_text (strip form.option_label) (lookup_label_from_code code);
            sort_order = max 1 form.sort_order;
            active_flag = true;
            valid_from = start;
            valid_to = end;
            is_current = true;
            deleted_flag = false;
          })
        ]
]

-- What the method does before its first statement: it raises, or it has the changes.
unfoldable pub check_save :
    Calendar → (ℕ → String) → String → OptionForm → List Version → LookupError ⊎ List Change
unfolding form_row select_row plan_save current_options
check_save cal fresh type form table =
    let rows = current_options type table in
    elim (form_row cal type form) [
      | inl e ↦ inl e
      | inr row ↦
          if any window_is_bad rows
          then inl bad_window
          else elim (select_row form row.option_code rows) [
            | inl e ↦ inl e
            | inr selected ↦ plan_save cal fresh selected row rows
          ]
    ]

unfoldable pub save_lookup_option :
    Calendar
    → (ℕ → String)
    → String
    → OptionForm
    → ℕ
    → List Version
    → Option LookupError × List Version
save_lookup_option cal fresh type form now table = elim (check_save cal fresh type form table) [
  | inl e ↦ (some e, table)
  | inr cs ↦ (none, apply_changes now cs table)
]

-- The row that marks an option as removed.
abbrev pub removed_row : Calendar → String → String → String → ℕ → Version → Version
removed_row cal type id code now v = record {
  option_id = id;
  lookup_type = type;
  option_code = code;
  option_label = v.option_label;
  sort_order = elim v.sort_order [ zero ↦ 999 | suc n ↦ suc n ];
  active_flag = false;
  valid_from = now;
  valid_to = cal.latest;
  is_current = true;
  deleted_flag = true;
}

-- The rows that are left are numbered anew: those that overlap the window of the removed one.
unfoldable pub renumber :
    Calendar
    → (ℕ → String)
    → String
    → Version
    → ℕ
    → List Version
    → Option LookupError × List Version
unfolding current_options sort keep any
renumber cal fresh type removed now table =
    let rows = current_options type table in
    let overlapping = sort (keep (overlaps cal removed.valid_from removed.valid_to) rows) in
    if any window_is_bad rows
    then (some bad_window, table)
    else elim (changes fresh (record { row = removed; selected = none }) 1
        (map prior overlapping)) [
          | none ↦ (some code_required, table)
          | some cs ↦ (none, apply_changes now cs table)
        ]

-- The statements of a deletion; the first may be followed by an error.
unfoldable pub remove_version :
    Calendar
    → (ℕ → String)
    → String
    → Version
    → ℕ
    → List Version
    → Option LookupError × List Version
unfolding close_version renumber normalize_lookup_code
remove_version cal fresh type removed now table =
    let closed = close_version now removed.option_id table in
    elim (normalize_lookup_code (or_text removed.option_code "removed")) [
      | none ↦ (some code_required, closed)
      | some code ↦
          renumber cal fresh type removed now
            (closed ++ removed_row cal type (fresh 0) code now removed ∷ [])
    ]

unfoldable pub delete_lookup_option :
    Calendar → (ℕ → String) → String → String → ℕ → List Version → Option LookupError × List Version
unfolding find_version current_options strip
delete_lookup_option cal fresh type option_id now table =
    let id = strip option_id in
    let rows = current_options type table in
    if is_empty id
    then (some id_required, table)
    else if any window_is_bad rows
    then (some bad_window, table)
    else elim (find_version id rows) [
      | none ↦ (some not_available, table)
      | some removed ↦ remove_version cal fresh type removed now table
    ]
