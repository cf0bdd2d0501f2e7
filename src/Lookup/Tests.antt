-- ===== src/Lookup/Tests.antt =====
-- The lists of options at concrete codes.
use vendor_cat.Base.{
  ℕ, ◌↔◌, arith, some, none, false, any, keep, if◌then◌else◌, nat_beq, String, true, List, [], ◌∷◌,
  map, ◌≡◌, refl, contains, string_eq,
}
use vendor_cat.Base.Text.{lower, or_text, normalize, is_empty}
use vendor_cat.Lookup.Options.{
  list_options, list_workflow_status_options, default_workflow_status_options,
}
use vendor_cat.Lookup.Windows.{Covers, lookup_windows_overlap, overlap_iff}
use vendor_cat.Lookup.Versions.{Version, changes, sort, current_options, apply_changes}
use vendor_cat.Lookup.Saving.{
  Calendar, OptionForm, not_available, label_exists, check_save, remove_version, save_lookup_option,
  delete_lookup_option,
}
use vendor_cat.Lookup.Codes.{normalize_lookup_code, lookup_label_from_code}
use vendor_cat.Lookup.Members.{IsOptions, is_distinct}

abbrev codes : List String
codes = " Approved" ∷ "" ∷ "on_hold" ∷ "approved" ∷ []

workflow_codes_test : list_workflow_status_options codes ≡ "approved" ∷ "on_hold" ∷ []
unfolding list_workflow_status_options list_options is_empty normalize
workflow_codes_test = refl

default-IsOptions : IsOptions default_workflow_status_options
unfolding is_distinct contains
default-IsOptions = record { nonempty = λ q. absurd (cc); distinct = refl; no_empty = refl }

overlap_iff_example :
    (lookup_windows_overlap 10 5 42 48 90 ≡ true)
    ↔ ((day : ℕ) × Covers 10 5 42 day × Covers 10 48 90 day)
overlap_iff_example = overlap_iff 10 5 42 48 90 (omega arith) (omega arith)

codes_test : normalize_lookup_code "  Risk  Tier/(A)_ " ≡ some "risk_tier_a"
unfolding normalize_lookup_code is_empty
codes_test = refl

labels_test : lookup_label_from_code "_risk__tier a" ≡ "Risk Tier A"
unfolding lookup_label_from_code
labels_test = refl

abbrev calendar : Calendar
calendar = record { ticks = 10; earliest = 0; latest = 9999 }

abbrev option : String → String → ℕ → Version
option id name order = record {
  option_id = id;
  lookup_type = "doc_tag";
  option_code = name;
  option_label = name;
  sort_order = order;
  active_flag = true;
  valid_from = 0;
  valid_to = 9999;
  is_current = true;
  deleted_flag = false;
}

abbrev table : List Version
table = option "k1" "msa" 1 ∷ option "k2" "nda" 2 ∷ []

abbrev fresh : ℕ → String
fresh n = if nat_beq n 1 then "n1" else if nat_beq n 2 then "n2" else "n3"

-- A new option at the second place.
abbrev form : OptionForm
form = record {
  option_id = "";
  option_code = "SOW";
  option_label = "";
  sort_order = 2;
  valid_from = none;
  valid_to = none;
}

abbrev saved : List Version
saved = (save_lookup_option calendar fresh "doc_tag" form 50 table).1

places : List Version → List (String × ℕ)
places versions =
    map (λ v. (v.option_code, v.sort_order)) (sort (current_options "doc_tag" versions))

save_test :
    (places saved ≡ ("msa", 1) ∷ ("sow", 2) ∷ ("nda", 3) ∷ [])
    × ((save_lookup_option calendar fresh "doc_tag" (record form { option_id = "k9" }) 50 table).0
        ≡ some not_available)
    × ((save_lookup_option calendar fresh "doc_tag"
          (record form { option_label = "NDA" })
          50
          table).0
        ≡ some label_exists)
unfolding save_lookup_option check_save places sort lower any keep current_options apply_changes
    or_text lookup_windows_overlap
save_test = (refl, refl, refl)

delete_test :
    places (delete_lookup_option calendar fresh "doc_tag" "k1" 50 table).1 ≡ ("nda", 1) ∷ []
unfolding delete_lookup_option remove_version places sort lower any keep current_options
    apply_changes or_text changes lookup_windows_overlap
delete_test = refl
