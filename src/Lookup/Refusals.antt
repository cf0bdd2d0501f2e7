-- ===== src/Lookup/Refusals.antt =====
-- When saving and deleting an option raise: what the error says of the form and of the rows.
use vendor_cat.Base.{
  ℕ, String, true, false, ◌&&◌, Option, none, some, List, [], ◌∷◌, ◌≡◌, refl, arith, inl, inr, ◌⊎◌,
  any, ltb, ◌<◌, string_eq, subst, Bool-cases, Option-cases, ◌++◌,
}
use vendor_cat.Base.Text.{strip, is_empty, or_text}
use vendor_cat.Lookup.Codes.{normalize_lookup_code}
use vendor_cat.Lookup.Windows.{normalize_lookup_window}
use vendor_cat.Lookup.Versions.{Version, Target, changes, current_options, close_version}
use vendor_cat.Lookup.Saving.{
  Calendar, OptionForm, LookupError, code_required, bad_window, not_available, label_exists,
  id_required, moment_or, code_raises, find_version, select_row, other_rows, overlaps, same_label,
  window_is_bad, form_row, plan_save, check_save, new_order, removed_row,
}
use vendor_cat.Lookup.Raises.{changes-raises, order-raises, any-current_marked}
use vendor_cat.Lookup.Orders.{Sum-cases, Targets}

-- What an error of a save says: of the form's code and window and of the rows, by the error.
abbrev pub Refusal : Calendar → String → OptionForm → List Version → LookupError → Type 0
Refusal cal type form table code_required =
    (normalize_lookup_code form.option_code ≡ none)
    ⊎ (any code_raises (current_options type table) ≡ true)
Refusal cal type form table bad_window =
    (moment_or form.valid_to cal.latest < moment_or form.valid_from cal.earliest)
    ⊎ (any window_is_bad (current_options type table) ≡ true)
Refusal cal type form table not_available =
    (is_empty (strip form.option_id) ≡ false)
    × (find_version (strip form.option_id) (current_options type table) ≡ none)
Refusal cal type form table label_exists =
    (t : Target) × Targets cal type form table t
    × (any (λ v. same_label t.row.option_label v && overlaps cal t.row.valid_from t.row.valid_to v)
          (other_rows t.selected (current_options type table))
        ≡ true)
Refusal cal type form table id_required = ⊥

inl_inj : (f e : LookupError) {B : Type 0} → Path (LookupError ⊎ B) (inl f) (inl e) → f ≡ e
inl_inj f e h = cc

form_row-Refusal :
    (cal : Calendar) (type : String) (form : OptionForm) (table : List Version) (e : LookupError)
    → form_row cal type form ≡ inl e
    → Refusal cal type form table e
unfolding form_row normalize_lookup_window
form_row-Refusal cal type form table e h =
    let end = moment_or form.valid_to cal.latest in
    let start = moment_or form.valid_from cal.earliest in
    elim (Option-cases (normalize_lookup_code form.option_code)) [
      | inl raises ↦
          subst (Refusal cal type form table) (inl_inj code_required e (rw (raises, form_row) at h))
            (inl raises)
      | inr (code, named) ↦ elim (Bool-cases (ltb end start)) [
        | inl bad ↦
            subst (Refusal cal type form table)
              (inl_inj bad_window e (rw (named, bad, form_row, normalize_lookup_window) at h))
              (inl (ground (arith, bad)))
        | inr good ↦ absurd (cc (rw (named, good, form_row, normalize_lookup_window) at h))
      ]
    ]

select_row-Refusal :
    (cal : Calendar) (type : String) (form : OptionForm) (table : List Version) (code : String)
    (e : LookupError)
    → select_row form code (current_options type table) ≡ inl e
    → Refusal cal type form table e
unfolding select_row
select_row-Refusal cal type form table code e h =
    let rows = current_options type table in
    elim (Bool-cases (is_empty (strip form.option_id))) [
      | inr given ↦ elim (Option-cases (find_version (strip form.option_id) rows)) [
        | inl missing ↦
            subst (Refusal cal type form table)
              (inl_inj not_available e (rw (given, missing, select_row) at h)) (given, missing)
        | inr (v, found) ↦ absurd (cc (rw (given, found, select_row) at h))
      ]
      | inl blank ↦ elim (Bool-cases (any code_raises rows)) [
        | inl raises ↦
            subst (Refusal cal type form table)
              (inl_inj code_required e (rw (blank, raises, select_row) at h)) (inr raises)
        | inr named ↦ absurd (cc (rw (blank, named, select_row) at h))
      ]
    ]

plan-Refusal :
    (cal : Calendar) (fresh : ℕ → String) (type : String) (form : OptionForm) (table : List Version)
    (row : Version) (selected : Option Version) (e : LookupError)
    → Targets cal type form table (record { row = row; selected = selected })
    → plan_save cal fresh selected row (current_options type table) ≡ inl e
    → Refusal cal type form table e
unfolding plan_save
plan-Refusal cal fresh type form table row selected e targets h =
    let rows = current_options type table in
    let t : Target = record { row = row; selected = selected } in
    let others = other_rows selected rows in
    let taken =
      any (λ v. same_label row.option_label v && overlaps cal row.valid_from row.valid_to v)
        others in
    elim (Bool-cases taken) [
      | inl there ↦
          subst (Refusal cal type form table) (inl_inj label_exists e (rw (there, plan_save) at h))
            (t, targets, there)
      | inr free ↦ elim (Option-cases (changes fresh t 1 (new_order cal row others))) [
        | inl raises ↦
            subst (Refusal cal type form table)
              (inl_inj code_required e (rw (free, raises, plan_save) at h))
              (inr (
                order-raises cal row selected rows
                  (changes-raises fresh t 1 (new_order cal row others) raises)))
        | inr (cs, found) ↦ absurd (cc (rw (free, found, plan_save) at h))
      ]
    ]

-- A save that raises does so for the reason that its error names.
pub check-Refusal :
    (cal : Calendar) (fresh : ℕ → String) (type : String) (form : OptionForm) (table : List Version)
    (e : LookupError)
    → check_save cal fresh type form table ≡ inl e
    → Refusal cal type form table e
unfolding check_save
check-Refusal cal fresh type form table e h =
    let rows = current_options type table in
    elim (Sum-cases (form_row cal type form)) [
      | inl (f, raises) ↦
          subst (Refusal cal type form table) (inl_inj f e (rw (raises, check_save) at h))
            (form_row-Refusal cal type form table f raises)
      | inr (row, found) ↦ elim (Bool-cases (any window_is_bad rows)) [
        | inl bad ↦
            subst (Refusal cal type form table)
              (inl_inj bad_window e (rw (found, bad, check_save) at h)) (inr bad)
        | inr good ↦ elim (Sum-cases (select_row form row.option_code rows)) [
          | inl (f, raises) ↦
              subst (Refusal cal type form table)
                (inl_inj f e (rw (found, good, raises, check_save) at h))
                (select_row-Refusal cal type form table row.option_code f raises)
          | inr (selected, chosen) ↦
              plan-Refusal cal fresh type form table row selected e (found, chosen)
                (rw (found, good, chosen, check_save) at h)
        ]
      ]
    ]

-- What an error of a deletion says, by the row that was found for the identifier.
abbrev pub DeletionRefusal : String → Option Version → List Version → LookupError → Type 0
DeletionRefusal option_id found rows id_required = is_empty (strip option_id) ≡ true
DeletionRefusal option_id found rows bad_window = any window_is_bad rows ≡ true
DeletionRefusal option_id found rows not_available = found ≡ none
DeletionRefusal option_id found rows code_required =
    (removed : Version) × (found ≡ some removed)
    × ((normalize_lookup_code (or_text removed.option_code "removed") ≡ none)
        ⊎ (any code_raises rows ≡ true))
DeletionRefusal option_id found rows label_exists = ⊥

-- Why a deletion raises after the row has been marked.
abbrev pub RenumberRefusal : List Version → LookupError → Type 0
RenumberRefusal rows bad_window = any window_is_bad rows ≡ true
RenumberRefusal rows code_required = any code_raises rows ≡ true
RenumberRefusal rows _ = ⊥

pub renumber-DeletionRefusal :
    (cal : Calendar) (type option_id id code : String) (now : ℕ) (removed : Version)
    (table : List Version) (e : LookupError)
    → let marked =
        close_version now removed.option_id table
        ++ removed_row cal type id code now removed ∷ [] in
      RenumberRefusal (current_options type marked) e
      → DeletionRefusal option_id (some removed) (current_options type table) e
renumber-DeletionRefusal cal type option_id id code now removed table bad_window h =
    any-current_marked window_is_bad cal type id code now removed table h
renumber-DeletionRefusal cal type option_id id code now removed table code_required h =
    (removed, refl, inr (any-current_marked code_raises cal type id code now removed table h))
renumber-DeletionRefusal cal type option_id id code now removed table not_available h = absurd h
renumber-DeletionRefusal cal type option_id id code now removed table label_exists h = absurd h
renumber-DeletionRefusal cal type option_id id code now removed table id_required h = absurd h
