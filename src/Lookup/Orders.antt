-- ===== src/Lookup/Orders.antt =====
-- What saving and deleting leave: no row is lost, and the new order is numbered from 1 on.
use vendor_cat.Base.{
  ℕ, zero, suc, String, Bool, true, false, Option, none, some, List, [], ◌∷◌, ◌++◌, map, length,
  ◌≡◌, refl, arith, inl, inr, ◌⊎◌, ap, Bool-cases, Option-cases, nat_beq, nat_beq_iff,
  if◌then◌else◌, ◌==◌, string_eq, ◌∙◌, ◌&&◌, any, subst,
}
use vendor_cat.Base.Text.{strip}
use vendor_cat.Lookup.Versions.{
  Version, Slot, target, prior, Change, Target, after_change, moved, has_code, is_unchanged,
  target_change, change_of, changes, close_version, close_versions, closed_ids, inserted_rows,
  apply_changes, current_options,
}
use vendor_cat.Lookup.Saving.{
  Calendar, OptionForm, LookupError, label_exists, code_required, other_rows, new_order, same_label,
  overlaps, form_row, window_is_bad, select_row, plan_save, check_save,
}

-- i, i + 1, …: `n` numbers.
abbrev pub count_from : ℕ → ℕ → List ℕ
count_from i zero = []
count_from i (suc n) = i ∷ count_from (suc i) n

-- The sort orders of the rows after the changes.
abbrev pub orders : List Change → List ℕ
orders cs = map (λ c. (after_change c).sort_order) cs

third_test : (a b c d e : Bool) → (a && b && c && d && e) ≡ true → c ≡ true
third_test a b c d e h = ground arith

unchanged-order : (v w : Version) → is_unchanged v w ≡ true → v.sort_order ≡ w.sort_order
unchanged-order v w h = (nat_beq_iff v.sort_order w.sort_order).0 (
    third_test (has_code w.option_code v) (strip v.option_label == w.option_label)
      (nat_beq v.sort_order w.sort_order) (nat_beq v.valid_from w.valid_from)
      (nat_beq v.valid_to w.valid_to) h)

target-order :
    (selected : Option Version) (w : Version) (c : Change)
    → target_change selected w ≡ some c
    → (after_change c).sort_order ≡ w.sort_order
unfolding target_change
target-order none w c h = cc
target-order (some v) w c h = elim (Bool-cases (is_unchanged v w)) [
  | inl same ↦ let e = rw same at h in let order = unchanged-order v w same in cc
  | inr differ ↦ let e = rw differ at h in cc
]

change-order :
    (fresh : ℕ → String) (t : Target) (i : ℕ) (s : Slot) (c : Change)
    → change_of fresh t i s ≡ some c
    → (after_change c).sort_order ≡ i
unfolding change_of moved target_change
change-order fresh t i (prior v) c h = ground (arith, nat_beq_iff v.sort_order i)
change-order fresh t i target c h =
    target-order t.selected (record t.row { option_id = fresh i; sort_order = i }) c h

some_inj : (ds cs : List Change) → some ds ≡ some cs → ds ≡ cs
some_inj ds cs h = cc

numbered :
    (i : ℕ) (ds cs : List Change)
    → some ds ≡ some cs
    → orders ds ≡ count_from i (length ds)
    → orders cs ≡ count_from i (length cs)
numbered i ds cs h k = subst (λ es. orders es ≡ count_from i (length es)) (some_inj ds cs h) k

-- The rows after the changes are numbered from the first index on, without a gap.
pub changes-orders :
    (fresh : ℕ → String) (t : Target) (i : ℕ) (slots : List Slot) (cs : List Change)
    → changes fresh t i slots ≡ some cs
    → orders cs ≡ count_from i (length cs)
unfolding changes
changes-orders fresh t i [] cs h = numbered i [] cs h refl
changes-orders fresh t i (s ∷ slots) cs h = elim (Option-cases (change_of fresh t i s)) [
  | inl raises ↦ absurd (cc (rw (raises, changes) at h))
  | inr (c, found) ↦ elim (Option-cases (changes fresh t (suc i) slots)) [
    | inl raises ↦ absurd (cc (rw (found, raises, changes) at h))
    | inr (ds, rest) ↦
        numbered i (c ∷ ds) cs (rw (found, rest, changes) at h)
          (rw (change-order fresh t i s c found, changes-orders fresh t (suc i) slots ds rest) refl)
  ]
]

-- What closing a row may not change: all but its end and whether it is current.
abbrev pub kept_part : Version → Version
kept_part v = record v { valid_to = 0; is_current = false }

pub close-kept_part :
    (now : ℕ) (id : String) (table : List Version)
    → map kept_part (close_version now id table) ≡ map kept_part table
unfolding close_version
close-kept_part now id [] = refl
close-kept_part now id (v ∷ table) = ground (arith, close-kept_part now id table)

close_all-kept_part :
    (now : ℕ) (ids : List String) (table : List Version)
    → map kept_part (close_versions now ids table) ≡ map kept_part table
unfolding close_versions
close_all-kept_part now [] table = refl
close_all-kept_part now (id ∷ ids) table =
    close_all-kept_part now ids (close_version now id table) ∙ close-kept_part now id table

-- The rows of the first table are the first rows of the second one, but for their ends and whether
-- they are current.
abbrev pub Extends : List Version → List Version → Type 0
Extends before after =
    (added : List Version) × (map kept_part after ≡ map kept_part before ++ added)

map-append :
    (xs ys : List Version) → map kept_part (xs ++ ys) ≡ map kept_part xs ++ map kept_part ys
map-append [] ys = refl
map-append (x ∷ xs) ys = ap (λ zs. kept_part x ∷ zs) (map-append xs ys)

append_assoc : (xs ys zs : List Version) → (xs ++ ys) ++ zs ≡ xs ++ (ys ++ zs)
append_assoc [] ys zs = refl
append_assoc (x ∷ xs) ys zs = ap (λ ws. x ∷ ws) (append_assoc xs ys zs)

pub append_nil : (xs : List Version) → xs ≡ xs ++ []
append_nil [] = refl
append_nil (x ∷ xs) = ap (λ ys. x ∷ ys) (append_nil xs)

pub Extends-refl : (table : List Version) → Extends table table
Extends-refl table = ([], append_nil (map kept_part table))

pub Extends-trans : (a b c : List Version) → Extends a b → Extends b c → Extends a c
Extends-trans a b c (xs, p) (ys, q) =
    (xs ++ ys, q ∙ ap (λ zs. zs ++ ys) p ∙ append_assoc (map kept_part a) xs ys)

pub Extends-append : (a b c : List Version) → map kept_part b ≡ map kept_part a → Extends a (b ++ c)
Extends-append a b c p = (map kept_part c, map-append b c ∙ ap (λ zs. zs ++ map kept_part c) p)

pub apply-Extends :
    (now : ℕ) (cs : List Change) (table : List Version) → Extends table (apply_changes now cs table)
unfolding apply_changes
apply-Extends now cs table =
    Extends-append table (close_versions now (closed_ids cs) table) (inserted_rows cs)
      (close_all-kept_part now (closed_ids cs) table)

pub Sum-cases {ℓ κ} :
    {A : Type ℓ} {B : Type κ} (r : A ⊎ B) → ((a : A) × (r ≡ inl a)) ⊎ ((b : B) × (r ≡ inr b))
Sum-cases (inl a) = inl (a, refl)
Sum-cases (inr b) = inr (b, refl)

planned :
    (taken : Bool) (o : Option (List Change)) (cs : List Change)
    → (if taken then inl label_exists else elim o as (λ _. LookupError ⊎ List Change) [
      | none ↦ inl code_required
      | some ds ↦ inr ds
    ])
      ≡ inr cs
    → o ≡ some cs
planned true o cs h = absurd (cc)
planned false none cs h = absurd (cc)
planned false (some ds) cs h = cc

-- Changes after which the rows are numbered 1, 2, and so on.
abbrev pub IsNumbered : List Change → Type 0
IsNumbered cs = orders cs ≡ count_from 1 (length cs)

-- The target of a saved form: the row that it gives and the row that it replaces.
abbrev pub Targets : Calendar → String → OptionForm → List Version → Target → Type 0
Targets cal type form table t =
    (form_row cal type form ≡ inr t.row)
    × (select_row form t.row.option_code (current_options type table) ≡ inr t.selected)

plan-changes :
    (cal : Calendar) (fresh : ℕ → String) (selected : Option Version) (row : Version)
    (rows : List Version) (cs : List Change)
    → plan_save cal fresh selected row rows ≡ inr cs
    → changes fresh
        (record { row = row; selected = selected })
        1
        (new_order cal row (other_rows selected rows))
      ≡ some cs
unfolding plan_save
plan-changes cal fresh selected row rows cs h =
    let others = other_rows selected rows in
    planned
      (any (λ v. same_label row.option_label v && overlaps cal row.valid_from row.valid_to v)
        others)
      (changes fresh (record { row = row; selected = selected }) 1 (new_order cal row others)) cs h

-- What a form comes to that passes the checks.
pub check-changes :
    (cal : Calendar) (fresh : ℕ → String) (type : String) (form : OptionForm) (table : List Version)
    (cs : List Change)
    → check_save cal fresh type form table ≡ inr cs
    → (t : Target) × Targets cal type form table t
      × (changes fresh t 1
            (new_order cal t.row (other_rows t.selected (current_options type table)))
          ≡ some cs)
unfolding check_save
check-changes cal fresh type form table cs h = elim (Sum-cases (form_row cal type form)) [
  | inl (e, raises) ↦ absurd (cc (rw (raises, check_save) at h))
  | inr (row, found) ↦ elim (Bool-cases (any window_is_bad (current_options type table))) [
    | inl bad ↦ absurd (cc (rw (found, bad, check_save) at h))
    | inr good ↦ elim (Sum-cases (select_row form row.option_code (current_options type table))) [
      | inl (e, raises) ↦ absurd (cc (rw (found, good, raises, check_save) at h))
      | inr (selected, chosen) ↦ (
        record { row = row; selected = selected },
        (found, chosen),
        plan-changes cal fresh selected row (current_options type table) cs
            (rw (found, good, chosen, check_save) at h),
      )
    ]
  ]
]
