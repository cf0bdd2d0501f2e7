-- ===== src/Lookup/Raises.antt =====
-- Which rows' codes and windows a save or a deletion reads.
use vendor_cat.Base.{
  ℕ, suc, String, Bool, true, ◌||◌, Option, none, some, List, [], ◌∷◌, ◌≡◌, refl, arith, inl, inr,
  any, keep, not, ◌==◌, string_eq, nat_beq, ap, sym, ◌∙◌, Bool-cases, Option-cases, map, ◌++◌,
}
use vendor_cat.Lookup.Codes.{normalize_lookup_code}
use vendor_cat.Lookup.Versions.{
  Version, Slot, Change, target, prior, sort, insert_sorted, Target, moved, target_change,
  is_unchanged, change_of, changes, current_options, close_version,
}
use vendor_cat.Lookup.Saving.{Calendar, code_raises, other_rows, overlaps, new_order, removed_row}
use vendor_cat.Lookup.Follows.{priors, priors-map, new_order-Arranged}

module _ (p : Version → Bool) where
  any-keep : (q : Version → Bool) (vs : List Version) → any p (keep q vs) ≡ true → any p vs ≡ true
  unfolding any keep
  any-keep q [] h = h
  any-keep q (v ∷ vs) h = ground (arith, any-keep q vs)

  any-insert_sorted :
      (v : Version) (vs : List Version) → any p (insert_sorted v vs) ≡ any p (v ∷ vs)
  unfolding any insert_sorted
  any-insert_sorted v [] = refl
  any-insert_sorted v (w ∷ vs) = ground (arith, any-insert_sorted v vs)

  any-sort : (vs : List Version) → any p (sort vs) ≡ any p vs
  unfolding any sort
  any-sort [] = refl
  any-sort (v ∷ vs) = any-insert_sorted v (sort vs) ∙ ap (λ b. p v || b) (any-sort vs)

target-some : (t : Target) (w : Version) → (c : Change) × (target_change t.selected w ≡ some c)
unfolding target_change
target-some t w = elim (Option-cases t.selected) [
  | inl new ↦ rw new (_, refl)
  | inr (v, there) ↦ elim (Bool-cases (is_unchanged v w)) [
    | inl same ↦ rw there (rw (same, target_change) (_, refl))
    | inr other ↦ rw there (rw (other, target_change) (_, refl))
  ]
]

prior-raises :
    (fresh : ℕ → String) (t : Target) (i : ℕ) (v : Version)
    → change_of fresh t i (prior v) ≡ none
    → code_raises v ≡ true
unfolding change_of moved
prior-raises fresh t i v h = elim (Bool-cases (nat_beq v.sort_order i)) [
  | inl same ↦ absurd (cc (rw (same, change_of) at h))
  | inr other ↦ elim (Option-cases (normalize_lookup_code v.option_code)) [
    | inl raises ↦ rw (raises, code_raises) refl
    | inr (code, named) ↦ absurd (cc (rw (other, named, change_of, moved) at h))
  ]
]

-- The loop over an order raises only where a row of the order has a code that raises.
pub changes-raises :
    (fresh : ℕ → String) (t : Target) (i : ℕ) (slots : List Slot)
    → changes fresh t i slots ≡ none
    → any code_raises (priors slots) ≡ true
unfolding changes change_of any
changes-raises fresh t i [] h = absurd (cc)
changes-raises fresh t i (target ∷ slots) h =
    let (c, found) = target-some t (record t.row { option_id = fresh i; sort_order = i }) in
    elim (Option-cases (changes fresh t (suc i) slots)) [
      | inl raises ↦ changes-raises fresh t (suc i) slots raises
      | inr (cs, rest) ↦ absurd (cc (rw (found, rest, changes, change_of) at h))
    ]
changes-raises fresh t i (prior v ∷ slots) h = elim (Option-cases (change_of fresh t i (prior v))) [
  | inl raises ↦ rw (prior-raises fresh t i v raises) refl
  | inr (c, found) ↦ elim (Option-cases (changes fresh t (suc i) slots)) [
    | inl raises ↦ ground (arith, changes-raises fresh t (suc i) slots raises)
    | inr (cs, rest) ↦ absurd (cc (rw (found, rest, changes) at h))
  ]
]

-- The code of an order's rows raises only where one of the rows does that it was made of.
pub order-raises :
    (cal : Calendar) (row : Version) (selected : Option Version) (rows : List Version)
    → any code_raises (priors (new_order cal row (other_rows selected rows))) ≡ true
    → any code_raises rows ≡ true
unfolding other_rows
order-raises cal row selected rows h =
    let p = overlaps cal row.valid_from row.valid_to in
    let others = other_rows selected rows in
    let (same, at, size) = new_order-Arranged cal row others in
    let kept =
      any-keep code_raises p others
        (sym (any-sort code_raises (keep p others)) ∙ sym (ap (any code_raises) same) ∙ h) in
    elim (Option-cases selected) [
      | inl new ↦ rw (new, other_rows) at kept
      | inr (v, there) ↦
          any-keep code_raises (λ w. not (w.option_id == v.option_id)) rows
            (rw (there, other_rows) at kept)
    ]

-- The current rows of a table with a row marked as removed were current before.
pub any-current_marked :
    (p : Version → Bool) (cal : Calendar) (type id code : String) (now : ℕ) (removed : Version)
    (table : List Version)
    → any p (
        current_options type (
          close_version now removed.option_id table
          ++ removed_row cal type id code now removed ∷ []))
      ≡ true
    → any p (current_options type table) ≡ true
unfolding any current_options close_version keep
any-current_marked p cal type id code now removed [] h = ground (arith, h)
any-current_marked p cal type id code now removed (v ∷ table) h =
    ground (arith, any-current_marked p cal type id code now removed table, h)

-- The rows that a deletion numbers anew are among the current ones.
pub left-raises :
    (cal : Calendar) (fresh : ℕ → String) (t : Target) (removed : Version) (rows : List Version)
    → changes fresh t 1
        (map prior (sort (keep (overlaps cal removed.valid_from removed.valid_to) rows)))
      ≡ none
    → any code_raises rows ≡ true
left-raises cal fresh t removed rows h =
    let p = overlaps cal removed.valid_from removed.valid_to in
    let left = sort (keep p rows) in
    any-keep code_raises p rows (
      sym (any-sort code_raises (keep p rows))
      ∙ ap (any code_raises) (sym (priors-map left))
      ∙ changes-raises fresh t 1 (map prior left) h)
