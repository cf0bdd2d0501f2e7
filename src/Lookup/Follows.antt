-- ===== src/Lookup/Follows.antt =====
-- The changes of a new order, slot by slot, and the place of the target in it.
use vendor_cat.Base.{
  ℕ, zero, suc, ◌+◌, ◌-◌, ◌≤◌, String, Bool, true, false, Option, none, some, List, [], ◌∷◌, map,
  keep, length, min, ◌≡◌, refl, ap, arith, inl, inr, Bool-cases, Option-cases, nat_beq, nat_beq_iff,
  ◌==◌, string_eq, ◌&&◌, subst,
}
use vendor_cat.Base.Text.{strip}
use vendor_cat.Base.Dict.{some_inj}
use vendor_cat.Lookup.Codes.{normalize_lookup_code}
use vendor_cat.Lookup.Versions.{
  Version, Slot, target, prior, insert_at, sort, Change, stays, replaced, Target, moved, has_code,
  is_unchanged, target_change, change_of, changes,
}
use vendor_cat.Lookup.Saving.{Calendar, overlaps, new_order}

abbrev closed_id : Option Version → Option String
closed_id none = none
closed_id (some v) = some v.option_id

-- The row that a row becomes at a new place: current, with the same code, window and type.
abbrev pub Moved : String → ℕ → Version → Version → Type 0
Moved new_id i v w =
    (normalize_lookup_code v.option_code ≡ some w.option_code)
    × (w.option_id ≡ new_id)
    × (w.sort_order ≡ i)
    × (w.valid_from ≡ v.valid_from)
    × (w.valid_to ≡ v.valid_to)
    × (w.lookup_type ≡ v.lookup_type)
    × (w.is_current ≡ true)
    × (w.deleted_flag ≡ false)

-- What the place `i` of a new order asks of the change for its slot. A row that was there stays if it
-- has that place already; otherwise it is closed, and a current row of the same code, window and type
-- stands at the place. The target stays if the row that it replaces has its place, label and window;
-- otherwise that row is closed, if there is one, and the target stands at the place.
abbrev pub Carries : (ℕ → String) → Target → ℕ → Slot → Change → Type 0
Carries fresh t i (prior v) (stays w) = (w ≡ v) × (v.sort_order ≡ i)
Carries fresh t i (prior v) (replaced closed w) =
    (closed ≡ some v.option_id) × Moved (fresh i) i v w
Carries fresh t i target (stays v) =
    (t.selected ≡ some v)
    × (v.sort_order ≡ i)
    × ((strip v.option_label == t.row.option_label) ≡ true)
    × (v.valid_from ≡ t.row.valid_from)
    × (v.valid_to ≡ t.row.valid_to)
Carries fresh t i target (replaced closed w) =
    (closed ≡ closed_id t.selected) × (w ≡ record t.row { option_id = fresh i; sort_order = i })

-- One change for each slot, the places counted from `i` on.
abbrev pub Follows : (ℕ → String) → Target → ℕ → List Slot → List Change → Type 0
Follows fresh t i [] [] = Unit
Follows fresh t i (s ∷ slots) (c ∷ cs) = Carries fresh t i s c × Follows fresh t (suc i) slots cs
Follows fresh t i [] (c ∷ cs) = ⊥
Follows fresh t i (s ∷ slots) [] = ⊥

unchanged_parts :
    (a b c d e : Bool)
    → (a && b && c && d && e) ≡ true
    → (b ≡ true) × (c ≡ true) × (d ≡ true) × (e ≡ true)
unchanged_parts a b c d e h = ground (arith, h)

target-Carries :
    (fresh : ℕ → String) (row : Version) (selected : Option Version) (i : ℕ) (c : Change)
    → target_change selected (record row { option_id = fresh i; sort_order = i }) ≡ some c
    → Carries fresh (record { row = row; selected = selected }) i target c
unfolding target_change
target-Carries fresh row none i c h =
    subst (Carries fresh (record { row = row; selected = none }) i target) (some_inj _ c h)
      (refl, refl)
target-Carries fresh row (some v) i c h =
    let w : Version = record row { option_id = fresh i; sort_order = i } in
    let t : Target = record { row = row; selected = some v } in
    elim (Bool-cases (is_unchanged v w)) [
      | inr differs ↦
          subst (Carries fresh t i target)
            (some_inj (replaced (some v.option_id) w) c (rw (differs, target_change) at h))
            (refl, refl)
      | inl same ↦
          let (label, order, start, end) =
            unchanged_parts (has_code row.option_code v) (strip v.option_label == row.option_label)
              (nat_beq v.sort_order i) (nat_beq v.valid_from row.valid_from)
              (nat_beq v.valid_to row.valid_to) same in
          subst (Carries fresh t i target) (some_inj (stays v) c (rw (same, target_change) at h)) (
            refl,
            (nat_beq_iff v.sort_order i).0 order,
            label,
            (nat_beq_iff v.valid_from row.valid_from).0 start,
            (nat_beq_iff v.valid_to row.valid_to).0 end,
          )
    ]

moved-Moved :
    (new_id : String) (i : ℕ) (v w : Version) → moved new_id i v ≡ some w → Moved new_id i v w
unfolding moved
moved-Moved new_id i v w h = elim (Option-cases (normalize_lookup_code v.option_code)) [
  | inl raises ↦ absurd (cc (rw (raises, moved) at h))
  | inr (code, named) ↦
      subst (Moved new_id i v) (some_inj _ w (rw (named, moved) at h))
        (named, refl, refl, refl, refl, refl, refl, refl)
]

change-Carries :
    (fresh : ℕ → String) (t : Target) (i : ℕ) (s : Slot) (c : Change)
    → change_of fresh t i s ≡ some c
    → Carries fresh t i s c
unfolding change_of
change-Carries fresh t i target c h = target-Carries fresh t.row t.selected i c h
change-Carries fresh t i (prior v) c h = elim (Bool-cases (nat_beq v.sort_order i)) [
  | inl same ↦
      subst (Carries fresh t i (prior v)) (some_inj (stays v) c (rw (same, change_of) at h))
        (refl, (nat_beq_iff v.sort_order i).0 same)
  | inr other ↦ elim (Option-cases (moved (fresh i) i v)) [
    | inl raises ↦ absurd (cc (rw (other, raises, change_of) at h))
    | inr (w, found) ↦
        subst (Carries fresh t i (prior v))
          (some_inj (replaced (some v.option_id) w) c (rw (other, found, change_of) at h))
          (refl, moved-Moved (fresh i) i v w found)
  ]
]

pub changes-Follows :
    (fresh : ℕ → String) (t : Target) (i : ℕ) (slots : List Slot) (cs : List Change)
    → changes fresh t i slots ≡ some cs
    → Follows fresh t i slots cs
unfolding changes
changes-Follows fresh t i [] cs h = subst (Follows fresh t i []) (some_inj [] cs h) tt
changes-Follows fresh t i (s ∷ slots) cs h = elim (Option-cases (change_of fresh t i s)) [
  | inl raises ↦ absurd (cc (rw (raises, changes) at h))
  | inr (c, found) ↦ elim (Option-cases (changes fresh t (suc i) slots)) [
    | inl raises ↦ absurd (cc (rw (found, raises, changes) at h))
    | inr (ds, rest) ↦
        subst (Follows fresh t i (s ∷ slots))
          (some_inj (c ∷ ds) cs (rw (found, rest, changes) at h))
          (change-Carries fresh t i s c found, changes-Follows fresh t (suc i) slots ds rest)
  ]
]

-- The rows of an order that were there before
abbrev pub priors : List Slot → List Version
priors [] = []
priors (target ∷ slots) = priors slots
priors (prior v ∷ slots) = v ∷ priors slots

-- How many slots come before the target
abbrev pub place : List Slot → Option ℕ
place [] = none
place (target ∷ slots) = some 0
place (prior v ∷ slots) = elim (place slots) [ none ↦ none | some n ↦ some (suc n) ]

-- An order of the rows that overlap the window of the target, by their sort keys, with one target among
-- them: at the place that its sort order asks for, or at the end.
abbrev pub Arranged : Calendar → Version → List Version → List Slot → Type 0
Arranged cal row others slots =
    let overlapping = sort (keep (overlaps cal row.valid_from row.valid_to) others) in
    (priors slots ≡ overlapping)
    × (place slots ≡ some (min row.sort_order (length overlapping + 1) - 1))
    × (length slots ≡ length overlapping + 1)

pub priors-map : (vs : List Version) → priors (map prior vs) ≡ vs
priors-map [] = refl
priors-map (v ∷ vs) = ap (λ ws. v ∷ ws) (priors-map vs)

length-map : (vs : List Version) → length (map prior vs) ≡ length vs
length-map [] = refl
length-map (v ∷ vs) = ap suc (length-map vs)

insert_at-Arranged :
    (n : ℕ) (vs : List Version)
    → n ≤ length vs
    → (priors (insert_at n target (map prior vs)) ≡ vs)
      × (place (insert_at n target (map prior vs)) ≡ some n)
      × (length (insert_at n target (map prior vs)) ≡ length vs + 1)
unfolding insert_at
insert_at-Arranged zero vs h = (priors-map vs, refl, omega (arith, length-map vs))
insert_at-Arranged (suc n) [] h = absurd (omega (arith, h))
insert_at-Arranged (suc n) (v ∷ vs) h =
    let (rows, at, size) = insert_at-Arranged n vs (omega (arith, h)) in
    (ap (λ ws. v ∷ ws) rows, rw at refl, omega (arith, size))

pub new_order-Arranged :
    (cal : Calendar) (row : Version) (others : List Version)
    → Arranged cal row others (new_order cal row others)
unfolding new_order
new_order-Arranged cal row others =
    let overlapping = sort (keep (overlaps cal row.valid_from row.valid_to) others) in
    insert_at-Arranged (min row.sort_order (length overlapping + 1) - 1) overlapping (ground arith)
