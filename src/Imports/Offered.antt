-- ===== src/Imports/Offered.antt =====
-- What a preview offers: a few different records, the suggested one first.
use vendor_cat.Base.{
  ℕ, zero, suc, ◌≤◌, String, Bool, true, false, not, ◌&&◌, Option, none, some, List, [], ◌∷◌, ◌++◌,
  ◌≡◌, refl, ap, ◌∙◌, map, take, contains, contains-append, length, length-take, ◌==◌, string_eq,
  arith, inl, inr, Bool-cases,
}
use vendor_cat.Base.Text.{strip, is_empty}
use vendor_cat.Base.Trim.{strip_twice}
use vendor_cat.Base.Dict.{Dict}
use vendor_cat.Imports.Suggestions.{
  Suggestion, suggest_vendor_match, suggest_offering_match, suggest_project_match,
}
use vendor_cat.Imports.Searches.{Answers}
use vendor_cat.Imports.Options.{
  MergeOption, ids, append_option, append_options, suggested, collect_vendor_merge_options,
  collect_offering_merge_options, collect_project_merge_options,
}
use vendor_cat.Imports.PreviewRows.{suggest, build_preview_row}

-- No id is offered twice, and none is empty.
unfoldable pub distinct : List String → Bool
distinct [] = true
distinct (x ∷ xs) = not (is_empty x) && not (contains xs x) && distinct xs

distinct-snoc :
    (xs : List String) (x : String)
    → distinct xs ≡ true
    → is_empty x ≡ false
    → contains xs x ≡ false
    → distinct (xs ++ x ∷ []) ≡ true
unfolding distinct contains
distinct-snoc [] x h named fresh = rw named refl
distinct-snoc (y ∷ ys) x h named fresh = ground (
  arith,
  distinct-snoc ys x,
  contains-append ys (x ∷ []) y,
  string_eq.eqb_iff x y,
  string_eq.eqb_iff y x,
  named,
  fresh,
  h,
)

contains-take :
    (n : ℕ) (xs : List String) (x : String) → contains xs x ≡ false → contains (take n xs) x ≡ false
unfolding contains
contains-take zero xs x h = refl
contains-take (suc n) [] x h = refl
contains-take (suc n) (y ∷ ys) x h = ground (arith, contains-take n ys x)

distinct-take : (n : ℕ) (xs : List String) → distinct xs ≡ true → distinct (take n xs) ≡ true
unfolding distinct
distinct-take zero xs h = refl
distinct-take (suc n) [] h = refl
distinct-take (suc n) (y ∷ ys) h = ground (arith, distinct-take n ys, contains-take n ys y)

map-append : {A B : Type 0} (f : A → B) (xs ys : List A) → map f (xs ++ ys) ≡ map f xs ++ map f ys
map-append f [] ys = refl
map-append f (x ∷ xs) ys = ap (λ zs. f x ∷ zs) (map-append f xs ys)

map-take : {A B : Type 0} (f : A → B) (n : ℕ) (xs : List A) → map f (take n xs) ≡ take n (map f xs)
map-take f zero xs = refl
map-take f (suc n) [] = refl
map-take f (suc n) (x ∷ xs) = ap (λ zs. f x ∷ zs) (map-take f n xs)

append_option-distinct :
    (options : List MergeOption) (target_id label : String)
    → distinct (ids options) ≡ true
    → distinct (ids (append_option options target_id label)) ≡ true
unfolding append_option
append_option-distinct options target_id label h =
    let item = strip target_id in
    elim (Bool-cases (is_empty item)) [
      | inl unnamed ↦ rw unnamed h
      | inr named ↦ elim (Bool-cases (contains (ids options) item)) [
        | inl listed ↦ rw (named, listed) h
        | inr fresh ↦
            let at_end = distinct-snoc (ids options) item h named fresh in
            rw (named, fresh)
              (rw (map-append (λ (o : MergeOption). strip o.id) options, strip_twice target_id)
                at_end)
      ]
    ]

append_options-distinct :
    (options : List MergeOption) (wanted : List (String × String))
    → distinct (ids options) ≡ true
    → distinct (ids (append_options options wanted)) ≡ true
unfolding append_options
append_options-distinct options [] h = h
append_options-distinct options ((target_id, label) ∷ more) h =
    append_options-distinct (append_option options target_id label) more
      (append_option-distinct options target_id label h)

-- The id of the first option.
abbrev pub first_id : List MergeOption → Option String
first_id [] = none
first_id (o ∷ options) = some (strip o.id)

append_option_first :
    (o : MergeOption) (options : List MergeOption) (target_id label : String)
    → first_id (append_option (o ∷ options) target_id label) ≡ some (strip o.id)
unfolding append_option
append_option_first o options target_id label = ground arith

append_options_first :
    (options : List MergeOption) (wanted : List (String × String)) (first : String)
    → first_id options ≡ some first
    → first_id (append_options options wanted) ≡ some first
unfolding append_options
append_options_first options [] first h = h
append_options_first [] ((target_id, label) ∷ more) first h = absurd (cc)
append_options_first (o ∷ options) ((target_id, label) ∷ more) first h =
    append_options_first (append_option (o ∷ options) target_id label) more first
      (append_option_first o options target_id label ∙ h)

first_id-take :
    (n : ℕ) (options : List MergeOption) → first_id (take (suc n) options) ≡ first_id options
first_id-take n [] = refl
first_id-take n (o ∷ options) = refl

-- At most 15 different ids, none of them empty, and the suggested one first, if there is one.
abbrev pub Offers : Suggestion → List MergeOption → Type 0
Offers s options =
    (length options ≤ 15)
    × (distinct (ids options) ≡ true)
    × (is_empty (strip s.target_id) ≡ false → first_id options ≡ some (strip s.target_id))

suggested_first :
    (s : Suggestion)
    → is_empty (strip s.target_id) ≡ false
    → first_id (append_option [] s.target_id s.label) ≡ some (strip s.target_id)
unfolding append_option contains
suggested_first s named = rw named (ap some (strip_twice s.target_id))

taken-Offers :
    (s : Suggestion) (more : List (String × String))
    → Offers s (take 15 (append_options [] (suggested s ∷ more)))
taken-Offers s more =
    let all_options = append_options [] (suggested s ∷ more) in
    let different = append_options-distinct [] (suggested s ∷ more) (unfold distinct in refl) in
    (
      omega (arith, length-take 15 all_options),
      rw (map-take (λ (o : MergeOption). strip o.id) 15 all_options)
          (distinct-take 15 (ids all_options) different),
      λ named.
          first_id-take 14 all_options
          ∙ (unfold append_options in
              append_options_first (append_option [] s.target_id s.label) more (strip s.target_id)
                (suggested_first s named)),
    )

-- The records that a preview row offers for a merge are at most 15, with different ids, none of them
-- empty, and the suggested target comes first when there is one.
pub build_preview_row-Offers :
    (a : Answers) (layout_key : String) (idx : ℕ) (row : Dict String String)
    → Offers (suggest a layout_key row) (build_preview_row a layout_key idx row).merge_options
unfolding build_preview_row collect_vendor_merge_options collect_offering_merge_options
    collect_project_merge_options
build_preview_row-Offers a layout_key idx row = elim (Bool-cases (layout_key == "vendors")) [
  | inl vendors ↦ rw vendors (taken-Offers (suggest_vendor_match a row) _)
  | inr other ↦ elim (Bool-cases (layout_key == "offerings")) [
    | inl offerings ↦ rw (other, offerings) (taken-Offers (suggest_offering_match a row) _)
    | inr projects ↦ rw (other, projects) (taken-Offers (suggest_project_match a row) _)
  ]
]
