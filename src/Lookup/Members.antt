-- ===== src/Lookup/Members.antt =====
-- What the lists of codes hold.
use vendor_cat.Base.{
  String, Bool, true, false, not, ◌&&◌, List, [], ◌∷◌, map, ◌≡◌, ◌≢◌, refl, contains, string_eq,
  eq_iff, arith,
}
use vendor_cat.Base.Text.{normalize, is_empty}
use vendor_cat.Lookup.Options.{collect, list_options, or_default}

-- No element occurs twice.
unfoldable pub is_distinct : List String → Bool
unfolding contains
is_distinct [] = true
is_distinct (x ∷ xs) = not (contains xs x) && is_distinct xs

collect-contains :
    (seen codes : List String) (v : String)
    → contains (collect seen codes) v
      ≡ (not (is_empty v) && not (contains seen v) && contains (map normalize codes) v)
unfolding collect contains
collect-contains seen [] v = ground arith
collect-contains seen (raw ∷ codes) v = ground (
  arith,
  collect-contains seen codes v,
  collect-contains (normalize raw ∷ seen) codes v,
  eq_iff (normalize raw) v,
)

collect-is_distinct : (seen codes : List String) → is_distinct (collect seen codes) ≡ true
unfolding collect is_distinct contains
collect-is_distinct seen [] = refl
collect-is_distinct seen (raw ∷ codes) = ground (
  arith,
  collect-is_distinct seen codes,
  collect-is_distinct (normalize raw ∷ seen) codes,
  collect-contains (normalize raw ∷ seen) codes (normalize raw),
  eq_iff (normalize raw) (normalize raw),
)

-- A list of options: not empty, no element twice and none empty.
pub record IsOptions (options : List String) : Type 0 where
  pub nonempty : options ≢ []
  pub distinct : is_distinct options ≡ true
  pub no_empty : contains options "" ≡ false

or_default-IsOptions :
    (fallback values : List String)
    → IsOptions fallback
    → is_distinct values ≡ true
    → contains values "" ≡ false
    → IsOptions (or_default fallback values)
or_default-IsOptions fallback [] h d e = h
or_default-IsOptions fallback (v ∷ values) h d e = record {
  nonempty = λ q. absurd (cc);
  distinct = d;
  no_empty = e;
}

collect-no_empty : (codes : List String) → contains (collect [] codes) "" ≡ false
collect-no_empty codes = rw (collect-contains [] codes "") (unfold is_empty in refl)

-- If the fallback is not empty and has no element twice and none empty, so it is with the list of
-- options, whatever the codes; and the codes that are collected for it are the cleaned codes that are
-- not empty.
pub list_options-IsOptions :
    (fallback codes : List String)
    → IsOptions fallback
    → IsOptions (list_options fallback codes)
      × ((v : String)
          → contains (collect [] codes) v ≡ (not (is_empty v) && contains (map normalize codes) v))
unfolding list_options
list_options-IsOptions fallback codes h = (
  or_default-IsOptions fallback (collect [] codes) h (collect-is_distinct [] codes)
      (collect-no_empty codes),
  λ v. rw (collect-contains [] codes v) (unfold contains in ground arith),
)
