-- ===== src/Imports/Matching.antt =====
-- web/routers/imports/matching.py: the index of contacts, and the vendor that a row's contact names.
-- Sets of vendor ids are lists in which no id is entered twice.
pub mod Index
use Prim.Native.String.{count, compare, ◌++◌ as append}
use Prim.Native.String
use Prim.Native.Nat.{Ordering}
use vendor_cat.Base.{
  ℕ, zero, suc, ◌-◌, String, Bool, true, false, not, ◌&&◌, ◌||◌, Option, none, some, List, [], ◌∷◌,
  ◌++◌, map, keep, take, contains, length, leb, ltb, nat_beq, ◌==◌, string_eq, if◌then◌else◌,
}
use vendor_cat.Base.Text.{strip, normalize, is_empty, or_text}
use vendor_cat.Base.Patterns.{drop_chars, has_code}
use vendor_cat.Base.Dict.{Dict, lookup, insert}
use vendor_cat.Imports.{normalize_email, normalize_phone}

-- The text after the first character that passes a test; the empty text where none does.
unfoldable pub after_first : (Prim.Native.Char.Char → Bool) → String → String
after_first cut String.[] = ""
after_first cut (String.◌∷◌ c s) = let rest = after_first cut s in if cut c then s else rest

-- `_email_domain`
unfoldable pub email_domain : String → String
unfolding normalize_email after_first strip
email_domain value = strip (after_first (has_code 64) (normalize_email value))

-- `_phone_suffix`, of seven digits
unfoldable pub phone_suffix : String → String
unfolding normalize_phone drop_chars
phone_suffix value =
    let digits = normalize_phone value in
    if ltb (count digits) 7 then "" else drop_chars (count digits - 7) digits

pub record IndexRow : Type 0 where
  pub vendor_id : String
  pub email : String
  pub phone : String

pub record ContactMaps : Type 0 where
  pub by_email : Dict String (List String)
  pub by_email_domain : Dict String (List String)
  pub by_phone : Dict String (List String)
  pub by_phone_suffix : Dict String (List String)

abbrev pub no_maps : ContactMaps
no_maps = record { by_email = []; by_email_domain = []; by_phone = []; by_phone_suffix = [] }

-- The set under a key; the empty set where there is none
abbrev pub ids_under : String → Dict String (List String) → List String
ids_under key table = elim (lookup key table) [ none ↦ [] | some ids ↦ ids ]

unfoldable pub add_id : List String → String → List String
unfolding contains
add_id ids new_id = if contains ids new_id then ids else new_id ∷ ids

-- if wanted: table.setdefault(key, set()).add(vendor_id)
unfoldable pub add_if :
    Bool → String → String → Dict String (List String) → Dict String (List String)
add_if wanted key vendor_id table =
    if wanted then insert key (add_id (ids_under key table) vendor_id) table else table

-- The body of the loop in `_load_contact_maps`
unfoldable pub add_row : IndexRow → ContactMaps → ContactMaps
add_row row maps =
    let vendor_id = strip row.vendor_id in
    let email = normalize_email row.email in
    let domain = email_domain email in
    let phone = normalize_phone row.phone in
    let suffix = phone_suffix phone in
    let named = not (is_empty vendor_id) in
    record {
      by_email = add_if (named && not (is_empty email)) email vendor_id maps.by_email;
      by_email_domain =
          add_if (named && not (is_empty domain)) domain vendor_id maps.by_email_domain;
      by_phone = add_if (named && leb 7 (count phone)) phone vendor_id maps.by_phone;
      by_phone_suffix =
          add_if (named && not (is_empty suffix)) suffix vendor_id maps.by_phone_suffix;
    }

-- `_load_contact_maps`, on the rows that the repository lists; there are none where that raises
unfoldable pub load_contact_maps : List IndexRow → ContactMaps → ContactMaps
load_contact_maps [] maps = maps
load_contact_maps (row ∷ rows) maps = load_contact_maps rows (add_row row maps)

-- A set of one id, and a set of several
abbrev pub only_id : List String → Option String
only_id (new_id ∷ []) = some new_id
only_id _ = none

abbrev pub is_several : List String → Bool
is_several ids = ltb 1 (length ids)

-- One of the first four tests of `match_vendor_by_contact`: an id with its note, if there is just one.
unfoldable pub or_else : Option (String × String) → String × String → String × String
or_else none r = r
or_else (some r) _ = r

unfoldable pub sole : Bool → List String → String → Option (String × String)
sole wanted ids note = elim (only_id ids) [
  | none ↦ none
  | some new_id ↦ if wanted then some (new_id, note) else none
]

-- One of the four tests that follow, for an ambiguous set
unfoldable pub several : Bool → List String → String → Option (String × String)
several wanted ids note = if wanted && is_several ids then some ("", note) else none

-- `match_vendor_by_contact`
unfoldable pub match_vendor_by_contact : ContactMaps → String → String → String × String
match_vendor_by_contact maps given_email given_phone =
    let email = normalize_email given_email in
    let domain = email_domain email in
    let phone = normalize_phone given_phone in
    let tail = phone_suffix phone in
    let has_email = not (is_empty email) in
    let has_phone = not (is_empty phone) in
    let has_domain = not (is_empty domain) in
    let has_tail = not (is_empty tail) in
    let email_matches = if has_email then ids_under email maps.by_email else [] in
    let domain_matches = if has_domain then ids_under domain maps.by_email_domain else [] in
    let phone_matches = if leb 7 (count phone) then ids_under phone maps.by_phone else [] in
    let tail_matches = if has_tail then ids_under tail maps.by_phone_suffix else [] in
    or_else (sole has_email email_matches "Matched vendor via support/contact email.") (
      or_else (sole has_phone phone_matches "Matched vendor via support/contact phone.") (
        or_else (sole has_domain domain_matches "Matched vendor via support/contact email domain.")
          (or_else (sole has_tail tail_matches "Matched vendor via support/contact phone suffix.") (
            or_else
              (several has_email email_matches "Support/contact email matched multiple vendors.")
              (or_else
                (several has_phone phone_matches "Support/contact phone matched multiple vendors.")
                (or_else
                  (several has_domain domain_matches
                    "Support/contact email domain matched multiple vendors.")
                  (or_else
                    (several has_tail tail_matches
                      "Support/contact phone suffix matched multiple vendors.")
                    ("", ""))))))))
