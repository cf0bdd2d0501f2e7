-- ===== src/Imports/Tests.antt =====
-- Imports at concrete inputs. The repository is the list of contacts of one vendor.
use vendor_cat.Base.{
  Bool, true, false, subst, ◌==◌, ℕ, ◌+◌, ◌≤◌, String, none, some, List, [], ◌∷◌, ◌≡◌, refl, keep,
  length, arith, string_eq, pair_eq, contains, any, ◌⊎◌,
}
use vendor_cat.Base.Text.{strip, is_empty, or_text, normalize}
use vendor_cat.Base.Dict.{some_inj, Dict, keys, lookup, insert, remove}
use vendor_cat.Imports.{
  Contact, Repository, resolve_contact, contact_keys, contact_row_keys, normalize_email,
  normalize_phone,
}
use vendor_cat.Imports.Applying.{
  ApplyContext, new, maybe_add_vendor_contact, load_vendor_contact_keys, keys_of_rows,
}
use vendor_cat.Imports.Duplicates.{Skips, maybe_add_vendor_contact-twice}
use vendor_cat.Imports.Previews.{
  Store, import_preview_max_items, drop_oldest, prune_preview_store, save_preview_payload,
  load_preview_payload, discard_preview_payload,
}
use vendor_cat.Imports.Waiting.{drop_oldest-enough}
use vendor_cat.Imports.Uses.{Use, saving, loading, discarding, use_all, load-save}
use vendor_cat.Imports.Matching.{
  IndexRow, no_maps, load_contact_maps, match_vendor_by_contact, email_domain, phone_suffix,
  or_else, sole, add_row, add_if, add_id,
}
use vendor_cat.Imports.Matching.Index.{
  Vouches, by_email, by_phone, by_email_domain, by_phone_suffix, match_vendor_by_contact-Vouches,
}
use vendor_cat.Imports.Suggestions.{suggest_vendor_match, pick}
use vendor_cat.Imports.Searches.{
  Answers, VendorRow, vendor_profile, value, search_vendors, label_for_vendor_row,
}
use vendor_cat.Imports.PreviewRows.{suggest, build_preview_row}
use vendor_cat.Imports.Rows.{
  RowRepository, Applied, refused, apply_import_row, merge_vendor, updated, vendor_updates_from_row,
  vendor_done, support_contact,
}
use vendor_cat.Imports.Refused.{KeepsRefused, apply_import_row-KeepsRefused}
use vendor_cat.Imports.Offered.{Offers, build_preview_row-Offers}

-- As `add_vendor_contact` stores a contact, but for the case of its type.
abbrev stored_contact : Contact → Contact
stored_contact contact = record {
  full_name = strip contact.full_name;
  contact_type = contact.contact_type;
  email = strip contact.email;
  phone = strip contact.phone;
}

abbrev repo : Repository (List Contact)
repo = record {
  get_vendor_contacts = λ vendor_id db. some db;
  get_vendor_business_owners = λ vendor_id db. none;
  get_vendor_offering_contacts = λ vendor_id db. none;
  get_vendor_offering_business_owners = λ vendor_id db. none;
  get_vendor_contracts = λ vendor_id db. none;
  get_offering_vendor = λ offering_id db. some none;
  add_vendor_contact = λ vendor_id contact db. some ("c-1", stored_contact contact ∷ db);
  add_vendor_owner = λ vendor_id owner db. none;
  add_offering_contact = λ vendor_id offering_id contact db. none;
  add_offering_owner = λ vendor_id offering_id owner db. none;
  create_contract = λ vendor_id contract db. none;
}

abbrev given : Contact
given = record {
  full_name = "";
  contact_type = "";
  email = " Help@Acme.com ";
  phone = "555-010-2030";
}

abbrev resolved : Contact
resolved = record {
  full_name = "Help@Acme.com";
  contact_type = "business";
  email = "Help@Acme.com";
  phone = "555-010-2030";
}

abbrev after : ApplyContext
after = record {
  vendor_contact_keys =
      ("v-1", "email:help@acme.com" ∷ "phone:5550102030" ∷ "name_type:help@acme.com|business" ∷ [])
      ∷ [];
  vendor_owner_keys = [];
  offering_owner_keys = [];
  offering_contact_keys = [];
  vendor_contract_number_keys = [];
  offering_vendor_id_cache = [];
}

add_test :
    maybe_add_vendor_contact repo " v-1 " given (new, []) ≡ some ("c-1", (after, resolved ∷ []))
unfolding maybe_add_vendor_contact new is_empty strip resolve_contact any contact_keys contains
    load_vendor_contact_keys lookup keys_of_rows insert
add_test = refl

maybe_add_vendor_contact-twice_example : Skips repo " v-1 " given (after, resolved ∷ [])
maybe_add_vendor_contact-twice_example =
    maybe_add_vendor_contact-twice repo " v-1 " "c-1" given (new, []) (after, resolved ∷ [])
      add_test

abbrev store : Store ℕ
store = save_preview_payload 1 0 "a" 1 (save_preview_payload 1 5 "b" 2 [])

store_test :
    (keys store ≡ "b" ∷ "a" ∷ [])
    × ((load_preview_payload 1 1799 " a " store).0 ≡ some 1)
    × ((load_preview_payload 1 1800 "a" store).0 ≡ none)
unfolding save_preview_payload load_preview_payload insert prune_preview_store drop_oldest keep
    is_empty strip lookup
store_test = (refl, refl, refl)

drop_oldest-enough_example :
    (length (drop_oldest 2 store) ≤ import_preview_max_items)
    × (drop_oldest (2 + 3) store ≡ drop_oldest 2 store)
unfolding insert prune_preview_store drop_oldest keep
drop_oldest-enough_example =
    drop_oldest-enough 2 3 store (unfold save_preview_payload in omega arith)

abbrev uses : List (Use ℕ)
uses = saving 20 "d" 4 ∷ loading 30 "a" ∷ discarding "b" ∷ saving 40 "e" 5 ∷ []

load-save_example :
    (load_preview_payload 1 99 "c" (use_all 1 uses (save_preview_payload 1 9 "c" 3 store))).0
    ≡ some 3
unfolding insert prune_preview_store drop_oldest keep
load-save_example =
    load-save 1 9 99 "c" 3 uses store (unfold strip in refl) (unfold is_empty in refl)
      (unfold save_preview_payload in (omega arith, (omega arith, tt)))
      (unfold save_preview_payload contains in refl) (omega arith)
      (unfold save_preview_payload load_preview_payload discard_preview_payload contains strip
          is_empty lookup insert remove in
        (
          (omega arith, omega arith, refl),
          (omega arith, (refl, ((omega arith, omega arith, refl), tt))),
        ))
      (omega arith)

abbrev index : List IndexRow
index =
    record { vendor_id = "v-1"; email = "a@acme.com"; phone = "" }
    ∷ record { vendor_id = "v-2"; email = "b@other.com"; phone = "+1 (555) 010-2030" }
    ∷ []

match_test :
    (match_vendor_by_contact (load_contact_maps index no_maps) "sales@acme.com" ""
      ≡ ("v-1", "Matched vendor via support/contact email domain."))
    × (match_vendor_by_contact (load_contact_maps index no_maps) "" "0102030"
        ≡ ("v-2", "Matched vendor via support/contact phone suffix."))
unfolding match_vendor_by_contact load_contact_maps or_else sole is_empty normalize_email lookup
    add_row add_if insert normalize_phone email_domain add_id phone_suffix
match_test = (refl, refl)

match_vendor_by_contact-Vouches_example :
    Vouches by_email index (normalize_email "sales@acme.com") "v-1"
    ⊎ (Vouches by_phone index (normalize_phone "") "v-1"
        ⊎ (Vouches by_email_domain index (email_domain (normalize_email "sales@acme.com")) "v-1"
            ⊎ Vouches by_phone_suffix index (phone_suffix (normalize_phone "")) "v-1"))
match_vendor_by_contact-Vouches_example =
    match_vendor_by_contact-Vouches index "sales@acme.com" "" "v-1"
      "Matched vendor via support/contact email domain." (unfold is_empty in refl) match_test.0

abbrev acme : VendorRow
acme = record { vendor_id = "v-1"; display_name = "Acme"; legal_name = "Acme Inc" }

abbrev answers : Answers
answers = record {
  get_vendor_profile = λ vendor_id. none;
  get_offering = λ offering_id. none;
  get_project = λ project_id. none;
  search_vendors_typeahead = λ q limit. acme ∷ [];
  search_offerings_typeahead = λ vendor_id q limit. [];
  search_projects_typeahead = λ q limit. [];
  maps = no_maps;
}

abbrev row : Dict String String
row = ("legal_name", "acme inc") ∷ ("_line", "2") ∷ []

build_preview_row-Offers_example :
    Offers (suggest answers "vendors" row) (build_preview_row answers "vendors" 1 row).merge_options
build_preview_row-Offers_example = build_preview_row-Offers answers "vendors" 1 row

preview_test :
    ((build_preview_row answers "vendors" 1 row).suggested_action ≡ "merge")
    × ((build_preview_row answers "vendors" 1 row).suggested_target_label ≡ "Acme")
unfolding build_preview_row is_empty suggest_vendor_match vendor_profile strip value pick keep
    search_vendors or_text normalize label_for_vendor_row
preview_test = (refl, refl)

abbrev row_repo : RowRepository (List Contact)
row_repo = record {
  calls = repo;
  create_vendor_profile = λ form db. some ("v-2", db);
  apply_vendor_profile_update = λ vendor_id updates db. some [];
  create_offering = λ vendor_id form db. none;
  update_offering_fields = λ vendor_id offering_id updates db. none;
  create_project = λ vendor_id form db. none;
  get_project_vendor = λ project_id db. none;
  update_project = λ vendor_id project_id updates db. none;
}

abbrev known_row : Dict String String
known_row = ("support_email", "help@acme.com") ∷ []

-- A row that brings only a contact that is known is refused, after the contacts were loaded.
abbrev is_refused : Applied (List Contact) → Bool
is_refused (refused message s) = message == "No merge updates were provided for vendor row."
is_refused _ = false

apply_import_row_test :
    is_refused (apply_import_row row_repo "vendors" known_row "merge" "v-1" "" (new, resolved ∷ []))
    ≡ true
unfolding apply_import_row merge_vendor normalize updated vendor_updates_from_row vendor_done
    maybe_add_vendor_contact resolve_contact support_contact any contact_keys contains
    load_vendor_contact_keys new keys_of_rows contact_row_keys
apply_import_row_test = refl

apply_import_row-KeepsRefused_example :
    KeepsRefused
      (resolved ∷ [])
      (apply_import_row row_repo "vendors" known_row "merge" "v-1" "" (new, resolved ∷ []))
unfolding is_empty strip
apply_import_row-KeepsRefused_example =
    apply_import_row-KeepsRefused row_repo "vendors" known_row "merge" "v-1" "" new (resolved ∷ [])
      (λ key contact db db' id h.
        subst (λ (p : String × List Contact). is_empty (strip p.0) ≡ false) (some_inj _ (id, db') h)
          refl)
