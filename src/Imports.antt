-- ===== src/Imports.antt =====
-- web/routers/imports: how the rows of an imported file are matched with records and applied to the
-- repository. `Repository` has the calls that the import makes of it, over a state `D`; `none` is a call
-- that raises. The class has all of them, so the tests with `hasattr` are left out. Missing values of a
-- row and empty ones are both the empty text, as `str(row.get(key) or "")` makes them.
pub mod Applying
pub mod Duplicates
pub mod Reloading
pub mod Previews
pub mod Waiting
pub mod Ages
pub mod Lasting
pub mod Uses
pub mod Matching
pub mod Searches
pub mod Suggestions
pub mod Options
pub mod PreviewRows
pub mod Offered
pub mod Rows
pub mod Refused
pub mod Tests
use Prim.Native.String.{count, ◌++◌ as append}
use vendor_cat.Base.{
  ℕ, String, Bool, true, false, not, ◌&&◌, ◌||◌, Option, none, some, List, [], ◌∷◌, ◌++◌, leb, any,
  contains, string_eq, if◌then◌else◌,
}
use vendor_cat.Base.Text.{strip, lower, normalize, is_empty, or_text}
use vendor_cat.Base.Patterns.{keep_chars, is_digit}

-- `_normalize_email`
unfoldable pub normalize_email : String → String
unfolding normalize
normalize_email value = normalize value

-- `_normalize_phone`
unfoldable pub normalize_phone : String → String
unfolding keep_chars
normalize_phone value = keep_chars is_digit value

pub record Contact : Type 0 where
  pub full_name : String
  pub contact_type : String
  pub email : String
  pub phone : String

pub record Owner : Type 0 where
  pub owner_user_principal : String
  pub owner_role : String

pub record Contract : Type 0 where
  pub offering_id : String
  pub contract_number : String
  pub contract_status : String
  pub start_date : String
  pub end_date : String

-- The keys by which two contacts count as the same: of an address, a number and a name, each normalized.
unfoldable pub email_keys : String → List String
unfolding is_empty
email_keys email = if is_empty email then [] else append "email:" email ∷ []

unfoldable pub phone_keys : String → List String
phone_keys phone = if leb 7 (count phone) then append "phone:" phone ∷ [] else []

unfoldable pub name_keys : String → String → List String
unfolding is_empty
name_keys name contact_type =
    if is_empty name then [] else append "name_type:" (append name (append "|" contact_type)) ∷ []

-- The keys of a stored contact, in `_load_vendor_contact_keys` and `_load_offering_contact_keys`
unfoldable pub contact_row_keys : Contact → List String
unfolding normalize_email normalize_phone normalize or_text email_keys phone_keys name_keys
contact_row_keys row =
    email_keys (normalize_email row.email)
    ++ phone_keys (normalize_phone row.phone)
    ++ name_keys (normalize row.full_name)
        (or_text (normalize (or_text row.contact_type "business")) "business")

-- The keys that `maybe_add_vendor_contact` and `maybe_add_offering_contact` look for and add
unfoldable pub contact_keys : Contact → List String
unfolding normalize_email normalize_phone lower email_keys phone_keys name_keys
contact_keys contact =
    email_keys (normalize_email contact.email)
    ++ phone_keys (normalize_phone contact.phone)
    ++ name_keys (lower contact.full_name) (lower contact.contact_type)

abbrev pub is_known : List String → List String → Bool
is_known keys wanted = any (contains keys) wanted

-- The contact that is looked for: `none` where neither a name, nor an address, nor a number is given.
unfoldable pub resolve_contact : String → Contact → Option Contact
unfolding strip or_text is_empty
resolve_contact fallback given =
    let name = strip given.full_name in
    let email = strip given.email in
    let phone = strip given.phone in
    let kind = or_text (strip (or_text given.contact_type "business")) "business" in
    if is_empty name && is_empty email && is_empty phone
    then none
    else some (record {
      full_name = or_text name (or_text email fallback);
      contact_type = kind;
      email = email;
      phone = phone;
    })

-- f"{owner.lower()}|{role.lower()}"
unfoldable pub owner_key : String → String → String
unfolding lower
owner_key owner role = append (lower owner) (append "|" (lower role))

-- The keys of a stored owner
unfoldable pub owner_row_keys : Owner → List String
unfolding normalize or_text is_empty
owner_row_keys row =
    let owner = normalize row.owner_user_principal in
    let role = or_text (normalize (or_text row.owner_role "business_owner")) "business_owner" in
    if is_empty owner then [] else append owner (append "|" role) ∷ []

-- The owner that is looked for
unfoldable pub resolve_owner : Owner → Owner
unfolding strip or_text
resolve_owner given = record {
  owner_user_principal = strip given.owner_user_principal;
  owner_role = or_text (strip (or_text given.owner_role "business_owner")) "business_owner";
}

pub record Repository (D : Type 0) : Type 0 where
  pub get_vendor_contacts : String → D → Option (List Contact)
  pub get_vendor_business_owners : String → D → Option (List Owner)
  pub get_vendor_offering_contacts : String → D → Option (List (String × Contact))
  pub get_vendor_offering_business_owners : String → D → Option (List (String × Owner))
  pub get_vendor_contracts : String → D → Option (List String)
  pub get_offering_vendor : String → D → Option (Option String)
  pub add_vendor_contact : String → Contact → D → Option (String × D)
  pub add_vendor_owner : String → Owner → D → Option (String × D)
  pub add_offering_contact : String → String → Contact → D → Option (String × D)
  pub add_offering_owner : String → String → Owner → D → Option (String × D)
  pub create_contract : String → Contract → D → Option (String × D)
