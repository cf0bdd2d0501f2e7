-- ===== src/Imports/Reloading.antt =====
-- A later run of an import reads back the contacts that an earlier one stored.
use Prim.Native.String
use vendor_cat.Base.{String, false, some, List, ◌∷◌, ◌++◌, ◌≡◌, string_eq}
use vendor_cat.Base.Text.{strip, normalize, is_empty}
use vendor_cat.Imports.{Contact, Repository}

-- What a resolved contact looks like: its parts are stripped, and its type is not empty.
record IsResolved (contact : Contact) : Type 0 where
  name_stripped : strip contact.full_name ≡ contact.full_name
  type_stripped : strip contact.contact_type ≡ contact.contact_type
  type_named : is_empty contact.contact_type ≡ false
  email_stripped : strip contact.email ≡ contact.email
  phone_stripped : strip contact.phone ≡ contact.phone

-- The row that is stored for a contact: its parts stripped, and its type up to case and space.
pub record Stores (contact row : Contact) : Type 0 where
  pub name : row.full_name ≡ strip contact.full_name
  pub mail : row.email ≡ strip contact.email
  pub number : row.phone ≡ strip contact.phone
  pub kind : normalize row.contact_type ≡ normalize contact.contact_type

module _ {D : Type 0} (repo : Repository D) where
  -- A contact that the repository has added is among those that it lists.
  abbrev pub Listing : Type 0
  Listing =
      (key id : String) (contact : Contact) (db db' : D)
      → repo.add_vendor_contact key contact db ≡ some (id, db')
      → (xs : List Contact) × (row : Contact) × (ys : List Contact) × (repo.get_vendor_contacts key
            db'
          ≡ some (xs ++ row ∷ ys))
        × Stores contact row
