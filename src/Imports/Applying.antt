-- ===== src/Imports/Applying.antt =====
-- web/routers/imports/apply_ops.py: `ImportApplyContext`, which adds what an imported row brings unless
-- the record has it already. The sets of keys are lists of which only membership is read. The actor
-- and the annual value of a contract, which the repository only stores, are left out.
use vendor_cat.Base.{
  String, ◌||◌, Option, none, some, List, [], ◌∷◌, ◌++◌, contains, ◌==◌, BoolEq, string_eq, pair_eq,
  if◌then◌else◌,
}
use vendor_cat.Base.Text.{strip, normalize, lower, is_empty, or_text}
use vendor_cat.Base.Dict.{Dict, lookup, insert}
use vendor_cat.Imports.{
  Contact, Owner, Contract, Repository, contact_row_keys, contact_keys, is_known, resolve_contact,
  owner_key, owner_row_keys, resolve_owner,
}

pub record ApplyContext : Type 0 where
  pub vendor_contact_keys : Dict String (List String)
  pub vendor_owner_keys : Dict String (List String)
  pub offering_owner_keys : Dict (String × String) (List String)
  pub offering_contact_keys : Dict (String × String) (List String)
  pub vendor_contract_number_keys : Dict String (List String)
  pub offering_vendor_id_cache : Dict String String

-- `__init__`
unfoldable pub new : ApplyContext
new = record {
  vendor_contact_keys = [];
  vendor_owner_keys = [];
  offering_owner_keys = [];
  offering_contact_keys = [];
  vendor_contract_number_keys = [];
  offering_vendor_id_cache = [];
}

-- The keys of all rows; there are none where the query for them raises.
unfoldable pub keys_of_rows : {R : Type 0} → (R → List String) → Option (List R) → List String
keys_of_rows keys none = []
keys_of_rows keys (some []) = []
keys_of_rows keys (some (row ∷ rows)) = keys row ++ keys_of_rows keys (some rows)

-- The keys under a name of a table: those that are kept, or else those of the rows.
abbrev pub kept_or :
    {K : Type 0} ⦃e : BoolEq K⦄ → K → Dict K (List String) → List String → List String
kept_or key table loaded = elim (lookup key table) [ none ↦ loaded | some keys ↦ keys ]

abbrev pub of_offering : {R : Type 0} → String → (R → List String) → String × R → List String
of_offering offering_key keys (offering_id, row) =
    if strip offering_id == offering_key then keys row else []

module _ {D : Type 0} (repo : Repository D) where
  -- `_load_vendor_contact_keys`, for a key that is not empty
  unfoldable pub load_vendor_contact_keys : String → ApplyContext × D → List String
  load_vendor_contact_keys key (ctx, db) =
      kept_or key ctx.vendor_contact_keys
        (keys_of_rows contact_row_keys (repo.get_vendor_contacts key db))

  -- `_load_vendor_owner_keys`
  unfoldable pub load_vendor_owner_keys : String → ApplyContext × D → List String
  load_vendor_owner_keys key (ctx, db) =
      kept_or key ctx.vendor_owner_keys
        (keys_of_rows owner_row_keys (repo.get_vendor_business_owners key db))

  -- `_load_offering_owner_keys`
  unfoldable pub load_offering_owner_keys : String → String → ApplyContext × D → List String
  load_offering_owner_keys vendor_key offering_key (ctx, db) =
      kept_or (vendor_key, offering_key) ctx.offering_owner_keys
        (keys_of_rows (of_offering offering_key owner_row_keys)
          (repo.get_vendor_offering_business_owners vendor_key db))

  -- `_load_offering_contact_keys`
  unfoldable pub load_offering_contact_keys : String → String → ApplyContext × D → List String
  load_offering_contact_keys vendor_key offering_key (ctx, db) =
      kept_or (vendor_key, offering_key) ctx.offering_contact_keys
        (keys_of_rows (of_offering offering_key contact_row_keys)
          (repo.get_vendor_offering_contacts vendor_key db))

  abbrev pub number_keys : String → List String
  number_keys number = let n = normalize number in if is_empty n then [] else n ∷ []

  -- `_load_vendor_contract_keys`
  unfoldable pub load_vendor_contract_keys : String → ApplyContext × D → List String
  load_vendor_contract_keys key (ctx, db) =
      kept_or key ctx.vendor_contract_number_keys
        (keys_of_rows number_keys (repo.get_vendor_contracts key db))

  -- `resolve_offering_vendor_id`
  unfoldable pub resolve_offering_vendor_id :
      String → ApplyContext × D → String × (ApplyContext × D)
  resolve_offering_vendor_id offering_id (ctx, db) =
      let key = strip offering_id in
      let found : String = elim (repo.get_offering_vendor key db) [
        | some (some vendor_id) ↦ strip vendor_id
        | _ ↦ ""
      ] in
      if is_empty key then ("", (ctx, db)) else elim (lookup key ctx.offering_vendor_id_cache) [
        | some vendor_id ↦ (vendor_id, (ctx, db))
        | none ↦ (
          found,
          (
            record ctx { offering_vendor_id_cache = insert key found ctx.offering_vendor_id_cache },
            db,
          ),
        )
      ]

  -- What an addition comes to: the new id, none where nothing is added, with the context that keeps
  -- `keys` from now on; `none` where the repository raises.
  abbrev pub Added : Type 0
  Added = Option (String × (ApplyContext × D))

  abbrev pub added : ApplyContext → Option (String × D) → Added
  added ctx none = none
  added ctx (some (new_id, db)) = some (strip new_id, (ctx, db))

  -- `maybe_add_vendor_contact`
  unfoldable pub maybe_add_vendor_contact : String → Contact → ApplyContext × D → Added
  maybe_add_vendor_contact vendor_id given (ctx, db) =
      let key = strip vendor_id in
      if is_empty key
      then some ("", (ctx, db))
      else elim (resolve_contact "Support Contact" given) [
        | none ↦ some ("", (ctx, db))
        | some contact ↦
            let keys = load_vendor_contact_keys key (ctx, db) in
            let keeping : List String → ApplyContext =
              λ ks. record ctx { vendor_contact_keys = insert key ks ctx.vendor_contact_keys } in
            if is_known keys (contact_keys contact)
            then some ("", (keeping keys, db))
            else added (keeping (contact_keys contact ++ keys))
                (repo.add_vendor_contact key contact db)
      ]

  -- `maybe_add_offering_contact`
  unfoldable pub maybe_add_offering_contact : String → String → Contact → ApplyContext × D → Added
  maybe_add_offering_contact vendor_id offering_id given (ctx, db) =
      let key = strip vendor_id in
      let offering_key = strip offering_id in
      if is_empty key || is_empty offering_key
      then some ("", (ctx, db))
      else elim (resolve_contact "Offering Contact" given) [
        | none ↦ some ("", (ctx, db))
        | some contact ↦
            let keys = load_offering_contact_keys key offering_key (ctx, db) in
            let keeping : List String → ApplyContext = λ ks. record ctx {
              offering_contact_keys = insert (key, offering_key) ks ctx.offering_contact_keys;
            } in
            if is_known keys (contact_keys contact)
            then some ("", (keeping keys, db))
            else added (keeping (contact_keys contact ++ keys))
                (repo.add_offering_contact key offering_key contact db)
      ]

  -- `maybe_add_vendor_owner`
  unfoldable pub maybe_add_vendor_owner : String → Owner → ApplyContext × D → Added
  maybe_add_vendor_owner vendor_id given (ctx, db) =
      let key = strip vendor_id in
      let owner = resolve_owner given in
      let dedupe_key = owner_key owner.owner_user_principal owner.owner_role in
      let keys = load_vendor_owner_keys key (ctx, db) in
      let keeping : List String → ApplyContext =
        λ ks. record ctx { vendor_owner_keys = insert key ks ctx.vendor_owner_keys } in
      if is_empty key || is_empty owner.owner_user_principal
      then some ("", (ctx, db))
      else if contains keys dedupe_key
      then some ("", (keeping keys, db))
      else added (keeping (dedupe_key ∷ keys)) (repo.add_vendor_owner key owner db)

  -- `maybe_add_offering_owner`
  unfoldable pub maybe_add_offering_owner : String → String → Owner → ApplyContext × D → Added
  maybe_add_offering_owner vendor_id offering_id given (ctx, db) =
      let key = strip vendor_id in
      let offering_key = strip offering_id in
      let owner = resolve_owner given in
      let dedupe_key = owner_key owner.owner_user_principal owner.owner_role in
      let keys = load_offering_owner_keys key offering_key (ctx, db) in
      let keeping : List String → ApplyContext = λ ks. record ctx {
        offering_owner_keys = insert (key, offering_key) ks ctx.offering_owner_keys;
      } in
      if is_empty key || is_empty offering_key || is_empty owner.owner_user_principal
      then some ("", (ctx, db))
      else if contains keys dedupe_key
      then some ("", (keeping keys, db))
      else added (keeping (dedupe_key ∷ keys)) (repo.add_offering_owner key offering_key owner db)

  -- `maybe_create_contract`
  unfoldable pub maybe_create_contract : String → Contract → ApplyContext × D → Added
  maybe_create_contract vendor_id given (ctx, db) =
      let key = strip vendor_id in
      let number = strip given.contract_number in
      let keys = load_vendor_contract_keys key (ctx, db) in
      let keeping : List String → ApplyContext = λ ks. record ctx {
        vendor_contract_number_keys = insert key ks ctx.vendor_contract_number_keys;
      } in
      if is_empty key || is_empty number
      then some ("", (ctx, db))
      else if contains keys (lower number)
      then some ("", (keeping keys, db))
      else added (keeping (lower number ∷ keys)) (
          repo.create_contract key
            (record {
              offering_id = strip given.offering_id;
              contract_number = number;
              contract_status = or_text (strip given.contract_status) "active";
              start_date = strip given.start_date;
              end_date = strip given.end_date;
            })
            db)
