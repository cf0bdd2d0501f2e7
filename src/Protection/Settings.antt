-- ===== src/Protection/Settings.antt =====
-- domains/repository_identity.py: `get_user_setting` and `save_user_setting`, for the settings under one
-- key. A row is the value of a user reference; its JSON text and the times are left out, since the text
-- is read back as the value that was written. The directory answers from outside: `none` where
-- `resolve_user_id` raises, `some none` where it finds no user. Of the cache of the repository only the
-- entries of these settings are kept.
use vendor_cat.Base.{ℕ, String, Bool, not, Option, none, some, string_eq, if◌then◌else◌}
use vendor_cat.Base.Dict.{Dict, lookup, insert, remove}
use vendor_cat.Cache.{Cache, clear, probe, get_or_load}

pub record Settings (V : Type 0) : Type 0 where
  pub rows : Dict String V
  pub cache : Cache String (Option V)

-- resolve_user_id(...) or user_principal
abbrev pub user_ref : (String → Option (Option String)) → String → Option String
user_ref resolve_user_id principal = elim (resolve_user_id principal) [
  | none ↦ none
  | some found ↦ elim found [ none ↦ some principal | some ref ↦ some ref ]
]

module _ {V : Type 0} where
  -- The read of `get_user_setting` through the cache, at `now`: the setting, `some none` where there is
  -- none, and `none` where the query is made and fails.
  unfoldable pub read_cached : Bool → ℕ → String → Settings V → Option (Option V) × Settings V
  read_cached reads now ref s =
      let missed = probe s.cache ref now in
      let loaded = get_or_load s.cache ref (lookup ref s.rows) (some 300) now now in
      if reads
      then (some loaded.0, record s { cache = loaded.1 })
      else if not s.cache.enabled
      then (none, s)
      else elim missed.0 [
        | some value ↦ (some value, record s { cache = missed.1 })
        | none ↦ (none, record s { cache = missed.1 })
      ]

  -- `get_user_setting`; `reads` says whether its query succeeds
  unfoldable pub get_user_setting :
      (String → Option (Option String))
      → Bool
      → ℕ
      → String
      → Settings V
      → Option (Option V) × Settings V
  get_user_setting resolve_user_id reads now principal s =
      elim (user_ref resolve_user_id principal) [
        | none ↦ (none, s)
        | some ref ↦ read_cached reads now ref s
      ]

  -- `save_user_setting`; `deletes` and `inserts` say whether its statements succeed. It raises only where
  -- the directory does: an error of a statement is logged, and the method returns.
  unfoldable pub save_user_setting :
      (String → Option (Option String))
      → Bool
      → Bool
      → String
      → V
      → Settings V
      → Option (Settings V)
  save_user_setting resolve_user_id deletes inserts principal value s =
      elim (user_ref resolve_user_id principal) [
        | none ↦ none
        | some ref ↦
            if not deletes
            then some s
            else if not inserts
            then some (record s { rows = remove ref s.rows })
            else some
                (record { rows = insert ref value (remove ref s.rows); cache = clear s.cache })
      ]
