-- ===== src/RoleGrants.antt =====
-- Direct grants of roles to users (domains/admin/grants.py and the statements under
-- sql/updates and sql/inserts): rows of sec_user_role_map, the version of the security policy and the
-- audit of access. The user directory stands beside it as a function that answers
-- `resolve_user_id(…, allow_create=True)`, `none` where that is empty.
pub mod Single
pub mod GroupNames
pub mod Groups
pub mod Revoked
mod Tests
use vendor_cat.Base.{
  ℕ, ◌+◌, String, Bool, true, false, not, ◌&&◌, ◌||◌, Option, none, some, List, [], ◌∷◌, ◌++◌, map,
  keep, length, max, ◌==◌, string_eq, if◌then◌else◌,
}
use vendor_cat.Base.Text.{normalize, is_empty}

pub record RoleGrant : Type 0 where
  pub user_principal : String
  pub role_code : String
  pub active_flag : Bool
  pub granted_by : String
  pub granted_at : ℕ
  pub revoked_at : Option ℕ

-- A row of the audit of access.
pub record AccessEvent : Type 0 where
  pub actor : String
  pub action_type : String
  pub target_user : String
  pub target_role : String

pub record Access : Type 0 where
  pub grants : List RoleGrant
  pub policy_version : ℕ
  pub audit : List AccessEvent

pub data GrantError : Type 0 where
  unresolved : GrantError
  role_required : GrantError

abbrev is_null : Option ℕ → Bool
is_null none = true
is_null (some t) = false

-- active_flag = true AND revoked_at IS NULL
abbrev pub is_active : RoleGrant → Bool
is_active g = g.active_flag && is_null g.revoked_at

abbrev revoked : ℕ → RoleGrant → RoleGrant
revoked now g = record g { active_flag = false; revoked_at = some now }

-- updates/revoke_all_user_role_grants.sql
unfoldable pub revoke_all_user_role_grants : String → ℕ → List RoleGrant → List RoleGrant
revoke_all_user_role_grants user now grants =
    map (λ g. if g.user_principal == user && is_active g then revoked now g else g) grants

-- updates/revoke_role_grant.sql
unfoldable pub revoke_role_rows : String → String → ℕ → List RoleGrant → List RoleGrant
revoke_role_rows user role now grants =
    map
      (λ g.
        if g.user_principal == user && g.role_code == role && is_active g then revoked now g else g)
      grants

abbrev pub new_grant : String → String → String → ℕ → RoleGrant
new_grant user role by now = record {
  user_principal = user;
  role_code = normalize role;
  active_flag = true;
  granted_by = by;
  granted_at = now;
  revoked_at = none;
}

-- `_insert_role_grant`
unfoldable pub insert_role_grant :
    String → String → String → ℕ → List RoleGrant → Option GrantError × List RoleGrant
insert_role_grant user role by now grants =
    if is_empty (normalize role)
    then (some role_required, grants)
    else (none, grants ++ new_grant user role by now ∷ [])

-- The new version is above the one that `get_security_policy_version` reads, which is at least 1.
unfoldable pub bump_security_policy_version : Access → Access
bump_security_policy_version a = record a { policy_version = max 1 (max 1 a.policy_version + 1) }

-- `_audit_access`
unfoldable pub audit_access : String → String → String → String → Access → Access
audit_access actor action user role a = record a {
  audit =
      a.audit
      ++ record { actor = actor; action_type = action; target_user = user; target_role = role }
        ∷ [];
}

-- The part of `grant_role` and `change_role_grant` below their checks: the insertion may raise after
-- the revocation.
unfoldable pub replace_roles :
    String → String → String → String → ℕ → Access → Option GrantError × Access
unfolding revoke_all_user_role_grants insert_role_grant bump_security_policy_version audit_access
replace_roles action user role by now a =
    let (error, rows) =
      insert_role_grant user role by now (revoke_all_user_role_grants user now a.grants) in
    let a' = record a { grants = rows } in
    elim error [
      | some e ↦ (some e, a')
      | none ↦ (none, audit_access by action user role (bump_security_policy_version a'))
    ]

module _ (resolve_user_id : String → Option String) where
  unfoldable pub grant_role : String → String → String → ℕ → Access → Option GrantError × Access
  unfolding replace_roles
  grant_role target role granted_by now a = elim (resolve_user_id target) [
    | none ↦ (some unresolved, a)
    | some user ↦ elim (resolve_user_id granted_by) [
      | none ↦ (some unresolved, a)
      | some by ↦ replace_roles "grant_role" user (normalize role) by now a
    ]
  ]

  -- The checks of `change_role_grant` between the directory and the change.
  change_checked : String → String → String → String → ℕ → Access → Option GrantError × Access
  unfolding replace_roles
  change_checked user current new by now a =
      if is_empty current || is_empty new
      then (some role_required, a)
      else if current == new
      then (none, a)
      else replace_roles "change_role" user new by now a

  unfoldable pub change_role_grant :
      String → String → String → String → ℕ → Access → Option GrantError × Access
  unfolding change_checked
  change_role_grant target current_role new_role granted_by now a = elim (resolve_user_id target) [
    | none ↦ (some unresolved, a)
    | some user ↦ elim (resolve_user_id granted_by) [
      | none ↦ (some unresolved, a)
      | some by ↦ change_checked user (normalize current_role) (normalize new_role) by now a
    ]
  ]

  unfoldable pub revoke_role_grant :
      String → String → String → ℕ → Access → Option GrantError × Access
  unfolding revoke_role_rows bump_security_policy_version audit_access
  revoke_role_grant target role_code revoked_by now a = elim (resolve_user_id target) [
    | none ↦ (some unresolved, a)
    | some user ↦ elim (resolve_user_id revoked_by) [
      | none ↦ (some unresolved, a)
      | some by ↦
          let role = normalize role_code in
          if is_empty role then (some role_required, a) else (
            none,
            audit_access by "revoke_role" user role (
                bump_security_policy_version
                  (record a { grants = revoke_role_rows user role now a.grants })),
          )
    ]
  ]
