-- ===== src/RoleGrants/Groups.antt =====
-- domains/admin/grants.py: roles of groups and scopes of organization, with the statements under
-- sql/inserts and sql/updates. They raise the same version of the policy and write to the same audit
-- as the direct grants, in the state `Access`.
use vendor_cat.Base.{
  ℕ, String, Bool, true, false, ◌&&◌, ◌||◌, Option, none, some, List, [], ◌∷◌, ◌++◌, map, ◌==◌,
  string_eq, if◌then◌else◌,
}
use vendor_cat.Base.Text.{normalize, lower, strip, is_empty}
use vendor_cat.RoleGrants.{Access, bump_security_policy_version, audit_access}
use vendor_cat.RoleGrants.GroupNames.{normalize_group_principal}

pub record GroupGrant : Type 0 where
  pub group_principal : String
  pub role_code : String
  pub active_flag : Bool
  pub granted_by : String
  pub granted_at : ℕ
  pub revoked_at : Option ℕ

pub record ScopeGrant : Type 0 where
  pub user_principal : String
  pub org_id : String
  pub scope_level : String
  pub active_flag : Bool
  pub granted_at : ℕ

-- The tables beside those of `Access`.
pub record Groups : Type 0 where
  pub access : Access
  pub group_grants : List GroupGrant
  pub scope_grants : List ScopeGrant

pub data GroupError : Type 0 where
  group_required : GroupError
  group_role_required : GroupError
  actor_unresolved : GroupError
  user_unresolved : GroupError
  scope_required : GroupError

abbrev is_null : Option ℕ → Bool
is_null none = true
is_null (some t) = false

abbrev pub is_active : GroupGrant → Bool
is_active g = g.active_flag && is_null g.revoked_at

abbrev pub of_group : String → String → GroupGrant → Bool
of_group group role g = lower g.group_principal == lower group && g.role_code == role

-- updates/revoke_group_role_grant.sql
unfoldable pub revoke_group_rows : String → String → ℕ → List GroupGrant → List GroupGrant
revoke_group_rows group role now grants =
    map
      (λ g.
        if of_group group role g && is_active g
        then record g { active_flag = false; revoked_at = some now }
        else g)
      grants

abbrev pub new_group_grant : String → String → String → ℕ → GroupGrant
new_group_grant group role by now = record {
  group_principal = group;
  role_code = role;
  active_flag = true;
  granted_by = by;
  granted_at = now;
  revoked_at = none;
}

-- `_insert_group_role_grant`, which normalizes the group once more
unfoldable pub insert_group_role_grant :
    String → String → String → ℕ → List GroupGrant → Option GroupError × List GroupGrant
insert_group_role_grant group_principal role_code by now grants =
    let group = normalize_group_principal group_principal in
    let role = normalize role_code in
    if is_empty group
    then (some group_required, grants)
    else if is_empty role
    then (some group_role_required, grants)
    else (none, grants ++ new_group_grant group role by now ∷ [])

-- The version and the audit after a change of the tables.
abbrev pub audited : String → String → String → String → Access → Access
audited by action user role a = audit_access by action user role (bump_security_policy_version a)

abbrev pub with_groups : List GroupGrant → String → String → String → Groups → Groups
with_groups rows by action role s = record s {
  access = audited by action "" role s.access;
  group_grants = rows;
}

abbrev pub with_scopes : List ScopeGrant → String → String → String → Groups → Groups
with_scopes rows by action user s = record s {
  access = audited by action user "" s.access;
  scope_grants = rows;
}

-- The end of `grant_group_role` and `change_group_role_grant`: the insertion may raise after what was
-- revoked.
abbrev pub inserted :
    Option GroupError × List GroupGrant
    → String
    → String
    → String
    → Groups
    → Option GroupError × Groups
inserted (none, rows) by action role s = (none, with_groups rows by action role s)
inserted (some e, rows) by action role s = (some e, record s { group_grants = rows })

-- updates/revoke_org_scope_grant.sql
unfoldable pub revoke_scope_rows : String → String → String → List ScopeGrant → List ScopeGrant
revoke_scope_rows user org_id scope_level grants =
    map
      (λ g.
        if g.user_principal == user
          && g.org_id == org_id
          && g.scope_level == scope_level
          && g.active_flag
        then record g { active_flag = false }
        else g)
      grants

module _ (resolve_user_id : String → Option String) where
  -- `grant_group_role`
  unfoldable pub grant_group_role :
      String → String → String → ℕ → Groups → Option GroupError × Groups
  grant_group_role group_principal role_code granted_by now s =
      let group = normalize_group_principal group_principal in
      let role = normalize role_code in
      if is_empty group
      then (some group_required, s)
      else if is_empty role
      then (some group_role_required, s)
      else elim (resolve_user_id granted_by) [
        | none ↦ (some actor_unresolved, s)
        | some by ↦
            inserted (insert_group_role_grant group role by now s.group_grants) by
              "grant_group_role" role s
      ]

  -- `change_group_role_grant`
  unfoldable pub change_group_role_grant :
      String → String → String → String → ℕ → Groups → Option GroupError × Groups
  change_group_role_grant group_principal current_role_code new_role_code granted_by now s =
      let group = normalize_group_principal group_principal in
      let current = normalize current_role_code in
      let role = normalize new_role_code in
      if is_empty group
      then (some group_required, s)
      else if is_empty current || is_empty role
      then (some group_role_required, s)
      else elim (resolve_user_id granted_by) [
        | none ↦ (some actor_unresolved, s)
        | some by ↦
            if current == role
            then (none, s)
            else inserted
                (insert_group_role_grant group role by now
                  (revoke_group_rows group current now s.group_grants))
                by "change_group_role" role s
      ]

  -- `revoke_group_role_grant`
  unfoldable pub revoke_group_role_grant :
      String → String → String → ℕ → Groups → Option GroupError × Groups
  revoke_group_role_grant group_principal role_code revoked_by now s =
      let group = normalize_group_principal group_principal in
      let role = normalize role_code in
      if is_empty group
      then (some group_required, s)
      else if is_empty role
      then (some group_role_required, s)
      else elim (resolve_user_id revoked_by) [
        | none ↦ (some actor_unresolved, s)
        | some by ↦ (
          none,
          with_groups (revoke_group_rows group role now s.group_grants) by "revoke_group_role" role
              s,
        )
      ]

  -- `grant_org_scope`
  unfoldable pub grant_org_scope :
      String → String → String → String → ℕ → Groups → Option GroupError × Groups
  grant_org_scope target org_id scope_level granted_by now s = elim (resolve_user_id target) [
    | none ↦ (some user_unresolved, s)
    | some user ↦ elim (resolve_user_id granted_by) [
      | none ↦ (some user_unresolved, s)
      | some by ↦
          let granted : ScopeGrant = record {
            user_principal = user;
            org_id = org_id;
            scope_level = scope_level;
            active_flag = true;
            granted_at = now;
          } in
          (none, with_scopes (s.scope_grants ++ granted ∷ []) by "grant_scope" user s)
    ]
  ]

  -- `revoke_org_scope`
  unfoldable pub revoke_org_scope :
      String → String → String → String → Groups → Option GroupError × Groups
  revoke_org_scope target org_id scope_level revoked_by s = elim (resolve_user_id target) [
    | none ↦ (some user_unresolved, s)
    | some user ↦ elim (resolve_user_id revoked_by) [
      | none ↦ (some user_unresolved, s)
      | some by ↦
          let org_key = strip org_id in
          let scope_key = normalize scope_level in
          if is_empty org_key || is_empty scope_key then (some scope_required, s) else (
            none,
            with_scopes (revoke_scope_rows user org_key scope_key s.scope_grants) by "revoke_scope"
                user s,
          )
    ]
  ]
