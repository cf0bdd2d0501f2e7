-- ===== src/RoleGrants/Tests.antt =====
-- Grants of roles at a concrete directory and table.
use vendor_cat.Base.{
  String, true, false, not, any, ◌&&◌, ◌++◌, Option, none, some, [], ◌∷◌, ◌≡◌, refl, arith, keep,
  ◌==◌, string_eq, if◌then◌else◌,
}
use vendor_cat.Base.Text.{normalize, strip, is_empty}
use vendor_cat.RoleGrants.Groups.{
  Groups, new_group_grant, revoke_group_role_grant, grant_org_scope, revoke_org_scope,
  revoke_scope_rows,
}
use vendor_cat.RoleGrants.GroupNames.{normalize_group_principal}
use vendor_cat.RoleGrants.Revoked.{
  holds, other_grant, scope_grant, revoke_group_role_grant-revoked, revoke_org_scope-granted,
}
use vendor_cat.RoleGrants.{
  RoleGrant, Access, role_required, new_grant, grant_role, change_role_grant, revoke_role_grant,
}
use vendor_cat.RoleGrants.Single.{IsSingle, active_grants, operations-IsSingle, grant_role_lem}

abbrev directory : String → Option String
directory user = if is_empty user then none else some user

abbrev held : RoleGrant
held = record {
  user_principal = "ada";
  role_code = "vendor_editor";
  active_flag = true;
  granted_by = "root";
  granted_at = 1;
  revoked_at = none;
}

abbrev access : Access
access = record { grants = held ∷ []; policy_version = 4; audit = [] }

-- The former role is revoked, and the version goes up.
grant_test :
    ((grant_role directory "ada" "Vendor_Viewer" "root" 9 access).1.policy_version ≡ 5)
    × (active_grants "ada" (grant_role directory "ada" "Vendor_Viewer" "root" 9 access).1.grants
        ≡ new_grant "ada" "vendor_viewer" "root" 9 ∷ [])
unfolding grant_role active_grants normalize is_empty
grant_test = (refl, refl)

access-IsSingle : IsSingle access
unfolding active_grants keep
access-IsSingle user = ground arith

operations-IsSingle_example :
    IsSingle (grant_role directory "ada" "vendor_viewer" "root" 9 access).1
    × IsSingle
        (change_role_grant directory "ada" "vendor_viewer" "vendor_auditor" "root" 9 access).1
    × IsSingle (revoke_role_grant directory "ada" "vendor_viewer" "root" 9 access).1
operations-IsSingle_example =
    operations-IsSingle directory "ada" "vendor_viewer" "vendor_auditor" "root" 9 access
      access-IsSingle

grant_role_lem_example :
    ((u : String)
      → active_grants u (grant_role directory "ada" " " "root" 9 access).1.grants ≡ (
          if "ada" == u
          then if is_empty (normalize (normalize " "))
            then []
            else new_grant "ada" (normalize " ") "root" 9 ∷ []
          else active_grants u access.grants))
    × ((grant_role directory "ada" " " "root" 9 access).0
        ≡ (if is_empty (normalize (normalize " ")) then some role_required else none))
unfolding is_empty
grant_role_lem_example = grant_role_lem directory "ada" " " "root" "ada" "root" 9 access refl refl

normalize_test :
    (normalize_group_principal " Group:Data  Team! " ≡ "group:data_team")
    × (normalize_group_principal "x" ≡ "")
unfolding normalize_group_principal
normalize_test = (refl, refl)

abbrev groups : Groups
groups = record {
  access = access;
  group_grants = new_group_grant "group:ops" "vendor_editor" "root" 1 ∷ [];
  scope_grants = [];
}

group_test :
    (revoke_group_role_grant directory "Group:Ops" "Vendor_Editor" "root" 7 groups).0 ≡ none
unfolding revoke_group_role_grant is_empty normalize_group_principal
group_test = refl

revoke_group_role_grant-revoked_example :
    let rows =
      (revoke_group_role_grant directory "Group:Ops" "Vendor_Editor" "root" 7
        groups).1.group_grants in
    let group = normalize_group_principal "Group:Ops" in
    let role = normalize "Vendor_Editor" in
    (any (holds group role) rows ≡ false)
    × (keep (other_grant group role) rows ≡ keep (other_grant group role) groups.group_grants)
revoke_group_role_grant-revoked_example =
    revoke_group_role_grant-revoked directory "Group:Ops" "Vendor_Editor" "root" 7 groups group_test

revoke_org_scope-granted_example :
    let granted = (grant_org_scope directory "ada" "lob-1" "Edit" "root" 2 groups).1 in
    let undone = revoke_org_scope directory "ada" "lob-1" "Edit" "root" granted in
    (undone.0 ≡ none)
    × (undone.1.scope_grants
        ≡ revoke_scope_rows "ada" (strip "lob-1") (normalize "Edit") groups.scope_grants
          ++ scope_grant "ada" "lob-1" "Edit" 2
              (not ("lob-1" == strip "lob-1" && "Edit" == normalize "Edit"))
            ∷ [])
revoke_org_scope-granted_example =
    revoke_org_scope-granted directory "ada" "lob-1" "Edit" "root" "ada" "root" 2 groups
      (unfold is_empty in refl) (unfold is_empty in refl) (unfold strip is_empty in refl)
      (unfold normalize is_empty in refl)
