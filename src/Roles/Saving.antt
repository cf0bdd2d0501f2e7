-- ===== src/Roles/Saving.antt =====
-- domains/admin/policy.py: saving a role definition and replacing the permissions of a role. Both raise
-- the version of the policy; `none` is the error for a role without a code. The name, the description
-- and the times of a row are not read by the policy and are left out.
use vendor_cat.Base.{
  ℕ, ◌+◌, String, Bool, true, false, Option, none, some, List, [], ◌∷◌, ◌++◌, map, any, contains,
  keep, max, min, ◌==◌, string_eq, if◌then◌else◌,
}
use vendor_cat.Base.Text.{normalize, is_empty}
use vendor_cat.Base.Dict.{keys}
use vendor_cat.Workflow.Payload.{ℤ, pos, negsuc}
use vendor_cat.Roles.Levels.{change_approval_levels, max_approval_level}
use vendor_cat.Roles.Policy.{RoleRow, PermissionRow}

pub record PolicyTables : Type 0 where
  pub definitions : List RoleRow
  pub permissions : List PermissionRow
  pub policy_version : ℕ

abbrev pub bumped : ℕ → ℕ
bumped version = max 1 (max 1 version + 1)

-- max(MIN_APPROVAL_LEVEL, min(int(approval_level or 0), MAX_APPROVAL_LEVEL))
abbrev pub clamped_level : ℤ → ℕ
clamped_level (pos n) = min n max_approval_level
clamped_level (negsuc n) = 0

abbrev pub has_role : String → RoleRow → Bool
has_role role_key row = row.role_code == role_key

-- `save_role_definition`: an UPDATE of the rows of the role, or an INSERT if there is none
unfoldable pub save_role_definition :
    String → ℤ → Bool → Bool → Bool → PolicyTables → Option PolicyTables
save_role_definition role_code approval_level can_edit can_report can_direct_apply t =
    let role_key = normalize role_code in
    let saved : RoleRow = record {
      role_code = role_key;
      approval_level = clamped_level approval_level;
      can_edit = can_edit;
      can_report = can_report;
      can_direct_apply = can_direct_apply;
      active_flag = true;
    } in
    let rows =
      if any (has_role role_key) t.definitions
      then map (λ row. if has_role role_key row then saved else row) t.definitions
      else t.definitions ++ saved ∷ [] in
    if is_empty role_key
    then none
    else some (record t { definitions = rows; policy_version = bumped t.policy_version })

-- updates/deactivate_role_permissions_by_role.sql
unfoldable pub deactivate_role_permissions : String → List PermissionRow → List PermissionRow
deactivate_role_permissions role_key rows =
    map (λ row. if row.role_code == role_key then record row { active_flag = false } else row) rows

-- The set of the known actions among the given ones, in the order of the table of levels
unfoldable pub known_actions : List String → List String
unfolding keep contains
known_actions action_codes =
    keep (contains (map normalize action_codes)) (keys change_approval_levels)

abbrev pub permission_row : String → String → PermissionRow
permission_row role_key action_code = record {
  role_code = role_key;
  object_name = "change_action";
  action_code = action_code;
  active_flag = true;
}

-- `replace_role_permissions`
unfoldable pub replace_role_permissions : String → List String → PolicyTables → Option PolicyTables
replace_role_permissions role_code action_codes t =
    let role_key = normalize role_code in
    if is_empty role_key
    then none
    else some (record t {
      permissions =
          deactivate_role_permissions role_key t.permissions
          ++ map (permission_row role_key) (known_actions action_codes);
      policy_version = bumped t.policy_version;
    })
