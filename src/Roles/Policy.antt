-- ===== src/Roles/Policy.antt =====
-- The role policy of the repository (domains/admin/policy.py and common/core/lookup_schema.py): role
-- definitions and permissions are rows of two tables, merged with the built-in defaults.
use vendor_cat.Base.{
  ℕ, String, Bool, true, false, not, ◌&&◌, ◌||◌, none, some, List, [], ◌∷◌, ◌++◌, map, any,
  contains, keep, ltb, max, string_eq, if◌then◌else◌,
}
use vendor_cat.Base.Text.{normalize, strip, is_empty, or_text}
use vendor_cat.Base.Dict.{Dict, keys, lookup, insert}
use vendor_cat.Roles.Levels.{
  RoleDefinition, role_admin, role_system_admin, role_approver, role_steward, role_viewer,
  role_choices, role_default_definitions, change_approval_levels, max_approval_level,
  min_change_approval_level, actions_up_to, intersects, default_change_permissions_for_role,
}
use vendor_cat.Roles.Context.{RolePolicy}

-- A row of sec_role_definition, by the fields that the policy reads.
pub record RoleRow : Type 0 where
  pub role_code : String
  pub approval_level : ℕ
  pub can_edit : Bool
  pub can_report : Bool
  pub can_direct_apply : Bool
  pub active_flag : Bool

-- A row of sec_role_permission.
pub record PermissionRow : Type 0 where
  pub role_code : String
  pub object_name : String
  pub action_code : String
  pub active_flag : Bool

abbrev default_row : String → RoleDefinition → RoleRow
default_row code d = record {
  role_code = code;
  approval_level = d.approval_level;
  can_edit = d.can_edit;
  can_report = d.can_report;
  can_direct_apply = d.can_direct_apply;
  active_flag = true;
}

-- `_default_role_definition_rows`
unfoldable pub default_role_definition_rows : Dict String RoleRow
unfolding role_default_definitions
default_role_definition_rows = map (λ e. (e.0, default_row e.0 e.1)) role_default_definitions

-- `records[role_code] = row` for the rows with a code
unfoldable pub merge_rows : List RoleRow → Dict String RoleRow → Dict String RoleRow
unfolding insert
merge_rows [] records = records
merge_rows (r ∷ rows) records =
    let code = strip r.role_code in
    merge_rows rows
      (if is_empty code then records else insert code (record r { role_code = code }) records)

unfoldable pub list_role_definitions : List RoleRow → List RoleRow
unfolding merge_rows default_role_definition_rows
list_role_definitions table = map (λ e. e.1) (merge_rows table default_role_definition_rows)

-- The defaults of one role: `_default_role_permissions_by_role`, as rows.
unfoldable pub default_permission_rows : List String → List PermissionRow
unfolding default_change_permissions_for_role
default_permission_rows [] = []
default_permission_rows (role ∷ roles) =
    map
      (λ action. record {
        role_code = role;
        object_name = "change_action";
        action_code = action;
        active_flag = true;
      })
      (default_change_permissions_for_role role)
    ++ default_permission_rows roles

unfoldable pub list_role_permissions : List PermissionRow → List PermissionRow
unfolding default_permission_rows
list_role_permissions [] = default_permission_rows role_choices
list_role_permissions (r ∷ rows) = r ∷ rows

-- The rows of active roles, the last row of a code winning.
unfoldable pub active_definitions : List RoleRow → Dict String RoleRow → Dict String RoleRow
unfolding insert
active_definitions [] acc = acc
active_definitions (r ∷ rows) acc =
    let code = strip r.role_code in
    active_definitions rows (if is_empty code || not r.active_flag then acc else insert code r acc)

unfoldable pub selected_definitions : Dict String RoleRow → List String → List RoleRow
unfolding lookup default_role_definition_rows
selected_definitions by_role [] = []
selected_definitions by_role (role ∷ roles) =
    let rest = selected_definitions by_role roles in
    elim (lookup role by_role) [
      | some row ↦ row ∷ rest
      | none ↦ elim (lookup role default_role_definition_rows) [
        | some row ↦ row ∷ rest
        | none ↦ rest
      ]
    ]

abbrev viewer_row : RoleRow
viewer_row = record {
  role_code = role_viewer;
  approval_level = 0;
  can_edit = false;
  can_report = false;
  can_direct_apply = false;
  active_flag = true;
}

-- `if not selected_defs: selected_defs.append(defaults[ROLE_VIEWER])`
abbrev or_viewer : List RoleRow → List RoleRow
or_viewer [] = viewer_row ∷ []
or_viewer (r ∷ rows) = r ∷ rows

unfoldable pub max_level : List RoleRow → ℕ
max_level [] = 0
max_level (r ∷ rows) = max r.approval_level (max_level rows)

-- The actions that the permission rows give to the active roles.
unfoldable pub granted_actions : List String → List PermissionRow → List String
granted_actions active_roles [] = []
granted_actions active_roles (r ∷ rows) =
    let rest = granted_actions active_roles rows in
    let object_name = normalize (or_text r.object_name "change_action") in
    let action_code = normalize r.action_code in
    if contains active_roles (strip r.role_code)
      && r.active_flag
      && contains ("change_action" ∷ "workflow" ∷ "app" ∷ []) object_name
      && contains (keys change_approval_levels) action_code
    then action_code ∷ rest
    else rest

-- The result of `resolve_role_policy`: every key is there.
pub record Resolved : Type 0 where
  pub can_edit : Bool
  pub can_report : Bool
  pub can_submit_requests : Bool
  pub can_approve_requests : Bool
  pub can_direct_apply : Bool
  pub approval_level : ℕ
  pub allowed_change_actions : List String

abbrev pub to_policy : Resolved → RolePolicy
to_policy p = record {
  can_edit = some p.can_edit;
  can_report = some p.can_report;
  can_submit_requests = some p.can_submit_requests;
  can_approve_requests = some p.can_approve_requests;
  can_direct_apply = some p.can_direct_apply;
  approval_level = some p.approval_level;
  allowed_change_actions = some p.allowed_change_actions;
}

-- The policy of a user with no role.
abbrev pub no_role_policy : Resolved
no_role_policy = record {
  can_edit = false;
  can_report = false;
  can_submit_requests = true;
  can_approve_requests = false;
  can_direct_apply = false;
  approval_level = 0;
  allowed_change_actions = "request_access" ∷ [];
}

-- What the definitions and the permission rows give, before the rules on the two admin roles.
unfoldable pub base_policy : List String → List RoleRow → List PermissionRow → Resolved
unfolding active_definitions selected_definitions max_level granted_actions any
base_policy active_roles definitions permissions =
    let selected =
      or_viewer (selected_definitions (active_definitions definitions []) active_roles) in
    let level = max_level selected in
    let edit = any (λ r. r.can_edit) selected in
    record {
      can_edit = edit;
      can_report = any (λ r. r.can_report) selected;
      can_submit_requests = edit || contains active_roles role_viewer;
      can_approve_requests =
          intersects (role_admin ∷ role_approver ∷ role_steward ∷ []) active_roles
          || (edit && ltb 0 level);
      can_direct_apply = any (λ r. r.can_direct_apply) selected;
      approval_level = level;
      allowed_change_actions = granted_actions active_roles permissions;
    }

-- `if ROLE_ADMIN in active_roles`
unfoldable pub admin_rule : List String → Resolved → Resolved
admin_rule active_roles p =
    if contains active_roles role_admin
    then record {
      can_edit = true;
      can_report = true;
      can_submit_requests = true;
      can_approve_requests = true;
      can_direct_apply = true;
      approval_level = max p.approval_level max_approval_level;
      allowed_change_actions = keys change_approval_levels;
    }
    else p

-- `if ROLE_SYSTEM_ADMIN in active_roles and ROLE_ADMIN not in active_roles`
unfoldable pub system_admin_rule : List String → Resolved → Resolved
system_admin_rule active_roles p =
    if contains active_roles role_system_admin && not (contains active_roles role_admin)
    then record p {
      can_edit = false;
      can_direct_apply = false;
      can_submit_requests = false;
      can_approve_requests = false;
      approval_level = 0;
    }
    else p

-- `if not allowed_actions`: the actions up to the level, which is raised to 1
unfoldable pub default_actions_rule : Resolved → Resolved
default_actions_rule p = record p {
  allowed_change_actions = elim p.allowed_change_actions [
    | [] ↦ actions_up_to (max min_change_approval_level p.approval_level)
    | a ∷ rest ↦ a ∷ rest
  ];
}

-- {str(role).strip() for role in user_roles if str(role).strip()}
unfoldable pub active_role_names : List String → List String
unfolding keep
active_role_names user_roles = keep (λ r. not (is_empty r)) (map strip user_roles)

-- The policy of active roles, over the rows of the two tables.
unfoldable pub resolve_active : List String → List RoleRow → List PermissionRow → Resolved
unfolding base_policy admin_rule system_admin_rule default_actions_rule
resolve_active [] definitions permissions = no_role_policy
resolve_active (r ∷ rs) definitions permissions = default_actions_rule (
    system_admin_rule (r ∷ rs) (admin_rule (r ∷ rs) (base_policy (r ∷ rs) definitions permissions)))

unfoldable pub resolve_role_policy : List String → List RoleRow → List PermissionRow → Resolved
unfolding resolve_active active_role_names list_role_definitions list_role_permissions
resolve_role_policy user_roles role_table permission_table =
    resolve_active (active_role_names user_roles) (list_role_definitions role_table)
      (list_role_permissions permission_table)
