-- ===== src/Roles/Tests.antt =====
-- The theorems on roles at concrete roles, users and tables.
use vendor_cat.Base.{
  ℕ, String, true, false, Option, none, some, List, [], ◌∷◌, ◌≡◌, refl, contains, arith, string_eq,
  any,
}
use vendor_cat.Base.Text.{strip, normalize, is_empty}
use vendor_cat.Roles.Levels
use vendor_cat.Roles.Levels.{
  role_admin, role_system_admin, role_approver, role_steward, role_editor, role_viewer,
  approval_level_for_roles, can_submit_change_requests, can_approve_requests,
  change_approval_levels, default_change_permissions_for_role, required_approval_level,
}
use vendor_cat.Roles.Permissions.{get_permissions_for_role}
use vendor_cat.Roles.Context
use vendor_cat.Roles.Context.{UserContext, can_review_level}
use vendor_cat.Roles.Policy.{
  RoleRow, PermissionRow, to_policy, active_role_names, resolve_role_policy, resolve_active,
  list_role_permissions,
}
use vendor_cat.Roles.Saving.{
  PolicyTables, permission_row, known_actions, replace_role_permissions, save_role_definition,
  deactivate_role_permissions,
}
use vendor_cat.Roles.Replacing.{or_up_to, replace_role_permissions-resolve}
use vendor_cat.Workflow.Payload.{negsuc}
use vendor_cat.Roles.Endpoints.{Request}
use vendor_cat.Roles.Grants.{system_admin_decides_nothing, admin_decides_everything}

names : Unit {0}
unfolding contains strip change_approval_levels get_permissions_for_role
names = tt

abbrev editor : List String
editor = role_editor ∷ []

abbrev editor_steward : List String
editor_steward = role_steward ∷ role_editor ∷ []

editor_sub : (r : String) → contains editor r ≡ true → contains editor_steward r ≡ true
unfolding contains
editor_sub r h = ground arith

levels : (approval_level_for_roles editor ≡ 4) × (approval_level_for_roles editor_steward ≡ 7)
unfolding approval_level_for_roles
levels = (refl, refl)

editor_note : Levels.can_apply_change editor "add_offering_note" ≡ true
unfolding Levels.can_apply_change normalize
editor_note = refl

-- A row of the table gives the system_admin every right.
abbrev generous : RoleRow
generous = record {
  role_code = "system_admin";
  approval_level = 10;
  can_edit = true;
  can_report = true;
  can_direct_apply = true;
  active_flag = true;
}

abbrev role_table : List RoleRow
role_table = generous ∷ []

abbrev user : List String → UserContext
user roles = record {
  user_principal = "ada@example.com";
  roles = roles;
  raw_roles = roles;
  locked_mode = false;
  role_override = none;
  role_policy = some (to_policy (resolve_role_policy roles role_table []));
}

abbrev ops : UserContext
ops = user (role_system_admin ∷ [])

abbrev boss : UserContext
boss = user ("vendor_admin " ∷ role_system_admin ∷ [])

system_admin_decides_nothing_example :
    ((change_type : String) → Context.can_apply_change ops change_type ≡ false)
    × ((level : ℕ) → can_review_level ops level ≡ false)
    × (Context.can_edit ops ≡ false)
    × (Context.can_submit_requests ops ≡ false)
    × (Context.can_direct_apply ops ≡ false)
unfolding names active_role_names
system_admin_decides_nothing_example = system_admin_decides_nothing ops role_table [] refl refl refl

admin_decides_everything_example :
    ((change_type : String) → Context.can_apply_change boss change_type ≡ true)
    × ((level : ℕ) → can_review_level boss level ≡ true)
unfolding names active_role_names
admin_decides_everything_example = admin_decides_everything boss role_table [] refl refl

abbrev principal : UserContext → String
principal u = u.user_principal

abbrev request : Option Request
request = some (record { state_user = none; resolved_user = some ops })

abbrev saved_row : PermissionRow
saved_row = permission_row "auditor" "create_offering"

abbrev tables : PolicyTables
tables = record { definitions = []; permissions = saved_row ∷ []; policy_version = 3 }

abbrev replaced : PolicyTables
replaced = record {
  definitions = [];
  permissions =
      record saved_row { active_flag = false } ∷ permission_row "auditor" "add_offering_note" ∷ [];
  policy_version = 4;
}

replace_test :
    replace_role_permissions " Auditor" ("unknown" ∷ "add_offering_note" ∷ []) tables
    ≡ some replaced
unfolding replace_role_permissions is_empty normalize deactivate_role_permissions known_actions
    change_approval_levels
replace_test = refl

save_test :
    save_role_definition "Auditor" (negsuc 4) true false false tables
    ≡ some (record tables {
      definitions =
          record {
            role_code = "auditor";
            approval_level = 0;
            can_edit = true;
            can_report = false;
            can_direct_apply = false;
            active_flag = true;
          }
          ∷ [];
      policy_version = 4;
    })
unfolding save_role_definition is_empty normalize any
save_test = refl

replace_role_permissions-resolve_example :
    let p =
      resolve_active (normalize " Auditor" ∷ []) [] (list_role_permissions replaced.permissions) in
    p.allowed_change_actions
    ≡ or_up_to (known_actions ("unknown" ∷ "add_offering_note" ∷ [])) p.approval_level
replace_role_permissions-resolve_example =
    replace_role_permissions-resolve " Auditor" ("unknown" ∷ "add_offering_note" ∷ []) [] saved_row
      [] tables replaced (unfold strip normalize in refl) (unfold contains normalize in refl) refl
      (unfold strip in refl, tt) replace_test
