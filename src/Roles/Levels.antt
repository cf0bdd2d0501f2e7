-- ===== src/Roles/Levels.antt =====
-- core/security.py: roles, approval levels and what a set of roles may do. A set of names is a list
-- of which only the membership is read.
use vendor_cat.Base.{
  ℕ, zero, suc, String, Bool, true, false, not, ◌&&◌, Option, none, some, List, [], ◌∷◌, any,
  contains, keep, leb, min, max, ◌==◌, string_eq, if◌then◌else◌,
}
use vendor_cat.Base.Text.{normalize}
use vendor_cat.Base.Dict.{Dict, keys, lookup}

abbrev pub role_admin : String
role_admin = "vendor_admin"

abbrev pub role_system_admin : String
role_system_admin = "system_admin"

abbrev pub role_approver : String
role_approver = "vendor_approver"

abbrev pub role_steward : String
role_steward = "vendor_steward"

abbrev pub role_editor : String
role_editor = "vendor_editor"

abbrev pub role_viewer : String
role_viewer = "vendor_viewer"

abbrev pub role_auditor : String
role_auditor = "vendor_auditor"

abbrev pub role_choices : List String
role_choices =
    role_system_admin ∷ role_admin ∷ role_approver ∷ role_steward ∷ role_editor ∷ role_viewer
    ∷ role_auditor ∷ []

abbrev pub admin_portal_roles : List String
admin_portal_roles = role_system_admin ∷ role_admin ∷ []

abbrev pub min_approval_level : ℕ
min_approval_level = 0

abbrev pub max_approval_level : ℕ
max_approval_level = 10

abbrev pub min_change_approval_level : ℕ
min_change_approval_level = 1

abbrev pub default_approval_level : ℕ
default_approval_level = 6

unfoldable pub change_approval_levels : Dict String ℕ
change_approval_levels =
    ("request_access", 3)
    ∷ ("create_vendor_profile", 9)
    ∷ ("update_vendor_profile", 6)
    ∷ ("update_offering", 6)
    ∷ ("create_offering", 6)
    ∷ ("create_contract", 6)
    ∷ ("update_contract", 6)
    ∷ ("map_contract_to_offering", 6)
    ∷ ("map_demo_to_offering", 3)
    ∷ ("add_vendor_owner", 6)
    ∷ ("add_vendor_org_assignment", 6)
    ∷ ("add_vendor_contact", 3)
    ∷ ("add_offering_owner", 6)
    ∷ ("remove_offering_owner", 6)
    ∷ ("add_offering_contact", 3)
    ∷ ("remove_offering_contact", 3)
    ∷ ("update_offering_profile", 6)
    ∷ ("add_offering_note", 3)
    ∷ ("add_offering_ticket", 3)
    ∷ ("update_offering_ticket", 3)
    ∷ ("add_offering_invoice", 3)
    ∷ ("remove_offering_invoice", 3)
    ∷ ("create_project", 6)
    ∷ ("update_project", 6)
    ∷ ("update_project_owner", 6)
    ∷ ("attach_project_vendor", 6)
    ∷ ("attach_project_offering", 6)
    ∷ ("add_project_note", 3)
    ∷ ("create_project_demo", 6)
    ∷ ("update_project_demo", 3)
    ∷ ("remove_project_demo", 3)
    ∷ ("create_doc_link", 3)
    ∷ ("remove_doc_link", 3)
    ∷ ("create_demo_outcome", 6)
    ∷ ("record_contract_cancellation", 9)
    ∷ ("grant_role", 9)
    ∷ ("grant_scope", 9)
    ∷ []

abbrev pub access_request_allowed_roles : List String
access_request_allowed_roles = role_viewer ∷ role_editor ∷ role_auditor ∷ []

pub record RoleDefinition : Type 0 where
  pub role_name : String
  pub description : String
  pub approval_level : ℕ
  pub can_edit : Bool
  pub can_report : Bool
  pub can_direct_apply : Bool

unfoldable pub role_default_definitions : Dict String RoleDefinition
role_default_definitions =
    (
      "system_admin",
      record {
        role_name = "System Admin";
        description =
            "Platform administration access. Cannot edit vendor data or approve business changes.";
        approval_level = 0;
        can_edit = false;
        can_report = true;
        can_direct_apply = false;
      },
    )
    ∷ (
      "vendor_admin",
      record {
        role_name = "Vendor Admin";
        description = "Full administrative access across all workflows and data changes.";
        approval_level = 10;
        can_edit = true;
        can_report = true;
        can_direct_apply = true;
      },
    )
    ∷ (
      "vendor_approver",
      record {
        role_name = "Vendor Approver";
        description = "Can review and approve requests but cannot directly edit vendor records.";
        approval_level = 7;
        can_edit = false;
        can_report = true;
        can_direct_apply = false;
      },
    )
    ∷ (
      "vendor_steward",
      record {
        role_name = "Vendor Steward";
        description = "Data steward with elevated review/apply rights for governed updates.";
        approval_level = 7;
        can_edit = true;
        can_report = true;
        can_direct_apply = true;
      },
    )
    ∷ (
      "vendor_editor",
      record {
        role_name = "Vendor Editor";
        description = "Contributor role for day-to-day edits and change submissions.";
        approval_level = 4;
        can_edit = true;
        can_report = true;
        can_direct_apply = false;
      },
    )
    ∷ (
      "vendor_viewer",
      record {
        role_name = "Vendor Viewer";
        description = "Read-only access to vendor inventory and metadata.";
        approval_level = 0;
        can_edit = false;
        can_report = false;
        can_direct_apply = false;
      },
    )
    ∷ (
      "vendor_auditor",
      record {
        role_name = "Vendor Auditor";
        description = "Read/report access for governance and audit functions.";
        approval_level = 0;
        can_edit = false;
        can_report = true;
        can_direct_apply = false;
      },
    )
    ∷ []

-- bool(a.intersection(b))
unfoldable pub intersects : List String → List String → Bool
unfolding any contains
intersects a b = any (contains b) a

pub has_role : List String → String → Bool
has_role user_roles role = contains user_roles role

unfoldable pub can_edit : List String → Bool
unfolding intersects
can_edit user_roles = intersects (role_admin ∷ role_editor ∷ role_steward ∷ []) user_roles

unfoldable pub is_admin : List String → Bool
unfolding contains
is_admin user_roles = contains user_roles role_admin

unfoldable pub has_admin_portal_access : List String → Bool
unfolding intersects
has_admin_portal_access user_roles = intersects admin_portal_roles user_roles

unfoldable pub can_submit_change_requests : List String → Bool
unfolding intersects
can_submit_change_requests user_roles =
    if contains user_roles role_system_admin
      && not (intersects (role_admin ∷ role_steward ∷ role_editor ∷ []) user_roles)
    then false
    else intersects (role_admin ∷ role_steward ∷ role_editor ∷ role_viewer ∷ []) user_roles

unfoldable pub can_approve_requests : List String → Bool
unfolding intersects
can_approve_requests user_roles =
    if contains user_roles role_system_admin
      && not (intersects (role_admin ∷ role_steward ∷ role_approver ∷ []) user_roles)
    then false
    else intersects (role_admin ∷ role_steward ∷ role_approver ∷ []) user_roles

unfoldable pub effective_roles : List String → List String
effective_roles [] = role_viewer ∷ []
effective_roles (r ∷ rs) = r ∷ rs

-- ROLE_DEFAULT_DEFINITIONS.get(role_code, {}).get("approval_level", MIN_APPROVAL_LEVEL)
unfoldable pub default_level : String → ℕ
unfolding lookup role_default_definitions
default_level role_code = elim (lookup role_code role_default_definitions) [
  | none ↦ min_approval_level
  | some d ↦ d.approval_level
]

-- the loop of `approval_level_for_roles`
unfoldable pub raise_level : ℕ → List String → ℕ
unfolding default_level
raise_level level [] = level
raise_level level (r ∷ rs) = raise_level (max level (default_level r)) rs

unfoldable pub approval_level_for_roles : List String → ℕ
unfolding raise_level
approval_level_for_roles user_roles =
    max min_approval_level (min (raise_level min_approval_level user_roles) max_approval_level)

-- What `CHANGE_APPROVAL_LEVELS.get(…, DEFAULT_APPROVAL_LEVEL)` makes of an entry.
abbrev pub level_or_default : Option ℕ → ℕ
level_or_default none = default_approval_level
level_or_default (some level) = level

unfoldable pub required_approval_level : String → ℕ
unfolding lookup change_approval_levels
required_approval_level change_type =
    level_or_default (lookup (normalize change_type) change_approval_levels)

-- `level or default`, for a number
abbrev pub or_level : ℕ → ℕ → ℕ
or_level level fallback = elim level [ zero ↦ fallback | suc n ↦ suc n ]

unfoldable pub can_apply_change : List String → String → Bool
unfolding approval_level_for_roles required_approval_level
can_apply_change user_roles change_type =
    leb (required_approval_level change_type) (approval_level_for_roles user_roles)

unfoldable pub can_review_change : List String → ℕ → Bool
unfolding approval_level_for_roles
can_review_change user_roles required_level =
    let level =
      max min_change_approval_level
        (min (or_level required_level default_approval_level) max_approval_level) in
    leb level (approval_level_for_roles user_roles)

-- {action for action, required in CHANGE_APPROVAL_LEVELS.items() if required <= level}
unfoldable pub actions_up_to : ℕ → List String
unfolding keep change_approval_levels
actions_up_to level = keys (keep (λ e. leb e.1 level) change_approval_levels)

unfoldable pub default_change_permissions_for_role : String → List String
unfolding actions_up_to
default_change_permissions_for_role role_code =
    let role = normalize role_code in
    if role == role_admin then keys change_approval_levels else actions_up_to (default_level role)
