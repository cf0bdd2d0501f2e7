-- ===== src/Roles/Context.antt =====
-- web/core/context.py: what a signed-in user may do, by the resolved role policy where there is one
-- and by the default roles otherwise.
use vendor_cat.Base.{
  ℕ, String, Bool, false, not, ◌&&◌, ◌||◌, Option, none, some, List, [], ◌∷◌, map, contains, keep,
  leb, min, max, if◌then◌else◌, string_eq,
}
use vendor_cat.Base.Text.{normalize, strip, is_empty}
use vendor_cat.Base.Dict.{keys}
use vendor_cat.Roles.Levels
use vendor_cat.Roles.Levels.{
  role_admin, admin_portal_roles, intersects, can_submit_change_requests, approval_level_for_roles,
  required_approval_level, can_review_change, change_approval_levels, min_change_approval_level,
  max_approval_level, or_level,
}

-- The role policy is a dict whose keys may be missing.
pub record RolePolicy : Type 0 where
  pub can_edit : Option Bool
  pub can_report : Option Bool
  pub can_submit_requests : Option Bool
  pub can_approve_requests : Option Bool
  pub can_direct_apply : Option Bool
  pub approval_level : Option ℕ
  pub allowed_change_actions : Option (List String)

-- The configuration is here by the one field that the handlers read of it.
pub record UserContext : Type 0 where
  pub user_principal : String
  pub roles : List String
  pub raw_roles : List String
  pub locked_mode : Bool
  pub role_override : Option String
  pub role_policy : Option RolePolicy

-- `policy[key]` where the policy and the key are there, and the fallback otherwise
abbrev pub policy_or {ℓ} : {A : Type ℓ} → Option RolePolicy → (RolePolicy → Option A) → A → A
policy_or none field fallback = fallback
policy_or (some p) field fallback = elim (field p) [ none ↦ fallback | some a ↦ a ]

unfoldable pub is_admin : UserContext → Bool
is_admin u = contains u.roles role_admin

unfoldable pub has_admin_rights : UserContext → Bool
unfolding intersects
has_admin_rights u = intersects admin_portal_roles u.raw_roles

unfoldable pub can_edit : UserContext → Bool
unfolding intersects
can_edit u =
    policy_or u.role_policy (λ p. p.can_edit)
      (intersects ("vendor_admin" ∷ "vendor_editor" ∷ "vendor_steward" ∷ []) u.roles)

unfoldable pub can_report : UserContext → Bool
unfolding intersects
can_report u =
    policy_or u.role_policy (λ p. p.can_report)
      (intersects ("vendor_admin" ∷ "vendor_editor" ∷ "vendor_steward" ∷ "vendor_auditor" ∷ [])
        u.roles)

unfoldable pub can_submit_requests : UserContext → Bool
unfolding can_submit_change_requests
can_submit_requests u =
    policy_or u.role_policy (λ p. p.can_submit_requests) (can_submit_change_requests u.roles)

unfoldable pub can_approve_requests : UserContext → Bool
unfolding Levels.can_approve_requests
can_approve_requests u =
    policy_or u.role_policy (λ p. p.can_approve_requests) (Levels.can_approve_requests u.roles)

unfoldable pub can_access_workflows : UserContext → Bool
unfolding can_edit can_submit_requests can_approve_requests
can_access_workflows u = can_edit u || can_submit_requests u || can_approve_requests u

unfoldable pub can_direct_apply : UserContext → Bool
unfolding intersects
can_direct_apply u =
    policy_or u.role_policy (λ p. p.can_direct_apply)
      (intersects ("vendor_admin" ∷ "vendor_steward" ∷ []) u.roles)

unfoldable pub approval_level : UserContext → ℕ
unfolding approval_level_for_roles
approval_level u =
    policy_or u.role_policy (λ p. p.approval_level) (approval_level_for_roles u.roles)

-- The set of allowed actions, stripped and lowered, without the empty ones.
unfoldable pub allowed_actions : RolePolicy → List String
unfolding keep
allowed_actions p =
    let raw : List String = elim p.allowed_change_actions [ none ↦ [] | some actions ↦ actions ] in
    map normalize (keep (λ item. not (is_empty (strip item))) raw)

unfoldable pub can_apply_change : UserContext → String → Bool
unfolding approval_level allowed_actions required_approval_level contains
can_apply_change u change_type = elim u.role_policy [
  | none ↦ Levels.can_apply_change u.roles change_type
  | some policy ↦
      let target = normalize change_type in
      if contains (keys change_approval_levels) target
        && not (contains (allowed_actions policy) target)
      then false
      else leb (required_approval_level target) (approval_level u)
]

unfoldable pub can_review_level : UserContext → ℕ → Bool
unfolding can_approve_requests approval_level
can_review_level u required_level =
    if not (can_approve_requests u) then false else elim u.role_policy [
      | none ↦ can_review_change u.roles required_level
      | some _ ↦
          leb
            (max min_change_approval_level
              (min (or_level required_level min_change_approval_level) max_approval_level))
            (approval_level u)
    ]
