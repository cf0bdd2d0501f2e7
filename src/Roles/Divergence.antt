-- ===== src/Roles/Divergence.antt =====
-- core/permissions.py and `can_apply_change` of core/security.py, which `UserContext` asks where it has
-- no resolved policy: what the two answer for the change types of the first. And the endpoints' check.
use vendor_cat.Base.{
  ℕ, ◌≤◌, String, true, false, not, Option, none, some, [], ◌∷◌, ◌≡◌, refl, contains, all,
  all-contains, leb, arith, string_eq, not-true, inl, inr, ◌⊎◌, Option-cases, Bool-cases,
}
use vendor_cat.Base.Text.{normalize}
use vendor_cat.Roles.Levels
use vendor_cat.Roles.Levels.{
  role_admin, role_system_admin, role_approver, role_editor, change_approval_levels, default_level,
  approval_level_for_roles, required_approval_level,
}
use vendor_cat.Roles.Bounds.{approval_level_single, required_bounds}
use vendor_cat.Roles.Permissions.{get_permissions_for_role, role_can_apply_change}
use vendor_cat.Roles.Context
use vendor_cat.Roles.Context.{UserContext}
use vendor_cat.Roles.Endpoints.{handled, http_error, Request, request_user, require_permission}

editor_refused_table :
    all
      (λ p. not (Levels.can_apply_change (role_editor ∷ []) p))
      (get_permissions_for_role role_editor)
    ≡ true
unfolding all get_permissions_for_role Levels.can_apply_change normalize
editor_refused_table = refl

-- Every change type that core/permissions.py lists for a vendor_editor is refused to a vendor_editor
-- by `can_apply_change` of core/security.py, whose table does not list these types.
pub editor_refused :
    (p : String)
    → contains (get_permissions_for_role role_editor) p ≡ true
    → (role_can_apply_change role_editor p ≡ true)
      × (Levels.can_apply_change (role_editor ∷ []) p ≡ false)
unfolding role_can_apply_change
editor_refused p h = (
  h,
  not-true _ (
      all-contains (λ p. not (Levels.can_apply_change (role_editor ∷ []) p))
        (get_permissions_for_role role_editor) p editor_refused_table h),
)

system_admin_level : default_level role_system_admin ≡ 0
unfolding default_level
system_admin_level = refl

below_zero : (n : ℕ) → 3 ≤ n → leb n 0 ≡ false
below_zero n h = ground arith

-- For every change type the two tables disagree on the system_admin: core/permissions.py permits it,
-- core/security.py refuses it.
pub system_admin_disagree :
    (p : String)
    → (role_can_apply_change role_system_admin p ≡ true)
      × (Levels.can_apply_change (role_system_admin ∷ []) p ≡ false)
unfolding role_can_apply_change Levels.can_apply_change
system_admin_disagree p =
    (refl, rw (approval_level_single, system_admin_level) (below_zero _ (required_bounds p).0))

-- An endpoint's handler runs exactly for a request whose user is known and passes the test of
-- `can_apply_change`; no request is a 500, no user a 401, and a user who fails the test a 403.
pub require_permission_cases {ℓ} :
    {A : Type ℓ} (change_type : String) (handler : UserContext → A) (request : Option Request)
    → ((request ≡ none) × (require_permission change_type handler request ≡ http_error 500))
      ⊎ ((r : Request) × (request ≡ some r)
          × (request_user r ≡ none)
          × (require_permission change_type handler request ≡ http_error 401))
      ⊎ ((r : Request) × (u : UserContext) × (request ≡ some r)
          × (request_user r ≡ some u)
          × (Context.can_apply_change u change_type ≡ false)
          × (require_permission change_type handler request ≡ http_error 403))
      ⊎ ((r : Request) × (u : UserContext) × (request ≡ some r)
          × (request_user r ≡ some u)
          × (Context.can_apply_change u change_type ≡ true)
          × (require_permission change_type handler request ≡ handled (handler u)))
unfolding require_permission
require_permission_cases t handler none = inl (refl, refl)
require_permission_cases t handler (some r) = elim (Option-cases (request_user r)) [
  | inl missing ↦ inr (inl (r, refl, missing, rw missing))
  | inr (u, found) ↦ elim (Bool-cases (Context.can_apply_change u t)) [
    | inl passed ↦ inr (inr (inr (r, u, refl, found, passed, rw (found, passed))))
    | inr failed ↦ inr (inr (inl (r, u, refl, found, failed, rw (found, failed))))
  ]
]
