-- ===== src/Roles/Endpoints.antt =====
-- web/security/rbac.py: the checks in front of the endpoints.
use vendor_cat.Base.{
  ℕ, String, not, ◌&&◌, Option, none, some, ◌==◌, nat_eq, string_eq, if◌then◌else◌,
}
use vendor_cat.Base.Dict.{Dict, lookup}
use vendor_cat.Base.Text.{is_empty}
use vendor_cat.Roles.Context
use vendor_cat.Roles.Context.{UserContext}

pub data Outcome {ℓ} (A : Type ℓ) : Type ℓ where
  handled : A → Outcome A
  http_error : ℕ → Outcome A

-- What the wrapper finds of a request: the user that middleware left in its state, and the context
-- that `get_user_context` resolves, where `none` stands for an exception there.
pub record Request : Type 0 where
  pub state_user : Option UserContext
  pub resolved_user : Option UserContext

abbrev pub request_user : Request → Option UserContext
request_user r = elim r.state_user [ some u ↦ some u | none ↦ r.resolved_user ]

module _ {ℓ} {A : Type ℓ} where
  abbrev authorize : String → (UserContext → A) → Option UserContext → Outcome A
  authorize change_type handler none = http_error 401
  authorize change_type handler (some user) =
      if Context.can_apply_change user change_type then handled (handler user) else http_error 403

  unfoldable pub require_permission : String → (UserContext → A) → Option Request → Outcome A
  require_permission change_type handler none = http_error 500
  require_permission change_type handler (some request) =
      authorize change_type handler (request_user request)

-- The user of `check_org_scope`.
pub record OrgUser : Type 0 where
  pub role : String
  pub organization_id : ℕ

unfoldable pub check_org_scope : OrgUser → ℕ → Outcome (Unit {0})
check_org_scope user entity_org_id =
    if user.role == "system_admin"
    then handled tt
    else if not (user.organization_id == entity_org_id)
    then http_error 403
    else handled tt

unfoldable pub require_field_permission :
    UserContext → String → Dict String String → Outcome (Unit {0})
require_field_permission user field_name permission_map = elim (lookup field_name permission_map) [
  | none ↦ handled tt
  | some required ↦
      if not (is_empty required) && not (Context.can_apply_change user required)
      then http_error 403
      else handled tt
]
