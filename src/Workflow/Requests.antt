-- ===== src/Workflow/Requests.antt =====
-- Rows of change requests and the operations of the repository on them: `get_change_request_by_id`,
-- `update_change_request_status`, `create_access_request` and `create_vendor_change_request`.
use Prim.Native.String.{◌++◌ as append}
use vendor_cat.Base.{
  ℕ, String, Bool, not, ◌&&◌, Option, none, some, List, [], ◌∷◌, ◌++◌, map, keep, contains, ◌==◌,
  string_eq, if◌then◌else◌,
}
use vendor_cat.Base.Text.{strip, normalize, is_empty, or_text}
use vendor_cat.Base.Dict.{Dict}
use vendor_cat.Roles.Levels.{access_request_allowed_roles}
use vendor_cat.RoleGrants.{Access, grant_role}
use vendor_cat.Lookup.Options.{list_workflow_status_options}
use vendor_cat.Workflow.Payload.{Json, object, Fields, end, get_field, str_or_empty}

pub record ChangeRequest : Type 0 where
  pub change_request_id : String
  pub vendor_id : String
  pub requestor_user_principal : String
  pub change_type : String
  pub requested_payload_json : String
  pub status : String

pub record WorkflowEvent : Type 0 where
  pub workflow_id : String
  pub old_status : Option String
  pub new_status : String
  pub actor : String
  pub notes : String

-- A row of the usage log about a decision.
pub record UsageEvent : Type 0 where
  pub user_principal : String
  pub change_request_id : String
  pub decision : String
  pub required_level : ℕ

-- A row of the grants of organization scope.
pub record ScopeGrant : Type 0 where
  pub user_principal : String
  pub org_id : String
  pub scope_level : String
  pub active_flag : Bool

-- The tables: `vendors` gives the owning organization of a vendor, and `status_codes` holds the codes
-- of the active options of the workflow statuses.
pub record Store : Type 0 where
  pub requests : List ChangeRequest
  pub events : List WorkflowEvent
  pub access : Access
  pub usage : List UsageEvent
  pub vendors : Dict String String
  pub scope_grants : List ScopeGrant
  pub status_codes : List String

-- What answers from outside: json.loads (`none` where it raises) and json.dumps, `str` of a value that
-- is no text, the user directory, and whether the statements of this call succeed.
pub record Env : Type 0 where
  pub loads : String → Option Json
  pub dumps : Fields → String
  pub repr : Json → String
  pub resolve_user_login_identifier : String → Option String
  pub resolve_user_id : String → Option String
  pub request_stored : Bool
  pub event_stored : Bool
  pub usage_logged : Bool
  pub now : ℕ

abbrev pub global_change_vendor_id : String
global_change_vendor_id = "__global__"

abbrev pub unknown_user_principal : String
unknown_user_principal = "unknown_user"

-- `_actor_ref`
abbrev pub actor_ref : Env → String → String
actor_ref env user = elim (env.resolve_user_id user) [
  | none ↦ unknown_user_principal
  | some ref ↦ ref
]

-- ingestion/select_vendor_change_request_by_id.sql, the first row
unfoldable pub find_request : String → List ChangeRequest → Option ChangeRequest
find_request id [] = none
find_request id (r ∷ requests) =
    if r.change_request_id == id then some r else find_request id requests

unfoldable pub get_change_request_by_id : String → Store → Option ChangeRequest
unfolding strip find_request
get_change_request_by_id change_request_id s =
    let id = strip change_request_id in if is_empty id then none else find_request id s.requests

-- updates/update_vendor_change_request_status.sql
unfoldable pub set_status : String → String → List ChangeRequest → List ChangeRequest
set_status id status requests =
    map (λ r. if r.change_request_id == id then record r { status = status } else r) requests

-- {str(item).strip().lower() for item in options if str(item).strip()}
unfoldable pub allowed_statuses : List String → List String
unfolding list_workflow_status_options strip normalize keep
allowed_statuses codes =
    map normalize (keep (λ item. not (is_empty (strip item))) (list_workflow_status_options codes))

pub data UpdateError : Type 0 where
  id_required : UpdateError
  unsupported_status : UpdateError
  not_found : UpdateError
  not_stored : UpdateError
  payload_not_an_object : UpdateError

-- `json.loads(requested_payload) if requested_payload else {}`, `{}` where it raises
unfoldable pub requested_payload : Env → ChangeRequest → Json
unfolding strip
requested_payload env r =
    let raw = strip r.requested_payload_json in
    if is_empty raw
    then object end
    else elim (env.loads raw) [ none ↦ object end | some value ↦ value ]

-- (payload or {}).get("requested_role"), cleaned: `none` where the payload has no `get`.
unfoldable pub requested_role : Env → Json → Option String
unfolding str_or_empty get_field
requested_role env payload = elim payload [
  | object fields ↦ some (normalize (str_or_empty env.repr (get_field "requested_role" fields)))
  | other ↦ if is_empty (str_or_empty (λ _. "x") (some other)) then some "" else none
]

-- The grant that approving a request for access makes, if the role is one of those allowed.
unfoldable pub grant_requested : Env → ChangeRequest → String → String → Store → Store
unfolding strip contains grant_role
grant_requested env current role actor s =
    let requestor = strip current.requestor_user_principal in
    if not (is_empty requestor) && contains access_request_allowed_roles role
    then record s {
      access = (grant_role env.resolve_user_id requestor role actor env.now s.access).1;
    }
    else s

abbrev status_event : Env → ChangeRequest → String → String → String → String → WorkflowEvent
status_event env current id target actor notes = record {
  workflow_id = id;
  old_status = some (or_text (normalize current.status) "submitted");
  new_status = target;
  actor = actor_ref env actor;
  notes = or_text (strip notes) (append "status changed to " target);
}

-- The two statements that write the status and the event; an event that is not stored is let go.
unfoldable pub write_status :
    Env → ChangeRequest → String → String → String → String → Store → Store
unfolding set_status
write_status env current id target actor notes s = record s {
  requests = set_status id target s.requests;
  events =
      if env.event_stored
      then s.events ++ status_event env current id target actor notes ∷ []
      else s.events;
}

unfoldable pub finish_update :
    Env → ChangeRequest → String → String → Store → Option UpdateError × Store
unfolding requested_payload requested_role grant_requested
finish_update env current target actor s =
    if target == "approved" && normalize current.change_type == "request_access"
    then elim (requested_role env (requested_payload env current)) [
      | none ↦ (some payload_not_an_object, s)
      | some role ↦ (none, grant_requested env current role actor s)
    ]
    else (none, s)

unfoldable pub update_change_request_status :
    Env → String → String → String → String → Store → Option UpdateError × Store
unfolding strip normalize allowed_statuses contains get_change_request_by_id write_status
    finish_update
update_change_request_status env change_request_id new_status actor notes s =
    let id = strip change_request_id in
    let target = normalize new_status in
    if is_empty id
    then (some id_required, s)
    else if not (contains (allowed_statuses s.status_codes) target)
    then (some unsupported_status, s)
    else elim (get_change_request_by_id id s) [
      | none ↦ (some not_found, s)
      | some current ↦
          if env.request_stored
          then finish_update env current target actor
              (write_status env current id target actor notes s)
          else (some not_stored, s)
    ]
