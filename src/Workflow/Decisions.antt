-- ===== src/Workflow/Decisions.antt =====
-- The decision on a change request: `workflow_decision` of web/routers/pending_approvals/decisions.py,
-- with the helpers of common.py that it calls.
use package.text.Mathlib.Text.{starts_with}
use vendor_cat.Base.{
  ℕ, String, Bool, true, not, ◌||◌, Option, none, some, List, [], ◌∷◌, ◌++◌, map, keep, contains,
  ◌==◌, string_eq, if◌then◌else◌,
}
use vendor_cat.Base.Text.{strip, normalize, upper, is_empty, or_text}
use vendor_cat.Base.Dict.{lookup}
use vendor_cat.Roles.Levels.{intersects, role_admin}
use vendor_cat.Roles.Context.{UserContext, can_approve_requests, can_review_level}
use vendor_cat.Lookup.Options.{collect, list_workflow_status_options}
use vendor_cat.Workflow.Payload.{
  text, Fields, object_or_empty, setdefault, required_level, payload_org_values,
}
use vendor_cat.Workflow.Requests.{
  ChangeRequest, UsageEvent, ScopeGrant, Store, Env, actor_ref, global_change_vendor_id,
  get_change_request_by_id, update_change_request_status, UpdateError,
}

unfoldable pub safe_return_to : String → String
safe_return_to value =
    if is_empty value
    then "/workflows"
    else if starts_with value "/workflows"
        || starts_with value "/vendors"
        || starts_with value "/vendor-360"
        || starts_with value "/projects"
    then value
    else "/workflows"

-- `_workflow_status_options`
unfoldable pub workflow_status_options : List String → List String
unfolding collect list_workflow_status_options
workflow_status_options codes = collect [] (list_workflow_status_options codes)

unfoldable pub is_terminal_workflow_status : String → Bool
unfolding contains normalize
is_terminal_workflow_status status = contains ("approved" ∷ "rejected" ∷ []) (normalize status)

-- `_payload_obj`
unfoldable pub payload_obj : Env → String → Fields
payload_obj env raw = object_or_empty (env.loads (or_text raw "{}"))

abbrev or_none : Option String → String
or_none none = ""
or_none (some s) = s

-- `_user_refs`
unfoldable pub user_refs : Env → UserContext → List String
unfolding keep normalize
user_refs env user =
    keep (λ ref. not (is_empty ref))
      (normalize user.user_principal
        ∷ normalize (or_none (env.resolve_user_login_identifier user.user_principal))
        ∷ normalize (actor_ref env user.user_principal)
        ∷ [])

pub data Scope : Type 0 where
  enterprise : Scope
  orgs : List String → Scope

abbrev is_enterprise : ScopeGrant → Bool
is_enterprise g =
    contains ("*" ∷ "all" ∷ "enterprise" ∷ []) (normalize g.org_id)
    || contains ("all" ∷ "enterprise" ∷ "global" ∷ "full_enterprise" ∷ []) (normalize g.scope_level)

-- The loop of `_user_scope`, which ends at the first grant of the whole enterprise.
unfoldable pub scope_of_grants : List String → List String → List ScopeGrant → Scope
unfolding contains normalize strip upper
scope_of_grants refs found [] = orgs found
scope_of_grants refs found (g ∷ grants) =
    let rest = scope_of_grants refs found grants in
    let more = scope_of_grants refs (upper (strip g.org_id) ∷ found) grants in
    if not g.active_flag
    then rest
    else if not (contains refs (normalize g.user_principal))
    then rest
    else if is_enterprise g
    then enterprise
    else if is_empty (strip g.org_id)
    then rest
    else more

unfoldable pub user_scope : Env → UserContext → List ScopeGrant → Scope
unfolding user_refs scope_of_grants contains
user_scope env user grants =
    if contains user.roles role_admin
    then enterprise
    else scope_of_grants (user_refs env user) [] grants

unfoldable pub row_in_user_scope : List String → Scope → Bool
unfolding intersects keep strip upper
row_in_user_scope org_values enterprise = true
row_in_user_scope org_values (orgs found) =
    let row_orgs =
      map (λ item. upper (strip item)) (keep (λ item. not (is_empty (strip item))) org_values) in
    intersects row_orgs found

-- The payload with the owner of the vendor, where the request is about one that has an owner.
unfoldable pub owned_payload : Env → ChangeRequest → Store → Fields
unfolding payload_obj setdefault lookup strip
owned_payload env row s =
    let payload = payload_obj env row.requested_payload_json in
    let vendor_id = strip row.vendor_id in
    let owner = strip (or_none (lookup vendor_id s.vendors)) in
    if is_empty vendor_id || vendor_id == global_change_vendor_id || is_empty owner
    then payload
    else setdefault "owner_org_id" (text owner) payload

unfoldable pub in_scope : Env → UserContext → ChangeRequest → Store → Bool
unfolding owned_payload payload_org_values user_scope row_in_user_scope
in_scope env user row s =
    row_in_user_scope (payload_org_values env.repr (owned_payload env row s))
      (user_scope env user s.scope_grants)

-- What is flashed to the user.
pub data Flash : Type 0 where
  locked : Flash
  not_permitted : Flash
  not_an_option : Flash
  not_found : Flash
  already : String → Flash
  level_needed : ℕ → Flash
  out_of_scope : Flash
  decided : String → Flash
  failed : UpdateError → Flash

pub record Response : Type 0 where
  pub url : String
  pub flash : Flash

pub record DecisionForm : Type 0 where
  pub decision : String
  pub notes : String
  pub return_to : String

unfoldable pub row_level : Env → ChangeRequest → ℕ
unfolding payload_obj required_level
row_level env row = required_level (payload_obj env row.requested_payload_json) row.change_type

-- The checks on the row of a request: the reason to refuse, in the order of the handler.
unfoldable pub refused_row : Env → UserContext → ChangeRequest → Store → Option Flash
refused_row env user row s =
    let status_now = normalize row.status in
    if is_terminal_workflow_status status_now
    then some (already status_now)
    else if not (can_review_level user (row_level env row))
    then some (level_needed (row_level env row))
    else if not (in_scope env user row s)
    then some out_of_scope
    else none

-- The `try` of the handler, for a row that passed.
unfoldable pub apply_decision :
    Env → UserContext → DecisionForm → String → ChangeRequest → Store → Flash × Store
apply_decision env user form id row s =
    let decision = normalize form.decision in
    let (error, s') =
      update_change_request_status env id decision user.user_principal (strip form.notes) s in
    let event : UsageEvent = record {
      user_principal = actor_ref env user.user_principal;
      change_request_id = id;
      decision = decision;
      required_level = row_level env row;
    } in
    elim error [
      | some e ↦ (failed e, s')
      | none ↦ (
        decided decision,
        if env.usage_logged then record s' { usage = s'.usage ++ event ∷ [] } else s',
      )
    ]

unfoldable pub decide_row :
    Env → UserContext → DecisionForm → String → ChangeRequest → Store → Flash × Store
decide_row env user form id row s = elim (refused_row env user row s) [
  | some flash ↦ (flash, s)
  | none ↦ apply_decision env user form id row s
]

unfoldable pub decide : Env → UserContext → DecisionForm → String → Store → Flash × Store
decide env user form id s =
    if user.locked_mode
    then (locked, s)
    else if not (can_approve_requests user)
    then (not_permitted, s)
    else if not (contains (workflow_status_options s.status_codes) (normalize form.decision))
    then (not_an_option, s)
    else elim (get_change_request_by_id id s) [
      | none ↦ (not_found, s)
      | some row ↦ decide_row env user form id row s
    ]

-- The whole handler, with the redirect.
unfoldable pub workflow_decision :
    Env → UserContext → DecisionForm → String → Store → Response × Store
workflow_decision env user form id s =
    let (flash, s') = decide env user form id s in
    (record { url = safe_return_to form.return_to; flash = flash }, s')
