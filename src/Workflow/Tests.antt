-- ===== src/Workflow/Tests.antt =====
-- Decisions on a request for access, and the theorems at concrete inputs.
use vendor_cat.Base.{
  ◌≤◌, String, true, false, none, some, List, [], ◌∷◌, ◌≡◌, refl, arith, ◌⊎◌, any, length, contains,
  keep, ◌==◌, string_eq, if◌then◌else◌,
}
use vendor_cat.Base.Text.{strip, normalize, or_text}
use vendor_cat.Lookup.Options.{list_options}
use vendor_cat.Roles.Levels.{
  can_review_change, role_admin, role_system_admin, role_approver, access_request_allowed_roles,
}
use vendor_cat.Roles.Context.{UserContext, can_approve_requests, can_review_level}
use vendor_cat.Roles.Policy.{to_policy, resolve_role_policy}
use vendor_cat.RoleGrants.{grant_role}
use vendor_cat.RoleGrants.Single.{IsSingle, active_grants}
use vendor_cat.Workflow.Payload.{
  Fields, end, field, object, text, number, pos, get_field, object_or_empty, level_in,
  prepare_change_request_payload,
}
use vendor_cat.Workflow.Requests.{
  ChangeRequest, Store, Env, find_request, get_change_request_by_id, update_change_request_status,
}
use vendor_cat.Workflow.Creation.{create_vendor_change_request}
use vendor_cat.Workflow.Decisions.{
  DecisionForm, decided, already, out_of_scope, decide, row_level, user_refs,
  is_terminal_workflow_status, apply_decision, safe_return_to, workflow_status_options, decide_row,
  refused_row, in_scope,
}
use vendor_cat.Workflow.Guards.{Passes, decide_cases}
use vendor_cat.Workflow.Outcomes.{
  Attempt, decide_all, decided_is_final, decision_grants_allowed, decide-IsSingle,
}
use vendor_cat.Workflow.Scopes.{unscoped_decision}
use vendor_cat.Workflow.Required.{created_level, access_fields}

-- What was asked for: a role, with a level of 4.
abbrev asked : Fields
asked =
    field "requested_role" (text " Vendor_Viewer")
      (field "_meta" (object (field "approval_level_required" (text " 4 ") end)) end)

abbrev stored : Fields
stored = field "requested_role" (text " Vendor_Viewer") (
    field "_meta"
      (object (
        field "approval_level_required" (number (pos 4))
          (field "workflow_action" (text "request_access") end)))
      end)

abbrev env : Env
env = record {
  loads = λ raw. if raw == "stored" then some (object stored) else none;
  dumps = λ fields. "stored";
  repr = λ value. "";
  resolve_user_login_identifier = λ user. some user;
  resolve_user_id = λ user. some user;
  request_stored = true;
  event_stored = true;
  usage_logged = true;
  now = 7;
}

abbrev empty_store : Store
empty_store = record {
  requests = [];
  events = [];
  access = record { grants = []; policy_version = 1; audit = [] };
  usage = [];
  vendors = [];
  scope_grants = [];
  status_codes = [];
}

abbrev user : List String → UserContext
user roles = record {
  user_principal = "boss";
  roles = roles;
  raw_roles = roles;
  locked_mode = false;
  role_override = none;
  role_policy = none;
}

abbrev approve : DecisionForm
approve = record { decision = "Approved"; notes = ""; return_to = "//evil.example" }

abbrev reject : DecisionForm
reject = record { decision = "rejected"; notes = ""; return_to = "" }

names : Unit {0}
unfolding create_vendor_change_request find_request strip prepare_change_request_payload get_field
    level_in get_change_request_by_id is_terminal_workflow_status contains any keep user_refs
    or_text
names = tt

abbrev created : Store
created = (create_vendor_change_request env "r1" "" "eve" "request_access" asked empty_store).1

prepared : prepare_change_request_payload "request_access" asked ≡ stored
unfolding names
prepared = refl

created_level_example :
    (row : ChangeRequest) × (find_request "r1" created.requests ≡ some row)
    × (row.status ≡ "submitted")
    × (row_level env row
        ≡ level_in (object_or_empty (get_field "_meta" asked)) (normalize "request_access"))
    × (1 ≤ row_level env row)
    × (row_level env row ≤ 10)
unfolding names
created_level_example =
    created_level env "r1" "" "eve" "request_access" asked empty_store refl refl refl

abbrev boss : UserContext
boss = user (role_admin ∷ [])

abbrev approved : Store
approved = (decide env boss approve "r1" created).1

-- Approving grants the role, and the request cannot be decided again.
approve_test :
    ((decide env boss approve " r1 " created).0 ≡ decided "approved")
    × (length approved.events ≡ 2)
    × ((decide env boss reject "r1" approved).0 ≡ already "approved")
    × ((decide env (user (role_approver ∷ [])) approve "r1" created).0 ≡ out_of_scope)
    × (safe_return_to "//evil.example" ≡ "/workflows")
unfolding names decide can_approve_requests workflow_status_options decide_row refused_row
    can_review_level row_level in_scope apply_decision update_change_request_status list_options
    can_review_change safe_return_to
approve_test = (refl, refl, refl, refl, refl)

decide_cases_example :
    ((decide env boss approve "r1" created).1 ≡ created)
    ⊎ ((row : ChangeRequest) × Passes env boss approve "r1" row created
        × (decide env boss approve "r1" created ≡ apply_decision env boss approve "r1" row created))
decide_cases_example = decide_cases env boss approve "r1" created

-- A row that has been rejected.
abbrev closed : ChangeRequest
closed = record {
  change_request_id = "r2";
  vendor_id = "v1";
  requestor_user_principal = "eve";
  change_type = "update_offering";
  requested_payload_json = "";
  status = "Rejected ";
}

abbrev closed_store : Store
closed_store = record created { requests = closed ∷ created.requests }

abbrev attempts : List Attempt
attempts =
    record { env = env; user = boss; form = approve; id = "r2" }
    ∷ record { env = env; user = boss; form = reject; id = "r1" }
    ∷ []

decided_is_final_example :
    find_request "r2" (decide_all attempts closed_store).requests ≡ some closed
unfolding names
decided_is_final_example = decided_is_final attempts "r2" closed_store closed refl refl

abbrev ops : UserContext
ops = record (user (role_system_admin ∷ [])) {
  role_policy = some (to_policy (resolve_role_policy (role_system_admin ∷ []) [] []));
}

decision_grants_allowed_example :
    ((decide env boss approve "r1" created).1.access ≡ created.access)
    ⊎ ((requestor : String) × (role : String) × ((normalize (normalize approve.decision)
            == "approved")
          ≡ true)
        × (contains access_request_allowed_roles role ≡ true)
        × ((decide env boss approve "r1" created).1.access
            ≡ (grant_role env.resolve_user_id requestor role boss.user_principal env.now
                created.access).1))
decision_grants_allowed_example = decision_grants_allowed env boss approve "r1" created

created-IsSingle : IsSingle created.access
unfolding names active_grants
created-IsSingle user = omega arith

decide-IsSingle_example : IsSingle approved.access
decide-IsSingle_example = decide-IsSingle env boss approve "r1" created created-IsSingle

abbrev asking : Env
asking = record env {
  loads = λ raw. some (
      object (
        prepare_change_request_payload (normalize "request_access")
          (access_fields env end "eve" "vendor_admin" "on call")));
}

abbrev approver : UserContext
approver = user (role_approver ∷ [])

unscoped_decision_example : (decide env approver approve "r1" created).1 ≡ created
unscoped_decision_example =
    unscoped_decision env approver approve "r1" created (unfold contains in refl)
      (unfold names in refl)
