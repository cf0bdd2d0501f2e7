-- ===== src/Workflow/Creation.antt =====
-- Creation of change requests (domains/workflow/requests.py).
use Prim.Native.String.{◌++◌ as append}
use vendor_cat.Base.{String, Option, none, some, [], ◌∷◌, ◌++◌, if◌then◌else◌}
use vendor_cat.Base.Text.{strip, normalize, is_empty, or_text}
use vendor_cat.Workflow.Payload.{
  Json, null, text, Fields, end, field, get_field, str_or_empty, prepare_change_request_payload,
}
use vendor_cat.Workflow.Requests.{
  ChangeRequest, WorkflowEvent, Store, Env, actor_ref, global_change_vendor_id,
}

-- `create_vendor_change_request`: `id` is the fresh identifier; `none` where the row is not stored.
unfoldable pub create_vendor_change_request :
    Env → String → String → String → String → Fields → Store → Option String × Store
create_vendor_change_request env id vendor_id requestor change_type payload s =
    let change_type_clean = normalize change_type in
    let row : ChangeRequest = record {
      change_request_id = id;
      vendor_id = or_text (strip vendor_id) global_change_vendor_id;
      requestor_user_principal = actor_ref env requestor;
      change_type = change_type_clean;
      requested_payload_json = env.dumps (prepare_change_request_payload change_type_clean payload);
      status = "submitted";
    } in
    let event : WorkflowEvent = record {
      workflow_id = id;
      old_status = none;
      new_status = "submitted";
      actor = actor_ref env requestor;
      notes = append change_type_clean " request created";
    } in
    if env.request_stored
    then (
      some id,
      record s {
        requests = s.requests ++ row ∷ [];
        events = if env.event_stored then s.events ++ event ∷ [] else s.events;
      },
    )
    else (none, s)

-- The profile of the user directory: `get_user_directory_profile(requestor) or {}`.
abbrev profile_text : Env → Fields → String → Json
profile_text env profile key =
    let value = strip (str_or_empty env.repr (get_field key profile)) in
    if is_empty value then null else text value

unfoldable pub access_payload : Env → Fields → String → String → String → Fields
unfolding strip get_field str_or_empty
access_payload env profile requestor role justification = field "requested_role" (text role) (
    field "reason" (text justification) (
      field "requestor_login_identifier"
        (text (
          strip (or_text (str_or_empty env.repr (get_field "login_identifier" profile)) requestor)))
        (field "requestor_email" (profile_text env profile "email") (
          field "requestor_network_id" (profile_text env profile "network_id") (
            field "requestor_first_name" (profile_text env profile "first_name") (
              field "requestor_last_name" (profile_text env profile "last_name") (
                field "requestor_employee_id" (profile_text env profile "employee_id")
                  (field "requestor_manager_id" (profile_text env profile "manager_id") end))))))))

pub data AccessRequested : Type 0 where
  requestor_required : AccessRequested
  role_required : AccessRequested
  justification_required : AccessRequested
  not_persisted : AccessRequested
  requested : String → AccessRequested

unfoldable pub create_access_request :
    Env → String → Fields → String → String → String → Store → AccessRequested × Store
unfolding access_payload
create_access_request env id profile requestor_user_principal requested_role justification s =
    let requestor = strip requestor_user_principal in
    let role = normalize requested_role in
    let reason = strip justification in
    let (stored, s') =
      create_vendor_change_request env id global_change_vendor_id requestor "request_access"
        (access_payload env profile requestor role reason) s in
    if is_empty requestor
    then (requestor_required, s)
    else if is_empty role
    then (role_required, s)
    else if is_empty reason
    then (justification_required, s)
    else elim stored [ none ↦ (not_persisted, s') | some i ↦ (requested i, s') ]
