-- ===== src/Workflow/Outcomes.antt =====
-- What decisions do to the store: a decided request stays as it is, only the roles of the allowed list
-- are granted, and a system_admin decides nothing.
use vendor_cat.Base.{
  String, Bool, true, false, Option, none, some, List, [], ◌∷◌, ◌≡◌, refl, arith, contains, ◌==◌,
  string_eq, eq_iff, Bool-cases, inl, inr, ◌⊎◌,
}
use vendor_cat.Base.Text.{strip, normalize, is_empty}
use vendor_cat.Roles.Levels.{role_admin, role_system_admin, access_request_allowed_roles}
use vendor_cat.Roles.Context.{UserContext}
use vendor_cat.Roles.Policy.{RoleRow, PermissionRow, active_role_names}
use vendor_cat.Roles.Grants.{IsResolved, system_admin_decides_nothing}
use vendor_cat.RoleGrants.{Access, grant_role}
use vendor_cat.RoleGrants.Single.{IsSingle, operations-IsSingle}
use vendor_cat.Workflow.Requests.{
  ChangeRequest, Store, Env, find_request, get_change_request_by_id, update_change_request_status,
  grant_requested, finish_update, write_status, requested_role, requested_payload, UpdateError,
  payload_not_an_object,
}
use vendor_cat.Workflow.Rows.{update-other, update_cases}
use vendor_cat.Workflow.Decisions.{
  DecisionForm, is_terminal_workflow_status, row_level, apply_decision, decide,
}
use vendor_cat.Workflow.Guards.{decide_cases}

apply-requests :
    (env : Env) (user : UserContext) (form : DecisionForm) (id : String) (row : ChangeRequest)
    (s : Store)
    → (apply_decision env user form id row s).1.requests
      ≡ (update_change_request_status env id
          (normalize form.decision)
          user.user_principal
          (strip form.notes)
          s).1.requests
unfolding apply_decision
apply-requests env user form id row s = ground arith

apply-access :
    (env : Env) (user : UserContext) (form : DecisionForm) (id : String) (row : ChangeRequest)
    (s : Store)
    → (apply_decision env user form id row s).1.access
      ≡ (update_change_request_status env id
          (normalize form.decision)
          user.user_principal
          (strip form.notes)
          s).1.access
unfolding apply_decision
apply-access env user form id row s = ground arith

decide-other :
    (env : Env) (user : UserContext) (form : DecisionForm) (id j : String) (s : Store)
    → (strip id == j) ≡ false
    → find_request j (decide env user form id s).1.requests ≡ find_request j s.requests
decide-other env user form id j s h = elim (decide_cases env user form id s) [
  | inl same ↦ rw same refl
  | inr (row, passes, applied) ↦
      rw (applied, apply-requests)
        (update-other env id (normalize form.decision) user.user_principal (strip form.notes) j s h)
]

found_request :
    (id : String) (row : ChangeRequest) (s : Store)
    → get_change_request_by_id id s ≡ some row
    → find_request (strip id) s.requests ≡ some row
unfolding get_change_request_by_id
found_request id row s h = elim (Bool-cases (is_empty (strip id))) [
  | inl blank ↦ absurd (cc (rw blank at h))
  | inr given ↦ rw given at h
]

-- One row is not open and terminal at once.
clash :
    (r row : ChangeRequest) {found : Option ChangeRequest}
    → found ≡ some r
    → found ≡ some row
    → is_terminal_workflow_status (normalize r.status) ≡ false
    → is_terminal_workflow_status (normalize row.status) ≡ true
    → ⊥
clash r row a b h k = cc

-- One decision leaves a row whose status is terminal as it is.
decide-terminal :
    (env : Env) (user : UserContext) (form : DecisionForm) (id j : String) (s : Store)
    (row : ChangeRequest)
    → find_request j s.requests ≡ some row
    → is_terminal_workflow_status (normalize row.status) ≡ true
    → find_request j (decide env user form id s).1.requests ≡ some row
decide-terminal env user form id j s row found terminal = elim (Bool-cases (strip id == j)) [
  | inr other ↦ rw (decide-other env user form id j s other) found
  | inl same ↦ elim (decide_cases env user form id s) [
    | inl kept ↦ rw kept found
    | inr (r, passes, applied) ↦ absurd (
        clash r row (rw ((eq_iff (strip id) j).0 same) at (found_request id r s passes.found)) found
          passes.open_status terminal)
  ]
]

-- The decisions that users make, one after the other.
pub record Attempt : Type 0 where
  pub env : Env
  pub user : UserContext
  pub form : DecisionForm
  pub id : String

unfoldable pub decide_all : List Attempt → Store → Store
decide_all [] s = s
decide_all (a ∷ attempts) s = decide_all attempts (decide a.env a.user a.form a.id s).1

-- A request that is approved or rejected stays as it is, whatever decisions anybody makes after that.
pub decided_is_final :
    (attempts : List Attempt) (j : String) (s : Store) (row : ChangeRequest)
    → find_request j s.requests ≡ some row
    → is_terminal_workflow_status (normalize row.status) ≡ true
    → find_request j (decide_all attempts s).requests ≡ some row
unfolding decide_all
decided_is_final [] j s row found terminal = found
decided_is_final (a ∷ attempts) j s row found terminal =
    decided_is_final attempts j (decide a.env a.user a.form a.id s).1 row
      (decide-terminal a.env a.user a.form a.id j s row found terminal) terminal

-- A system_admin who is no vendor_admin changes nothing by a decision, under the policy that the
-- repository resolves.
pub system_admin_decision :
    (env : Env) (user : UserContext) (form : DecisionForm) (id : String) (s : Store)
    (roles : List RoleRow) (permissions : List PermissionRow)
    → IsResolved user roles permissions
    → contains (active_role_names user.roles) role_system_admin ≡ true
    → contains (active_role_names user.roles) role_admin ≡ false
    → (decide env user form id s).1 ≡ s
system_admin_decision env user form id s roles permissions e h k =
    let barred = (system_admin_decides_nothing user roles permissions e h k).1 in
    elim (decide_cases env user form id s) [
      | inl same ↦ same
      | inr (row, passes, applied) ↦ absurd (cc (barred (row_level env row), passes.reviewer))
    ]

-- What the tables of access become when an update ends.
abbrev Granted : Env → String → Bool → Access → Access → Type 0
Granted env actor approved before after =
    (after ≡ before)
    ⊎ ((requestor : String) × (role : String) × (approved ≡ true)
        × (contains access_request_allowed_roles role ≡ true)
        × (after ≡ (grant_role env.resolve_user_id requestor role actor env.now before).1))

grant_requested-Granted :
    (env : Env) (current : ChangeRequest) (role actor : String) (s : Store)
    → Granted env actor true s.access (grant_requested env current role actor s).access
unfolding grant_requested
grant_requested-Granted env current role actor s =
    elim (Bool-cases (is_empty (strip current.requestor_user_principal))) [
      | inl nobody ↦ inl (rw nobody refl)
      | inr requestor ↦ elim (Bool-cases (contains access_request_allowed_roles role)) [
        | inr refused ↦ inl (rw (requestor, refused) refl)
        | inl allowed ↦ inr (
          strip current.requestor_user_principal,
          role,
          refl,
          allowed,
          rw (requestor, allowed) refl,
        )
      ]
    ]

approved-Granted :
    (env : Env) (current : ChangeRequest) (actor : String) (s : Store) (role : Option String)
    → Granted env actor true s.access
        (elim role as (λ _. Option UpdateError × Store) [
          | none ↦ (some payload_not_an_object, s)
          | some r ↦ (none, grant_requested env current r actor s)
        ]).1.access
approved-Granted env current actor s none = inl refl
approved-Granted env current actor s (some role) = grant_requested-Granted env current role actor s

finish-access :
    (env : Env) (current : ChangeRequest) (target actor : String) (s : Store)
    → Granted env actor
        (target == "approved")
        s.access
        (finish_update env current target actor s).1.access
unfolding finish_update
finish-access env current target actor s = elim (Bool-cases (target == "approved")) [
  | inr other ↦ inl (rw other refl)
  | inl approved ↦ elim (Bool-cases (normalize current.change_type == "request_access")) [
    | inr other ↦ inl (rw (approved, other) refl)
    | inl access ↦
        rw (approved, access)
          (approved-Granted env current actor s
            (requested_role env (requested_payload env current)))
  ]
]

update-access :
    (env : Env) (id status actor notes : String) (s : Store)
    → Granted env actor
        (normalize status == "approved")
        s.access
        (update_change_request_status env id status actor notes s).1.access
unfolding write_status
update-access env id status actor notes s = elim (update_cases env id status actor notes s) [
  | inl same ↦ inl (rw same refl)
  | inr (current, found, written) ↦ rw written (
      finish-access env current (normalize status) actor
        (write_status env current (strip id) (normalize status) actor notes s))
]

-- A decision leaves the grants of roles as they are, or it approves and grants one role of those that
-- may be requested.
pub decision_grants_allowed :
    (env : Env) (user : UserContext) (form : DecisionForm) (id : String) (s : Store)
    → ((decide env user form id s).1.access ≡ s.access)
      ⊎ ((requestor : String) × (role : String) × ((normalize (normalize form.decision)
              == "approved")
            ≡ true)
          × (contains access_request_allowed_roles role ≡ true)
          × ((decide env user form id s).1.access
              ≡ (grant_role env.resolve_user_id requestor role user.user_principal env.now
                  s.access).1))
decision_grants_allowed env user form id s = elim (decide_cases env user form id s) [
  | inl same ↦ inl (rw same refl)
  | inr (row, passes, applied) ↦
      rw (applied, apply-access)
        (update-access env id (normalize form.decision) user.user_principal (strip form.notes) s)
]

-- A decision keeps at most one active grant for each user.
pub decide-IsSingle :
    (env : Env) (user : UserContext) (form : DecisionForm) (id : String) (s : Store)
    → IsSingle s.access
    → IsSingle (decide env user form id s).1.access
decide-IsSingle env user form id s h = elim (decision_grants_allowed env user form id s) [
  | inl same ↦ rw same h
  | inr (requestor, role, approved, allowed, granted) ↦
      rw granted
        (operations-IsSingle env.resolve_user_id requestor role "" user.user_principal env.now
          s.access h).0
]
