-- ===== src/Workflow/Guards.antt =====
-- Which decisions take effect, and that a decision is final.
use vendor_cat.Base.{
  String, Bool, true, false, not, Option, none, some, ◌≡◌, refl, arith, contains, string_eq,
  Option-cases, inl, inr, ◌⊎◌, if◌then◌else◌,
}
use vendor_cat.Base.Text.{normalize}
use vendor_cat.Roles.Context.{UserContext, can_approve_requests, can_review_level}
use vendor_cat.Workflow.Requests.{ChangeRequest, Store, Env, get_change_request_by_id}
use vendor_cat.Workflow.Decisions.{
  DecisionForm, Flash, locked, not_permitted, not_an_option, not_found, workflow_status_options,
  is_terminal_workflow_status, row_level, in_scope, refused_row, apply_decision, decide_row, decide,
}

-- Every check of the handler passes for a row.
pub record Passes (env : Env) (user : UserContext) (form : DecisionForm) (id : String)
    (row : ChangeRequest) (s : Store) : Type 0 where
  pub unlocked : user.locked_mode ≡ false
  pub permitted : can_approve_requests user ≡ true
  pub listed : contains (workflow_status_options s.status_codes) (normalize form.decision) ≡ true
  pub found : get_change_request_by_id id s ≡ some row
  pub open_status : is_terminal_workflow_status (normalize row.status) ≡ false
  pub reviewer : can_review_level user (row_level env row) ≡ true
  pub scoped : in_scope env user row s ≡ true

refused_ladder :
    (terminal reviewer scoped : Bool) (a b c : Flash)
    → (if terminal
        then some a
        else if not reviewer
        then some b
        else if not scoped
        then some c
        else none)
      ≡ none
    → (terminal ≡ false) × (reviewer ≡ true) × (scoped ≡ true)
refused_ladder terminal reviewer scoped a b c h = ground arith

refused_row-none :
    (env : Env) (user : UserContext) (row : ChangeRequest) (s : Store)
    → refused_row env user row s ≡ none
    → (is_terminal_workflow_status (normalize row.status) ≡ false)
      × (can_review_level user (row_level env row) ≡ true)
      × (in_scope env user row s ≡ true)
unfolding refused_row
refused_row-none env user row s h = refused_ladder _ _ _ _ _ _ h

decide_ladder :
    (closed permitted listed : Bool) (s : Store) (rest : Flash × Store)
    → let result =
        if closed
        then (locked, s)
        else if not permitted
        then (not_permitted, s)
        else if not listed
        then (not_an_option, s)
        else rest in
      (result.1 ≡ s) ⊎ ((closed ≡ false) × (permitted ≡ true) × (listed ≡ true) × (result ≡ rest))
decide_ladder true permitted listed s rest = inl refl
decide_ladder false false listed s rest = inl refl
decide_ladder false true false s rest = inl refl
decide_ladder false true true s rest = inr (refl, refl, refl, refl)

decide_row_cases :
    (env : Env) (user : UserContext) (form : DecisionForm) (id : String) (row : ChangeRequest)
    (s : Store)
    → ((decide_row env user form id row s).1 ≡ s)
      ⊎ ((refused_row env user row s ≡ none)
          × (decide_row env user form id row s ≡ apply_decision env user form id row s))
unfolding decide_row
decide_row_cases env user form id row s = elim (Option-cases (refused_row env user row s)) [
  | inl passed ↦ inr (passed, rw (passed, decide_row) refl)
  | inr (flash, refused) ↦ inl (rw (refused, decide_row) refl)
]

-- What the handler does with the row that it looks up.
found_step :
    Env → UserContext → DecisionForm → String → Store → Option ChangeRequest → Flash × Store
found_step env user form id s none = (not_found, s)
found_step env user form id s (some row) = decide_row env user form id row s

decide_checked :
    (env : Env) (user : UserContext) (form : DecisionForm) (id : String) (s : Store)
    → ((decide env user form id s).1 ≡ s)
      ⊎ ((user.locked_mode ≡ false)
          × (can_approve_requests user ≡ true)
          × (contains (workflow_status_options s.status_codes) (normalize form.decision) ≡ true)
          × (decide env user form id s
              ≡ found_step env user form id s (get_change_request_by_id id s)))
unfolding decide found_step
decide_checked env user form id s =
    decide_ladder user.locked_mode (can_approve_requests user)
      (contains (workflow_status_options s.status_codes) (normalize form.decision)) s _

-- The handler leaves the store as it is, or every check passes for the row of the request and the
-- decision is applied to it.
pub decide_cases :
    (env : Env) (user : UserContext) (form : DecisionForm) (id : String) (s : Store)
    → ((decide env user form id s).1 ≡ s)
      ⊎ ((row : ChangeRequest) × Passes env user form id row s
          × (decide env user form id s ≡ apply_decision env user form id row s))
decide_cases env user form id s = elim (decide_checked env user form id s) [
  | inl same ↦ inl same
  | inr (unlocked, permitted, listed, step) ↦ elim (Option-cases (get_change_request_by_id id s)) [
    | inl missing ↦ inl (rw (step, missing) (unfold found_step in refl))
    | inr (row, found) ↦ elim (decide_row_cases env user form id row s) [
      | inl same ↦ inl (rw (step, found) (unfold found_step in same))
      | inr (passed, applied) ↦
          let (open_status, reviewer, scoped) = refused_row-none env user row s passed in
          inr (
            row,
            record {
              unlocked = unlocked;
              permitted = permitted;
              listed = listed;
              found = found;
              open_status = open_status;
              reviewer = reviewer;
              scoped = scoped;
            },
            rw (step, found) (unfold found_step in applied),
          )
    ]
  ]
]
