-- ===== src/Workflow/Rows.antt =====
-- What an update of a status leaves of the rows, and which roles it can grant.
use vendor_cat.Base.{
  String, Bool, true, false, Option, none, some, List, [], ◌∷◌, ◌≡◌, refl, arith, contains, ◌==◌,
  string_eq, eq_iff, Bool-cases, Option-cases, inl, inr, ◌⊎◌, if◌then◌else◌,
}
use vendor_cat.Base.Text.{strip, normalize, is_empty}
use vendor_cat.Workflow.Requests.{
  ChangeRequest, Store, Env, find_request, set_status, get_change_request_by_id, UpdateError,
  not_stored, update_change_request_status, write_status, finish_update, grant_requested,
  allowed_statuses,
}

-- Writing a status changes it in the row of that identifier and nothing in the others.
pub find-set_status :
    (id status j : String) (requests : List ChangeRequest)
    → find_request j (set_status id status requests) ≡ elim (find_request j requests) [
      | none ↦ none
      | some r ↦ some (if id == j then record r { status = status } else r)
    ]
unfolding find_request set_status
find-set_status id status j [] = refl
find-set_status id status j (r ∷ requests) = ground (
  arith,
  find-set_status id status j requests,
  eq_iff r.change_request_id id,
  eq_iff r.change_request_id j,
  eq_iff id j,
)

finish-requests :
    (env : Env) (current : ChangeRequest) (target actor : String) (s : Store)
    → (finish_update env current target actor s).1.requests ≡ s.requests
unfolding finish_update grant_requested
finish-requests env current target actor s = ground arith

stored_cases :
    (stored : Bool) (rest : Option UpdateError × Store) (s : Store)
    → let result = if stored then rest else (some not_stored, s) in (result.1 ≡ s) ⊎ (result ≡ rest)
stored_cases true rest s = inr refl
stored_cases false rest s = inl refl

-- An update leaves the store as it is, or writes the status and the event of a row that it finds and
-- then finishes.
pub update_cases :
    (env : Env) (id status actor notes : String) (s : Store)
    → ((update_change_request_status env id status actor notes s).1 ≡ s)
      ⊎ ((current : ChangeRequest) × (get_change_request_by_id (strip id) s ≡ some current)
          × (update_change_request_status env id status actor notes s
              ≡ finish_update env current
                  (normalize status)
                  actor
                  (write_status env current (strip id) (normalize status) actor notes s)))
unfolding update_change_request_status
update_cases env id status actor notes s = elim (Bool-cases (is_empty (strip id))) [
  | inl blank ↦ inl (rw (blank, update_change_request_status) refl)
  | inr given ↦ elim (Bool-cases (contains (allowed_statuses s.status_codes) (normalize status))) [
    | inr unsupported ↦ inl (rw (given, unsupported, update_change_request_status) refl)
    | inl supported ↦ elim (Option-cases (get_change_request_by_id (strip id) s)) [
      | inl missing ↦ inl (rw (given, supported, missing, update_change_request_status) refl)
      | inr (current, found) ↦
          rw (given, supported, found, update_change_request_status)
            (elim (stored_cases env.request_stored
              (finish_update env current (normalize status) actor
                (write_status env current (strip id) (normalize status) actor notes s))
              s) [ inl lost ↦ inl lost | inr stored ↦ inr (current, refl, stored) ])
    ]
  ]
]

-- An update leaves the rows as they are or writes the status in those of its identifier.
pub update-requests :
    (env : Env) (id status actor notes : String) (s : Store)
    → ((update_change_request_status env id status actor notes s).1.requests ≡ s.requests)
      ⊎ ((update_change_request_status env id status actor notes s).1.requests
          ≡ set_status (strip id) (normalize status) s.requests)
update-requests env id status actor notes s = elim (update_cases env id status actor notes s) [
  | inl same ↦ inl (rw same refl)
  | inr (current, found, written) ↦
      inr (rw (written, finish-requests) (unfold write_status in refl))
]

-- An update whose checks pass and whose row is stored writes the status, whatever comes of the event
-- and of the grant.
pub update-stored :
    (env : Env) (id status actor notes : String) (s : Store) (current : ChangeRequest)
    → is_empty (strip id) ≡ false
    → contains (allowed_statuses s.status_codes) (normalize status) ≡ true
    → get_change_request_by_id (strip id) s ≡ some current
    → env.request_stored ≡ true
    → (update_change_request_status env id status actor notes s).1.requests
      ≡ set_status (strip id) (normalize status) s.requests
unfolding write_status update_change_request_status
update-stored env id status actor notes s current given supported found stored =
    rw (given, supported, found, stored, update_change_request_status)
      (finish-requests env current (normalize status) actor
        (write_status env current (strip id) (normalize status) actor notes s))

-- An update leaves the rows of other identifiers as they are.
pub update-other :
    (env : Env) (id status actor notes j : String) (s : Store)
    → (strip id == j) ≡ false
    → find_request j (update_change_request_status env id status actor notes s).1.requests
      ≡ find_request j s.requests
update-other env id status actor notes j s h = elim (update-requests env id status actor notes s) [
  | inl same ↦ rw same
  | inr written ↦ rw (written, find-set_status) (ground arith)
]
