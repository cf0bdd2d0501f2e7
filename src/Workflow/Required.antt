-- ===== src/Workflow/Required.antt =====
-- The level that a request needs: what is stored at its creation is what the handler reads.
use vendor_cat.Base.{
  ℕ, ◌≤◌, String, Bool, true, false, Option, none, some, List, [], ◌∷◌, ◌++◌, ◌≡◌, refl, arith,
  ◌==◌, string_eq, eq_iff, if◌then◌else◌, ◌∙◌, ap,
}
use vendor_cat.Base.Text.{strip, normalize, is_empty, or_text}
use vendor_cat.Workflow.Payload.{
  ℤ, pos, negsuc, Json, Fields, end, field, object, number, text, get_field, set_field,
  object_or_empty, clamp_level, int_of, level_in, prepare_change_request_payload, required_level,
}
use vendor_cat.Workflow.Requests.{
  ChangeRequest, Store, Env, find_request, actor_ref, global_change_vendor_id,
}
use vendor_cat.Workflow.Creation.{
  create_vendor_change_request, create_access_request, access_payload, requested,
}
use vendor_cat.Workflow.Decisions.{payload_obj, row_level}

pub get-set_field :
    (j k : String) (v : Json) (fields : Fields)
    → get_field k (set_field j v fields) ≡ (if j == k then some v else get_field k fields)
unfolding get_field set_field
get-set_field j k v end = refl
get-set_field j k v (field i w fields) =
    ground (arith, get-set_field j k v fields, eq_iff i j, eq_iff i k, eq_iff j k)

clamp_level-bounds : (n : ℤ) → (1 ≤ clamp_level n) × (clamp_level n ≤ 10)
unfolding clamp_level
clamp_level-bounds (pos n) = omega arith
clamp_level-bounds (negsuc n) = omega arith

level_in-bounds : (meta : Fields) (t : String) → (1 ≤ level_in meta t) × (level_in meta t ≤ 10)
unfolding level_in
level_in-bounds meta t = clamp_level-bounds _

clamp_level-in_bounds : (n : ℕ) → 1 ≤ n → n ≤ 10 → clamp_level (pos n) ≡ n
unfolding clamp_level
clamp_level-in_bounds n h k = omega arith

level_in-known :
    (meta : Fields) (u : String) (n : ℕ)
    → get_field "approval_level_required" meta ≡ some (number (pos n))
    → 1 ≤ n
    → n ≤ 10
    → level_in meta u ≡ n
unfolding level_in int_of
level_in-known meta u n e h k = rw e (clamp_level-in_bounds n h k)

-- The two keys that are written last are the ones that are read.
get-prepared :
    (meta : Fields) (action : String) (level : Json)
    → get_field "approval_level_required"
        (set_field "workflow_action" (text action) (set_field "approval_level_required" level meta))
      ≡ some level
get-prepared meta action level =
    get-set_field "workflow_action" "approval_level_required" (text action)
      (set_field "approval_level_required" level meta)
    ∙ get-set_field "approval_level_required" "approval_level_required" level meta

get-meta :
    (meta : Json) (payload : Fields)
    → get_field "_meta" (set_field "_meta" meta payload) ≡ some meta
get-meta meta payload = get-set_field "_meta" "_meta" meta payload

-- The level that preparing a payload writes is the one that is read back from it, for every type.
level-prepare :
    (t u : String) (payload : Fields)
    → required_level (prepare_change_request_payload t payload) u
      ≡ level_in (object_or_empty (get_field "_meta" payload)) t
unfolding required_level prepare_change_request_payload
level-prepare t u payload =
    let meta = object_or_empty (get_field "_meta" payload) in
    let bounds = level_in-bounds meta t in
    rw
      (get-meta
        (object (
          set_field "workflow_action" (text (normalize t))
            (set_field "approval_level_required" (number (pos (level_in meta t))) meta)))
        payload)
      (level_in-known
        (set_field "workflow_action" (text (normalize t))
          (set_field "approval_level_required" (number (pos (level_in meta t))) meta))
        u (level_in meta t) (get-prepared meta (normalize t) (number (pos (level_in meta t))))
        bounds.0 bounds.1)

-- The level that a row asks of its decision is between 1 and 10, whatever its payload.
row_level-bounds :
    (env : Env) (row : ChangeRequest) → (1 ≤ row_level env row) × (row_level env row ≤ 10)
unfolding row_level required_level
row_level-bounds env row =
    level_in-bounds
      (object_or_empty (get_field "_meta" (payload_obj env row.requested_payload_json)))
      row.change_type

if_true {ℓ} : {A : Type ℓ} (b : Bool) (x y : A) → b ≡ true → (if b then x else y) ≡ x
if_true b x y h = rw h refl

find-append :
    (id : String) (row : ChangeRequest) (requests : List ChangeRequest)
    → find_request id requests ≡ none
    → row.change_request_id ≡ id
    → find_request id (requests ++ row ∷ []) ≡ some row
unfolding find_request
find-append id row [] h e = ground (arith, eq_iff row.change_request_id id)
find-append id row (r ∷ requests) h e = ground (arith, find-append id row requests)

-- A change request that is stored under a fresh identifier is found there with the status
-- `submitted`, and the level that the handler asks of its decision is the one that its payload names
-- or, if it names none, the one of its change type, between 1 and 10. The conditions are
-- that the row is stored and that the payload is read back as it was written.
pub created_level :
    (env : Env) (id vendor_id requestor change_type : String) (payload : Fields) (s : Store)
    → env.request_stored ≡ true
    → find_request id s.requests ≡ none
    → env.loads
        (or_text (env.dumps (prepare_change_request_payload (normalize change_type) payload)) "{}")
      ≡ some (object (prepare_change_request_payload (normalize change_type) payload))
    → (row : ChangeRequest) × (find_request id
          (create_vendor_change_request env id vendor_id requestor change_type payload s).1.requests
        ≡ some row)
      × (row.status ≡ "submitted")
      × (row_level env row
          ≡ level_in (object_or_empty (get_field "_meta" payload)) (normalize change_type))
      × (1 ≤ row_level env row)
      × (row_level env row ≤ 10)
unfolding create_vendor_change_request row_level payload_obj
created_level env id vendor_id requestor change_type payload s stored fresh back =
    let t = normalize change_type in
    let row : ChangeRequest = record {
      change_request_id = id;
      vendor_id = or_text (strip vendor_id) global_change_vendor_id;
      requestor_user_principal = actor_ref env requestor;
      change_type = t;
      requested_payload_json = env.dumps (prepare_change_request_payload t payload);
      status = "submitted";
    } in
    (
      row,
      ap (λ (r : Option String × Store). find_request id r.1.requests)
            (if_true env.request_stored _ _ stored)
          ∙ find-append id row s.requests fresh refl,
      refl,
      rw back (level-prepare t t payload),
      (row_level-bounds env row).0,
      (row_level-bounds env row).1,
    )

no_meta :
    (env : Env) (profile : Fields) (requestor role reason : String)
    → object_or_empty (get_field "_meta" (access_payload env profile requestor role reason)) ≡ end
unfolding access_payload get_field
no_meta env profile requestor role reason = refl

access_level : level_in end (normalize "request_access") ≡ 3
unfolding level_in normalize
access_level = refl

created_id :
    (env : Env) (id vendor_id requestor change_type : String) (payload : Fields) (s : Store)
    → env.request_stored ≡ true
    → (create_vendor_change_request env id vendor_id requestor change_type payload s).0 ≡ some id
unfolding create_vendor_change_request
created_id env id vendor_id requestor change_type payload s stored =
    ap (λ (r : Option String × Store). r.0) (if_true env.request_stored _ _ stored)

-- What a request for access is stored as.
abbrev pub access_fields : Env → Fields → String → String → String → Fields
access_fields env profile requestor role reason =
    access_payload env profile (strip requestor) (normalize role) (strip reason)

requested_store :
    (env : Env) (id requestor role reason : String) (profile : Fields) (s : Store)
    → is_empty (strip requestor) ≡ false
    → is_empty (normalize role) ≡ false
    → is_empty (strip reason) ≡ false
    → env.request_stored ≡ true
    → create_access_request env id profile requestor role reason s ≡ (
      requested id,
      (create_vendor_change_request env id global_change_vendor_id
          (strip requestor)
          "request_access"
          (access_fields env profile requestor role reason)
          s).1,
    )
unfolding create_access_request
requested_store env id requestor role reason profile s a b c stored =
    let made =
      created_id env id global_change_vendor_id (strip requestor) "request_access"
        (access_fields env profile requestor role reason) s stored in
    rw (a, b, c, create_access_request) (rw made refl)

-- A request for access with a requester, a role and a reason that is stored under a fresh identifier
-- is found there as submitted, and its decision needs level 3, whatever role it asks for. The
-- conditions are that the row is stored and that the payload is read back as it was written.
pub access_request_level :
    (env : Env) (id requestor role reason : String) (profile : Fields) (s : Store)
    → is_empty (strip requestor) ≡ false
    → is_empty (normalize role) ≡ false
    → is_empty (strip reason) ≡ false
    → env.request_stored ≡ true
    → find_request id s.requests ≡ none
    → env.loads (
        or_text
          (env.dumps (
            prepare_change_request_payload
              (normalize "request_access")
              (access_fields env profile requestor role reason)))
          "{}")
      ≡ some (
          object (
            prepare_change_request_payload
              (normalize "request_access")
              (access_fields env profile requestor role reason)))
    → ((create_access_request env id profile requestor role reason s).0 ≡ requested id)
      × ((row : ChangeRequest) × (find_request id
              (create_access_request env id profile requestor role reason s).1.requests
            ≡ some row)
          × (row.status ≡ "submitted")
          × (row_level env row ≡ 3))
access_request_level env id requestor role reason profile s a b c stored fresh back =
    let e = requested_store env id requestor role reason profile s a b c stored in
    let (row, found, status, level, _, _) =
      created_level env id global_change_vendor_id (strip requestor) "request_access"
        (access_fields env profile requestor role reason) s stored fresh back in
    let meta = no_meta env profile (strip requestor) (normalize role) (strip reason) in
    rw e (
      refl,
      (
        row,
        found,
        status,
        level ∙ ap (λ fields. level_in fields (normalize "request_access")) meta ∙ access_level,
      ),
    )
