-- ===== src/Protection.antt =====
-- web/security/controls.py and web/http/middleware.py: the checks that a request passes before its
-- handler runs. Headers that are missing are empty texts, as the code reads them. The parsing of a URL
-- is the parameter `urlparse`, a scheme and a network location; `hmac.compare_digest` is equality.
pub mod Tokens
pub mod Guards
pub mod Settings
pub mod Terms
pub mod Accepted
pub mod Tests
use text.Mathlib.Text.{starts_with}
use Prim.Native.String.{◌++◌ as append}
use vendor_cat.Base.{
  ℕ, String, Bool, true, false, not, ◌&&◌, ◌||◌, Option, none, some, List, [], ◌∷◌, any, contains,
  max, ◌==◌, string_eq, if◌then◌else◌,
}
use vendor_cat.Base.Text.{strip, lower, upper, is_empty, or_text}
use vendor_cat.Base.Patterns.{has_text, has_code, before}
use vendor_cat.Base.Dict.{Dict, lookup, insert}
use vendor_cat.Limiter.{Limiter, sanitize_identity_value, allow}

pub record Request : Type 0 where
  pub method : String
  pub path : String
  pub query : String
  pub headers : Dict String String
  pub url_scheme : String
  pub url_netloc : String
  pub client_host : String
  -- the fields of the form, `none` where reading it raises
  pub form : Option (Dict String String)

abbrev pub get_text : String → Dict String String → String
get_text key fields = elim (lookup key fields) [ none ↦ "" | some text ↦ text ]

abbrev pub header : String → Request → String
header name request = get_text name request.headers

abbrev pub csrf_session_key : String
csrf_session_key = "tvendor_csrf_token"

abbrev pub csrf_form_field : String
csrf_form_field = "csrf_token"

abbrev pub csrf_header : String
csrf_header = "x-csrf-token"

-- `request_requires_write_protection`
unfoldable pub request_requires_write_protection : String → Bool
unfolding upper contains
request_requires_write_protection method =
    contains ("POST" ∷ "PUT" ∷ "PATCH" ∷ "DELETE" ∷ []) (upper method)

-- `ensure_csrf_token`, with the token that is drawn if there is none
unfoldable pub ensure_csrf_token :
    String → Option (Dict String String) → String × Option (Dict String String)
ensure_csrf_token drawn none = ("", none)
ensure_csrf_token drawn (some session) =
    let token = strip (get_text csrf_session_key session) in
    if is_empty token
    then (drawn, some (insert csrf_session_key drawn session))
    else (token, some session)

-- `_first_forwarded_value`
unfoldable pub first_forwarded_value : String → String
unfolding strip before sanitize_identity_value
first_forwarded_value value = strip (before (has_code 44) (sanitize_identity_value 512 value))

-- `_request_origin`
unfoldable pub request_origin : Request → String
unfolding first_forwarded_value lower or_text is_empty sanitize_identity_value
request_origin request =
    let forwarded_proto = lower (first_forwarded_value (header "x-forwarded-proto" request)) in
    let forwarded_host = lower (first_forwarded_value (header "x-forwarded-host" request)) in
    let host_header = lower (sanitize_identity_value 320 (header "host" request)) in
    let scheme = or_text forwarded_proto (lower request.url_scheme) in
    let netloc = or_text forwarded_host (or_text host_header (lower request.url_netloc)) in
    if is_empty scheme || is_empty netloc then "" else append scheme (append "://" netloc)

-- `_is_same_origin`
unfoldable pub is_same_origin : (String → String × String) → Request → Bool
is_same_origin urlparse request =
    let expected = request_origin request in
    let origin = lower (sanitize_identity_value 320 (header "origin" request)) in
    let referer = sanitize_identity_value 320 (header "referer" request) in
    let (scheme, netloc) = urlparse referer in
    if is_empty expected
    then false
    else if not (is_empty origin)
    then origin == expected
    else if is_empty referer
    then false
    else not (is_empty scheme)
      && not (is_empty netloc)
      && lower (append scheme (append "://" netloc)) == expected

-- `_is_form_content_type`
unfoldable pub is_form_content_type : String → Bool
unfolding lower has_text
is_form_content_type content_type =
    has_text "application/x-www-form-urlencoded" (lower content_type)
    || has_text "multipart/form-data" (lower content_type)

-- A value that is there and is the token
abbrev pub is_token : String → String → Bool
is_token expected value = not (is_empty value) && value == expected

abbrev pub form_has_token : String → Option (Dict String String) → Bool
form_has_token expected none = false
form_has_token expected (some form) = is_token expected (strip (get_text csrf_form_field form))

-- `request_matches_csrf_token`
unfoldable pub request_matches_csrf_token : (String → String × String) → Request → String → Bool
request_matches_csrf_token urlparse request expected_token =
    let expected = strip expected_token in
    if is_empty expected
    then false
    else if is_token expected (strip (header csrf_header request))
    then true
    else if is_same_origin urlparse request
    then true
    else if is_form_content_type (header "content-type" request)
    then form_has_token expected request.form
    else false

-- `request_rate_limit_key`
unfoldable pub request_rate_limit_key : Request → String
unfolding strip is_empty
request_rate_limit_key request =
    let client_host = strip request.client_host in
    if is_empty client_host then "ip:unknown" else append "ip:" client_host

abbrev pub protected_ui_path_prefixes : List String
protected_ui_path_prefixes =
    "/dashboard" ∷ "/vendor-360" ∷ "/vendors" ∷ "/projects" ∷ "/contracts" ∷ "/demos" ∷ "/imports"
    ∷ "/reports" ∷ "/admin" ∷ "/workflows" ∷ "/pending-approvals" ∷ []

-- `_is_protected_ui_path`
unfoldable pub is_protected_ui_path : String → Bool
unfolding strip or_text any
is_protected_ui_path path =
    let cleaned = or_text (strip path) "/" in
    if cleaned == "/" || cleaned == "/access/request"
    then false
    else any (λ prefix. starts_with cleaned prefix) protected_ui_path_prefixes

-- `_request_target_path`
unfoldable pub request_target_path : Request → String
unfolding strip is_empty or_text
request_target_path request =
    let path = or_text request.path "/" in
    let query = strip request.query in
    if is_empty query then path else append path (append "?" query)

-- What the middleware answers itself, or that the handler is called. The redirect to the terms carries
-- the path that `quote` encodes.
pub data Verdict : Type 0 where
  to_access_request : Verdict
  to_terms : String → Verdict
  csrf_forbidden : Verdict
  too_many_requests : ℕ → Verdict
  passed : Verdict

-- What the handler of the user context and the terms answer for the request
pub record User : Type 0 where
  pub roles : List String
  pub terms_accepted : Bool

pub record State : Type 0 where
  pub session : Option (Dict String String)
  pub limiter : Limiter

abbrev pub has_roles : User → Bool
has_roles user = elim user.roles [ [] ↦ false | _ ∷ _ ↦ true ]

-- The redirects of `_request_perf_middleware`, for the protected pages
unfoldable pub page_redirect : Request → User → Option Verdict
page_redirect request user =
    let path = or_text request.path "/" in
    let reads = contains ("GET" ∷ "HEAD" ∷ []) (upper request.method) in
    if not (is_protected_ui_path path)
    then none
    else if not (has_roles user) && not (starts_with path "/dashboard")
    then some to_access_request
    else if has_roles user && reads && not user.terms_accepted
    then some (to_terms (request_target_path request))
    else none

-- The rate limit of writing requests
unfoldable pub limit_writes : Request → ℕ → State → Verdict × State
limit_writes request now s =
    let key = append (request_rate_limit_key request) (append ":" (upper request.method)) in
    let decision = allow key now s.limiter in
    if request_requires_write_protection request.method
    then (
      if decision.0 then passed else too_many_requests (max 1 decision.1),
      record s { limiter = decision.2 },
    )
    else (passed, s)

-- `_request_perf_middleware` up to the call of the handler. `terms_accepted` is true where the terms are
-- not enforced; `drawn` is the token drawn if the session has none.
unfoldable pub middleware :
    (String → String × String) → Bool → Request → User → String → ℕ → State → Verdict × State
middleware urlparse csrf_enabled request user drawn now s =
    let (token, session) = ensure_csrf_token drawn s.session in
    let checked = record s { session = session } in
    elim (page_redirect request user) [
      | some verdict ↦ (verdict, s)
      | none ↦
          if csrf_enabled
            && request_requires_write_protection request.method
            && not (request_matches_csrf_token urlparse request token)
          then (csrf_forbidden, checked)
          else limit_writes request now checked
    ]
