-- ===== src/Protection/Tests.antt =====
-- Requests at concrete inputs, and the theorems applied to them.
use vendor_cat.Protection.Settings.{save_user_setting, get_user_setting, read_cached}
use vendor_cat.Base.{
  Bool, Option, some, String, true, false, none, [], ◌∷◌, ◌≡◌, refl, string_eq, ◌⊎◌, contains,
}
use vendor_cat.Base.Text.{strip, lower, is_empty, upper}
use vendor_cat.Base.Dict.{Dict, lookup}
use vendor_cat.Cache
use vendor_cat.Cache.{get_or_load}
use vendor_cat.Limiter.{new, allow, sanitize_identity_value, drop_old}
use vendor_cat.Protection.{
  Request, User, State, passed, csrf_forbidden, to_access_request, ensure_csrf_token,
  request_matches_csrf_token, request_origin, is_same_origin, middleware, page_redirect,
  request_requires_write_protection, is_protected_ui_path, limit_writes, is_form_content_type,
}
use vendor_cat.Protection.Terms.{
  TermsState, Recorded, recorded, has_current_terms_acceptance, record_terms_acceptance,
  is_acceptance_valid, held,
}
use vendor_cat.Protection.Tokens.{ensure_csrf_token-accepted, matches_other_origin}
use vendor_cat.Protection.Guards.{
  outcome, matched, decision, writes, middleware-passed, middleware-counted,
}

abbrev no_url : String → String × String
no_url text = ("", "")

abbrev request : Request
request = record {
  method = "POST";
  path = "/vendors/new";
  query = "";
  headers = ("host", "app.local") ∷ ("x-csrf-token", "t0k") ∷ [];
  url_scheme = "https";
  url_netloc = "app.local";
  client_host = "10.0.0.7";
  form = none;
}

abbrev foreign : Request
foreign = record request { headers = ("host", "app.local") ∷ ("origin", "https://other.org") ∷ [] }

abbrev session : Dict String String
session = ("tvendor_csrf_token", "t0k") ∷ []

abbrev editor : User
editor = record { roles = "vendor_editor" ∷ []; terms_accepted = true }

abbrev state : State
state = record { session = some session; limiter = new true 2 10 3 1 }

guard_test :
    ((middleware no_url true request editor "new" 1 state).0 ≡ passed)
    × ((middleware no_url true foreign editor "new" 1 state).0 ≡ csrf_forbidden)
    × ((middleware no_url false foreign editor "new" 1 state).0 ≡ passed)
    × ((middleware no_url true request
          (record { roles = []; terms_accepted = true })
          "new"
          1
          state).0
        ≡ to_access_request)
unfolding middleware page_redirect is_protected_ui_path contains upper
    request_requires_write_protection request_matches_csrf_token ensure_csrf_token lookup
    limit_writes allow new drop_old is_same_origin request_origin is_form_content_type
guard_test = (refl, refl, refl, refl)

ensure_csrf_token-accepted_example :
    let again = ensure_csrf_token "later" (ensure_csrf_token "new" (some session)).1 in
    (again ≡ ensure_csrf_token "new" (some session))
    × (request_matches_csrf_token no_url request again.0 ≡ true)
ensure_csrf_token-accepted_example =
    ensure_csrf_token-accepted no_url request "new" "later" session (unfold strip in refl)
      (unfold is_empty in refl) (unfold ensure_csrf_token strip is_empty lookup in refl)

matches_other_origin_example : request_matches_csrf_token no_url foreign "t0k" ≡ false
matches_other_origin_example =
    matches_other_origin no_url foreign "t0k"
      (unfold sanitize_identity_value lookup lower is_empty in refl)
      (unfold request_origin sanitize_identity_value lookup lower in refl)
      (unfold strip lookup is_empty in refl) refl

middleware-passed_example :
    (page_redirect request editor ≡ none)
    × (true ≡ true → matched no_url true request editor "new" 1 state ≡ true)
    × ((decision no_url true request editor "new" 1 state).0 ≡ true)
    × ((outcome no_url true request editor "new" 1 state).1.limiter
        ≡ (decision no_url true request editor "new" 1 state).2)
middleware-passed_example =
    middleware-passed no_url true request editor "new" 1 state guard_test.0
      (unfold request_requires_write_protection in refl)

middleware-counted_example :
    ((outcome no_url true request editor "new" 1 state).1.limiter ≡ state.limiter)
    ⊎ ((writes no_url true request editor "new" 1 state ≡ true)
        × (true ≡ true → matched no_url true request editor "new" 1 state ≡ true)
        × ((outcome no_url true request editor "new" 1 state).1.limiter
            ≡ (decision no_url true request editor "new" 1 state).2))
middleware-counted_example = middleware-counted no_url true request editor "new" 1 state

-- A directory that finds nobody, so that the settings stand under the name itself
abbrev nobody : String → Option (Option String)
nobody principal = some none

abbrev before_terms : TermsState
before_terms = record {
  session = some [];
  settings = record { rows = []; cache = Cache.new true 300 8 1 none };
}

abbrev after_recording : Recorded → TermsState
after_recording (recorded s) = s
after_recording _ = before_terms

-- What recording the version v1 leaves
abbrev recording : Bool → TermsState
recording inserts = after_recording (
    record_terms_acceptance nobody true inserts "v1" "ann" " v1 " "now" "agent" "host" before_terms)

-- An insertion that fails raises nothing: the acceptance is lost with the session.
lost_acceptance_test :
    (has_current_terms_acceptance nobody true "v1" true 7 "ann"
      (record (recording false) { session = none })).0
    ≡ false
unfolding has_current_terms_acceptance record_terms_acceptance strip is_empty is_acceptance_valid
    held get_user_setting read_cached get_or_load save_user_setting Cache.new
lost_acceptance_test = refl
