-- ===== src/Protection/Tokens.antt =====
-- The token of a session: it stays, the page that sends it back is let through, and a page of another
-- site, which cannot read it, is not.
use vendor_cat.Base.{
  String, Bool, true, false, not, ◌&&◌, ◌||◌, some, ◌≡◌, refl, ap, ◌∙◌, ◌==◌, ==_refl, string_eq,
  arith, inl, inr, Bool-cases, if◌then◌else◌,
}
use vendor_cat.Base.Text.{strip, lower, is_empty}
use vendor_cat.Base.Trim.{strip_twice}
use vendor_cat.Base.Dict.{Dict, insert, lookup-insert}
use vendor_cat.Limiter.{sanitize_identity_value}
use vendor_cat.Protection.{
  Request, get_text, header, csrf_session_key, csrf_header, ensure_csrf_token, request_origin,
  is_same_origin, is_form_content_type, is_token, form_has_token, request_matches_csrf_token,
}

none_of :
    (named by_header same_origin is_form by_form : Bool)
    → by_header ≡ false
    → same_origin ≡ false
    → by_form ≡ false
    → (named && (by_header || same_origin || (is_form && by_form))) ≡ false
none_of named by_header same_origin is_form by_form h s f = ground (arith, h, s, f)

-- The chain of tests on any values.
matches_chain :
    (empty by_header same_origin is_form by_form : Bool)
    → (if empty
        then false
        else if by_header
        then true
        else if same_origin
        then true
        else if is_form
        then by_form
        else false)
      ≡ (not empty && (by_header || same_origin || (is_form && by_form)))
matches_chain empty by_header same_origin is_form by_form = ground arith

matches-eq :
    (urlparse : String → String × String) (request : Request) (token : String)
    → request_matches_csrf_token urlparse request token ≡ (
        not (is_empty (strip token))
        && (is_token (strip token) (strip (header csrf_header request))
            || is_same_origin urlparse request
            || (is_form_content_type (header "content-type" request)
                && form_has_token (strip token) request.form)))
unfolding request_matches_csrf_token
matches-eq urlparse request token =
    matches_chain (is_empty (strip token))
      (is_token (strip token) (strip (header csrf_header request)))
      (is_same_origin urlparse request) (is_form_content_type (header "content-type" request))
      (form_has_token (strip token) request.form)

get_text-insert :
    (key text : String) (fields : Dict String String) → get_text key (insert key text fields) ≡ text
get_text-insert key text fields = ground (arith, lookup-insert key key text fields, ==_refl key)

-- The token that a session is given is there, and the session keeps it: asking again, whatever would be
-- drawn then, answers the same and changes nothing.
pub ensure_csrf_token-twice :
    (drawn other : String) (session : Dict String String)
    → strip drawn ≡ drawn
    → is_empty drawn ≡ false
    → (is_empty (ensure_csrf_token drawn (some session)).0 ≡ false)
      × (ensure_csrf_token other (ensure_csrf_token drawn (some session)).1
          ≡ ensure_csrf_token drawn (some session))
unfolding ensure_csrf_token
ensure_csrf_token-twice drawn other session stripped named =
    let held = strip (get_text csrf_session_key session) in
    elim (Bool-cases (is_empty held)) [
      | inr kept ↦ rw (kept, ensure_csrf_token) (kept, rw (kept, ensure_csrf_token) refl)
      | inl missing ↦
          let found : strip (get_text csrf_session_key (insert csrf_session_key drawn session))
              ≡ drawn =
            ap strip (get_text-insert csrf_session_key drawn session) ∙ stripped in
          rw missing (named, rw (found, named) refl)
    ]

-- A request that sends the token of its session in the header passes.
pub matches_token_sent :
    (urlparse : String → String × String) (request : Request) (token : String)
    → is_empty (strip token) ≡ false
    → header csrf_header request ≡ token
    → request_matches_csrf_token urlparse request token ≡ true
matches_token_sent urlparse request token named sent =
    rw (matches-eq urlparse request token, sent, named, ==_refl (strip token)) refl

ensure-stripped :
    (drawn : String) (session : Dict String String)
    → strip drawn ≡ drawn
    → is_empty drawn ≡ false
    → is_empty (strip (ensure_csrf_token drawn (some session)).0) ≡ false
unfolding ensure_csrf_token
ensure-stripped drawn session stripped named =
    let held = get_text csrf_session_key session in
    elim (Bool-cases (is_empty (strip held))) [
      | inl missing ↦ rw missing (rw (stripped, named) refl)
      | inr kept ↦ rw kept (rw (strip_twice held, kept) refl)
    ]

-- What a session hands out comes back: after `ensure_csrf_token`, a request with that token in its header
-- passes, and so does every later one, since the token stays.
pub ensure_csrf_token-accepted :
    (urlparse : String → String × String) (request : Request) (drawn other : String)
    (session : Dict String String)
    → strip drawn ≡ drawn
    → is_empty drawn ≡ false
    → header csrf_header request ≡ (ensure_csrf_token drawn (some session)).0
    → let again = ensure_csrf_token other (ensure_csrf_token drawn (some session)).1 in
      (again ≡ ensure_csrf_token drawn (some session))
      × (request_matches_csrf_token urlparse request again.0 ≡ true)
ensure_csrf_token-accepted urlparse request drawn other session stripped named sent =
    let (there, same) = ensure_csrf_token-twice drawn other session stripped named in
    (
      same,
      rw same (
          matches_token_sent urlparse request (ensure_csrf_token drawn (some session)).0
            (ensure-stripped drawn session stripped named) sent),
    )

other_origin :
    (urlparse : String → String × String) (request : Request)
    → is_empty (lower (sanitize_identity_value 320 (header "origin" request))) ≡ false
    → (lower (sanitize_identity_value 320 (header "origin" request)) == request_origin request)
      ≡ false
    → is_same_origin urlparse request ≡ false
unfolding is_same_origin
other_origin urlparse request given other = elim (Bool-cases (is_empty (request_origin request))) [
  | inl nowhere ↦ rw nowhere refl
  | inr somewhere ↦ rw (somewhere, given, other) refl
]

-- A request whose origin is given and is not that of the application, with the token neither in its
-- header nor in its form, does not pass.
pub matches_other_origin :
    (urlparse : String → String × String) (request : Request) (token : String)
    → is_empty (lower (sanitize_identity_value 320 (header "origin" request))) ≡ false
    → (lower (sanitize_identity_value 320 (header "origin" request)) == request_origin request)
      ≡ false
    → is_token (strip token) (strip (header csrf_header request)) ≡ false
    → form_has_token (strip token) request.form ≡ false
    → request_matches_csrf_token urlparse request token ≡ false
matches_other_origin urlparse request token given other no_header no_form =
    let refused = other_origin urlparse request given other in
    let form = is_form_content_type (header "content-type" request) in
    matches-eq urlparse request token
    ∙ none_of (not (is_empty (strip token))) _ _ form _ no_header refused no_form
