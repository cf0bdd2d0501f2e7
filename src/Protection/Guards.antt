-- ===== src/Protection/Guards.antt =====
-- The middleware as a whole: what has held when a handler runs, and which requests the limiter counts.
use Prim.Native.String.{◌++◌ as append}
use vendor_cat.Base.{
  ℕ, String, Bool, true, false, not, ◌&&◌, none, some, ◌≡◌, refl, sym, ◌∙◌, ◌⊎◌, arith, inl, inr,
  Bool-cases, Option-cases, max, if◌then◌else◌,
}
use vendor_cat.Base.Text.{upper}
use vendor_cat.Limiter.{Limiter, allow}
use vendor_cat.Protection.{
  Request, User, State, Verdict, passed, csrf_forbidden, too_many_requests, page_redirect,
  limit_writes, middleware, ensure_csrf_token, request_matches_csrf_token,
  request_requires_write_protection, request_rate_limit_key,
}

abbrev pub limiter_key : Request → String
limiter_key request = append (request_rate_limit_key request) (append ":" (upper request.method))

abbrev pub token_of : String → State → String
token_of drawn s = (ensure_csrf_token drawn s.session).0

-- A redirect is not the call of the handler.
redirect_not_passed :
    (request : Request) (user : User) (v : Verdict)
    → page_redirect request user ≡ some v
    → ¬ (v ≡ passed)
unfolding page_redirect
redirect_not_passed request user v h q = ground (arith, h, q)

-- What is let through to the handler, on any tests.
reached :
    (csrf_enabled writes matched allowed : Bool) (seconds : ℕ)
    → (if csrf_enabled && writes && not matched
        then csrf_forbidden
        else if writes
        then if allowed then passed else too_many_requests seconds
        else passed)
      ≡ passed
    → writes ≡ true
    → ((csrf_enabled ≡ true → matched ≡ true) × (allowed ≡ true))
reached csrf_enabled writes matched allowed seconds h w = ground (arith, h, w)

module _ (urlparse : String → String × String) (csrf_enabled : Bool) (request : Request)
    (user : User) (drawn : String) (now : ℕ) (s : State) where
  abbrev pub outcome : Verdict × State
  outcome = middleware urlparse csrf_enabled request user drawn now s

  abbrev pub matched : Bool
  matched = request_matches_csrf_token urlparse request (token_of drawn s)

  abbrev pub decision : Bool × ℕ × Limiter
  decision = allow (limiter_key request) now s.limiter

  abbrev pub writes : Bool
  writes = request_requires_write_protection request.method

  -- The three ways through the middleware, with the verdict and the limiter of each.
  Redirected : Type 0
  Redirected =
      (v : Verdict) × (page_redirect request user ≡ some v)
      × (outcome.0 ≡ v)
      × (outcome.1.limiter ≡ s.limiter)

  Forbidden : Type 0
  Forbidden = (outcome.0 ≡ csrf_forbidden) × (outcome.1.limiter ≡ s.limiter)

  Read : Type 0
  Read = (writes ≡ false) × (outcome.1.limiter ≡ s.limiter)

  Counted : Type 0
  Counted =
      (page_redirect request user ≡ none)
      × (writes ≡ true)
      × (csrf_enabled ≡ true → matched ≡ true)
      × (outcome.0 ≡ (if decision.0 then passed else too_many_requests (max 1 decision.1)))
      × (outcome.1.limiter ≡ decision.2)

  middleware_cases : Redirected ⊎ (Forbidden ⊎ (Read ⊎ Counted))
  unfolding middleware limit_writes Redirected Forbidden Read Counted
  middleware_cases = elim (Option-cases (page_redirect request user)) [
    | inr (v, redirect) ↦
        inl (v, redirect, rw (redirect, middleware) refl, rw (redirect, middleware) refl)
    | inl stays ↦ elim (Bool-cases writes) [
      | inr reads ↦ inr (inr (inl (reads, ground (arith, stays, reads))))
      | inl write ↦ elim (Bool-cases (csrf_enabled && not matched)) [
        | inl forged ↦
            inr (inl (ground (arith, stays, write, forged), ground (arith, stays, write, forged)))
        | inr genuine ↦ inr (
            inr (
              inr (
                stays,
                write,
                ground (arith, genuine),
                ground (arith, stays, write, genuine),
                ground (arith, stays, write, genuine),
              )))
      ]
    ]
  ]

  not_forbidden : ¬ (csrf_forbidden ≡ passed)
  not_forbidden h = cc

  allowed_passed :
      (allowed : Bool) (seconds : ℕ)
      → (if allowed then passed else too_many_requests seconds) ≡ passed
      → allowed ≡ true
  allowed_passed true seconds h = refl
  allowed_passed false seconds h = absurd (cc)

  -- When the handler of a writing request runs, the request was not redirected, its token or origin was
  -- accepted (where that is enforced), and the rate limiter allowed it and counted it.
  pub middleware-passed :
      outcome.0 ≡ passed
      → writes ≡ true
      → (page_redirect request user ≡ none)
        × (csrf_enabled ≡ true → matched ≡ true)
        × (decision.0 ≡ true)
        × (outcome.1.limiter ≡ decision.2)
  unfolding Redirected Forbidden Read Counted
  middleware-passed through write = elim middleware_cases [
    | inl (v, redirect, out, kept) ↦
        absurd (redirect_not_passed request user v redirect (sym out ∙ through))
    | inr (inl (out, kept)) ↦ absurd (not_forbidden (sym out ∙ through))
    | inr (inr (inl (reads, kept))) ↦ absurd (cc)
    | inr (inr (inr (stays, w, genuine, out, counted))) ↦
        (stays, genuine, allowed_passed decision.0 (max 1 decision.1) (sym out ∙ through), counted)
  ]

  -- Only a writing request whose token or origin was accepted (where that is enforced) reaches the rate
  -- limiter: a redirect, a forged request and a reading request leave it as it is.
  pub middleware-counted :
      (outcome.1.limiter ≡ s.limiter)
      ⊎ ((writes ≡ true)
          × (csrf_enabled ≡ true → matched ≡ true)
          × (outcome.1.limiter ≡ decision.2))
  unfolding Redirected Forbidden Read Counted
  middleware-counted = elim middleware_cases [
    | inl (v, redirect, out, kept) ↦ inl kept
    | inr (inl (out, kept)) ↦ inl kept
    | inr (inr (inl (reads, kept))) ↦ inl kept
    | inr (inr (inr (stays, w, genuine, out, counted))) ↦ inr (w, genuine, counted)
  ]
