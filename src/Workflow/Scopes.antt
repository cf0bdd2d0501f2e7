-- ===== src/Workflow/Scopes.antt =====
-- The organization scope of a decision, and where the handler redirects to.
use package.text.Mathlib.Text.{starts_with}
use vendor_cat.Base.{
  String, Bool, true, false, not, ◌&&◌, ◌||◌, List, [], ◌∷◌, map, ◌≡◌, refl, arith, any, contains,
  string_eq, Bool-cases, inl, inr, if◌then◌else◌, keep,
}
use vendor_cat.Base.Text.{strip, normalize, upper, is_empty}
use vendor_cat.Roles.Levels.{role_admin, intersects}
use vendor_cat.Roles.Context.{UserContext}
use vendor_cat.Workflow.Requests.{Store, Env, ScopeGrant}
use vendor_cat.Workflow.Decisions.{
  DecisionForm, orgs, scope_of_grants, user_refs, user_scope, row_in_user_scope, in_scope,
  owned_payload, safe_return_to, workflow_decision, decide,
}
use vendor_cat.Workflow.Payload.{payload_org_values}
use vendor_cat.Workflow.Guards.{decide_cases}

-- A grant that counts for a user with these references.
abbrev pub counts : List String → ScopeGrant → Bool
counts refs g = g.active_flag && contains refs (normalize g.user_principal)

none_counts :
    (refs found : List String) (grants : List ScopeGrant)
    → any (counts refs) grants ≡ false
    → scope_of_grants refs found grants ≡ orgs found
unfolding scope_of_grants any
none_counts refs found [] h = refl
none_counts refs found (g ∷ grants) h = ground (arith, none_counts refs found grants)

never_meets : (values : List String) → intersects values [] ≡ false
unfolding intersects any contains
never_meets [] = refl
never_meets (v ∷ values) = never_meets values

not_in_nothing : (values : List String) → row_in_user_scope values (orgs []) ≡ false
unfolding row_in_user_scope
not_in_nothing values =
    never_meets
      (map (λ item. upper (strip item)) (keep (λ item. not (is_empty (strip item))) values))

user_scope-none :
    (env : Env) (user : UserContext) (grants : List ScopeGrant)
    → contains user.roles role_admin ≡ false
    → any (counts (user_refs env user)) grants ≡ false
    → user_scope env user grants ≡ orgs []
unfolding user_scope
user_scope-none env user grants h k = rw h (none_counts (user_refs env user) [] grants k)

-- Who is no vendor_admin and has no active grant of scope under any of the user's references changes
-- nothing by a decision.
pub unscoped_decision :
    (env : Env) (user : UserContext) (form : DecisionForm) (id : String) (s : Store)
    → contains user.roles role_admin ≡ false
    → any (counts (user_refs env user)) s.scope_grants ≡ false
    → (decide env user form id s).1 ≡ s
unfolding in_scope
unscoped_decision env user form id s h k = elim (decide_cases env user form id s) [
  | inl same ↦ same
  | inr (row, passes, applied) ↦
      let scoped = rw (user_scope-none env user s.scope_grants h k) at passes.scoped in
      let outside = not_in_nothing (payload_org_values env.repr (owned_payload env row s)) in
      absurd (cc (scoped, outside))
]

-- The application's own paths, by their first part.
unfoldable pub is_local : String → Bool
is_local url =
    starts_with url "/workflows"
    || starts_with url "/vendors"
    || starts_with url "/vendor-360"
    || starts_with url "/projects"

default_is_local : is_local "/workflows" ≡ true
unfolding is_local
default_is_local = refl

choice_is_local :
    (blank : Bool) (url : String)
    → is_local (if blank then "/workflows" else if is_local url then url else "/workflows") ≡ true
choice_is_local true url = default_is_local
choice_is_local false url = elim (Bool-cases (is_local url)) [
  | inl inside ↦ rw (inside) inside
  | inr outside ↦ rw (outside) default_is_local
]

-- Wherever the form asks to return to, the redirect stays on one of the application's own paths.
pub redirect_is_local :
    (env : Env) (user : UserContext) (form : DecisionForm) (id : String) (s : Store)
    → is_local (workflow_decision env user form id s).0.url ≡ true
unfolding workflow_decision safe_return_to is_local
redirect_is_local env user form id s = choice_is_local (is_empty form.return_to) form.return_to
