-- ===== src/RoleGrants/Revoked.antt =====
-- What a revocation leaves of the roles of a group and of the scopes of a user.
use vendor_cat.Base.{
  ℕ, String, Bool, true, false, not, ◌&&◌, Option, none, some, List, [], ◌∷◌, ◌++◌, ◌≡◌, refl, ap,
  ◌∙◌, any, keep, arith, ◌==◌, ==_refl, string_eq, inl, inr, Bool-cases, Option-cases,
  if◌then◌else◌,
}
use vendor_cat.Base.Text.{normalize, strip, is_empty}
use vendor_cat.RoleGrants.Groups.{
  GroupGrant, ScopeGrant, Groups, is_active, of_group, revoke_group_rows, revoke_scope_rows,
  revoke_group_role_grant, grant_org_scope, revoke_org_scope,
}
use vendor_cat.RoleGrants.GroupNames.{normalize_group_principal}

-- The group has the role.
abbrev pub holds : String → String → GroupGrant → Bool
holds group role g = of_group group role g && is_active g

abbrev pub other_grant : String → String → GroupGrant → Bool
other_grant group role g = not (of_group group role g)

revoke_group_rows-none :
    (group role : String) (now : ℕ) (rows : List GroupGrant)
    → any (holds group role) (revoke_group_rows group role now rows) ≡ false
unfolding any revoke_group_rows
revoke_group_rows-none group role now [] = refl
revoke_group_rows-none group role now (g ∷ rows) =
    ground (arith, revoke_group_rows-none group role now rows)

revoke_group_rows-others :
    (group role : String) (now : ℕ) (rows : List GroupGrant)
    → keep (other_grant group role) (revoke_group_rows group role now rows)
      ≡ keep (other_grant group role) rows
unfolding keep revoke_group_rows
revoke_group_rows-others group role now [] = refl
revoke_group_rows-others group role now (g ∷ rows) =
    let rest = revoke_group_rows-others group role now rows in
    elim (Bool-cases (of_group group role g)) [
      | inr other ↦ rw other (rw other (ap (λ gs. g ∷ gs) rest))
      | inl same ↦ elim (Bool-cases (is_active g)) [
        | inl active ↦ rw (same, active) (rw same rest)
        | inr past ↦ rw (same, past) (rw same rest)
      ]
    ]

abbrev pub scope_grant : String → String → String → ℕ → Bool → ScopeGrant
scope_grant user org_id scope_level now active = record {
  user_principal = user;
  org_id = org_id;
  scope_level = scope_level;
  active_flag = active;
  granted_at = now;
}

revoke_scope_rows-append :
    (user org_id scope_level : String) (xs ys : List ScopeGrant)
    → revoke_scope_rows user org_id scope_level (xs ++ ys)
      ≡ revoke_scope_rows user org_id scope_level xs ++ revoke_scope_rows user org_id scope_level ys
unfolding revoke_scope_rows
revoke_scope_rows-append user org_id scope_level [] ys = refl
revoke_scope_rows-append user org_id scope_level (x ∷ xs) ys =
    let rest = revoke_scope_rows-append user org_id scope_level xs ys in cc

taken_back :
    (a b : Bool) (grant : Bool → ScopeGrant)
    → (if a && b && true then grant false else grant true) ∷ [] ≡ grant (not (a && b)) ∷ []
taken_back true true grant = refl
taken_back true false grant = refl
taken_back false b grant = refl

revoke_scope_rows-one :
    (user org_id scope_level org_key scope_key : String) (now : ℕ)
    → revoke_scope_rows user org_key scope_key (scope_grant user org_id scope_level now true ∷ [])
      ≡ scope_grant user org_id scope_level now
          (not (org_id == org_key && scope_level == scope_key))
        ∷ []
unfolding revoke_scope_rows
revoke_scope_rows-one user org_id scope_level org_key scope_key now = rw (==_refl user) (
    taken_back (org_id == org_key) (scope_level == scope_key)
      (scope_grant user org_id scope_level now))

module _ (resolve_user_id : String → Option String) where
  -- When a role of a group is revoked without an error, no grant of that role to the group is active any
  -- more, and the grants of other groups and roles are as they were.
  pub revoke_group_role_grant-revoked :
      (group_principal role_code revoked_by : String) (now : ℕ) (s : Groups)
      → (revoke_group_role_grant resolve_user_id group_principal role_code revoked_by now s).0
        ≡ none
      → let group = normalize_group_principal group_principal in
        let role = normalize role_code in
        let rows =
          (revoke_group_role_grant resolve_user_id group_principal role_code revoked_by now
            s).1.group_grants in
        (any (holds group role) rows ≡ false)
        × (keep (other_grant group role) rows ≡ keep (other_grant group role) s.group_grants)
  unfolding revoke_group_role_grant
  revoke_group_role_grant-revoked group_principal role_code revoked_by now s h =
      let group = normalize_group_principal group_principal in
      let role = normalize role_code in
      let none_left = revoke_group_rows-none group role now s.group_grants in
      let others = revoke_group_rows-others group role now s.group_grants in
      elim (Bool-cases (is_empty group)) [
        | inl unnamed ↦ absurd (cc (rw unnamed at h))
        | inr named ↦ elim (Bool-cases (is_empty role)) [
          | inl missing ↦ absurd (cc (rw (named, missing) at h))
          | inr given ↦ elim (Option-cases (resolve_user_id revoked_by)) [
            | inl unknown ↦ absurd (cc (rw (named, given, unknown) at h))
            | inr (by, known) ↦ rw (named, given, known) (none_left, others)
          ]
        ]
      ]

  -- A scope that is granted and then revoked with the same texts, both without an error, is taken back
  -- exactly when the line of business has no space around it and the level is in lower case without
  -- spaces: the grant stores the texts as they are, the revocation looks for them normalized. Otherwise
  -- the scope stays active.
  pub revoke_org_scope-granted :
      (target org_id scope_level granted_by user by : String) (now : ℕ) (s : Groups)
      → resolve_user_id target ≡ some user
      → resolve_user_id granted_by ≡ some by
      → is_empty (strip org_id) ≡ false
      → is_empty (normalize scope_level) ≡ false
      → let granted =
          (grant_org_scope resolve_user_id target org_id scope_level granted_by now s).1 in
        let undone =
          revoke_org_scope resolve_user_id target org_id scope_level granted_by granted in
        (undone.0 ≡ none)
        × (undone.1.scope_grants
            ≡ revoke_scope_rows user (strip org_id) (normalize scope_level) s.scope_grants
              ++ scope_grant user org_id scope_level now
                  (not (org_id == strip org_id && scope_level == normalize scope_level))
                ∷ [])
  unfolding grant_org_scope revoke_org_scope
  revoke_org_scope-granted target org_id scope_level granted_by user by now s who actor org level =
      let rows =
        revoke_scope_rows-append user (strip org_id) (normalize scope_level) s.scope_grants
          (scope_grant user org_id scope_level now true ∷ []) in
      let last =
        revoke_scope_rows-one user org_id scope_level (strip org_id) (normalize scope_level) now in
      let stored : (grant_org_scope resolve_user_id target org_id scope_level granted_by now
            s).1.scope_grants
          ≡ s.scope_grants ++ scope_grant user org_id scope_level now true ∷ [] =
        rw (who, actor, grant_org_scope) refl in
      rw (who, actor, org, level, revoke_org_scope)
        (
          refl,
          ap (revoke_scope_rows user (strip org_id) (normalize scope_level)) stored
              ∙ rows
              ∙ ap
                  (λ r.
                    revoke_scope_rows user (strip org_id) (normalize scope_level) s.scope_grants
                    ++ r)
                  last,
        )
