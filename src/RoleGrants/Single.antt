-- ===== src/RoleGrants/Single.antt =====
-- One active role for each user: what granting, changing and revoking keep of it.
use vendor_cat.Base.{
  ℕ, ◌≤◌, String, not, ◌&&◌, ◌||◌, Option, none, some, List, [], ◌∷◌, ◌++◌, keep, length, ◌≡◌, refl,
  ap, arith, ◌==◌, string_eq, eq_iff, Bool-cases, Option-cases, inl, inr, if◌then◌else◌,
}
use vendor_cat.Base.Text.{normalize, is_empty}
use vendor_cat.RoleGrants.{
  RoleGrant, Access, role_required, is_active, revoke_all_user_role_grants, revoke_role_rows,
  new_grant, insert_role_grant, bump_security_policy_version, audit_access, replace_roles,
  grant_role, change_role_grant, change_checked, revoke_role_grant,
}

-- The grants of a user that are active.
unfoldable pub active_grants : String → List RoleGrant → List RoleGrant
unfolding keep
active_grants user grants = keep (λ g. g.user_principal == user && is_active g) grants

-- Every user has at most one active grant.
abbrev pub IsSingle : Access → Type 0
IsSingle a = (user : String) → length (active_grants user a.grants) ≤ 1

append_nil : (xs : List RoleGrant) → xs ++ [] ≡ xs
append_nil [] = refl
append_nil (x ∷ xs) = ap (λ ys. x ∷ ys) (append_nil xs)

active_grants-append :
    (u : String) (xs ys : List RoleGrant)
    → active_grants u (xs ++ ys) ≡ active_grants u xs ++ active_grants u ys
unfolding active_grants
active_grants-append u [] ys = refl
active_grants-append u (x ∷ xs) ys = ground (arith, active_grants-append u xs ys)

active_grants-revoke_all :
    (u user : String) (now : ℕ) (xs : List RoleGrant)
    → active_grants u (revoke_all_user_role_grants user now xs)
      ≡ (if user == u then [] else active_grants u xs)
unfolding active_grants revoke_all_user_role_grants
active_grants-revoke_all u user now [] = ground arith
active_grants-revoke_all u user now (x ∷ xs) = ground (
  arith,
  active_grants-revoke_all u user now xs,
  eq_iff user u,
  eq_iff x.user_principal user,
  eq_iff x.user_principal u,
)

length-active-revoke_role :
    (u user role : String) (now : ℕ) (xs : List RoleGrant)
    → length (active_grants u (revoke_role_rows user role now xs)) ≤ length (active_grants u xs)
unfolding active_grants revoke_role_rows
length-active-revoke_role u user role now [] = omega arith
length-active-revoke_role u user role now (x ∷ xs) =
    ground (arith, length-active-revoke_role u user role now xs)

active_grants-new :
    (u user role by : String) (now : ℕ)
    → active_grants u (new_grant user role by now ∷ [])
      ≡ (if user == u then new_grant user role by now ∷ [] else [])
unfolding active_grants
active_grants-new u user role by now = ground arith

active_grants-insert :
    (user role by : String) (now : ℕ) (xs : List RoleGrant) (u : String)
    → active_grants u (insert_role_grant user role by now xs).1
      ≡ active_grants u xs
        ++ (if user == u && not (is_empty (normalize role))
            then new_grant user role by now ∷ []
            else [])
unfolding insert_role_grant
active_grants-insert user role by now xs u = ground (
  arith,
  append_nil (active_grants u xs),
  active_grants-append u xs (new_grant user role by now ∷ []),
  active_grants-new u user role by now,
)

replace-grants :
    (action user role by : String) (now : ℕ) (a : Access)
    → (replace_roles action user role by now a).1.grants
      ≡ (insert_role_grant user role by now (revoke_all_user_role_grants user now a.grants)).1
unfolding replace_roles bump_security_policy_version audit_access
replace-grants action user role by now a = ground arith

-- What `replace_roles` makes of the active grants: those of the user are replaced, unless the role is
-- empty, and then they are gone.
active_grants-replace :
    (action user role by : String) (now : ℕ) (a : Access) (u : String)
    → active_grants u (replace_roles action user role by now a).1.grants ≡ (
        if user == u
        then if is_empty (normalize role) then [] else new_grant user role by now ∷ []
        else active_grants u a.grants)
active_grants-replace action user role by now a u =
    rw (replace-grants, active_grants-insert, active_grants-revoke_all)
      (ground (arith, append_nil (active_grants u a.grants)))

replace-IsSingle :
    (action user role by : String) (now : ℕ) (a : Access)
    → IsSingle a
    → IsSingle (replace_roles action user role by now a).1
replace-IsSingle action user role by now a h u =
    rw (active_grants-replace action user role by now a u) (ground (arith, h u))

module _ (directory : String → Option String) (target role by : String) (now : ℕ) (a : Access) where
  grant_role-IsSingle : IsSingle a → IsSingle (grant_role directory target role by now a).1
  unfolding grant_role
  grant_role-IsSingle h = elim (Option-cases (directory target)) [
    | inl missing ↦ rw (missing, grant_role) h
    | inr (user, found) ↦ elim (Option-cases (directory by)) [
      | inl nobody ↦ rw (found, nobody, grant_role) h
      | inr (actor, known) ↦
          rw (found, known, grant_role)
            (replace-IsSingle "grant_role" user (normalize role) actor now a h)
    ]
  ]

  change_checked-IsSingle :
      (user current new : String)
      → IsSingle a
      → IsSingle (change_checked directory user current new by now a).1
  unfolding change_checked
  change_checked-IsSingle user current new h =
      elim (Bool-cases (is_empty current || is_empty new)) [
        | inl blank ↦ rw blank h
        | inr given ↦ elim (Bool-cases (current == new)) [
          | inl same ↦ rw (given, same) h
          | inr other ↦ rw (given, other) (replace-IsSingle "change_role" user new by now a h)
        ]
      ]

  revoke_role_grant-IsSingle :
      IsSingle a → IsSingle (revoke_role_grant directory target role by now a).1
  unfolding revoke_role_grant bump_security_policy_version audit_access
  revoke_role_grant-IsSingle h u = elim (Option-cases (directory target)) [
    | inl missing ↦ rw (missing, revoke_role_grant) (h u)
    | inr (user, found) ↦ elim (Option-cases (directory by)) [
      | inl nobody ↦ rw (found, nobody, revoke_role_grant) (h u)
      | inr (actor, known) ↦
          rw (found, known, revoke_role_grant)
            (ground (arith, h u, length-active-revoke_role u user (normalize role) now a.grants))
    ]
  ]

change_role_grant-IsSingle :
    (directory : String → Option String) (target current new by : String) (now : ℕ) (a : Access)
    → IsSingle a
    → IsSingle (change_role_grant directory target current new by now a).1
unfolding change_role_grant
change_role_grant-IsSingle directory target current new by now a h =
    elim (Option-cases (directory target)) [
      | inl missing ↦ rw (missing, change_role_grant) h
      | inr (user, found) ↦ elim (Option-cases (directory by)) [
        | inl nobody ↦ rw (found, nobody, change_role_grant) h
        | inr (actor, known) ↦
            rw (found, known, change_role_grant)
              (change_checked-IsSingle directory user "" actor now a user (normalize current)
                (normalize new) h)
      ]
    ]

-- If every user has at most one active grant, so it is after granting, changing or revoking a role,
-- whether the call returns or raises.
pub operations-IsSingle :
    (directory : String → Option String) (target role new by : String) (now : ℕ) (a : Access)
    → IsSingle a
    → IsSingle (grant_role directory target role by now a).1
      × IsSingle (change_role_grant directory target role new by now a).1
      × IsSingle (revoke_role_grant directory target role by now a).1
operations-IsSingle directory target role new by now a h = (
  grant_role-IsSingle directory target role by now a h,
  change_role_grant-IsSingle directory target role new by now a h,
  revoke_role_grant-IsSingle directory target role by now a h,
)

-- Granting a role between two users of the directory replaces every active grant of the target by one
-- of that role, and leaves the active grants of the others as they are. An empty role raises after
-- the target has lost every grant.
pub grant_role_lem :
    (directory : String → Option String) (target role by user actor : String) (now : ℕ) (a : Access)
    → directory target ≡ some user
    → directory by ≡ some actor
    → ((u : String)
        → active_grants u (grant_role directory target role by now a).1.grants ≡ (
            if user == u
            then if is_empty (normalize (normalize role))
              then []
              else new_grant user (normalize role) actor now ∷ []
            else active_grants u a.grants))
      × ((grant_role directory target role by now a).0
          ≡ (if is_empty (normalize (normalize role)) then some role_required else none))
unfolding grant_role replace_roles insert_role_grant
grant_role_lem directory target role by user actor now a found known = (
  λ u.
      rw (found, known, grant_role)
        (active_grants-replace "grant_role" user (normalize role) actor now a u),
  rw (found, known, grant_role) (ground arith),
)
