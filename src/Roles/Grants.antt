-- ===== src/Roles/Grants.antt =====
-- What the resolved role policy gives to the holders of the two admin roles, and to everybody.
use vendor_cat.Base.{
  ℕ, ◌≤◌, String, Bool, true, false, not, ◌&&◌, some, List, [], ◌∷◌, ◌≡◌, refl, inl, inr, contains,
  keep, all, all-contains, leb, le→leb, arith, min, string_eq, Bool-cases, if◌then◌else◌, map, max,
}
use vendor_cat.Base.Text.{normalize, strip, is_empty}
use vendor_cat.Base.Dict.{keys}
use vendor_cat.Roles.Levels.{
  role_admin, role_system_admin, change_approval_levels, min_change_approval_level,
  max_approval_level, or_level,
}
use vendor_cat.Roles.Bounds.{required_bounds}
use vendor_cat.Roles.Context.{
  UserContext, approval_level, allowed_actions, can_apply_change, can_review_level, can_edit,
  can_direct_apply, can_submit_requests,
}
use vendor_cat.Roles.Policy.{
  RoleRow, PermissionRow, Resolved, to_policy, admin_rule, system_admin_rule, default_actions_rule,
  active_role_names, resolve_active, resolve_role_policy,
}

-- A context whose policy is the one that the repository resolves for the roles.
abbrev pub IsResolved : UserContext → List RoleRow → List PermissionRow → Type 0
IsResolved u roles permissions =
    u.role_policy ≡ some (to_policy (resolve_role_policy u.roles roles permissions))

-- A policy that lets its holder change and decide nothing.
pub record IsPowerless (p : Resolved) : Type 0 where
  pub edit : p.can_edit ≡ false
  pub submit : p.can_submit_requests ≡ false
  pub approve : p.can_approve_requests ≡ false
  pub direct : p.can_direct_apply ≡ false
  pub level : p.approval_level ≡ 0

-- A policy that lets its holder do everything.
pub record IsFull (p : Resolved) : Type 0 where
  pub edit : p.can_edit ≡ true
  pub submit : p.can_submit_requests ≡ true
  pub approve : p.can_approve_requests ≡ true
  pub direct : p.can_direct_apply ≡ true
  pub level : 10 ≤ p.approval_level
  pub actions : p.allowed_change_actions ≡ keys change_approval_levels

system_admin_rule-IsPowerless :
    (rs : List String) (p : Resolved)
    → contains rs role_system_admin ≡ true
    → contains rs role_admin ≡ false
    → IsPowerless (default_actions_rule (system_admin_rule rs p))
unfolding system_admin_rule default_actions_rule
system_admin_rule-IsPowerless rs p h k =
    rw (h, k) (record { edit = refl; submit = refl; approve = refl; direct = refl; level = refl })

admin_rule-IsFull :
    (rs : List String) (p : Resolved)
    → contains rs role_admin ≡ true
    → IsFull (default_actions_rule (system_admin_rule rs (admin_rule rs p)))
unfolding system_admin_rule default_actions_rule admin_rule change_approval_levels
admin_rule-IsFull rs p h = elim (Bool-cases (contains rs role_system_admin)) [
  | inl both ↦
      rw (h, both)
        (record {
          edit = refl;
          submit = refl;
          approve = refl;
          direct = refl;
          level = omega arith;
          actions = refl;
        })
  | inr only ↦
      rw (h, only)
        (record {
          edit = refl;
          submit = refl;
          approve = refl;
          direct = refl;
          level = omega arith;
          actions = refl;
        })
]

resolve_active-IsPowerless :
    (rs : List String) (d : List RoleRow) (p : List PermissionRow)
    → contains rs role_system_admin ≡ true
    → contains rs role_admin ≡ false
    → IsPowerless (resolve_active rs d p)
unfolding resolve_active
resolve_active-IsPowerless [] d p h k = absurd (unfold contains in cc)
resolve_active-IsPowerless (r ∷ rs) d p h k = system_admin_rule-IsPowerless (r ∷ rs) _ h k

resolve_active-IsFull :
    (rs : List String) (d : List RoleRow) (p : List PermissionRow)
    → contains rs role_admin ≡ true
    → IsFull (resolve_active rs d p)
unfolding resolve_active
resolve_active-IsFull [] d p h = absurd (unfold contains in cc)
resolve_active-IsFull (r ∷ rs) d p h = admin_rule-IsFull (r ∷ rs) _ h

-- Whatever the tables hold, the policy of a system_admin who is no vendor_admin is powerless.
pub resolve-IsPowerless :
    (user_roles : List String) (roles : List RoleRow) (permissions : List PermissionRow)
    → contains (active_role_names user_roles) role_system_admin ≡ true
    → contains (active_role_names user_roles) role_admin ≡ false
    → IsPowerless (resolve_role_policy user_roles roles permissions)
unfolding resolve_role_policy
resolve-IsPowerless user_roles roles permissions =
    resolve_active-IsPowerless (active_role_names user_roles) _ _

-- Whatever the tables hold, the policy of a vendor_admin is full.
pub resolve-IsFull :
    (user_roles : List String) (roles : List RoleRow) (permissions : List PermissionRow)
    → contains (active_role_names user_roles) role_admin ≡ true
    → IsFull (resolve_role_policy user_roles roles permissions)
unfolding resolve_role_policy
resolve-IsFull user_roles roles permissions =
    resolve_active-IsFull (active_role_names user_roles) _ _

-- The test of `can_apply_change` for a required level and a level that is there.
abbrev gate : Bool → Bool → ℕ → ℕ → Bool
gate known listed required level = if known && not listed then false else leb required level

gate-zero :
    (known listed : Bool) (required : ℕ) → 3 ≤ required → gate known listed required 0 ≡ false
gate-zero known listed required h = ground arith

gate-full :
    (known listed : Bool) (required level : ℕ)
    → (known ≡ true → listed ≡ true)
    → required ≤ level
    → gate known listed required level ≡ true
gate-full true listed required level h k = rw (h refl) (le→leb required level k)
gate-full false listed required level h k = le→leb required level k

-- Under the policy that the repository resolves, a system_admin who is no vendor_admin may apply no
-- change and decide no request, whatever the tables of roles and permissions hold.
pub system_admin_decides_nothing :
    (u : UserContext) (roles : List RoleRow) (permissions : List PermissionRow)
    → IsResolved u roles permissions
    → contains (active_role_names u.roles) role_system_admin ≡ true
    → contains (active_role_names u.roles) role_admin ≡ false
    → ((change_type : String) → can_apply_change u change_type ≡ false)
      × ((level : ℕ) → can_review_level u level ≡ false)
      × (can_edit u ≡ false)
      × (can_submit_requests u ≡ false)
      × (can_direct_apply u ≡ false)
unfolding can_apply_change can_review_level can_edit can_submit_requests can_direct_apply
system_admin_decides_nothing u roles permissions e h k =
    let p = resolve-IsPowerless u.roles roles permissions h k in
    (
      λ t. rw (e, p.level) (gate-zero _ _ _ (required_bounds (normalize t)).0),
      λ n. rw (e, p.approve),
      rw (e, p.edit),
      rw (e, p.submit),
      rw (e, p.direct),
    )

keys_allowed :
    all
      (contains
        (map normalize (keep (λ item. not (is_empty (strip item))) (keys change_approval_levels))))
      (keys change_approval_levels)
    ≡ true
unfolding all contains keep change_approval_levels normalize
keys_allowed = refl

allowed_actions-full :
    (p : Resolved) (t : String)
    → p.allowed_change_actions ≡ keys change_approval_levels
    → contains (keys change_approval_levels) t ≡ true
    → contains (allowed_actions (to_policy p)) t ≡ true
unfolding allowed_actions
allowed_actions-full p t e h = rw e (all-contains _ (keys change_approval_levels) t keys_allowed h)

review_level-le :
    (n level : ℕ)
    → 10 ≤ level
    → leb
        (max min_change_approval_level
          (min (or_level n min_change_approval_level) max_approval_level))
        level
      ≡ true
review_level-le n level h = le→leb _ level (omega arith)

approval_level-eq :
    (u : UserContext) (roles : List RoleRow) (permissions : List PermissionRow)
    → IsResolved u roles permissions
    → approval_level u ≡ (resolve_role_policy u.roles roles permissions).approval_level
unfolding approval_level
approval_level-eq u roles permissions e = rw e

-- Under the policy that the repository resolves, a vendor_admin may apply every change and decide a
-- request of every level, whatever the tables hold.
pub admin_decides_everything :
    (u : UserContext) (roles : List RoleRow) (permissions : List PermissionRow)
    → IsResolved u roles permissions
    → contains (active_role_names u.roles) role_admin ≡ true
    → ((change_type : String) → can_apply_change u change_type ≡ true)
      × ((level : ℕ) → can_review_level u level ≡ true)
unfolding can_apply_change can_review_level
admin_decides_everything u roles permissions e h =
    let p = resolve-IsFull u.roles roles permissions h in
    (
      λ t. rw e (
          gate-full _ _ _ _
            (allowed_actions-full (resolve_role_policy u.roles roles permissions) (normalize t)
              p.actions)
            (omega (arith, required_bounds (normalize t)))),
      λ n.
          rw (e, p.approve)
            (review_level-le n (approval_level u)
              (rw (approval_level-eq u roles permissions e) p.level)),
    )
