-- ===== src/Roles/Duties.antt =====
-- Separation of duties under the default roles, and the default permissions of a role.
use vendor_cat.Base.{
  ℕ, String, true, not, ◌&&◌, ◌||◌, List, [], ◌∷◌, ◌≡◌, refl, sym, ap, inl, inr, contains, any, all,
  all-contains, leb, arith, ◌==◌, string_eq, Bool-cases, Option-cases, eq_iff, tests,
}
use vendor_cat.Base.Text.{normalize}
use vendor_cat.Base.Dict.{keys, lookup, unique_keys, contains-keys, contains-keys-keep}
use vendor_cat.Roles.Levels.{
  role_admin, role_system_admin, role_approver, role_steward, role_editor, role_viewer, intersects,
  change_approval_levels, level_or_default, required_approval_level, can_submit_change_requests,
  can_approve_requests, can_apply_change, actions_up_to, default_change_permissions_for_role,
}
use vendor_cat.Roles.Bounds.{approval_level_single, default_level-admin, required_bounds}

-- Being a system_admin as well takes the approval of requests from nobody: exactly the holders of
-- vendor_admin, vendor_steward or vendor_approver approve.
pub can_approve_requests_iff :
    (rs : List String)
    → can_approve_requests rs
      ≡ (contains rs role_admin || contains rs role_steward || contains rs role_approver)
unfolding can_approve_requests intersects any
can_approve_requests_iff rs = ground arith

-- Exactly the holders of vendor_admin, vendor_steward or vendor_editor submit change requests, and
-- those vendor_viewers who are no system_admin.
pub can_submit_change_requests_iff :
    (rs : List String)
    → can_submit_change_requests rs ≡ (
        contains rs role_admin
        || contains rs role_steward
        || contains rs role_editor
        || (contains rs role_viewer && not (contains rs role_system_admin)))
unfolding can_submit_change_requests intersects any
can_submit_change_requests_iff rs = ground arith

levels_unique : unique_keys change_approval_levels ≡ true
unfolding unique_keys change_approval_levels contains
levels_unique = refl

keys_normal : all (λ a. normalize a == a) (keys change_approval_levels) ≡ true
unfolding all change_approval_levels normalize
keys_normal = refl

pub normalize_known :
    (a : String) → contains (keys change_approval_levels) a ≡ true → normalize a ≡ a
normalize_known a h =
    (eq_iff (normalize a) a).0
      (all-contains (λ a. normalize a == a) (keys change_approval_levels) a keys_normal h)

required_known :
    (a : String)
    → contains (keys change_approval_levels) a ≡ true
    → required_approval_level a ≡ level_or_default (lookup a change_approval_levels)
unfolding required_approval_level
required_known a h =
    ap (λ t. level_or_default (lookup t change_approval_levels)) (normalize_known a h)

pub contains-actions_up_to :
    (n : ℕ) (a : String)
    → contains (keys change_approval_levels) a ≡ true
    → contains (actions_up_to n) a ≡ leb (required_approval_level a) n
unfolding actions_up_to
contains-actions_up_to n a h =
    let e = contains-keys-keep (λ (v : ℕ). leb v n) a change_approval_levels levels_unique in
    elim (Option-cases (lookup a change_approval_levels)) [
      | inl missing ↦ absurd (cc (rw (contains-keys a change_approval_levels, missing) at h))
      | inr (v, found) ↦ rw (required_known a h, found) (rw found at e)
    ]

-- The default permissions of a role hold an action of the table of approval levels exactly when the
-- role alone may apply that change.
pub default_change_permissions_lem :
    (role_code action : String)
    → contains (keys change_approval_levels) action ≡ true
    → contains (default_change_permissions_for_role role_code) action
      ≡ can_apply_change (normalize role_code ∷ []) action
unfolding default_change_permissions_for_role can_apply_change
default_change_permissions_lem role a h = elim (Bool-cases (normalize role == role_admin)) [
  | inl admin ↦
      rw (admin, h, approval_level_single, (eq_iff _ _).0 admin)
        (sym (omega (tests, required_bounds a, default_level-admin)))
  | inr other ↦ rw (other, approval_level_single) (contains-actions_up_to _ a h)
]
