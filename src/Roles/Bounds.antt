-- ===== src/Roles/Bounds.antt =====
-- Approval levels: their range, and that they depend on the set of roles alone.
use vendor_cat.Base.{
  ℕ, ◌≤◌, String, true, List, [], ◌∷◌, ◌≡◌, refl, inl, inr, contains, All, max, arith, ◌==◌,
  string_eq, Bool-cases, Option-cases, eq_iff, tests,
}
use vendor_cat.Base.Text.{normalize}
use vendor_cat.Base.Dict.{lookup, lookup-All}
use vendor_cat.Roles.Levels.{
  RoleDefinition, role_default_definitions, change_approval_levels, default_level, raise_level,
  approval_level_for_roles, required_approval_level, can_apply_change, role_admin,
}

levels_in_range : All (λ e. e.1.approval_level ≤ 10) role_default_definitions
unfolding role_default_definitions
levels_in_range = omega arith

pub default_level-le : (r : String) → default_level r ≤ 10
unfolding default_level
default_level-le r = elim (Option-cases (lookup r role_default_definitions)) [
  | inl missing ↦ rw (missing, default_level) (omega arith)
  | inr (d, found) ↦
      rw (found, default_level)
        (lookup-All (λ (d : RoleDefinition). d.approval_level ≤ 10) r role_default_definitions
          levels_in_range found)
]

required_in_range : All (λ e. (3 ≤ e.1) × (e.1 ≤ 9)) change_approval_levels
unfolding change_approval_levels
required_in_range = omega arith

-- Every change type, listed or not, needs a level between 3 and 9.
pub required_bounds :
    (change_type : String)
    → (3 ≤ required_approval_level change_type) × (required_approval_level change_type ≤ 9)
unfolding required_approval_level
required_bounds t = elim (Option-cases (lookup (normalize t) change_approval_levels)) [
  | inl missing ↦ rw (missing, required_approval_level) (omega arith)
  | inr (n, found) ↦
      rw (found, required_approval_level)
        (lookup-All (λ (n : ℕ). (3 ≤ n) × (n ≤ 9)) (normalize t) change_approval_levels
          required_in_range found)
]

pub raise_level-ge_start : (n : ℕ) (rs : List String) → n ≤ raise_level n rs
unfolding raise_level
raise_level-ge_start n [] = omega arith
raise_level-ge_start n (r ∷ rs) = omega (arith, raise_level-ge_start (max n (default_level r)) rs)

pub raise_level-ge_member :
    (n : ℕ) (rs : List String) (r : String)
    → contains rs r ≡ true
    → default_level r ≤ raise_level n rs
unfolding raise_level contains
raise_level-ge_member n [] r h = absurd (cc)
raise_level-ge_member n (s ∷ rs) r h = elim (Bool-cases (s == r)) [
  | inl same ↦
      rw (← (eq_iff s r).0 same) (omega (arith, raise_level-ge_start (max n (default_level s)) rs))
  | inr other ↦ raise_level-ge_member (max n (default_level s)) rs r (rw other at h)
]

-- No level is passed that bounds the start and every member.
pub raise_level-le :
    (n b : ℕ) (rs : List String)
    → n ≤ b
    → ((r : String) → contains rs r ≡ true → default_level r ≤ b)
    → raise_level n rs ≤ b
unfolding raise_level contains
raise_level-le n b [] h k = h
raise_level-le n b (r ∷ rs) h k =
    raise_level-le (max n (default_level r)) b rs
      (omega (arith, k r (ground (arith, (eq_iff r r).1 refl)))) (λ s m. k s (ground arith))

-- The level of any roles is at most 10.
pub approval_level-le : (rs : List String) → approval_level_for_roles rs ≤ 10
unfolding approval_level_for_roles
approval_level-le rs = omega arith

pub raise_level-le_ten : (rs : List String) → raise_level 0 rs ≤ 10
raise_level-le_ten rs = raise_level-le 0 10 rs (omega arith) (λ r _. default_level-le r)

-- The clamp of `approval_level_for_roles` never changes the level.
pub approval_level-eq-raise_level :
    (rs : List String) → approval_level_for_roles rs ≡ raise_level 0 rs
unfolding approval_level_for_roles
approval_level-eq-raise_level rs = omega (arith, raise_level-le_ten rs)

pub approval_level-ge_member :
    (rs : List String) (r : String)
    → contains rs r ≡ true
    → default_level r ≤ approval_level_for_roles rs
approval_level-ge_member rs r h =
    omega (arith, approval_level-eq-raise_level rs, raise_level-ge_member 0 rs r h)

-- Whoever has more roles has at least the level: the level is monotone in the set of roles.
pub approval_level_mono :
    (rs ss : List String)
    → ((r : String) → contains rs r ≡ true → contains ss r ≡ true)
    → approval_level_for_roles rs ≤ approval_level_for_roles ss
approval_level_mono rs ss sub = rw (approval_level-eq-raise_level rs) (
    raise_level-le 0 (approval_level_for_roles ss) rs (omega arith)
      (λ r m. approval_level-ge_member ss r (sub r m)))

-- If every role of `rs` is a role of `ss`, each change that `rs` may apply may be applied by `ss`.
pub can_apply_change_mono :
    (rs ss : List String) (change_type : String)
    → ((r : String) → contains rs r ≡ true → contains ss r ≡ true)
    → can_apply_change rs change_type ≡ true
    → can_apply_change ss change_type ≡ true
unfolding can_apply_change
can_apply_change_mono rs ss t sub h = omega (tests, approval_level_mono rs ss sub)

-- The level of a single role is its own.
pub approval_level_single : (r : String) → approval_level_for_roles (r ∷ []) ≡ default_level r
unfolding raise_level
approval_level_single r = omega (arith, approval_level-eq-raise_level (r ∷ []))

pub default_level-admin : default_level role_admin ≡ 10
unfolding default_level
default_level-admin = refl

-- Who is a vendor_admin may apply every change, listed or not.
pub admin_applies_all :
    (rs : List String) (change_type : String)
    → contains rs role_admin ≡ true
    → can_apply_change rs change_type ≡ true
unfolding can_apply_change
admin_applies_all rs t h =
    omega (tests, required_bounds t, default_level-admin, approval_level-ge_member rs role_admin h)
