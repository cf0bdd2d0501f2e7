-- ===== src/Roles/Replacing.antt =====
-- What a role may do after its permissions were replaced, and after its definition was saved.
use vendor_cat.Base.{
  ℕ, String, Bool, true, false, ◌&&◌, some, List, [], ◌∷◌, ◌++◌, ◌≡◌, refl, sym, ap, ◌∙◌, map, all,
  contains, &&-true, All, All-keep, max, arith, ◌==◌, ==_refl, string_eq, inl, inr, Bool-cases,
  if◌then◌else◌,
}
use vendor_cat.Base.Text.{normalize, strip, is_empty, or_text}
use vendor_cat.Base.Dict.{keys, some_inj}
use vendor_cat.Roles.Levels.{
  change_approval_levels, actions_up_to, min_change_approval_level, role_admin,
}
use vendor_cat.Roles.Policy.{
  RoleRow, PermissionRow, Resolved, granted_actions, list_role_permissions, resolve_active,
  base_policy, admin_rule, system_admin_rule, default_actions_rule,
}
use vendor_cat.Roles.Saving.{
  PolicyTables, deactivate_role_permissions, known_actions, permission_row,
  replace_role_permissions,
}

-- The codes of stored rows have no space around them.
abbrev pub IsStored : PermissionRow → Type 0
IsStored row = strip row.role_code ≡ row.role_code

different : (x y : String) → (y == x) ≡ false → (x == y) ≡ false
different x y h = ground (arith, string_eq.eqb_iff x y, string_eq.eqb_iff y x, h)

-- The test of `granted_actions` on one row, for one role.
grants : String → PermissionRow → Bool
grants role row =
    contains (role ∷ []) (strip row.role_code)
    && row.active_flag
    && contains ("change_action" ∷ "workflow" ∷ "app" ∷ [])
        (normalize (or_text row.object_name "change_action"))
    && contains (keys change_approval_levels) (normalize row.action_code)

granted_cons :
    (role : String) (row : PermissionRow) (rows : List PermissionRow)
    → granted_actions (role ∷ []) (row ∷ rows) ≡ (
        if grants role row
        then normalize row.action_code ∷ granted_actions (role ∷ []) rows
        else granted_actions (role ∷ []) rows)
unfolding granted_actions grants
granted_cons role row rows = refl

if_append :
    (b : Bool) (x : String) (xs ys : List String)
    → (if b then x ∷ (xs ++ ys) else xs ++ ys) ≡ (if b then x ∷ xs else xs) ++ ys
if_append true x xs ys = refl
if_append false x xs ys = refl

granted_append :
    (role : String) (xs ys : List PermissionRow)
    → granted_actions (role ∷ []) (xs ++ ys)
      ≡ granted_actions (role ∷ []) xs ++ granted_actions (role ∷ []) ys
granted_append role [] ys = unfold granted_actions in refl
granted_append role (x ∷ xs) ys =
    let rest = granted_append role xs ys in
    rw (granted_cons role x (xs ++ ys), granted_cons role x xs, rest)
      (if_append (grants role x) (normalize x.action_code) (granted_actions (role ∷ []) xs)
        (granted_actions (role ∷ []) ys))

deactivated : String → PermissionRow → PermissionRow
deactivated role row = if row.role_code == role then record row { active_flag = false } else row

grants_deactivated :
    (role : String) (row : PermissionRow)
    → IsStored row
    → grants role (deactivated role row) ≡ false
unfolding grants deactivated contains
grants_deactivated role row stored = elim (Bool-cases (row.role_code == role)) [
  | inl same ↦ rw same (ground arith)
  | inr other ↦
      let swapped = different role row.role_code other in rw other (rw (stored, swapped) refl)
]

granted_deactivated :
    (role : String) (rows : List PermissionRow)
    → All IsStored rows
    → granted_actions (role ∷ []) (deactivate_role_permissions role rows) ≡ []
unfolding deactivate_role_permissions deactivated
granted_deactivated role [] h = unfold granted_actions in refl
granted_deactivated role (row ∷ rows) (stored, h) =
    let rest = granted_deactivated role rows h in
    let refused = grants_deactivated role row stored in
    granted_cons role (deactivated role row) (deactivate_role_permissions role rows)
    ∙ rw refused rest

-- An action of the table of levels, as it is written there.
abbrev pub IsKnown : String → Type 0
IsKnown action =
    (normalize action ≡ action) × (contains (keys change_approval_levels) action ≡ true)

grants_new :
    (role action : String)
    → strip role ≡ role
    → IsKnown action
    → grants role (permission_row role action) ≡ true
unfolding grants contains
grants_new role action stripped (plain, known) =
    rw (stripped, plain, ==_refl role, known) (unfold normalize or_text in refl)

granted_new :
    (role : String) (actions : List String)
    → strip role ≡ role
    → All IsKnown actions
    → granted_actions (role ∷ []) (map (permission_row role) actions) ≡ actions
granted_new role [] stripped h = unfold granted_actions in refl
granted_new role (action ∷ actions) stripped (known, h) =
    let rest = granted_new role actions stripped h in
    let granted = grants_new role action stripped known in
    granted_cons role (permission_row role action) (map (permission_row role) actions)
    ∙ rw granted (ap (λ xs. normalize action ∷ xs) rest)
    ∙ ap (λ x. x ∷ actions) known.0

all-All :
    (p : String → Bool) (Q : String → Type 0) (xs : List String)
    → ((x : String) → p x ≡ true → Q x)
    → all p xs ≡ true
    → All Q xs
unfolding all
all-All p Q [] f h = tt
all-All p Q (x ∷ xs) f h =
    let (px, rest) = &&-true (p x) (all p xs) h in (f x px, all-All p Q xs f rest)

is_known : String → Bool
is_known action = normalize action == action && contains (keys change_approval_levels) action

is_known-IsKnown : (action : String) → is_known action ≡ true → IsKnown action
unfolding is_known
is_known-IsKnown action h =
    let (plain, known) = &&-true (normalize action == action) _ h in
    ((string_eq.eqb_iff (normalize action) action).0 plain, known)

levels_known : all is_known (keys change_approval_levels) ≡ true
unfolding change_approval_levels is_known normalize contains all
levels_known = refl

levels-IsKnown : All IsKnown (keys change_approval_levels)
levels-IsKnown =
    all-All is_known IsKnown (keys change_approval_levels) is_known-IsKnown levels_known

known_actions-IsKnown : (codes : List String) → All IsKnown (known_actions codes)
unfolding known_actions
known_actions-IsKnown codes = All-keep IsKnown _ (keys change_approval_levels) levels-IsKnown

-- The actions that were granted, or else all up to a level, which is raised to 1.
abbrev pub or_up_to : List String → ℕ → List String
or_up_to granted level = elim granted [
  | [] ↦ actions_up_to (max min_change_approval_level level)
  | action ∷ actions ↦ action ∷ actions
]

default_allowed :
    (p : Resolved)
    → (default_actions_rule p).allowed_change_actions
      ≡ or_up_to p.allowed_change_actions (default_actions_rule p).approval_level
unfolding default_actions_rule
default_allowed p = refl

system_admin_allowed :
    (roles : List String) (p : Resolved)
    → (system_admin_rule roles p).allowed_change_actions ≡ p.allowed_change_actions
unfolding system_admin_rule
system_admin_allowed roles p = ground arith

admin_allowed :
    (roles : List String) (p : Resolved)
    → contains roles role_admin ≡ false
    → (admin_rule roles p).allowed_change_actions ≡ p.allowed_change_actions
unfolding admin_rule
admin_allowed roles p plain = ground (arith, plain)

resolve_allowed :
    (role : String) (definitions : List RoleRow) (permissions : List PermissionRow)
    → contains (role ∷ []) role_admin ≡ false
    → (resolve_active (role ∷ []) definitions permissions).allowed_change_actions
      ≡ or_up_to
          (granted_actions (role ∷ []) permissions)
          (resolve_active (role ∷ []) definitions permissions).approval_level
unfolding resolve_active
resolve_allowed role definitions permissions plain =
    let roles = role ∷ [] in
    let base = base_policy roles definitions permissions in
    let granted =
      system_admin_allowed roles (admin_rule roles base)
      ∙ admin_allowed roles base plain
      ∙ (unfold base_policy in refl) in
    let p = system_admin_rule roles (admin_rule roles base) in
    default_allowed p ∙ ap (λ xs. or_up_to xs (default_actions_rule p).approval_level) granted

saved_permissions :
    (role_code : String) (codes : List String) (row : PermissionRow) (rows : List PermissionRow)
    (t t' : PolicyTables)
    → t.permissions ≡ row ∷ rows
    → replace_role_permissions role_code codes t ≡ some t'
    → t'.permissions
      ≡ deactivate_role_permissions (normalize role_code) (row ∷ rows)
        ++ map (permission_row (normalize role_code)) (known_actions codes)
unfolding replace_role_permissions
saved_permissions role_code codes row rows t t' table h =
    elim (Bool-cases (is_empty (normalize role_code))) [
      | inl unnamed ↦ absurd (cc (rw unnamed at h))
      | inr named ↦
          let role = normalize role_code in
          ap (λ (x : PolicyTables). x.permissions) (sym (some_inj _ t' (rw named at h)))
          ∙ ap
              (λ old.
                deactivate_role_permissions role old
                ++ map (permission_row role) (known_actions codes))
              table
    ]

-- After the permissions of a role other than vendor_admin are replaced in a table that is not empty, the
-- codes there and the role's normalized one having no space around them, the policy resolved for that
-- role alone allows the known actions among those given, or, when none of them is known, every action up
-- to the role's level.
pub replace_role_permissions-resolve :
    (role_code : String) (codes : List String) (definitions : List RoleRow) (row : PermissionRow)
    (rows : List PermissionRow) (t t' : PolicyTables)
    → strip (normalize role_code) ≡ normalize role_code
    → contains (normalize role_code ∷ []) role_admin ≡ false
    → t.permissions ≡ row ∷ rows
    → All IsStored (row ∷ rows)
    → replace_role_permissions role_code codes t ≡ some t'
    → let p =
        resolve_active
          (normalize role_code ∷ [])
          definitions
          (list_role_permissions t'.permissions) in
      p.allowed_change_actions ≡ or_up_to (known_actions codes) p.approval_level
replace_role_permissions-resolve role_code codes definitions row rows t t' stripped plain table
      stored h =
    let role = normalize role_code in
    let new_rows = map (permission_row role) (known_actions codes) in
    let old = deactivate_role_permissions role (row ∷ rows) in
    let saved : t'.permissions ≡ old ++ new_rows =
      saved_permissions role_code codes row rows t t' table h in
    let granted =
      granted_append role old new_rows
      ∙ ap (λ xs. xs ++ granted_actions (role ∷ []) new_rows)
          (granted_deactivated role (row ∷ rows) stored)
      ∙ granted_new role (known_actions codes) stripped (known_actions-IsKnown codes) in
    let listed : list_role_permissions t'.permissions ≡ old ++ new_rows =
      ap list_role_permissions saved
      ∙ (unfold list_role_permissions deactivate_role_permissions in refl) in
    let p = resolve_active (role ∷ []) definitions (list_role_permissions t'.permissions) in
    resolve_allowed role definitions (list_role_permissions t'.permissions) plain
    ∙ ap (λ xs. or_up_to xs p.approval_level) (ap (granted_actions (role ∷ [])) listed ∙ granted)
