-- ===== src/Imports/Duplicates.antt =====
-- No contact, owner or contract is added twice: neither in one run of an import, whose context remembers
-- what it added, nor by a later run, whose context reads it back from the repository.
use Prim.Native.String
use Prim.Native.String.{◌++◌ as append}
use vendor_cat.Base.{
  String, true, false, ◌&&◌, Option, none, some, List, [], ◌∷◌, ◌++◌, ◌≡◌, refl, sym, ap, ◌∙◌,
  subst, any, contains, contains-append, BoolEq, ==_refl, string_eq, pair_eq, arith, inl, inr, ◌⊎◌,
  Bool-cases, Option-cases,
}
use vendor_cat.Base.Text.{strip, lower, is_empty, or_text}
use vendor_cat.Base.Dict.{Dict, insert, lookup-insert, some_inj}
use vendor_cat.Imports.{
  Contact, Repository, contact_row_keys, contact_keys, is_known, resolve_contact, email_keys,
  phone_keys, name_keys, normalize_email, normalize_phone,
}
use vendor_cat.Imports.Applying.{
  ApplyContext, load_vendor_contact_keys, maybe_add_vendor_contact, keys_of_rows, kept_or, added,
}

pub is_known_left :
    (xs wanted keys : List String) → is_known xs wanted ≡ true → is_known (xs ++ keys) wanted ≡ true
unfolding any
is_known_left xs [] keys h = h
is_known_left xs (w ∷ ws) keys h =
    ground (arith, contains-append xs keys w, is_known_left xs ws keys)

-- A list that is not empty knows itself.
is_known_self : (ws keys : List String) → (ws ≡ []) ⊎ (is_known (ws ++ keys) ws ≡ true)
unfolding any contains
is_known_self [] keys = inl refl
is_known_self (w ∷ ws) keys = inr (rw (==_refl w) refl)

pub or_text_named : (a b : String) → is_empty b ≡ false → is_empty (or_text a b) ≡ false
unfolding or_text
or_text_named a b h = elim (Bool-cases (is_empty a)) [
  | inl blank ↦ rw blank h
  | inr named ↦ rw named named
]

pub is_empty-lower : (s : String) → is_empty (lower s) ≡ is_empty s
unfolding lower is_empty
is_empty-lower Prim.Native.String.[] = refl
is_empty-lower (Prim.Native.String.◌∷◌ c s) = refl

-- A resolved contact has a name, so it has a key.
pub resolve_contact_named :
    (fallback : String) (given contact : Contact)
    → is_empty fallback ≡ false
    → resolve_contact fallback given ≡ some contact
    → is_empty contact.full_name ≡ false
unfolding resolve_contact
resolve_contact_named fallback given contact named h =
    let name = strip given.full_name in
    let email = strip given.email in
    elim (Bool-cases (is_empty name && is_empty email && is_empty (strip given.phone))) [
      | inl nothing ↦ absurd (cc (rw nothing at h))
      | inr something ↦
          subst (λ (c : Contact). is_empty c.full_name ≡ false)
            (some_inj _ contact (rw something at h))
            (or_text_named name (or_text email fallback) (or_text_named email fallback named))
    ]

not_nil : (xs ys : List String) (w : String) → ¬ (xs ++ ys ++ w ∷ [] ≡ [])
not_nil [] [] w h = cc
not_nil [] (y ∷ ys) w h = cc
not_nil (x ∷ xs) ys w h = cc

pub contact_keys_known :
    (contact : Contact) (keys : List String)
    → is_empty contact.full_name ≡ false
    → is_known (contact_keys contact ++ keys) (contact_keys contact) ≡ true
unfolding contact_keys name_keys
contact_keys_known contact keys named = elim (is_known_self (contact_keys contact) keys) [
  | inr known ↦ known
  | inl nothing ↦
      let name = lower contact.full_name in
      let key = append "name_type:" (append name (append "|" (lower contact.contact_type))) in
      absurd (
        not_nil (email_keys (normalize_email contact.email))
          (phone_keys (normalize_phone contact.phone)) key
          (rw (is_empty-lower contact.full_name, named) at nothing))
]

kept_or-insert :
    {K : Type 0} ⦃e : BoolEq K⦄ (key : K) (keys loaded : List String) (table : Dict K (List String))
    → kept_or key (insert key keys table) loaded ≡ keys
kept_or-insert key keys loaded table = ground (arith, lookup-insert key key keys table, ==_refl key)

module _ {D : Type 0} (repo : Repository D) where
  abbrev pub keeping : String → List String → ApplyContext → ApplyContext
  keeping key keys ctx = record ctx {
    vendor_contact_keys = insert key keys ctx.vendor_contact_keys;
  }

  -- What is kept under a key is what the next call loads.
  load-keeping :
      (key : String) (keys : List String) (ctx : ApplyContext) (db : D)
      → load_vendor_contact_keys repo key (keeping key keys ctx, db) ≡ keys
  unfolding load_vendor_contact_keys
  load-keeping key keys ctx db =
      kept_or-insert key keys (keys_of_rows contact_row_keys (repo.get_vendor_contacts key db))
        ctx.vendor_contact_keys

  pub add-known :
      (vendor_id : String) (given contact : Contact) (ctx : ApplyContext) (db : D)
      → is_empty (strip vendor_id) ≡ false
      → resolve_contact "Support Contact" given ≡ some contact
      → is_known (load_vendor_contact_keys repo (strip vendor_id) (ctx, db)) (contact_keys contact)
        ≡ true
      → maybe_add_vendor_contact repo vendor_id given (ctx, db)
        ≡ some (
          "",
          (
            keeping
                (strip vendor_id)
                (load_vendor_contact_keys repo (strip vendor_id) (ctx, db))
                ctx,
            db,
          ),
        )
  unfolding maybe_add_vendor_contact
  add-known vendor_id given contact ctx db named given_as known = rw (named, given_as, known) refl

  pub add-new :
      (vendor_id : String) (given contact : Contact) (ctx : ApplyContext) (db : D)
      → is_empty (strip vendor_id) ≡ false
      → resolve_contact "Support Contact" given ≡ some contact
      → is_known (load_vendor_contact_keys repo (strip vendor_id) (ctx, db)) (contact_keys contact)
        ≡ false
      → maybe_add_vendor_contact repo vendor_id given (ctx, db)
        ≡ added repo
            (keeping
              (strip vendor_id)
              (contact_keys contact ++ load_vendor_contact_keys repo (strip vendor_id) (ctx, db))
              ctx)
            (repo.add_vendor_contact (strip vendor_id) contact db)
  unfolding maybe_add_vendor_contact
  add-new vendor_id given contact ctx db named given_as unknown = rw (named, given_as, unknown) refl

  -- Nothing is added: no new id, and the repository as it was.
  abbrev pub Skips : String → Contact → ApplyContext × D → Type 0
  Skips vendor_id given s =
      (ctx : ApplyContext) × (maybe_add_vendor_contact repo vendor_id given s
        ≡ some ("", (ctx, s.1)))

  Skips-unnamed :
      (vendor_id : String) (given : Contact) (s : ApplyContext × D)
      → is_empty (strip vendor_id) ≡ true
      → Skips vendor_id given s
  unfolding maybe_add_vendor_contact
  Skips-unnamed vendor_id given s unnamed = (s.0, rw unnamed refl)

  Skips-nothing :
      (vendor_id : String) (given : Contact) (s : ApplyContext × D)
      → resolve_contact "Support Contact" given ≡ none
      → Skips vendor_id given s
  unfolding maybe_add_vendor_contact
  Skips-nothing vendor_id given s nothing = elim (Bool-cases (is_empty (strip vendor_id))) [
    | inl unnamed ↦ Skips-unnamed vendor_id given s unnamed
    | inr named ↦ (s.0, rw (named, nothing) refl)
  ]

  pub Skips-known :
      (vendor_id : String) (given contact : Contact) (s : ApplyContext × D)
      → resolve_contact "Support Contact" given ≡ some contact
      → is_known (load_vendor_contact_keys repo (strip vendor_id) s) (contact_keys contact) ≡ true
      → Skips vendor_id given s
  Skips-known vendor_id given contact s given_as known =
      elim (Bool-cases (is_empty (strip vendor_id))) [
        | inl unnamed ↦ Skips-unnamed vendor_id given s unnamed
        | inr named ↦ (_, add-known vendor_id given contact s.0 s.1 named given_as known)
      ]

  added_context :
      (ctx : ApplyContext) (reply : Option (String × D)) (new_id : String) (s' : ApplyContext × D)
      → added repo ctx reply ≡ some (new_id, s')
      → s'.0 ≡ ctx
  added_context ctx none new_id s' h = absurd (cc)
  added_context ctx (some (n, db)) new_id s' h = sym (ap (λ x. x.1.0) (some_inj _ (new_id, s') h))

  kept_known :
      (key : String) (keys wanted : List String) (ctx : ApplyContext) (s' : ApplyContext × D)
      → s'.0 ≡ keeping key keys ctx
      → is_known keys wanted ≡ true
      → is_known (load_vendor_contact_keys repo key s') wanted ≡ true
  kept_known key keys wanted ctx (ctx', db') same known =
      subst (λ c. is_known (load_vendor_contact_keys repo key (c, db')) wanted ≡ true) (sym same)
        (rw (load-keeping key keys ctx db') known)

  -- The context that a call leaves knows the contact of the call.
  after-known :
      (vendor_id new_id : String) (given contact : Contact) (s s' : ApplyContext × D)
      → is_empty (strip vendor_id) ≡ false
      → resolve_contact "Support Contact" given ≡ some contact
      → maybe_add_vendor_contact repo vendor_id given s ≡ some (new_id, s')
      → is_known (load_vendor_contact_keys repo (strip vendor_id) s') (contact_keys contact) ≡ true
  after-known vendor_id new_id given contact (ctx, db) s' named given_as h =
      let key = strip vendor_id in
      let keys = load_vendor_contact_keys repo key (ctx, db) in
      elim (Bool-cases (is_known keys (contact_keys contact))) [
        | inl known ↦
            let q = add-known vendor_id given contact ctx db named given_as known in
            let same = some_inj _ (new_id, s') (sym q ∙ h) in
            kept_known key keys (contact_keys contact) ctx s' (sym (ap (λ x. x.1.0) same)) known
        | inr unknown ↦
            let q = add-new vendor_id given contact ctx db named given_as unknown in
            let reply = repo.add_vendor_contact key contact db in
            let same = added_context _ reply new_id s' (sym q ∙ h) in
            let listed = contact_keys_known contact keys (
              resolve_contact_named "Support Contact" given contact (unfold is_empty in refl)
                given_as) in
            kept_known key (contact_keys contact ++ keys) (contact_keys contact) ctx s' same listed
      ]

  -- A contact that was added, or refused as known, is refused from then on: the same call again adds
  -- nothing and leaves the repository as it is.
  pub maybe_add_vendor_contact-twice :
      (vendor_id new_id : String) (given : Contact) (s s' : ApplyContext × D)
      → maybe_add_vendor_contact repo vendor_id given s ≡ some (new_id, s')
      → Skips vendor_id given s'
  maybe_add_vendor_contact-twice vendor_id new_id given s s' h =
      elim (Option-cases (resolve_contact "Support Contact" given)) [
        | inl nothing ↦ Skips-nothing vendor_id given s' nothing
        | inr (contact, given_as) ↦ elim (Bool-cases (is_empty (strip vendor_id))) [
          | inl unnamed ↦ Skips-unnamed vendor_id given s' unnamed
          | inr named ↦
              Skips-known vendor_id given contact s' given_as
                (after-known vendor_id new_id given contact s s' named given_as h)
        ]
      ]
