-- ===== src/Imports/Lasting.antt =====
-- A preview that was saved last outlives the pruning until it expires.
use vendor_cat.Base.{
  ℕ, zero, suc, ◌+◌, ◌*◌, ◌≤◌, ◌<◌, String, true, false, some, [], ◌∷◌, ◌++◌, ◌≡◌, refl, sym, ap,
  ◌∙◌, subst, contains, keep, All, All-keep, length, length-append, ltb, arith, string_eq, inl, inr,
  Bool-cases, Option-cases, ◌==◌, ==_refl,
}
use vendor_cat.Base.Text.{strip, is_empty}
use vendor_cat.Base.Dict.{
  keys, lookup, remove, lookup-append, lookup-fresh, contains-remove, length-remove-le,
}
use vendor_cat.Imports.Previews.{
  Store, import_preview_max_items, import_preview_ttl_sec, oldest_token, drop_oldest, is_live,
  prune_preview_store, save_preview_payload, load_preview_payload, discard_preview_payload,
}
use vendor_cat.Imports.Waiting.{drop_oldest-stops, drop_oldest-turns, oldest_token_big}
use vendor_cat.Imports.Ages.{
  remove-All, insert_fresh, remove-append, keep-append, length-keep-le, keep_fresh,
  oldest_token-append, Before, After,
}

module _ {P : Type 0} where
  -- A preview waits in a store: what is before it was saved no later and has other tokens, and behind it
  -- are at most `n`, saved no earlier.
  abbrev pub Waits : String → ℕ → P → ℕ → Store P → Type 0
  Waits token now payload n store =
      (d : Store P) × (e : Store P) × (store ≡ d ++ (token, (now, payload)) ∷ e)
      × All (Before now) d
      × (contains (keys d) token ≡ false)
      × All (After now) e
      × (length e ≤ n)

  drop_oldest-Waits :
      (fuel now n : ℕ) (token : String) (payload : P) (store : Store P)
      → n < import_preview_max_items
      → Waits token now payload n store
      → Waits token now payload n (drop_oldest fuel store)
  drop_oldest-Waits zero now n token payload store few h = unfold drop_oldest in h
  drop_oldest-Waits (suc fuel) now n token payload store few
        (d, e, split, before, fresh, after, small) =
      let x : String × (ℕ × P) = (token, (now, payload)) in
      elim (Bool-cases (ltb import_preview_max_items (length store))) [
        | inr fits ↦
            subst (Waits token now payload n) (sym (drop_oldest-stops (suc fuel) store fits))
              (d, e, split, before, fresh, after, small)
        | inl big ↦
            let (gone, oldest, other) =
              oldest_token-append token now payload d e before after (omega (arith, small, few))
                fresh
                (subst (λ (c : Store P). ltb import_preview_max_items (length c) ≡ true) split
                  big) in
            let turn =
              drop_oldest-turns fuel store gone big
                (ap (λ (c : Store P). oldest_token c) split ∙ oldest) in
            subst (Waits token now payload n) (sym turn) (
              drop_oldest-Waits fuel now n token payload (remove gone store) few (
                remove gone d,
                remove gone e,
                ap (remove gone) split ∙ remove-append gone token (now, payload) d e other,
                remove-All (Before now) gone d before,
                ground (arith, contains-remove gone token d, fresh),
                remove-All (After now) gone e after,
                omega (arith, length-remove-le gone e, small),
              ))
      ]

  prune-Waits :
      (ticks at now n : ℕ) (token : String) (payload : P) (store : Store P)
      → n < import_preview_max_items
      → at < now + import_preview_ttl_sec * ticks
      → Waits token now payload n store
      → Waits token now payload n (prune_preview_store ticks at store)
  unfolding prune_preview_store
  prune-Waits ticks at now n token payload store few soon
        (d, e, split, before, fresh, after, small) =
      let x : String × (ℕ × P) = (token, (now, payload)) in
      let live = is_live ticks at in
      let alive : live x ≡ true = ground (arith, soon) in
      drop_oldest-Waits (length (keep live store)) now n token payload (keep live store) few (
        keep live d,
        keep live e,
        ap (keep live) split ∙ keep-append live x d e alive,
        All-keep (Before now) live d before,
        keep_fresh live token d fresh,
        All-keep (After now) live e after,
        omega (arith, length-keep-le live e, small),
      )

  -- The loop keeps what every removal keeps.
  drop_oldest-keeps :
      (Q : Store P → Type 0) (fuel : ℕ) (d : Store P)
      → ((k : String) (c : Store P) → Q c → Q (remove k c))
      → Q d
      → Q (drop_oldest fuel d)
  drop_oldest-keeps Q zero d step h = unfold drop_oldest in h
  drop_oldest-keeps Q (suc fuel) d step h =
      elim (Bool-cases (ltb import_preview_max_items (length d))) [
        | inr small ↦ subst Q (sym (drop_oldest-stops (suc fuel) d small)) h
        | inl big ↦
            let (token, oldest) = oldest_token_big d big in
            subst Q (sym (drop_oldest-turns fuel d token big oldest))
              (drop_oldest-keeps Q fuel (remove token d) step (step token d h))
      ]

  append_assoc : (xs ys zs : Store P) → (xs ++ ys) ++ zs ≡ xs ++ (ys ++ zs)
  append_assoc [] ys zs = refl
  append_assoc (x ∷ xs) ys zs = ap (λ ws. x ∷ ws) (append_assoc xs ys zs)

  -- The pruning brings in no token.
  prune_fresh :
      (ticks at : ℕ) (token : String) (store : Store P)
      → contains (keys store) token ≡ false
      → contains (keys (prune_preview_store ticks at store)) token ≡ false
  unfolding prune_preview_store
  prune_fresh ticks at token store fresh =
      drop_oldest-keeps (λ c. contains (keys c) token ≡ false) _ (keep (is_live ticks at) store)
        (λ k c h. ground (arith, contains-remove k token c, h))
        (keep_fresh (is_live ticks at) token store fresh)

  append_All :
      (Q : String × (ℕ × P) → Type 0) (x : String × (ℕ × P)) (e : Store P)
      → All Q e
      → Q x
      → All Q (e ++ x ∷ [])
  append_All Q x [] h q = (q, tt)
  append_All Q x (y ∷ e) (p, h) q = (p, append_All Q x e h q)

  -- The preview that is saved last waits, if everything else was saved before.
  pub save-Waits :
      (ticks now : ℕ) (token : String) (payload : P) (store : Store P)
      → All (Before now) store
      → contains (keys store) token ≡ false
      → Waits token now payload 0 (save_preview_payload ticks now token payload store)
  unfolding save_preview_payload prune_preview_store
  save-Waits ticks now token payload store before fresh =
      let live = keep (is_live ticks now) store in
      let pruned = drop_oldest (length live) live in
      let fresh' = prune_fresh ticks now token store fresh in
      let before' =
        drop_oldest-keeps (All (Before now)) (length live) live
          (λ k c h. remove-All (Before now) k c h)
          (All-keep (Before now) (is_live ticks now) store before) in
      (
        pruned,
        [],
        insert_fresh token (now, payload) pruned fresh',
        before',
        fresh',
        tt,
        omega arith,
      )

  -- Saving another one under a new token adds one behind it.
  pub save_other-Waits :
      (ticks at now n : ℕ) (token other : String) (payload given : P) (store : Store P)
      → n < import_preview_max_items
      → at < now + import_preview_ttl_sec * ticks
      → now ≤ at
      → contains (keys store) other ≡ false
      → Waits token now payload n store
      → Waits token now payload (suc n) (save_preview_payload ticks at other given store)
  unfolding save_preview_payload
  save_other-Waits ticks at now n token other payload given store few soon late fresh h =
      let pruned = prune_preview_store ticks at store in
      let (d, e, split, before, unseen, after, small) =
        prune-Waits ticks at now n token payload store few soon h in
      let inserted =
        insert_fresh other (at, given) pruned (prune_fresh ticks at other store fresh) in
      (
        d,
        e ++ (other, (at, given)) ∷ [],
        inserted
            ∙ ap (λ c. c ++ (other, (at, given)) ∷ []) split
            ∙ append_assoc d ((token, (now, payload)) ∷ e) ((other, (at, given)) ∷ []),
        before,
        unseen,
        append_All (After now) (other, (at, given)) e after late,
        omega (arith, length-append e ((other, (at, given)) ∷ []), small),
      )

  -- Discarding another one leaves it.
  pub discard_other-Waits :
      (now n : ℕ) (token other : String) (payload : P) (store : Store P)
      → (token == strip other) ≡ false
      → Waits token now payload n store
      → Waits token now payload n (discard_preview_payload other store)
  unfolding discard_preview_payload
  discard_other-Waits now n token other payload store differs h =
      elim (Bool-cases (is_empty (strip other))) [
        | inl blank ↦ rw blank h
        | inr named ↦
            let (d, e, split, before, fresh, after, small) = h in
            let gone = strip other in
            rw named (
              remove gone d,
              remove gone e,
              ap (remove gone) split ∙ remove-append gone token (now, payload) d e differs,
              remove-All (Before now) gone d before,
              ground (arith, contains-remove gone token d, fresh),
              remove-All (After now) gone e after,
              omega (arith, length-remove-le gone e, small),
            )
      ]

  -- Loading prunes, and finds what waits under its token.
  pub load-Waits :
      (ticks at now n : ℕ) (token given : String) (payload : P) (store : Store P)
      → n < import_preview_max_items
      → at < now + import_preview_ttl_sec * ticks
      → Waits token now payload n store
      → Waits token now payload n (load_preview_payload ticks at given store).1
  unfolding load_preview_payload
  load-Waits ticks at now n token given payload store few soon h =
      let pruned = prune_preview_store ticks at store in
      let kept = prune-Waits ticks at now n token payload store few soon h in
      elim (Bool-cases (is_empty (strip given))) [
        | inl blank ↦ rw blank h
        | inr named ↦ elim (Option-cases (lookup (strip given) pruned)) [
          | inl missing ↦ rw (named, missing) kept
          | inr (entry, there) ↦ rw (named, there) kept
        ]
      ]

  pub load_found :
      (ticks at now n : ℕ) (token : String) (payload : P) (store : Store P)
      → strip token ≡ token
      → is_empty token ≡ false
      → n < import_preview_max_items
      → at < now + import_preview_ttl_sec * ticks
      → Waits token now payload n store
      → (load_preview_payload ticks at token store).0 ≡ some payload
  unfolding load_preview_payload
  load_found ticks at now n token payload store stripped named few soon h =
      let (d, e, split, before, unseen, after, small) =
        prune-Waits ticks at now n token payload store few soon h in
      let there : lookup token (d ++ (token, (now, payload)) ∷ e) ≡ some (now, payload) =
        rw (lookup-append token d ((token, (now, payload)) ∷ e), lookup-fresh token d unseen)
          (unfold lookup in rw (==_refl token) refl) in
      rw (stripped, named, split, there) refl
