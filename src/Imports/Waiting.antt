-- ===== src/Imports/Waiting.antt =====
-- The store of previews: its pruning ends, it stays small, and a preview waits until it expires.
use vendor_cat.Base.{
  ℕ, zero, suc, ◌+◌, ◌≤◌, String, true, false, some, [], ◌∷◌, ◌≡◌, refl, sym, ap, ◌∙◌, contains,
  keep, length, ltb, arith, string_eq, inl, inr, Bool-cases, ==_refl,
}
use vendor_cat.Base.Dict.{keys, remove, length-remove-lt, length-insert-le}
use vendor_cat.Imports.Previews.{
  Store, import_preview_max_items, oldest_from, oldest_token, drop_oldest, is_live,
  prune_preview_store, save_preview_payload,
}

module _ {P : Type 0} where
  pub oldest_from-contains :
      (token : String) (created : ℕ) (store : Store P)
      → contains (token ∷ keys store) (oldest_from token created store) ≡ true
  unfolding oldest_from contains
  oldest_from-contains token created [] = rw (==_refl token) refl
  oldest_from-contains token created ((other, (time, payload)) ∷ store) =
      elim (Bool-cases (ltb time created)) [
        | inl older ↦ ground (arith, older, oldest_from-contains other time store)
        | inr newer ↦ ground (arith, newer, oldest_from-contains token created store)
      ]

  oldest_token-contains :
      (store : Store P) (token : String)
      → oldest_token store ≡ some token
      → contains (keys store) token ≡ true
  oldest_token-contains [] token h = absurd (cc)
  oldest_token-contains ((first, (created, payload)) ∷ store) token h =
      ground (arith, h, oldest_from-contains first created store)

  -- One turn of the loop.
  pub drop_oldest-stops :
      (fuel : ℕ) (store : Store P)
      → ltb import_preview_max_items (length store) ≡ false
      → drop_oldest fuel store ≡ store
  unfolding drop_oldest
  drop_oldest-stops zero store small = refl
  drop_oldest-stops (suc fuel) store small = rw (small, drop_oldest) refl

  pub drop_oldest-turns :
      (fuel : ℕ) (store : Store P) (token : String)
      → ltb import_preview_max_items (length store) ≡ true
      → oldest_token store ≡ some token
      → drop_oldest (suc fuel) store ≡ drop_oldest fuel (remove token store)
  unfolding drop_oldest
  drop_oldest-turns fuel store token big oldest = rw (big, oldest, drop_oldest) refl

  pub oldest_token_big :
      (store : Store P)
      → ltb import_preview_max_items (length store) ≡ true
      → (token : String) × (oldest_token store ≡ some token)
  oldest_token_big [] big = absurd (cc)
  oldest_token_big ((token, (created, payload)) ∷ store) big =
      (oldest_from token created store, refl)

  -- The loop of the pruning ends: with as much fuel as there are entries it leaves at most 64, which is
  -- when it stops, and more fuel changes nothing.
  pub drop_oldest-enough :
      (fuel more : ℕ) (store : Store P)
      → length store ≤ fuel
      → (length (drop_oldest fuel store) ≤ import_preview_max_items)
        × (drop_oldest (fuel + more) store ≡ drop_oldest fuel store)
  drop_oldest-enough zero more [] h = (
    rw (drop_oldest-stops 0 [] refl) (omega arith),
    drop_oldest-stops (0 + more) [] refl ∙ sym (drop_oldest-stops 0 [] refl),
  )
  drop_oldest-enough zero more (x ∷ store) h = absurd (omega (arith, h))
  drop_oldest-enough (suc fuel) more store h =
      elim (Bool-cases (ltb import_preview_max_items (length store))) [
        | inr small ↦
            let stops = drop_oldest-stops (suc fuel) store small in
            (
              rw stops (ground (arith, small)),
              drop_oldest-stops (suc fuel + more) store small ∙ sym stops,
            )
        | inl big ↦
            let (token, oldest) = oldest_token_big store big in
            let listed = oldest_token-contains store token oldest in
            let turn = drop_oldest-turns fuel store token big oldest in
            let shorter = length-remove-lt token store listed in
            let added : suc fuel + more ≡ suc (fuel + more) = omega arith in
            let (bound, same) =
              drop_oldest-enough fuel more (remove token store) (omega (arith, shorter, h)) in
            (
              rw turn bound,
              ap (λ n. drop_oldest n store) added
                  ∙ drop_oldest-turns (fuel + more) store token big oldest
                  ∙ same
                  ∙ sym turn,
            )
      ]

  pub length-prune-le :
      (ticks now : ℕ) (store : Store P)
      → length (prune_preview_store ticks now store) ≤ import_preview_max_items
  unfolding prune_preview_store
  length-prune-le ticks now store =
      let live = keep (is_live ticks now) store in
      (drop_oldest-enough (length live) 0 live (omega arith)).0

  -- After a preview is saved, whatever the store held, at most 65 wait: one more than the limit.
  pub length-save-le :
      (ticks now : ℕ) (token : String) (payload : P) (store : Store P)
      → length (save_preview_payload ticks now token payload store) ≤ import_preview_max_items + 1
  unfolding save_preview_payload
  length-save-le ticks now token payload store = omega (
    arith,
    length-insert-le token (now, payload) (prune_preview_store ticks now store),
    length-prune-le ticks now store,
  )
