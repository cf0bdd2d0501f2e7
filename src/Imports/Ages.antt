-- ===== src/Imports/Ages.antt =====
-- Which of the waiting previews is the oldest, and what removals leave of the store.
use vendor_cat.Base.{
  ℕ, ◌≤◌, ◌<◌, String, Bool, true, false, some, [], ◌∷◌, ◌++◌, ◌≡◌, refl, sym, ap, subst, contains,
  keep, All, length, ltb, arith, string_eq, inl, inr, Bool-cases, ◌==◌,
}
use vendor_cat.Base.Dict.{keys, insert, remove}
use vendor_cat.Imports.Previews.{Store, import_preview_max_items, oldest_from, oldest_token}
use vendor_cat.Imports.Waiting.{oldest_from-contains}

module _ {P : Type 0} where
  -- Saved at a time no later than `now`.
  abbrev pub Before : ℕ → String × (ℕ × P) → Type 0
  Before now entry = entry.1.0 ≤ now

  pub remove-All :
      (Q : String × (ℕ × P) → Type 0) (k : String) (d : Store P) → All Q d → All Q (remove k d)
  unfolding remove
  remove-All Q k [] h = tt
  remove-All Q k (x ∷ d) (q, h) = ground (arith, remove-All Q k d h)

  pub insert_fresh :
      (k : String) (x : ℕ × P) (d : Store P)
      → contains (keys d) k ≡ false
      → insert k x d ≡ d ++ (k, x) ∷ []
  unfolding insert contains
  insert_fresh k x [] h = refl
  insert_fresh k x ((i, y) ∷ d) h = ground (arith, insert_fresh k x d)

  pub remove-append :
      (k j : String) (x : ℕ × P) (d e : Store P)
      → (j == k) ≡ false
      → remove k (d ++ (j, x) ∷ e) ≡ remove k d ++ (j, x) ∷ remove k e
  unfolding remove
  remove-append k j x [] e h = rw h refl
  remove-append k j x ((i, y) ∷ d) e h = ground (arith, remove-append k j x d e h)

  pub keep-append :
      (p : String × (ℕ × P) → Bool) (x : String × (ℕ × P)) (d e : Store P)
      → p x ≡ true
      → keep p (d ++ x ∷ e) ≡ keep p d ++ x ∷ keep p e
  unfolding keep
  keep-append p x [] e h = rw h refl
  keep-append p x (y ∷ d) e h = ground (arith, keep-append p x d e h)

  pub length-keep-le : (p : String × (ℕ × P) → Bool) (e : Store P) → length (keep p e) ≤ length e
  unfolding keep
  length-keep-le p [] = omega arith
  length-keep-le p (y ∷ e) = ground (arith, length-keep-le p e)

  pub keep_fresh :
      (p : String × (ℕ × P) → Bool) (k : String) (d : Store P)
      → contains (keys d) k ≡ false
      → contains (keys (keep p d)) k ≡ false
  unfolding keep contains
  keep_fresh p k [] h = refl
  keep_fresh p k (y ∷ d) h = ground (arith, keep_fresh p k d)

  -- Saved at `now` or later.
  abbrev pub After : ℕ → String × (ℕ × P) → Type 0
  After now entry = now ≤ entry.1.0

  oldest_from-After :
      (token : String) (created now : ℕ) (e : Store P)
      → created ≤ now
      → All (After now) e
      → oldest_from token created e ≡ token
  unfolding oldest_from
  oldest_from-After token created now [] le h = refl
  oldest_from-After token created now ((i, (time, p)) ∷ e) le (q, h) =
      ground (arith, oldest_from-After token created now e le h, le, q)

  -- What was saved before `now` is older than the rest.
  oldest_from-append :
      (token last : String) (created now : ℕ) (payload : P) (d e : Store P)
      → created ≤ now
      → All (Before now) d
      → All (After now) e
      → oldest_from token created (d ++ (last, (now, payload)) ∷ e) ≡ oldest_from token created d
  unfolding oldest_from
  oldest_from-append token last created now payload [] e le h after =
      ground (arith, oldest_from-After token created now e le after, le)
  oldest_from-append token last created now payload ((i, (time, p)) ∷ d) e le (q, h) after =
      ground (
        arith,
        oldest_from-append i last time now payload d e q h after,
        oldest_from-append token last created now payload d e le h after,
      )

  pub oldest_token-append :
      (last : String) (now : ℕ) (payload : P) (d e : Store P)
      → All (Before now) d
      → All (After now) e
      → length e < import_preview_max_items
      → contains (keys d) last ≡ false
      → ltb import_preview_max_items (length (d ++ (last, (now, payload)) ∷ e)) ≡ true
      → (token : String) × (oldest_token (d ++ (last, (now, payload)) ∷ e) ≡ some token)
        × ((last == token) ≡ false)
  oldest_token-append last now payload [] e h after few fresh big =
      absurd (ground (arith, few, big))
  oldest_token-append last now payload ((i, (time, p)) ∷ d) e (q, h) after few fresh big =
      let token = oldest_from i time d in
      let listed = oldest_from-contains i time d in
      (
        token,
        ap some (oldest_from-append i last time now payload d e q h after),
        elim (Bool-cases (last == token)) [
          | inr other ↦ other
          | inl same ↦
              let e : last ≡ token = (string_eq.eqb_iff last token).0 same in
              let found = subst (λ t. contains (i ∷ keys d) t ≡ true) (sym e) listed in absurd (cc)
        ],
      )
