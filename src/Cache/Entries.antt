-- ===== src/Cache/Entries.antt =====
-- The entries of the cache: their number, their keys, and what eviction leaves.
use vendor_cat.Base.{
  ℕ, ◌≤◌, true, false, some, [], ◌∷◌, ◌++◌, ◌≡◌, refl, contains, length, length-append, arith,
  BoolEq, ◌==◌, if◌then◌else◌,
}
use vendor_cat.Base.Dict.{
  Dict, keys, lookup, remove, unique_keys, lookup-append, lookup-remove, lookup-fresh,
  contains-remove, unique_keys-concat, unique_keys-remove, length-remove-lt,
}
use vendor_cat.Cache.{evict_lru, move_to_end}

module _ {ℓ} {K V : Type ℓ} ⦃e : BoolEq K⦄ where
  pub length-evict_lru-le : (most : ℕ) (d : Dict K (ℕ × V)) → length (evict_lru most d) ≤ most
  unfolding evict_lru
  length-evict_lru-le most [] = omega arith
  length-evict_lru-le most (x ∷ d) = ground (arith, length-evict_lru-le most d)

  pub unique_keys-evict_lru :
      (most : ℕ) (d : Dict K (ℕ × V)) → unique_keys d ≡ true → unique_keys (evict_lru most d) ≡ true
  unfolding evict_lru unique_keys
  unique_keys-evict_lru most [] u = refl
  unique_keys-evict_lru most ((k, x) ∷ d) u = ground (arith, unique_keys-evict_lru most d)

  -- Nothing is evicted while there is room.
  pub evict_lru_room : (most : ℕ) (d : Dict K (ℕ × V)) → length d ≤ most → evict_lru most d ≡ d
  unfolding evict_lru
  evict_lru_room most [] h = refl
  evict_lru_room most (x ∷ d) h = ground arith

  -- The entry used last survives.
  pub lookup-evict_lru_last :
      (most : ℕ) (k : K) (x : ℕ × V) (d : Dict K (ℕ × V))
      → 1 ≤ most
      → contains (keys d) k ≡ false
      → lookup k (evict_lru most (d ++ (k, x) ∷ [])) ≡ some x
  unfolding evict_lru lookup contains
  lookup-evict_lru_last most k x [] h f = ground (arith, e.eqb_iff k k)
  lookup-evict_lru_last most k x ((i, y) ∷ d) h f = ground (
    arith,
    lookup-evict_lru_last most k x d h,
    lookup-append k d ((k, x) ∷ []),
    lookup-fresh k d,
    e.eqb_iff k k,
  )

  -- What is found after eviction was there before.
  pub lookup-evict_lru :
      (most : ℕ) (k : K) (x : ℕ × V) (d : Dict K (ℕ × V))
      → unique_keys d ≡ true
      → lookup k (evict_lru most d) ≡ some x
      → lookup k d ≡ some x
  unfolding evict_lru lookup unique_keys
  lookup-evict_lru most k x [] u h = h
  lookup-evict_lru most k x ((i, y) ∷ d) u h =
      ground (arith, lookup-evict_lru most k x d, lookup-fresh i d, e.eqb_iff i k)

  pub unique_keys-move_to_end :
      (k : K) (x : ℕ × V) (d : Dict K (ℕ × V))
      → unique_keys d ≡ true
      → unique_keys (move_to_end k x d) ≡ true
  unfolding move_to_end
  unique_keys-move_to_end k x d u =
      unique_keys-concat k x (remove k d) (unique_keys-remove k d u)
        (ground (arith, contains-remove k k d, e.eqb_iff k k))

  pub lookup-move_to_end :
      (k j : K) (x : ℕ × V) (d : Dict K (ℕ × V))
      → lookup j (move_to_end k x d) ≡ (if k == j then some x else lookup j d)
  unfolding move_to_end lookup
  lookup-move_to_end k j x d =
      ground (arith, lookup-append j (remove k d) ((k, x) ∷ []), lookup-remove k j d)

  pub length-move_to_end :
      (k : K) (x : ℕ × V) (d : Dict K (ℕ × V))
      → contains (keys d) k ≡ true
      → length (move_to_end k x d) ≤ length d
  unfolding move_to_end
  length-move_to_end k x d h =
      omega (arith, length-append {ℓ} (remove k d) ((k, x) ∷ []), length-remove-lt k d h)
