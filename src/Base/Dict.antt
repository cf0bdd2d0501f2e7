-- ===== src/Base/Dict.antt =====
-- Python's dict: an association list in order of insertion, one entry for each key. Assigning to a
-- key that is there keeps its place.
use vendor_cat.Base.Tests.{if◌then◌else◌, Bool-cases, &&-true, not-true}
use vendor_cat.Base.Equality.{BoolEq, ◌==◌}
use vendor_cat.Base.Lists.{length, contains, keep, All}
use Prim.Native.Nat.{◌+◌, ◌≤◌, ◌<◌}
use mathlib.Core.Path.{◌≡◌, refl, subst}
use mathlib.Core.Logic.{inl, inr}
use mathlib.Core.Bool.{Bool, true, false, not, ◌&&◌, ◌||◌}
use mathlib.Core.Option.{Option, none, some}
use mathlib.Core.List.{List, [], ◌∷◌, ◌++◌, map}
use native.Mathlib.Omega.{arith}

abbrev pub Dict {ℓ κ} : Type ℓ → Type κ → Type (ℓ ⊔ κ)
Dict K V = List (K × V)

abbrev pub keys {ℓ κ} : {K : Type ℓ} {V : Type κ} → Dict K V → List K
keys d = map (λ e. e.0) d

pub some_inj {ℓ} : {A : Type ℓ} (a b : A) → some a ≡ some b → a ≡ b
some_inj a b h = cc

module _ {ℓ κ} {K : Type ℓ} {V : Type κ} ⦃e : BoolEq K⦄ where
  -- d.get(k)
  unfoldable pub lookup : K → Dict K V → Option V
  lookup k [] = none
  lookup k ((j, v) ∷ d) = if j == k then some v else lookup k d

  -- d[k] = v
  unfoldable pub insert : K → V → Dict K V → Dict K V
  insert k v [] = (k, v) ∷ []
  insert k v ((j, w) ∷ d) = if j == k then (k, v) ∷ d else (j, w) ∷ insert k v d

  -- d.pop(k, None)
  unfoldable pub remove : K → Dict K V → Dict K V
  remove k [] = []
  remove k ((j, v) ∷ d) = let rest = remove k d in if j == k then rest else (j, v) ∷ rest

  pub lookup-insert :
      (k j : K) (v : V) (d : Dict K V)
      → lookup j (insert k v d) ≡ (if k == j then some v else lookup j d)
  unfolding lookup insert
  lookup-insert k j v [] = refl
  lookup-insert k j v ((i, w) ∷ d) =
      ground (arith, e.eqb_iff k j, e.eqb_iff i k, e.eqb_iff i j, lookup-insert k j v d)

  pub lookup-remove :
      (k j : K) (d : Dict K V) → lookup j (remove k d) ≡ (if k == j then none else lookup j d)
  unfolding lookup remove
  lookup-remove k j [] = ground arith
  lookup-remove k j ((i, v) ∷ d) =
      ground (arith, lookup-remove k j d, e.eqb_iff i k, e.eqb_iff i j, e.eqb_iff k j)

  pub lookup-append :
      (k : K) (c d : Dict K V)
      → lookup k (c ++ d) ≡ elim (lookup k c) [ none ↦ lookup k d | some v ↦ some v ]
  unfolding lookup
  lookup-append k [] d = refl
  lookup-append k ((i, v) ∷ c) d = ground (arith, lookup-append k c d)

  pub length-remove-le : (k : K) (d : Dict K V) → length (remove k d) ≤ length d
  unfolding remove
  length-remove-le k [] = omega arith
  length-remove-le k ((i, v) ∷ d) = ground (arith, length-remove-le k d)

  pub length-insert-le : (k : K) (v : V) (d : Dict K V) → length (insert k v d) ≤ length d + 1
  unfolding insert
  length-insert-le k v [] = omega arith
  length-insert-le k v ((i, w) ∷ d) = ground (arith, length-insert-le k v d)

  -- A key occurs exactly when it has a value.
  pub contains-keys :
      (k : K) (d : Dict K V)
      → contains (keys d) k ≡ elim (lookup k d) [ none ↦ false | some _ ↦ true ]
  unfolding contains lookup
  contains-keys k [] = refl
  contains-keys k ((i, v) ∷ d) = ground (arith, contains-keys k d)

  -- What holds of every value of a table holds of the one that is found.
  pub lookup-All {μ} :
      (P : V → Type μ) (k : K) (d : Dict K V) {v : V}
      → All (λ x. P x.1) d
      → lookup k d ≡ some v
      → P v
  unfolding lookup
  lookup-All P k [] h q = absurd (cc)
  lookup-All P k ((i, w) ∷ d) {v} (p, h) q = elim (Bool-cases (i == k)) [
    | inl same ↦ subst P (some_inj w v (rw same at q)) p
    | inr other ↦ lookup-All P k d h (rw other at q)
  ]

module _ {ℓ κ} {K : Type ℓ} {V : Type κ} ⦃e : BoolEq K⦄ where
  -- No key occurs twice.
  unfoldable pub unique_keys : Dict K V → Bool
  unique_keys [] = true
  unique_keys ((k, v) ∷ d) = not (contains (keys d) k) && unique_keys d

  contains-keep_other :
      (p : K × V → Bool) (k : K) (d : Dict K V)
      → contains (keys d) k ≡ false
      → contains (keys (keep p d)) k ≡ false
  unfolding contains keep
  contains-keep_other p k [] h = refl
  contains-keep_other p k ((i, v) ∷ d) h = ground (arith, contains-keep_other p k d)

  -- The keys of the entries that pass a test on their values.
  pub contains-keys-keep :
      (p : V → Bool) (k : K) (d : Dict K V)
      → unique_keys d ≡ true
      → contains (keys (keep (λ x. p x.1) d)) k ≡ elim (lookup k d) [ none ↦ false | some v ↦ p v ]
  unfolding unique_keys contains keep lookup
  contains-keys-keep p k [] u = refl
  contains-keys-keep p k ((i, v) ∷ d) u =
      let (fresh, rest) = &&-true (not (contains (keys d) i)) (unique_keys d) u in
      ground (
        arith,
        e.eqb_iff i k,
        contains-keys-keep p k d rest,
        contains-keep_other (λ x. p x.1) i d (not-true (contains (keys d) i) fresh),
      )

  -- The length after an assignment does not depend on the value.
  pub length-insert_value :
      (k : K) (v w : V) (d : Dict K V) → length (insert k v d) ≡ length (insert k w d)
  unfolding insert
  length-insert_value k v w [] = refl
  length-insert_value k v w ((i, u) ∷ d) = ground (arith, length-insert_value k v w d)

  pub contains-insert :
      (k j : K) (v : V) (d : Dict K V)
      → contains (keys (insert k v d)) j ≡ (k == j || contains (keys d) j)
  unfolding contains insert
  contains-insert k j v [] = refl
  contains-insert k j v ((i, w) ∷ d) =
      ground (arith, contains-insert k j v d, e.eqb_iff i k, e.eqb_iff i j, e.eqb_iff k j)

  pub contains-remove :
      (k j : K) (d : Dict K V)
      → contains (keys (remove k d)) j ≡ (not (k == j) && contains (keys d) j)
  unfolding contains remove
  contains-remove k j [] = ground arith
  contains-remove k j ((i, w) ∷ d) =
      ground (arith, contains-remove k j d, e.eqb_iff i k, e.eqb_iff i j, e.eqb_iff k j)

  pub unique_keys-insert :
      (k : K) (v : V) (d : Dict K V) → unique_keys d ≡ true → unique_keys (insert k v d) ≡ true
  unfolding unique_keys insert
  unique_keys-insert k v [] u = unfold contains in refl
  unique_keys-insert k v ((i, w) ∷ d) u =
      ground
        (arith, unique_keys-insert k v d, contains-insert k i v d, e.eqb_iff i k, e.eqb_iff k i)

  pub unique_keys-remove :
      (k : K) (d : Dict K V) → unique_keys d ≡ true → unique_keys (remove k d) ≡ true
  unfolding unique_keys remove
  unique_keys-remove k [] u = refl
  unique_keys-remove k ((i, w) ∷ d) u =
      ground (arith, unique_keys-remove k d, contains-remove k i d)

  pub unique_keys-keep :
      (p : K × V → Bool) (d : Dict K V) → unique_keys d ≡ true → unique_keys (keep p d) ≡ true
  unfolding unique_keys keep
  unique_keys-keep p [] u = refl
  unique_keys-keep p ((i, w) ∷ d) u =
      ground (arith, unique_keys-keep p d, contains-keep_other p i d)

  -- A key that is there is taken out.
  pub length-remove-lt :
      (k : K) (d : Dict K V) → contains (keys d) k ≡ true → length (remove k d) < length d
  unfolding contains remove
  length-remove-lt k [] h = absurd (cc)
  length-remove-lt k ((i, w) ∷ d) h = ground (arith, length-remove-lt k d, length-remove-le k d)

  pub contains-keys-append :
      (k : K) (c d : Dict K V)
      → contains (keys (c ++ d)) k ≡ (contains (keys c) k || contains (keys d) k)
  unfolding contains
  contains-keys-append k [] d = refl
  contains-keys-append k ((i, v) ∷ c) d = ground (arith, contains-keys-append k c d)

  -- A new key at the end keeps the keys unique.
  pub unique_keys-concat :
      (k : K) (v : V) (d : Dict K V)
      → unique_keys d ≡ true
      → contains (keys d) k ≡ false
      → unique_keys (d ++ (k, v) ∷ []) ≡ true
  unfolding unique_keys contains
  unique_keys-concat k v [] u h = refl
  unique_keys-concat k v ((i, w) ∷ d) u h = ground (
    arith,
    unique_keys-concat k v d,
    contains-keys-append i d ((k, v) ∷ []),
    e.eqb_iff i k,
    e.eqb_iff k i,
  )

  pub lookup-fresh : (k : K) (d : Dict K V) → contains (keys d) k ≡ false → lookup k d ≡ none
  unfolding lookup contains
  lookup-fresh k [] h = refl
  lookup-fresh k ((i, w) ∷ d) h = ground (arith, lookup-fresh k d)

  -- Filtering the entries by their values filters the one that is found.
  pub lookup-keep :
      (p : V → Bool) (k : K) (d : Dict K V)
      → unique_keys d ≡ true
      → lookup k (keep (λ x. p x.1) d)
        ≡ elim (lookup k d) [ none ↦ none | some v ↦ if p v then some v else none ]
  unfolding unique_keys lookup keep
  lookup-keep p k [] u = refl
  lookup-keep p k ((i, v) ∷ d) u =
      let (fresh, rest) = &&-true (not (contains (keys d) i)) (unique_keys d) u in
      ground (
        arith,
        e.eqb_iff i k,
        lookup-keep p k d rest,
        lookup-fresh i (keep (λ x. p x.1) d)
            (contains-keep_other (λ x. p x.1) i d (not-true (contains (keys d) i) fresh)),
      )
