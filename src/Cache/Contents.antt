-- ===== src/Cache/Contents.antt =====
-- What holds of every entry of the cache, whatever its age: reads and removals keep it, a write keeps
-- it when it holds of the value written, and what a read answers is such an entry.
use vendor_cat.Base.{
  ℕ, not, ◌||◌, Option, some, [], ◌∷◌, ◌≡◌, refl, All, All-append, All-keep, ltb, leb, nat_beq,
  arith, BoolEq, ◌==◌, inl, inr, Bool-cases, Option-cases, subst, sym, ◌∙◌, length, suc,
}
use vendor_cat.Base.Dict.{Dict, lookup, insert, remove, some_inj}
use vendor_cat.Cache.{Cache, clone, evict_expired, evict_lru, move_to_end, probe, get, set, ttl_or}

module _ {K V : Type 0} ⦃e : BoolEq K⦄ (P : K → V → Type 0) where
  abbrev pub OfEntry : K × (ℕ × V) → Type 0
  OfEntry x = P x.0 x.1.1

  abbrev pub Everywhere : Cache K V → Type 0
  Everywhere c = All OfEntry c.entries

  remove-All : (k : K) (d : Dict K (ℕ × V)) → All OfEntry d → All OfEntry (remove k d)
  unfolding remove
  remove-All k [] h = tt
  remove-All k ((i, x) ∷ d) (p, h) = ground (arith, remove-All k d h)

  insert-All :
      (k : K) (x : ℕ × V) (d : Dict K (ℕ × V))
      → P k x.1
      → All OfEntry d
      → All OfEntry (insert k x d)
  unfolding insert
  insert-All k x [] p h = (p, tt)
  insert-All k x ((i, y) ∷ d) p (q, h) = elim (Bool-cases (i == k)) [
    | inl same ↦ rw same (p, h)
    | inr other ↦ rw other (q, insert-All k x d p h)
  ]

  evict_lru-All : (most : ℕ) (d : Dict K (ℕ × V)) → All OfEntry d → All OfEntry (evict_lru most d)
  unfolding evict_lru
  evict_lru-All most [] h = tt
  evict_lru-All most (x ∷ d) (p, h) = elim (Bool-cases (ltb most (suc (length d)))) [
    | inl over ↦ rw over (evict_lru-All most d h)
    | inr fits ↦ rw fits (p, h)
  ]

  move_to_end-All :
      (k : K) (x : ℕ × V) (d : Dict K (ℕ × V))
      → P k x.1
      → All OfEntry d
      → All OfEntry (move_to_end k x d)
  unfolding move_to_end
  move_to_end-All k x d p h = All-append OfEntry (remove k d) _ (remove-All k d h) (p, tt)

  evict_expired-All :
      (now : ℕ) (d : Dict K (ℕ × V)) → All OfEntry d → All OfEntry (evict_expired now d)
  unfolding evict_expired
  evict_expired-All now d h = All-keep OfEntry _ d h

  lookup-OfEntry :
      (k : K) (x : ℕ × V) (d : Dict K (ℕ × V)) → All OfEntry d → lookup k d ≡ some x → P k x.1
  unfolding lookup
  lookup-OfEntry k x [] h q = absurd (cc)
  lookup-OfEntry k x ((i, y) ∷ d) (p, h) q = elim (Bool-cases (i == k)) [
    | inl same ↦
        let at_key = subst (λ j. P j y.1) ((e.eqb_iff i k).0 same) p in
        subst (λ z. P k z.1) (some_inj y x (rw same at q)) at_key
    | inr other ↦ lookup-OfEntry k x d h (rw other at q)
  ]

  -- What `probe` leaves and answers, by what it finds.
  abbrev pub Found : Cache K V → K → Option V × Cache K V → Type 0
  Found c key r =
      Everywhere r.1
      × (r.1.clone_value ≡ c.clone_value)
      × ((w : V) → r.0 ≡ some w → (v : V) × P key v × (w ≡ clone c v))

  probe-Found : (c : Cache K V) (key : K) (now : ℕ) → Everywhere c → Found c key (probe c key now)
  unfolding probe
  probe-Found c key now h =
      let rest = evict_expired-All now c.entries h in
      elim (Option-cases (lookup key (evict_expired now c.entries))) [
        | inl missing ↦ rw (missing, probe) (rest, refl, λ w q. absurd (cc))
        | inr (x, found) ↦
            let p = lookup-OfEntry key x _ rest found in
            elim (Bool-cases (leb x.0 now)) [
              | inl old ↦ rw (found, old, probe) (remove-All key _ rest, refl, λ w q. absurd (cc))
              | inr fresh ↦
                  rw (found, fresh, probe)
                    (move_to_end-All key x _ p rest, refl, λ w q. (x.1, p, some_inj w _ (sym q)))
            ]
      ]

  pub get-Found : (c : Cache K V) (key : K) (now : ℕ) → Everywhere c → Found c key (get c key now)
  unfolding get
  get-Found c key now h = elim (Bool-cases (not c.enabled || nat_beq c.ttl_seconds 0)) [
    | inl off ↦ rw off (h, refl, λ w q. absurd (cc))
    | inr on ↦ rw on (probe-Found c key now h)
  ]

  pub set-Everywhere :
      (c : Cache K V) (key : K) (value : V) (ttl : Option ℕ) (now : ℕ)
      → P key (clone c value)
      → Everywhere c
      → Everywhere (set c key value ttl now)
  unfolding set
  set-Everywhere c key value ttl now p h =
      elim (Bool-cases (not c.enabled || nat_beq (ttl_or ttl c) 0)) [
        | inl off ↦ rw off h
        | inr on ↦
            let fresh = evict_expired-All now c.entries h in
            rw on (
              evict_lru-All c.max_entries _
                (move_to_end-All key _ _ p (insert-All key _ _ p fresh)))
      ]

module _ {K V : Type 0} ⦃e : BoolEq K⦄ where
  pub set-clone_value :
      (c : Cache K V) (key : K) (value : V) (ttl : Option ℕ) (now : ℕ)
      → (set c key value ttl now).clone_value ≡ c.clone_value
  unfolding set
  set-clone_value c key value ttl now =
      elim (Bool-cases (not c.enabled || nat_beq (ttl_or ttl c) 0)) [
        | inl off ↦ rw off refl
        | inr on ↦ rw on refl
      ]

  pub clone_same : (c d : Cache K V) (v : V) → d.clone_value ≡ c.clone_value → clone d v ≡ clone c v
  clone_same c d v q = elim (Option-cases c.clone_value) [
    | inl none_given ↦ rw (q ∙ none_given, none_given) refl
    | inr (f, given) ↦ rw (q ∙ given, given) refl
  ]
