-- ===== src/Cache/Reads.antt =====
-- What the cache answers: an entry that has not expired, and nothing else.
use vendor_cat.Base.{
  ℕ, ◌≤◌, ◌<◌, true, not, ◌||◌, Option, none, some, ◌≡◌, refl, length, length-keep-le, leb, ltb,
  nat_beq, arith, BoolEq, inl, inr, Bool-cases, if◌then◌else◌,
}
use vendor_cat.Base.Dict.{
  lookup, remove, unique_keys, lookup-keep, contains-keys, unique_keys-remove, unique_keys-keep,
  length-remove-le,
}
use vendor_cat.Cache.{Cache, clone, evict_expired, move_to_end, probe, get}
use vendor_cat.Cache.Entries.{unique_keys-move_to_end, length-move_to_end}

module _ {ℓ} {K V : Type ℓ} ⦃e : BoolEq K⦄ where
  -- At most `max_entries` entries, one for each key.
  pub record IsValid (c : Cache K V) : Type 0 where
    pub bounded : length c.entries ≤ c.max_entries
    pub unique : unique_keys c.entries ≡ true

  -- The value under a key, if there is one that has not expired.
  abbrev pub live : Cache K V → K → ℕ → Option V
  live c key now = elim (lookup key c.entries) [
    | none ↦ none
    | some entry ↦ if ltb now entry.0 then some entry.1 else none
  ]

  abbrev pub map_clone : Cache K V → Option V → Option V
  map_clone c none = none
  map_clone c (some v) = some (clone c v)

  lookup-evict_expired :
      (c : Cache K V) (key : K) (now : ℕ)
      → unique_keys c.entries ≡ true
      → lookup key (evict_expired now c.entries) ≡ elim (lookup key c.entries) [
        | none ↦ none
        | some x ↦ if not (leb x.0 now) then some x else none
      ]
  unfolding evict_expired
  lookup-evict_expired c key now u = lookup-keep (λ (x : ℕ × V). not (leb x.0 now)) key c.entries u

  pub probe-eq-live :
      (c : Cache K V) (key : K) (now : ℕ)
      → IsValid c
      → (probe c key now).0 ≡ map_clone c (live c key now)
  unfolding probe
  probe-eq-live c key now v = ground (arith, lookup-evict_expired c key now v.unique)

  -- A valid, enabled cache with a positive time to live answers exactly the unexpired value of the key,
  -- as cloned.
  pub get-eq-live :
      (c : Cache K V) (key : K) (now : ℕ)
      → IsValid c
      → c.enabled ≡ true
      → 0 < c.ttl_seconds
      → (get c key now).0 ≡ map_clone c (live c key now)
  unfolding get
  get-eq-live c key now v on pos = ground (arith, probe-eq-live c key now v)

  evict_expired-IsValid :
      (c : Cache K V) (now : ℕ)
      → IsValid c
      → IsValid (record c { entries = evict_expired now c.entries })
  unfolding evict_expired
  evict_expired-IsValid c now v = record {
    bounded =
        omega (
          arith,
          length-keep-le {ℓ} (λ (x : K × (ℕ × V)). not (leb x.1.0 now)) c.entries,
          v.bounded,
        );
    unique = unique_keys-keep (λ (x : K × (ℕ × V)). not (leb x.1.0 now)) c.entries v.unique;
  }

  remove-IsValid :
      (c : Cache K V) (k : K) → IsValid c → IsValid (record c { entries = remove k c.entries })
  remove-IsValid c k v = record {
    bounded = omega (arith, length-remove-le k c.entries, v.bounded);
    unique = unique_keys-remove k c.entries v.unique;
  }

  move_to_end-IsValid :
      (c : Cache K V) (k : K) (x : ℕ × V)
      → lookup k c.entries ≡ some x
      → IsValid c
      → IsValid (record c { entries = move_to_end k x c.entries })
  move_to_end-IsValid c k x found v = record {
    bounded = omega (
      arith,
      length-move_to_end k x c.entries (rw (contains-keys k c.entries, found)),
      v.bounded,
    );
    unique = unique_keys-move_to_end k x c.entries v.unique;
  }

  -- What `probe` leaves, by what it finds among the entries that have not expired.
  abbrev after_probe : Cache K V → K → ℕ → Option (ℕ × V) → Cache K V
  after_probe c key now none = record c { entries = evict_expired now c.entries }
  after_probe c key now (some x) =
      if leb x.0 now
      then record c { entries = remove key (evict_expired now c.entries) }
      else record c { entries = move_to_end key x (evict_expired now c.entries) }

  probe-next :
      (c : Cache K V) (key : K) (now : ℕ)
      → (probe c key now).1 ≡ after_probe c key now (lookup key (evict_expired now c.entries))
  unfolding probe
  probe-next c key now = ground arith

  after_probe-IsValid :
      (c : Cache K V) (key : K) (now : ℕ) (found : Option (ℕ × V))
      → lookup key (evict_expired now c.entries) ≡ found
      → IsValid c
      → IsValid (after_probe c key now found)
  after_probe-IsValid c key now none h v = evict_expired-IsValid c now v
  after_probe-IsValid c key now (some x) h v =
      let d = record c { entries = evict_expired now c.entries } in
      elim (Bool-cases (leb x.0 now)) [
        | inl old ↦ rw old (remove-IsValid d key (evict_expired-IsValid c now v))
        | inr fresh ↦ rw fresh (move_to_end-IsValid d key x h (evict_expired-IsValid c now v))
      ]

  pub probe-IsValid : (c : Cache K V) (key : K) (now : ℕ) → IsValid c → IsValid (probe c key now).1
  probe-IsValid c key now v = rw (probe-next c key now) (after_probe-IsValid c key now _ refl v)

  pub get-IsValid : (c : Cache K V) (key : K) (now : ℕ) → IsValid c → IsValid (get c key now).1
  unfolding get
  get-IsValid c key now v = elim (Bool-cases (not c.enabled || nat_beq c.ttl_seconds 0)) [
    | inl off ↦ rw off v
    | inr on ↦ rw on (probe-IsValid c key now v)
  ]

  probe-settings :
      (c : Cache K V) (key : K) (now : ℕ)
      → ((probe c key now).1.max_entries ≡ c.max_entries)
        × ((probe c key now).1.enabled ≡ c.enabled)
        × ((probe c key now).1.ttl_seconds ≡ c.ttl_seconds)
        × ((probe c key now).1.ticks ≡ c.ticks)
        × ((probe c key now).1.clone_value ≡ c.clone_value)
  unfolding probe
  probe-settings c key now = ground arith
