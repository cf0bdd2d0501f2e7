-- ===== src/Cache/Writes.antt =====
-- What a write to the cache leaves: the value under its key, no value that was not there, and at most
-- `max_entries` entries.
use vendor_cat.Base.{
  ℕ, ◌+◌, ◌*◌, ◌≤◌, ◌<◌, true, false, not, ◌||◌, Option, none, some, ◌≡◌, refl, ◌∙◌, leb, ltb,
  nat_beq, arith, BoolEq, ◌==◌, inl, inr, Bool-cases, Option-cases, if◌then◌else◌,
}
use vendor_cat.Base.Dict.{
  Dict, lookup, insert, remove, unique_keys, lookup-keep, lookup-insert, contains-remove,
  unique_keys-keep, unique_keys-insert,
}
use vendor_cat.Cache.{
  Cache, clone, evict_expired, evict_lru, move_to_end, probe, get, set, get_or_load, ttl_or,
}
use vendor_cat.Cache.Entries.{
  unique_keys-move_to_end, lookup-move_to_end, length-evict_lru-le, unique_keys-evict_lru,
  lookup-evict_lru, lookup-evict_lru_last,
}
use vendor_cat.Cache.Reads.{IsValid, live, get-eq-live, probe-IsValid, probe-eq-live}

module _ {ℓ} {K V : Type ℓ} ⦃e : BoolEq K⦄ where
  -- The entries that `set` writes.
  written : Cache K V → K → V → ℕ → ℕ → Dict K (ℕ × V)
  written c key value ttl now =
      let entry : ℕ × V = (now + ttl * c.ticks, clone c value) in
      move_to_end key entry (insert key entry (evict_expired now c.entries))

  set-eq :
      (c : Cache K V) (key : K) (value : V) (ttl : Option ℕ) (now : ℕ)
      → set c key value ttl now ≡ (
          if not c.enabled || nat_beq (ttl_or ttl c) 0 then c else record c {
            entries = evict_lru c.max_entries (written c key value (ttl_or ttl c) now);
          })
  unfolding set written
  set-eq c key value ttl now = refl

  unique_keys-written :
      (c : Cache K V) (key : K) (value : V) (ttl now : ℕ)
      → unique_keys c.entries ≡ true
      → unique_keys (written c key value ttl now) ≡ true
  unfolding written evict_expired
  unique_keys-written c key value ttl now u =
      unique_keys-move_to_end key _ _ (unique_keys-insert key _ _ (unique_keys-keep _ c.entries u))

  -- After a write to a valid cache there are at most `max_entries` entries, one for each key.
  pub set-IsValid :
      (c : Cache K V) (key : K) (value : V) (ttl : Option ℕ) (now : ℕ)
      → IsValid c
      → IsValid (set c key value ttl now)
  set-IsValid c key value ttl now v =
      rw set-eq (elim (Bool-cases (not c.enabled || nat_beq (ttl_or ttl c) 0)) [
        | inl off ↦ rw off v
        | inr on ↦ rw on (record {
          bounded = length-evict_lru-le c.max_entries (written c key value (ttl_or ttl c) now);
          unique =
              unique_keys-evict_lru c.max_entries (written c key value (ttl_or ttl c) now)
                (unique_keys-written c key value (ttl_or ttl c) now v.unique);
        })
      ])

  -- The key that was written is found until its time to live has passed, and no longer.
  pub live-set_self :
      (c : Cache K V) (key : K) (value : V) (ttl : Option ℕ) (now later : ℕ)
      → c.enabled ≡ true
      → 0 < ttl_or ttl c
      → 1 ≤ c.max_entries
      → live (set c key value ttl now) key later
        ≡ (if ltb later (now + ttl_or ttl c * c.ticks) then some (clone c value) else none)
  unfolding written move_to_end
  live-set_self c key value ttl now later on pos room =
      let entry : ℕ × V = (now + ttl_or ttl c * c.ticks, clone c value) in
      let before = insert key entry (evict_expired now c.entries) in
      let last =
        lookup-evict_lru_last c.max_entries key entry (remove key before) room
          (ground (arith, contains-remove key key before, e.eqb_iff key key)) in
      ground (arith, set-eq c key value ttl now, last)

  set-settings :
      (c : Cache K V) (key : K) (value : V) (ttl : Option ℕ) (now : ℕ)
      → ((set c key value ttl now).enabled ≡ c.enabled)
        × ((set c key value ttl now).ttl_seconds ≡ c.ttl_seconds)
        × ((set c key value ttl now).clone_value ≡ c.clone_value)
  set-settings c key value ttl now = ground (arith, set-eq c key value ttl now)

  -- In a valid, enabled cache with room for an entry, where the default time to live and that of the
  -- write are positive, reading a key after it was written gives the value, cloned on the way in and on
  -- the way out, until its time to live has passed, and nothing from then on.
  pub get-set_self :
      (c : Cache K V) (key : K) (value : V) (ttl : Option ℕ) (now later : ℕ)
      → IsValid c
      → c.enabled ≡ true
      → 0 < c.ttl_seconds
      → 0 < ttl_or ttl c
      → 1 ≤ c.max_entries
      → (get (set c key value ttl now) key later).0 ≡ (
          if ltb later (now + ttl_or ttl c * c.ticks) then some (clone c (clone c value)) else none)
  get-set_self c key value ttl now later v on default pos room =
      let v' = set-IsValid c key value ttl now v in
      let (same_on, same_ttl, same_clone) = set-settings c key value ttl now in
      get-eq-live (set c key value ttl now) key later v' (same_on ∙ on) (omega (arith, same_ttl))
      ∙ rw (live-set_self c key value ttl now later on pos room, same_clone) (ground arith)

  lookup-written_other :
      (c : Cache K V) (key other : K) (value : V) (ttl now : ℕ) (x : ℕ × V)
      → unique_keys c.entries ≡ true
      → (key == other) ≡ false
      → lookup other (written c key value ttl now) ≡ some x
      → lookup other c.entries ≡ some x
  unfolding written evict_expired
  lookup-written_other c key other value ttl now x u differ h =
      let entry : ℕ × V = (now + ttl * c.ticks, clone c value) in
      let fresh = evict_expired now c.entries in
      ground (
        arith,
        lookup-move_to_end key other entry (insert key entry fresh),
        lookup-insert key other entry fresh,
        lookup-keep (λ (y : ℕ × V). not (leb y.0 now)) other c.entries u,
      )

  lookup-set_other :
      (c : Cache K V) (key other : K) (value : V) (ttl : Option ℕ) (now : ℕ) (x : ℕ × V)
      → unique_keys c.entries ≡ true
      → (key == other) ≡ false
      → lookup other (set c key value ttl now).entries ≡ some x
      → lookup other c.entries ≡ some x
  lookup-set_other c key other value ttl now x u differ h =
      let after = written c key value (ttl_or ttl c) now in
      elim (Bool-cases (not c.enabled || nat_beq (ttl_or ttl c) 0)) [
        | inl off ↦ rw (set-eq c key value ttl now, off) at h
        | inr on ↦ lookup-written_other c key other value (ttl_or ttl c) now x u differ (
            lookup-evict_lru c.max_entries other x after
              (unique_keys-written c key value (ttl_or ttl c) now u)
              (rw (set-eq c key value ttl now, on) at h))
      ]

  -- Where no key occurs twice, a write to one key shows under another key only what was there.
  pub live-set_other :
      (c : Cache K V) (key other : K) (value w : V) (ttl : Option ℕ) (now later : ℕ)
      → unique_keys c.entries ≡ true
      → (key == other) ≡ false
      → live (set c key value ttl now) other later ≡ some w
      → live c other later ≡ some w
  live-set_other c key other value w ttl now later u differ h =
      elim (Option-cases (lookup other (set c key value ttl now).entries)) [
        | inl missing ↦ ground arith
        | inr (x, found) ↦
            ground (arith, lookup-set_other c key other value ttl now x u differ found)
      ]

  -- With a valid, enabled cache and a positive time to live, `get_or_load` answers the unexpired value
  -- of the key, cloned, or else what the loader returned.
  pub get_or_load-eq :
      (c : Cache K V) (key : K) (loaded : V) (ttl : Option ℕ) (now stored_at : ℕ)
      → IsValid c
      → c.enabled ≡ true
      → 0 < ttl_or ttl c
      → (get_or_load c key loaded ttl now stored_at).0
        ≡ elim (live c key now) [ none ↦ loaded | some v ↦ clone c v ]
  unfolding get_or_load
  get_or_load-eq c key loaded ttl now stored_at v on pos = ground (arith, probe-eq-live c key now v)

  -- `get_or_load` keeps a valid cache valid, whether it finds the key or stores what was loaded.
  pub get_or_load-IsValid :
      (c : Cache K V) (key : K) (loaded : V) (ttl : Option ℕ) (now stored_at : ℕ)
      → IsValid c
      → IsValid (get_or_load c key loaded ttl now stored_at).1
  unfolding get_or_load
  get_or_load-IsValid c key loaded ttl now stored_at v =
      let p = probe-IsValid c key now v in
      let s = set-IsValid (probe c key now).1 key loaded (some (ttl_or ttl c)) stored_at p in
      elim (Bool-cases (not c.enabled || nat_beq (ttl_or ttl c) 0)) [
        | inl off ↦ rw off v
        | inr on ↦ elim (Option-cases (probe c key now).0) [
          | inl missed ↦ rw (on, missed) s
          | inr (w, hit) ↦ rw (on, hit) p
        ]
      ]
