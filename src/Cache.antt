-- ===== src/Cache.antt =====
-- infrastructure/cache.py: the cache with a time to live and eviction of the least recently used
-- entry. The entries stand in order of use, the least recent first; times are ticks of the monotonic
-- clock, `ticks` of them in a second. The lock makes each call one step, and `get_or_load` two, with
-- its loader between them.
pub mod Entries
pub mod Reads
pub mod Writes
pub mod Contents
pub mod Tests
use vendor_cat.Base.{
  ℕ, zero, suc, ◌+◌, ◌*◌, Bool, true, false, not, ◌||◌, Option, none, some, List, [], ◌∷◌, ◌++◌,
  keep, length, leb, ltb, max, nat_beq, BoolEq, if◌then◌else◌,
}
use vendor_cat.Base.Dict.{Dict, lookup, insert, remove}

pub record Cache {ℓ} (K V : Type ℓ) : Type ℓ where
  pub enabled : Bool
  pub ttl_seconds : ℕ
  pub max_entries : ℕ
  pub ticks : ℕ
  pub clone_value : Option (V → V)
  pub entries : Dict K (ℕ × V)

module _ {ℓ} {K V : Type ℓ} ⦃e : BoolEq K⦄ where
  -- `__init__`
  unfoldable pub new : Bool → ℕ → ℕ → ℕ → Option (V → V) → Cache K V
  new enabled ttl_seconds max_entries ticks clone_value = record {
    enabled = enabled;
    ttl_seconds = ttl_seconds;
    max_entries = max 1 max_entries;
    ticks = ticks;
    clone_value = clone_value;
    entries = [];
  }

  unfoldable pub clear : Cache K V → Cache K V
  clear c = record c { entries = [] }

  abbrev pub clone : Cache K V → V → V
  clone c v = elim c.clone_value [ none ↦ v | some f ↦ f v ]

  -- `_evict_expired`
  unfoldable pub evict_expired : ℕ → Dict K (ℕ × V) → Dict K (ℕ × V)
  unfolding keep
  evict_expired now entries = keep (λ x. not (leb x.1.0 now)) entries

  -- `_evict_lru`: popitem(last=False) while there are too many
  unfoldable pub evict_lru : ℕ → Dict K (ℕ × V) → Dict K (ℕ × V)
  evict_lru most [] = []
  evict_lru most (x ∷ entries) =
      let rest = evict_lru most entries in
      if ltb most (suc (length entries)) then rest else x ∷ entries

  -- `move_to_end(key, last=True)` of an entry that is there
  unfoldable pub move_to_end : K → ℕ × V → Dict K (ℕ × V) → Dict K (ℕ × V)
  unfolding remove
  move_to_end key entry entries = remove key entries ++ (key, entry) ∷ []

  -- What `get` and `get_or_load` do under the lock: a value, if it has not expired.
  unfoldable pub probe : Cache K V → K → ℕ → Option V × Cache K V
  unfolding evict_expired move_to_end lookup
  probe c key now =
      let entries = evict_expired now c.entries in
      elim (lookup key entries) [
        | none ↦ (none, record c { entries = entries })
        | some (expires_at, value) ↦
            if leb expires_at now then (none, record c { entries = remove key entries }) else (
              some (clone c value),
              record c { entries = move_to_end key (expires_at, value) entries },
            )
      ]

  unfoldable pub get : Cache K V → K → ℕ → Option V × Cache K V
  unfolding probe
  get c key now = if not c.enabled || nat_beq c.ttl_seconds 0 then (none, c) else probe c key now

  abbrev pub ttl_or : Option ℕ → Cache K V → ℕ
  ttl_or none c = c.ttl_seconds
  ttl_or (some ttl) c = ttl

  unfoldable pub set : Cache K V → K → V → Option ℕ → ℕ → Cache K V
  unfolding evict_expired insert move_to_end evict_lru
  set c key value ttl_seconds now =
      let ttl = ttl_or ttl_seconds c in
      let entry : ℕ × V = (now + ttl * c.ticks, clone c value) in
      if not c.enabled || nat_beq ttl 0 then c else record c {
        entries =
            evict_lru c.max_entries
              (move_to_end key entry (insert key entry (evict_expired now c.entries)));
      }

  -- `loaded` is what the loader returns, and `stored_at` the time of the write that follows it.
  unfoldable pub get_or_load : Cache K V → K → V → Option ℕ → ℕ → ℕ → V × Cache K V
  unfolding probe set
  get_or_load c key loaded ttl_seconds now stored_at =
      let ttl = ttl_or ttl_seconds c in
      let (found, c') = probe c key now in
      if not c.enabled || nat_beq ttl 0 then (loaded, c) else elim found [
        | some value ↦ (value, c')
        | none ↦ (loaded, set c' key loaded (some ttl) stored_at)
      ]
