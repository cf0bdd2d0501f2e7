-- ===== src/Limiter/Capacity.antt =====
-- The number of keys that the limiter keeps.
use vendor_cat.Base.{
  ℕ, zero, suc, ◌≤◌, String, Bool, true, false, not, ◌&&◌, List, [], ◌∷◌, ◌++◌, ◌≡◌, refl, ap, keep,
  contains, length, leb, ltb, leb→le, arith, inl, inr, Bool-cases, string_eq, eq_iff,
}
use vendor_cat.Base.Dict.{
  Dict, keys, insert, remove, unique_keys, contains-keys, contains-keys-keep, contains-insert,
  contains-remove, unique_keys-insert, unique_keys-remove, unique_keys-keep, length-remove-lt,
}
use vendor_cat.Limiter.{
  Limiter, window, drop_old, limiter_key, samples_of, oldest, evict, is_nonempty, prune_all,
  prune_events, stale_keys, remove_all, trim_over, trim, store, allow, new,
}

-- Every key with samples has a time at which it was seen last.
abbrev Covers : Dict String ℕ → Dict String (List ℕ) → Type 0
Covers seen events = (k : String) → contains (keys events) k ≡ true → contains (keys seen) k ≡ true

pub record IsCovered (l : Limiter) : Type 0 where
  pub unique : unique_keys l.events ≡ true
  pub covers : Covers l.last_seen l.events

oldest-member :
    (key : String) (t : ℕ) (seen : Dict String ℕ)
    → contains (key ∷ keys seen) (oldest key t seen) ≡ true
unfolding oldest contains
oldest-member key t [] = ground (arith, eq_iff key key)
oldest-member key t ((k, u) ∷ rest) = elim (Bool-cases (ltb u t)) [
  | inl earlier ↦ ground (arith, oldest-member k u rest)
  | inr other ↦ ground (arith, oldest-member key t rest)
]

Covers-remove :
    (k : String) (seen : Dict String ℕ) (events : Dict String (List ℕ))
    → Covers seen events
    → Covers (remove k seen) (remove k events)
Covers-remove k seen events h j m =
    rw contains-remove (ground (arith, h j, contains-remove k j events))

Covers-nil : (events : Dict String (List ℕ)) → Covers [] events → length events ≡ 0
Covers-nil [] c = refl
Covers-nil ((k, s) ∷ events) c = absurd (unfold contains in cc (c k (ground (arith, eq_iff k k))))

-- The loop ends with at most `max_keys` keys, or with none left to evict.
length-evict-le :
    (fuel most : ℕ) (events : Dict String (List ℕ)) (seen : Dict String ℕ)
    → length seen ≤ fuel
    → Covers seen events
    → length (evict fuel most events seen).0 ≤ most
unfolding evict
length-evict-le zero most events [] h c = omega (arith, Covers-nil events c)
length-evict-le zero most events (x ∷ seen) h c = absurd (omega arith)
length-evict-le (suc fuel) most events [] h c = omega (arith, Covers-nil events c)
length-evict-le (suc fuel) most events ((k, t) ∷ seen) h c =
    let key = oldest k t seen in
    elim (Bool-cases (leb (length events) most)) [
      | inl fits ↦ rw fits (leb→le _ _ fits)
      | inr over ↦ rw over (
          length-evict-le fuel most (remove key events) (remove key ((k, t) ∷ seen))
            (omega (arith, length-remove-lt key ((k, t) ∷ seen) (oldest-member k t seen)))
            (Covers-remove key ((k, t) ∷ seen) events c))
    ]

keys-prune_all :
    (width now : ℕ) (events : Dict String (List ℕ))
    → keys (prune_all width now events) ≡ keys events
unfolding prune_all
keys-prune_all width now [] = refl
keys-prune_all width now ((k, s) ∷ events) = ap (◌∷◌ k) (keys-prune_all width now events)

unique_keys-prune_all :
    (width now : ℕ) (events : Dict String (List ℕ))
    → unique_keys events ≡ true
    → unique_keys (prune_all width now events) ≡ true
unfolding unique_keys prune_all
unique_keys-prune_all width now [] u = refl
unique_keys-prune_all width now ((k, s) ∷ events) u = ground (
  arith,
  ap (λ (ks : List String). contains ks k) (keys-prune_all width now events),
  unique_keys-prune_all width now events,
)

contains-remove_all :
    (ks : List String) (seen : Dict String ℕ) (k : String)
    → contains (keys (remove_all ks seen)) k ≡ (not (contains ks k) && contains (keys seen) k)
unfolding remove_all contains
contains-remove_all [] seen k = refl
contains-remove_all (j ∷ ks) seen k =
    ground (arith, contains-remove_all ks (remove j seen) k, contains-remove j k seen)

-- A key whose deque is not empty after pruning is not stale.
fresh-not_stale :
    (k : String) (events : Dict String (List ℕ))
    → unique_keys events ≡ true
    → contains (keys (keep (λ e. is_nonempty e.1) events)) k ≡ true
    → contains (keys (keep (λ e. not (is_nonempty e.1)) events)) k ≡ false
fresh-not_stale k events u =
    rw
      (
        contains-keys-keep is_nonempty k events u,
        contains-keys-keep (λ s. not (is_nonempty s)) k events u,
      )
      (λ h. ground arith)

contains-keep_le :
    (k : String) (events : Dict String (List ℕ))
    → unique_keys events ≡ true
    → contains (keys (keep (λ e. is_nonempty e.1) events)) k ≡ true
    → contains (keys events) k ≡ true
contains-keep_le k events u h =
    rw contains-keys (let e = contains-keys-keep is_nonempty k events u in ground (arith, h, e))

Covers-prune :
    (width now : ℕ) (events : Dict String (List ℕ)) (seen : Dict String ℕ)
    → unique_keys events ≡ true
    → Covers seen events
    → Covers (remove_all (stale_keys width now events) seen) (prune_events width now events)
unfolding prune_events stale_keys
Covers-prune width now events seen u c k h =
    let u' = unique_keys-prune_all width now events u in
    let there = contains-keep_le k (prune_all width now events) u' h in
    rw (contains-remove_all, fresh-not_stale k (prune_all width now events) u' h)
      (c k (rw keys-prune_all at there))

-- After a trim of a covered state at most `max_keys` keys are kept.
pub length-trim-le : (now : ℕ) (l : Limiter) → IsCovered l → length (trim now l).events ≤ l.max_keys
unfolding trim trim_over
length-trim-le now l c = elim (Bool-cases (leb (length l.events) l.max_keys)) [
  | inl fits ↦ rw fits (leb→le _ _ fits)
  | inr over ↦ rw over (
      length-evict-le (length (remove_all (stale_keys (window l) now l.events) l.last_seen))
        l.max_keys (prune_events (window l) now l.events)
        (remove_all (stale_keys (window l) now l.events) l.last_seen) (omega arith)
        (Covers-prune (window l) now l.events l.last_seen c.unique c.covers))
]

evict-IsCovered :
    (fuel most : ℕ) (events : Dict String (List ℕ)) (seen : Dict String ℕ)
    → unique_keys events ≡ true
    → Covers seen events
    → (unique_keys (evict fuel most events seen).0 ≡ true)
      × Covers (evict fuel most events seen).1 (evict fuel most events seen).0
unfolding evict
evict-IsCovered zero most events seen u c = (u, c)
evict-IsCovered (suc fuel) most events [] u c = (u, c)
evict-IsCovered (suc fuel) most events ((k, t) ∷ seen) u c =
    let key = oldest k t seen in
    elim (Bool-cases (leb (length events) most)) [
      | inl fits ↦ rw fits (u, c)
      | inr over ↦ rw over (
          evict-IsCovered fuel most (remove key events) (remove key ((k, t) ∷ seen))
            (unique_keys-remove key events u) (Covers-remove key ((k, t) ∷ seen) events c))
    ]

trim-IsCovered : (now : ℕ) (l : Limiter) → IsCovered l → IsCovered (trim now l)
unfolding trim trim_over
trim-IsCovered now l c = elim (Bool-cases (leb (length l.events) l.max_keys)) [
  | inl fits ↦ rw fits c
  | inr over ↦ rw over (
      let (u, d) =
        evict-IsCovered (length (remove_all (stale_keys (window l) now l.events) l.last_seen))
          l.max_keys (prune_events (window l) now l.events)
          (remove_all (stale_keys (window l) now l.events) l.last_seen)
          (unfold prune_events in
            unique_keys-keep _ (prune_all (window l) now l.events)
              (unique_keys-prune_all (window l) now l.events c.unique))
          (Covers-prune (window l) now l.events l.last_seen c.unique c.covers) in
      record { unique = u; covers = d })
]

abbrev written : String → ℕ → List ℕ → Limiter → Limiter
written k now samples l = record l {
  events = insert k samples l.events;
  last_seen = insert k now l.last_seen;
}

written-IsCovered :
    (k : String) (now : ℕ) (samples : List ℕ) (l : Limiter)
    → IsCovered l
    → IsCovered (written k now samples l)
written-IsCovered k now samples l c = record {
  unique = unique_keys-insert k samples l.events c.unique;
  covers = λ j h.
      rw contains-insert (ground (arith, h, contains-insert k j samples l.events, c.covers j));
}

trim-max_keys : (now : ℕ) (l : Limiter) → (trim now l).max_keys ≡ l.max_keys
unfolding trim trim_over
trim-max_keys now l = ground arith

-- What a call of `store` keeps.
store_lem :
    (k : String) (now : ℕ) (samples : List ℕ) (l : Limiter)
    → IsCovered l
    → IsCovered (store k now samples l)
      × (length (store k now samples l).events ≤ l.max_keys)
      × ((store k now samples l).max_keys ≡ l.max_keys)
unfolding store
store_lem k now samples l c =
    let w = written-IsCovered k now samples l c in
    (
      trim-IsCovered now (written k now samples l) w,
      length-trim-le now (written k now samples l) w,
      trim-max_keys now (written k now samples l),
    )

-- An enabled limiter stores a deque for the key, whatever it decides.
allow-eq-store :
    (key : String) (now : ℕ) (l : Limiter)
    → l.enabled ≡ true
    → (samples : List ℕ) × ((allow key now l).2 ≡ store (limiter_key key) now samples l)
unfolding allow
allow-eq-store key now l on =
    let samples = drop_old (window l) now (samples_of l.events (limiter_key key)) in
    elim (Bool-cases (leb l.max_requests (length samples))) [
      | inl full ↦ (samples, ground arith)
      | inr room ↦ (samples ++ now ∷ [], ground arith)
    ]

-- From a covered state of an enabled limiter, each call of `allow`, whatever it decides, leaves a
-- covered state of at most `max_keys` keys.
pub allow-IsCovered :
    (key : String) (now : ℕ) (l : Limiter)
    → l.enabled ≡ true
    → IsCovered l
    → IsCovered (allow key now l).2
      × (length (allow key now l).2.events ≤ l.max_keys)
      × ((allow key now l).2.max_keys ≡ l.max_keys)
allow-IsCovered key now l on c =
    let (samples, e) = allow-eq-store key now l on in
    rw e (store_lem (limiter_key key) now samples l c)

-- A new limiter is covered.
pub new-IsCovered :
    (enabled : Bool) (most seconds max_keys ticks : ℕ)
    → IsCovered (new enabled most seconds max_keys ticks)
unfolding new
new-IsCovered enabled most seconds max_keys ticks = record {
  unique = unfold unique_keys in refl;
  covers = λ k h. absurd (unfold contains in cc h);
}
