-- ===== src/Limiter/History.antt =====
-- The limiter against the history of all accepted requests: while the keys fit, its decision on a
-- request is that of counting the accepted requests of the window.
use vendor_cat.Base.{
  ℕ, ◌+◌, ◌≤◌, String, Bool, true, false, not, List, [], ◌∷◌, ◌++◌, ◌≡◌, refl, ap, All, All-append,
  keep, length, length-keep-le, leb, le→leb, arith, inl, inr, Bool-cases, if◌then◌else◌, ◌==◌,
  string_eq, eq_iff, ◌∙◌,
}
use vendor_cat.Base.Dict.{Dict, insert, lookup-insert, length-insert_value}
use vendor_cat.Limiter.{
  Limiter, window, is_fresh, drop_old, limiter_key, samples_of, trim, store, allow,
}
use vendor_cat.Limiter.Samples.{
  IsSorted, drop_old-eq-keep, drop_old-IsSorted, drop_old-All, keep-keep_later, IsSorted-concat,
}

-- The times of the accepted requests of each key, oldest first.
abbrev pub History : Type 0
History = String → List ℕ

abbrev pub accept : String → ℕ → History → History
accept k now h j = if k == j then h j ++ now ∷ [] else h j

-- A request is let through when fewer than the maximum were accepted in the window before it.
abbrev pub spec_allow : ℕ → ℕ → String → ℕ → History → Bool
spec_allow most width k now h = not (leb most (length (keep (is_fresh width now) (h k))))

abbrev pub spec_next : ℕ → ℕ → String → ℕ → History → History
spec_next most width k now h = if spec_allow most width k now h then accept k now h else h

-- The state of the limiter stands for a history up to the time `t`.
pub record Tracks (l : Limiter) (h : History) (t : ℕ) : Type 0 where
  pub sorted : (k : String) → IsSorted (samples_of l.events k)
  pub past : (k : String) → All (λ s. s ≤ t) (samples_of l.events k)
  pub agree :
      (k : String) (later : ℕ)
      → t ≤ later
      → keep (is_fresh (window l) later) (samples_of l.events k)
        ≡ keep (is_fresh (window l) later) (h k)

-- There is room for the key of a request.
abbrev pub Fits : String → Limiter → Type 0
Fits key l = length (insert (limiter_key key) [] l.events) ≤ l.max_keys

All-le_trans :
    (a b : ℕ) (samples : List ℕ) → a ≤ b → All (λ s. s ≤ a) samples → All (λ s. s ≤ b) samples
All-le_trans a b [] h k = tt
All-le_trans a b (s ∷ samples) h (p, k) = (omega arith, All-le_trans a b samples h k)

store-eq :
    (key : String) (now : ℕ) (samples : List ℕ) (l : Limiter)
    → Fits key l
    → store (limiter_key key) now samples l ≡ record l {
      events = insert (limiter_key key) samples l.events;
      last_seen = insert (limiter_key key) now l.last_seen;
    }
unfolding store trim
store-eq key now samples l fits = rw (
    le→leb (length (insert (limiter_key key) samples l.events)) l.max_keys
      (omega (arith, length-insert_value (limiter_key key) samples [] l.events)))

samples_of-insert :
    (k j : String) (samples : List ℕ) (events : Dict String (List ℕ))
    → samples_of (insert k samples events) j ≡ (if k == j then samples else samples_of events j)
samples_of-insert k j samples events = ground (arith, lookup-insert k j samples events)

keep-append : (p : ℕ → Bool) (xs ys : List ℕ) → keep p (xs ++ ys) ≡ keep p xs ++ keep p ys
unfolding keep
keep-append p [] ys = refl
keep-append p (x ∷ xs) ys = ground (arith, keep-append p xs ys)

-- A pruned deque, with or without the new sample, still stands for the history of its key.
module _ (l : Limiter) (h : History) (t now : ℕ) (tracks : Tracks l h t) (later : t ≤ now) where
  pub pruned : String → List ℕ
  pruned k = drop_old (window l) now (samples_of l.events k)

  pub pruned-eq-keep : (k : String) → pruned k ≡ keep (is_fresh (window l) now) (h k)
  unfolding pruned
  pruned-eq-keep k =
      drop_old-eq-keep (window l) now (samples_of l.events k) (tracks.sorted k)
      ∙ tracks.agree k now later

  pub Tracks-store :
      (key : String) (samples : List ℕ) (h' : History)
      → IsSorted samples
      → All (λ s. s ≤ now) samples
      → ((u : ℕ)
          → now ≤ u
          → keep (is_fresh (window l) u) samples ≡ keep (is_fresh (window l) u) (h' key))
      → ((j : String) → (key == j) ≡ false → h' j ≡ h j)
      → Tracks
          (record l {
            events = insert key samples l.events;
            last_seen = insert key now l.last_seen;
          })
          h'
          now
  Tracks-store key samples h' s p a other = record {
    sorted = λ k. rw samples_of-insert (elim (Bool-cases (key == k)) [
      | inl same ↦ rw same s
      | inr differ ↦ rw differ (tracks.sorted k)
    ]);
    past = λ k. rw samples_of-insert (elim (Bool-cases (key == k)) [
      | inl same ↦ rw same p
      | inr differ ↦ rw differ (All-le_trans t now _ later (tracks.past k))
    ]);
    agree = λ k u le. rw samples_of-insert (elim (Bool-cases (key == k)) [
      | inl same ↦ rw (same, ← (eq_iff key k).0 same) (a u le)
      | inr differ ↦ rw (differ, other k differ) (tracks.agree k u (omega arith))
    ]);
  }

  module _ (on : l.enabled ≡ true) (key : String) (fits : Fits key l) where
    abbrev decision : Bool
    decision = spec_allow l.max_requests (window l) (limiter_key key) now h

    pub allow_lem : (allow key now l).0 ≡ decision
    unfolding allow pruned
    allow_lem = rw (on, ← pruned-eq-keep (limiter_key key)) (ground arith)

    abbrev name : String
    name = limiter_key key

    pruned-agree :
        (u : ℕ)
        → now ≤ u
        → keep (is_fresh (window l) u) (pruned name) ≡ keep (is_fresh (window l) u) (h name)
    pruned-agree u le =
        ap (keep (is_fresh (window l) u)) (pruned-eq-keep name)
        ∙ keep-keep_later (window l) now u (h name) le

    pruned-IsSorted : IsSorted (pruned name)
    unfolding pruned
    pruned-IsSorted =
        drop_old-IsSorted (window l) now (samples_of l.events name) (tracks.sorted name)

    pruned-past : All (λ s. s ≤ now) (pruned name)
    unfolding pruned
    pruned-past =
        drop_old-All (λ s. s ≤ now) (window l) now (samples_of l.events name)
          (All-le_trans t now (samples_of l.events name) later (tracks.past name))

    kept-Tracks : Tracks (store name now (pruned name) l) h now
    kept-Tracks =
        rw (store-eq key now (pruned name) l fits)
          (Tracks-store name (pruned name) h pruned-IsSorted pruned-past pruned-agree (λ j _. refl))

    added-agree :
        (u : ℕ)
        → now ≤ u
        → keep (is_fresh (window l) u) (pruned name ++ now ∷ [])
          ≡ keep (is_fresh (window l) u) (accept name now h name)
    added-agree u le = rw ((eq_iff name name).1 refl, keep-append, keep-append, pruned-agree u le)

    added-Tracks : Tracks (store name now (pruned name ++ now ∷ []) l) (accept name now h) now
    added-Tracks = rw (store-eq key now (pruned name ++ now ∷ []) l fits) (
        Tracks-store name (pruned name ++ now ∷ []) (accept name now h)
          (IsSorted-concat (pruned name) now pruned-IsSorted pruned-past)
          (All-append (λ s. s ≤ now) (pruned name) (now ∷ []) pruned-past (omega arith)) added-agree
          (λ j differ. rw differ))

    abbrev is_full : Bool
    is_full = leb l.max_requests (length (pruned name))

    allow-next : (allow key now l).2 ≡ (
        if is_full
        then store name now (pruned name) l
        else store name now (pruned name ++ now ∷ []) l)
    unfolding allow pruned
    allow-next = rw on (ground arith)

    -- The decision on a request is that of the history, and the new state stands for the new history.
    pub allow-Tracks :
        Tracks (allow key now l).2 (spec_next l.max_requests (window l) name now h) now
    allow-Tracks =
        rw (allow-next, ← pruned-eq-keep name)
          (elim (Bool-cases is_full) [
            | inl full ↦ rw full kept-Tracks
            | inr room ↦ rw room added-Tracks
          ])

    -- The settings stay as they are.
    pub allow-settings :
        ((allow key now l).2.enabled ≡ true)
        × ((allow key now l).2.max_requests ≡ l.max_requests)
        × (window (allow key now l).2 ≡ window l)
    allow-settings = rw allow-next (elim (Bool-cases is_full) [
      | inl full ↦ rw (full, store-eq key now (pruned name) l fits) (on, refl, refl)
      | inr room ↦ rw (room, store-eq key now (pruned name ++ now ∷ []) l fits) (on, refl, refl)
    ])

-- The decisions on a sequence of requests, each with its time.
unfoldable pub run : Limiter → List (String × ℕ) → List Bool
run l [] = []
run l ((key, now) ∷ requests) = (allow key now l).0 ∷ run (allow key now l).2 requests

-- The decisions that the history alone gives.
unfoldable pub spec_run : ℕ → ℕ → History → List (String × ℕ) → List Bool
spec_run most width h [] = []
spec_run most width h ((key, now) ∷ requests) =
    spec_allow most width (limiter_key key) now h
    ∷ spec_run most width (spec_next most width (limiter_key key) now h) requests

-- The times never go back, and there is room for the key of each request when it comes.
abbrev pub AllFit : Limiter → ℕ → List (String × ℕ) → Type 0
AllFit l t [] = Unit
AllFit l t ((key, now) ∷ requests) =
    (t ≤ now) × Fits key l × AllFit (allow key now l).2 now requests

-- An enabled limiter that stands for a history decides a sequence of requests, whose times never go
-- back and whose keys have room, as the history does: a request is let through exactly when fewer
-- than the maximum were accepted for its key in the window before it.
pub run-eq-spec :
    (l : Limiter) (h : History) (t : ℕ) (requests : List (String × ℕ))
    → l.enabled ≡ true
    → Tracks l h t
    → AllFit l t requests
    → run l requests ≡ spec_run l.max_requests (window l) h requests
unfolding run spec_run
run-eq-spec l h t [] on tr fit = refl
run-eq-spec l h t ((key, now) ∷ requests) on tr (le, fits, fit) =
    let (on', same_max, same_window) = allow-settings l h t now tr le on key fits in
    let ih =
      run-eq-spec (allow key now l).2 (spec_next l.max_requests (window l) (limiter_key key) now h)
        now requests on' (allow-Tracks l h t now tr le on key fits) fit in
    rw (allow_lem l h t now tr le on key fits, ih, same_max, same_window)

-- No window that ends at `t` or later holds more than the maximum of accepted requests of a key.
abbrev pub IsWithin : ℕ → ℕ → History → ℕ → Type 0
IsWithin most width h t =
    (k : String) (u : ℕ) → t ≤ u → length (keep (is_fresh width u) (h k)) ≤ most

length-keep-append_le :
    (p : ℕ → Bool) (xs : List ℕ) (x : ℕ) → length (keep p (xs ++ x ∷ [])) ≤ length (keep p xs) + 1
unfolding keep
length-keep-append_le p [] x = ground arith
length-keep-append_le p (y ∷ xs) x = ground (arith, length-keep-append_le p xs x)

-- Deciding a request by the history keeps every window within the maximum.
pub spec_next-IsWithin :
    (most width : ℕ) (key : String) (now t : ℕ) (h : History)
    → t ≤ now
    → IsWithin most width h t
    → IsWithin most width (spec_next most width key now h) now
spec_next-IsWithin most width key now t h le within k u later =
    let before = keep-keep_later width now u (h k) later in
    let small = length-keep-le (is_fresh width u) (keep (is_fresh width now) (h k)) in
    ground (
      arith,
      within k u,
      ap (λ (xs : List ℕ). length xs) before,
      small,
      eq_iff key k,
      length-keep-append_le (is_fresh width u) (h k) now,
    )

-- A limiter that stands for a history within the maximum stands, after one more request, whose time
-- does not go back and whose key has room, for a history within the maximum: no window holds more
-- accepted requests of a key than the maximum.
pub allow-IsWithin :
    (l : Limiter) (h : History) (t now : ℕ) (key : String)
    → l.enabled ≡ true
    → t ≤ now
    → Fits key l
    → Tracks l h t
    → IsWithin l.max_requests (window l) h t
    → (h' : History) × Tracks (allow key now l).2 h' now
      × IsWithin (allow key now l).2.max_requests (window (allow key now l).2) h' now
allow-IsWithin l h t now key on later fits tracks within =
    let (_, same_max, same_window) = allow-settings l h t now tracks later on key fits in
    (
      spec_next l.max_requests (window l) (limiter_key key) now h,
      allow-Tracks l h t now tracks later on key fits,
      rw (same_max, same_window)
          (spec_next-IsWithin l.max_requests (window l) (limiter_key key) now t h later within),
    )
