-- ===== src/Limiter/Samples.antt =====
-- One deque of samples: what the pruning loop leaves of a sorted one.
use vendor_cat.Base.{
  ℕ, ◌+◌, ◌≤◌, ◌<◌, List, [], ◌∷◌, ◌++◌, ◌≡◌, refl, All, All-append, keep, length, arith, inl, inr,
  Bool-cases,
}
use vendor_cat.Limiter.{is_fresh, drop_old}

-- Oldest first.
abbrev pub IsSorted : List ℕ → Type 0
IsSorted [] = Unit
IsSorted (s ∷ samples) = All (λ t. s ≤ t) samples × IsSorted samples

keep_fresh_samples :
    (width now s : ℕ) (samples : List ℕ)
    → now < s + width
    → All (λ t. s ≤ t) samples
    → keep (is_fresh width now) samples ≡ samples
unfolding keep
keep_fresh_samples width now s [] h k = refl
keep_fresh_samples width now s (t ∷ samples) h (p, k) =
    ground (arith, keep_fresh_samples width now s samples h k)

-- On a sorted deque the loop keeps exactly the samples of the window.
pub drop_old-eq-keep :
    (width now : ℕ) (samples : List ℕ)
    → IsSorted samples
    → drop_old width now samples ≡ keep (is_fresh width now) samples
unfolding drop_old keep
drop_old-eq-keep width now [] h = refl
drop_old-eq-keep width now (s ∷ samples) (p, h) =
    ground (arith, drop_old-eq-keep width now samples h, keep_fresh_samples width now s samples)

pub drop_old-IsSorted :
    (width now : ℕ) (samples : List ℕ) → IsSorted samples → IsSorted (drop_old width now samples)
unfolding drop_old
drop_old-IsSorted width now [] h = tt
drop_old-IsSorted width now (s ∷ samples) (p, h) =
    ground (arith, drop_old-IsSorted width now samples h)

pub drop_old-All {κ} :
    (P : ℕ → Type κ) (width now : ℕ) (samples : List ℕ)
    → All P samples
    → All P (drop_old width now samples)
unfolding drop_old
drop_old-All P width now [] h = tt
drop_old-All P width now (s ∷ samples) (p, h) = elim (Bool-cases (is_fresh width now s)) [
  | inl fresh ↦ rw fresh (p, h)
  | inr old ↦ rw old (drop_old-All P width now samples h)
]

pub length-drop_old-le :
    (width now : ℕ) (samples : List ℕ) → length (drop_old width now samples) ≤ length samples
unfolding drop_old
length-drop_old-le width now [] = omega arith
length-drop_old-le width now (s ∷ samples) = ground (arith, length-drop_old-le width now samples)

-- A later prune sees through an earlier one.
pub keep-keep_later :
    (width now later : ℕ) (samples : List ℕ)
    → now ≤ later
    → keep (is_fresh width later) (keep (is_fresh width now) samples)
      ≡ keep (is_fresh width later) samples
unfolding keep
keep-keep_later width now later [] h = refl
keep-keep_later width now later (s ∷ samples) h =
    ground (arith, keep-keep_later width now later samples h)

pub IsSorted-concat :
    (samples : List ℕ) (now : ℕ)
    → IsSorted samples
    → All (λ s. s ≤ now) samples
    → IsSorted (samples ++ now ∷ [])
IsSorted-concat [] now h k = (tt, tt)
IsSorted-concat (s ∷ samples) now (p, h) (q, k) =
    (All-append (λ t. s ≤ t) samples (now ∷ []) p (q, tt), IsSorted-concat samples now h k)
