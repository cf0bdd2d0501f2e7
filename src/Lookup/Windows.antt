-- ===== src/Lookup/Windows.antt =====
-- Validity windows of lookup options (common/core/lookup_schema.py). A moment is the number of its
-- ticks after the first representable day, in UTC, with `ticks` of them in a day; its date is the
-- number of the day.
use vendor_cat.Base.{
  ℕ, ◌/◌, ◌≤◌, ◌<◌, Bool, true, ◌&&◌, Option, none, some, ◌≡◌, ◌↔◌, ◌⊎◌, arith, leb, ltb, tests,
  max, if◌then◌else◌, &&-true,
}

pub data Status : Type 0 where
  historical : Status
  future : Status
  active : Status

-- `none` where an end before the start raises.
unfoldable pub normalize_lookup_window : ℕ → ℕ → Option (ℕ × ℕ)
normalize_lookup_window start end = if ltb end start then none else some (start, end)

module _ (ticks : ℕ) where
  abbrev pub date : ℕ → ℕ
  date moment = moment / ticks

  unfoldable pub lookup_status_for_window : ℕ → ℕ → ℕ → Status
  lookup_status_for_window start end as_of =
      if ltb (date end) (date as_of)
      then historical
      else if ltb (date as_of) (date start)
      then future
      else active

  unfoldable pub lookup_windows_overlap : ℕ → ℕ → ℕ → ℕ → Bool
  lookup_windows_overlap start_a end_a start_b end_b =
      leb (date start_a) (date end_b) && leb (date start_b) (date end_a)

  -- A day that lies in a window.
  abbrev pub Covers : ℕ → ℕ → ℕ → Type 0
  Covers start end day = (date start ≤ day) × (day ≤ date end)

  -- Two windows that do not end on a day before their start overlap exactly when some day lies in
  -- both.
  pub overlap_iff :
      (start_a end_a start_b end_b : ℕ)
      → date start_a ≤ date end_a
      → date start_b ≤ date end_b
      → (lookup_windows_overlap start_a end_a start_b end_b ≡ true)
        ↔ ((day : ℕ) × Covers start_a end_a day × Covers start_b end_b day)
  unfolding lookup_windows_overlap
  overlap_iff start_a end_a start_b end_b h k = (
    λ o.
        let (p, q) =
          &&-true (leb (date start_a) (date end_b)) (leb (date start_b) (date end_a)) o in
        (max (date start_a) (date start_b), omega tests, omega tests),
    λ (day, a, b). ground (arith, a, b),
  )

  -- A window is active at a moment exactly when the day of the moment lies in it; else it is over or
  -- has not begun.
  pub status_cases :
      (start end as_of : ℕ)
      → date start ≤ date end
      → ((lookup_status_for_window start end as_of ≡ active) × Covers start end (date as_of))
        ⊎ ((lookup_status_for_window start end as_of ≡ historical) × (date end < date as_of))
        ⊎ ((lookup_status_for_window start end as_of ≡ future) × (date as_of < date start))
  unfolding lookup_status_for_window
  status_cases start end as_of h = ground arith
