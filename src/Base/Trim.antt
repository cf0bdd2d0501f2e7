-- ===== src/Base/Trim.antt =====
-- Stripping a text a second time changes nothing.
use Prim.Native.String.{String, [], ◌∷◌}
use mathlib.Core.Path.{◌≡◌, refl, ap, ◌∙◌}
use mathlib.Core.Logic.{inl, inr}
use mathlib.Core.Bool.{false}
use native.Mathlib.Omega.{arith}
use vendor_cat.Base.Tests.{Bool-cases}
use vendor_cat.Base.Text.{is_space, is_empty, lstrip, rstrip, strip}

-- No space at the front.
abbrev Tight : String → Type 0
Tight [] = Unit
Tight (c ∷ s) = is_space c ≡ false

lstrip-Tight : (s : String) → Tight (lstrip s)
unfolding lstrip
lstrip-Tight [] = tt
lstrip-Tight (c ∷ s) = elim (Bool-cases (is_space c)) [
  | inl blank ↦ rw blank (lstrip-Tight s)
  | inr mark ↦ rw mark mark
]

lstrip_stays : (s : String) → Tight s → lstrip s ≡ s
unfolding lstrip
lstrip_stays [] h = refl
lstrip_stays (c ∷ s) h = rw h refl

rstrip-Tight : (s : String) → Tight s → Tight (rstrip s)
unfolding rstrip
rstrip-Tight [] h = tt
rstrip-Tight (c ∷ s) h = elim (Bool-cases (is_empty (rstrip s))) [
  | inl last ↦ rw (last, h) h
  | inr more ↦ rw more h
]

rstrip_twice : (s : String) → rstrip (rstrip s) ≡ rstrip s
unfolding rstrip is_empty
rstrip_twice [] = refl
rstrip_twice (c ∷ s) = ground (arith, rstrip_twice s)

pub strip_twice : (s : String) → strip (strip s) ≡ strip s
unfolding strip
strip_twice s =
    let front = lstrip_stays (rstrip (lstrip s)) (rstrip-Tight (lstrip s) (lstrip-Tight s)) in
    ap rstrip front ∙ rstrip_twice (lstrip s)
