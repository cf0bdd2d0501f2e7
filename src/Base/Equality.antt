-- ===== src/Base/Equality.antt =====
-- Equality of keys as an interface: a Boolean test with its meaning.
use Prim.Native.Nat.{ℕ}
use Prim.Native.String.{String}
use mathlib.Core.Path.{◌≡◌, refl, subst}
use mathlib.Core.Logic.{◌↔◌}
use mathlib.Core.Bool.{Bool, true, ◌&&◌}
use text.Mathlib.Text.{◌==◌ as text_eqb}
use text.Mathlib.TextEquality.{eq_iff as text_eqb_iff}
use vendor_cat.Base.Tests.{nat_beq, nat_beq_iff, &&-true}

pub record BoolEq {κ} (K : Type κ) : Type κ where
  pub eqb : K → K → Bool
  pub eqb_iff : (j k : K) → (eqb j k ≡ true) ↔ (j ≡ k)

module _ {κ} {K : Type κ} ⦃e : BoolEq K⦄ where
  infix 50 ◌==◌
  abbrev pub ◌==◌ : K → K → Bool
  j == k = e.eqb j k

  pub ==_refl : (k : K) → (k == k) ≡ true
  ==_refl k = (e.eqb_iff k k).1 refl

instance abbrev pub string_eq : BoolEq String
string_eq = record { eqb = text_eqb; eqb_iff = text_eqb_iff }

instance abbrev pub nat_eq : BoolEq ℕ
nat_eq = record { eqb = nat_beq; eqb_iff = nat_beq_iff }

pub pair_iff :
    {A B : Type 0} ⦃a : BoolEq A⦄ ⦃b : BoolEq B⦄ (x y : A × B)
    → ((x.0 == y.0 && x.1 == y.1) ≡ true) ↔ (x ≡ y)
pair_iff ⦃a⦄ ⦃b⦄ x y = (
  λ h.
      let (l, r) = &&-true (x.0 == y.0) (x.1 == y.1) h in
      let same_left = (a.eqb_iff x.0 y.0).0 l in let same_right = (b.eqb_iff x.1 y.1).0 r in cc,
  λ q. subst (λ z. (x.0 == z.0 && x.1 == z.1) ≡ true) q (rw (==_refl x.0, ==_refl x.1) refl),
)

instance abbrev pub pair_eq : {A B : Type 0} ⦃a : BoolEq A⦄ ⦃b : BoolEq B⦄ → BoolEq (A × B)
pair_eq = record { eqb = λ x y. x.0 == y.0 && x.1 == y.1; eqb_iff = pair_iff }
