-- ===== src/Prelude/Fraction.antt =====
-- Fractions of natural numbers: PostgreSQL's NUMERIC and JavaScript's numbers without their
-- rounding. The denominator is `pred_den + 1`, so it is never 0.
use Prim.Native.Nat.{ℕ, suc, ◌+◌, ◌*◌, ◌-◌, ◌≤◌}
use mathlib.Core.Path.{◌≡◌}
use mathlib.Core.Logic.{◌⊎◌}
use mathlib.Core.Bool.{Bool, true}
use native.Mathlib.Nat.{mul-le-mul_right, le_of_mul-le-mul_right}
use native.Mathlib.Omega.{arith}
use control_deck.Prelude.Tests.{leb, leb→le, le→leb}
use control_deck.Prelude.Order.{IsPreorder}

pub record Fraction : Type 0 where
  pub num : ℕ
  pub pred_den : ℕ

abbrev pub den : Fraction → ℕ
den a = suc a.pred_den

-- The denominator of a product.
abbrev pub pred_mul : Fraction → Fraction → ℕ
pred_mul a b = a.pred_den * b.pred_den + a.pred_den + b.pred_den

abbrev pub add : Fraction → Fraction → Fraction
add a b = record { num = a.num * den b + b.num * den a; pred_den = pred_mul a b }

abbrev pub mul : Fraction → Fraction → Fraction
mul a b = record { num = a.num * b.num; pred_den = pred_mul a b }

-- 1 - a, for a up to 1.
abbrev pub one_minus : Fraction → Fraction
one_minus a = record { num = den a - a.num; pred_den = a.pred_den }

abbrev pub of_nat : ℕ → Fraction
of_nat n = record { num = n; pred_den = 0 }

abbrev pub le_frac : Fraction → Fraction → Bool
le_frac a b = leb (a.num * den b) (b.num * den a)

abbrev pub Le : Fraction → Fraction → Type 0
Le a b = a.num * den b ≤ b.num * den a

le_frac-total : (a b : Fraction) → (le_frac a b ≡ true) ⊎ (le_frac b a ≡ true)
le_frac-total a b = ground arith

Le-trans : (a b c : Fraction) → Le a b → Le b c → Le a c
Le-trans a b c h k =
    le_of_mul-le-mul_right {k = den b}
      (omega (arith, mul-le-mul_right (den c) h, mul-le-mul_right (den a) k)) (omega arith)

pub le_frac-IsPreorder : IsPreorder le_frac
le_frac-IsPreorder = record {
  total = le_frac-total;
  trans = λ a b c h k. le→leb _ _ (Le-trans a b c (leb→le _ _ h) (leb→le _ _ k));
}
