-- ===== src/Prelude/Sums.antt =====
-- Sums of a function of the numbers below a bound.
use Prim.Native.Nat.{ℕ, zero, suc, ◌+◌, ◌<◌}
use mathlib.Core.Path.{◌≡◌, refl, ap}
use mathlib.Core.Logic.{◌≢◌, inl, inr}
use native.Mathlib.Omega.{arith}
use kil0y_os.Prelude.Tests.{◌==◌, Bool-cases}

unfoldable pub sum_below : ℕ → (ℕ → ℕ) → ℕ
sum_below zero f = 0
sum_below (suc n) f = f n + sum_below n f

pub sum_below-same :
    (n : ℕ) (f g : ℕ → ℕ) → ((q : ℕ) → q < n → g q ≡ f q) → sum_below n g ≡ sum_below n f
unfolding sum_below
sum_below-same zero f g h = refl
sum_below-same (suc n) f g h =
    omega (arith, h n (omega arith), sum_below-same n f g (λ q l. h q (omega arith)))

-- Changing one summand.
pub sum_below-change :
    (n p : ℕ) (f g : ℕ → ℕ)
    → p < n
    → ((q : ℕ) → q ≢ p → g q ≡ f q)
    → sum_below n g + f p ≡ sum_below n f + g p
unfolding sum_below
sum_below-change zero p f g l h = absurd (omega arith)
sum_below-change (suc n) p f g l h = elim (Bool-cases (n == p)) [
  | inl e ↦
      let e' : n ≡ p = ground arith in
      omega (arith, sum_below-same n f g (λ q l'. h q (omega arith)), ap g e', ap f e')
  | inr ne ↦
      let ne' : n ≢ p = ground arith in
      omega (arith, h n ne', sum_below-change n p f g (ground arith) h)
]
