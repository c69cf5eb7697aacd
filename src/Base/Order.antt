-- ===== src/Base/Order.antt =====
-- The order on the native numbers: `<` is well founded (the library proves it of the unary numbers),
-- and the powers of two grow.
use mathlib.Core.WellFounded.{Acc, WellFounded}
use fw.Base.{ℕ, zero, suc, ◌^◌, ◌≤◌, ◌<◌, arith}

Acc-below : (k n : ℕ) → n < k → Acc ◌<◌ n
Acc-below zero n h = elim h [ ]
Acc-below (suc k) n h = Acc.intro n (λ m hm. Acc-below k m (omega arith))

unfoldable pub lt_wf : WellFounded ◌<◌
unfolding Acc-below
lt_wf = record { apply = λ n. Acc-below (suc n) n (omega arith) }

pub pow_pos : (k : ℕ) → 0 < 2 ^ k
pow_pos zero = omega arith
pow_pos (suc k) = omega (arith, pow_pos k)

pub pow_le : (j k : ℕ) → j ≤ k → 2 ^ j ≤ 2 ^ k
pow_le zero k h = pow_pos k
pow_le (suc j) zero h = absurd (omega arith)
pow_le (suc j) (suc k) h = omega (arith, pow_le j k (omega arith))
