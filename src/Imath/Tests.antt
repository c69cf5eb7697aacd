-- ===== src/Imath/Tests.antt =====
-- The integer square root at concrete numbers.
use fw.Base.{ℕ, ◌≡◌, refl, some, arith}
use fw.Imath.{isqrt}
use fw.Imath.Root.{IsRoot, isqrt-IsRoot}

isqrt_run : isqrt 99 ≡ some 9
unfolding isqrt
isqrt_run = refl

isqrt-IsRoot_example : (s : ℕ) × (isqrt 1000000 ≡ some s) × IsRoot 1000000 s
isqrt-IsRoot_example = isqrt-IsRoot 1000000 (omega arith)
