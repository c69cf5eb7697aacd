-- ===== src/Imath.antt =====
-- lib/imath.c: the integer square root.
--
-- `isin`, which reads a generated table, is left out.
pub mod Root
mod Tests
use fw.Base.{
  ℕ, zero, suc, ◌+◌, ◌-◌, ◌*◌, ◌/◌, ◌%◌, ◌^◌, ltb, leb, ◌==◌, if◌then◌else◌, Option, none, some,
}

-- The first loop: the highest power of four that is at most `n`, from `d` down. The fuel is one
-- more than the rounds; `d` reaches 0 in 16 of them.
unfoldable pub start : ℕ → ℕ → ℕ → Option ℕ
start zero d n = none
start (suc fuel) d n = let next = start fuel (d / 4) n in if ltb n d then next else some d

-- The second loop, on `x`, `c` and `d`.
unfoldable pub refine : ℕ → ℕ → ℕ → ℕ → Option ℕ
refine zero x c d = none
refine (suc fuel) x c d =
    let sum = (c + d) % 2 ^ 32 in
    let taken = refine fuel (x - sum) ((c / 2 + d) % 2 ^ 32) (d / 4) in
    let left = refine fuel x (c / 2) (d / 4) in
    if d == 0 then some c else if leb sum x then taken else left

-- `none` means that the fuel ran out.
unfoldable pub isqrt : ℕ → Option ℕ
unfolding start refine
isqrt n = elim (start 17 (2 ^ 30) n) [ none ↦ none | some d ↦ refine 17 n 0 d ]
