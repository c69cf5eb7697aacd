-- ===== src/Imath/Root.antt =====
-- isqrt is the integer square root.
use fw.Base.{ℕ, zero, suc, ◌+◌, ◌-◌, ◌*◌, ◌/◌, ◌%◌, ◌^◌, ◌≤◌, ◌<◌, ◌≡◌, refl, ap, sym, ◌∙◌, arith}
use fw.Base.{Option, none, some, ltb, leb, Bool-cases, inl, inr, ◌⊎◌}
use fw.Base.{leb→le}
use fw.Base.Order.{pow_pos, pow_le}
use mathlib.Core.Path.{subst}
use fw.Imath.{start, refine, isqrt}

abbrev pub IsRoot : ℕ → ℕ → Type 0
IsRoot n c = (c * c ≤ n) × (n < (c + 1) * (c + 1))

square_le : (a b : ℕ) → a ≤ b → a * a ≤ b * b
square_le a b h = let e : b ≡ a + (b - a) = omega arith in omega (arith, ap (λ (t : ℕ). t * t) e)

refine-done : (fuel x c d : ℕ) → d ≡ 0 → refine (suc fuel) x c d ≡ some c
unfolding refine
refine-done fuel x c d h = ground arith

refine-taken :
    (fuel x c d : ℕ)
    → 0 < d
    → c + d < 2 ^ 32
    → c + d ≤ x
    → refine (suc fuel) x c d ≡ refine fuel (x - (c + d)) (c / 2 + d) (d / 4)
unfolding refine
refine-taken fuel x c d h l t =
    let e : (c + d) % 2 ^ 32 ≡ c + d = omega arith in
    let e' : (c / 2 + d) % 2 ^ 32 ≡ c / 2 + d = omega arith in rw (e, e') (ground arith)

refine-left :
    (fuel x c d : ℕ)
    → 0 < d
    → c + d < 2 ^ 32
    → x < c + d
    → refine (suc fuel) x c d ≡ refine fuel x (c / 2) (d / 4)
unfolding refine
refine-left fuel x c d h l t = let e : (c + d) % 2 ^ 32 ≡ c + d = omega arith in rw e (ground arith)

-- The loop at the bit `p`, with the root found so far, `r`, which is a multiple of `2 * p`.
pub record IsAt (n p r x c d : ℕ) : Type 0 where
  pub rest : n ≡ r * r + x
  pub above : n < (r + 2 * p) * (r + 2 * p)
  pub below : r + 2 * p ≤ 2 ^ 16
  pub c_eq : c ≡ 2 * (r * p)
  pub d_eq : d ≡ p * p

IsAt-bound : (n p r x c d : ℕ) → 0 < p → IsAt n p r x c d → (0 < d) × (c + d < 2 ^ 32)
IsAt-bound n p r x c d h a = (
  (let e : p ≡ 1 + (p - 1) = omega arith in omega (arith, a.d_eq, ap (λ (t : ℕ). t * t) e)),
  omega (arith, a.c_eq, a.d_eq, square_le (r + p) (2 ^ 16 - 1) (omega (arith, a.below))),
)

IsAt-taken :
    (n q r x c d : ℕ)
    → IsAt n (2 * q) r x c d
    → c + d ≤ x
    → IsAt n q (r + 2 * q) (x - (c + d)) (c / 2 + d) (d / 4)
IsAt-taken n q r x c d a t = record {
  rest = omega (arith, a.rest, a.c_eq, a.d_eq);
  above = omega (arith, a.above);
  below = omega (arith, a.below);
  c_eq = omega (arith, a.c_eq, a.d_eq);
  d_eq = omega (arith, a.d_eq);
}

IsAt-left : (n q r x c d : ℕ) → IsAt n (2 * q) r x c d → x < c + d → IsAt n q r x (c / 2) (d / 4)
IsAt-left n q r x c d a t = record {
  rest = a.rest;
  above = omega (arith, a.rest, a.c_eq, a.d_eq);
  below = omega (arith, a.below);
  c_eq = omega (arith, a.c_eq);
  d_eq = omega (arith, a.d_eq);
}

IsRoot-eq : (n r s : ℕ) → s ≡ r → IsRoot n r → IsRoot n s
IsRoot-eq n r s e h = subst (IsRoot n) (sym e) h

refine-IsRoot :
    (k fuel n r x c d : ℕ)
    → k + 1 ≤ fuel
    → IsAt n (2 ^ k) r x c d
    → (s : ℕ) × (refine (suc fuel) x c d ≡ some s) × IsRoot n s
refine-IsRoot k zero n r x c d h a = absurd (omega arith)
refine-IsRoot zero (suc fuel) n r x c d h a =
    let (pos, small) = IsAt-bound n 1 r x c d (omega arith) a in
    elim (Bool-cases (leb (c + d) x)) [
      | inl t ↦ (
        c / 2 + d,
        refine-taken (suc fuel) x c d pos small (ground arith)
            ∙ refine-done fuel _ _ (d / 4) (omega (arith, a.d_eq)),
        IsRoot-eq n (r + 1) (c / 2 + d) (omega (arith, a.c_eq, a.d_eq))
            (omega (arith, a.rest, a.c_eq, a.d_eq, leb→le (c + d) x t), omega (arith, a.above)),
      )
      | inr t ↦ (
        c / 2,
        refine-left (suc fuel) x c d pos small (ground arith)
            ∙ refine-done fuel _ _ (d / 4) (omega (arith, a.d_eq)),
        IsRoot-eq n r (c / 2) (omega (arith, a.c_eq)) (
          omega (arith, a.rest),
          (let l : x < c + d = ground arith in omega (arith, l, a.rest, a.c_eq, a.d_eq)),
        ),
      )
    ]
refine-IsRoot (suc k) (suc fuel) n r x c d h a =
    let e : 2 ^ suc k ≡ 2 * 2 ^ k = omega arith in
    let a' : IsAt n (2 * 2 ^ k) r x c d = rw (sym e) a in
    let (pos, small) = IsAt-bound n (2 * 2 ^ k) r x c d (omega (arith, pow_pos k)) a' in
    elim (Bool-cases (leb (c + d) x)) [
      | inl t ↦
          let (s, run, root) =
            refine-IsRoot k fuel n (r + 2 * 2 ^ k) (x - (c + d)) (c / 2 + d) (d / 4) (omega arith)
              (IsAt-taken n (2 ^ k) r x c d a' (ground arith)) in
          (s, refine-taken (suc fuel) x c d pos small (ground arith) ∙ run, root)
      | inr t ↦
          let (s, run, root) =
            refine-IsRoot k fuel n r x (c / 2) (d / 4) (omega arith)
              (IsAt-left n (2 ^ k) r x c d a' (ground arith)) in
          (s, refine-left (suc fuel) x c d pos small (ground arith) ∙ run, root)
    ]

-- What the first loop ends at: 0 for 0, and otherwise the power of four that `n` is between.
abbrev Started : ℕ → ℕ → ℕ → Type 0
Started n k d =
    ((n ≡ 0) × (d ≡ 0)) ⊎ ((j : ℕ) × (j ≤ k) × (d ≡ 2 ^ j * 2 ^ j) × (n < 4 * d) × (d ≤ n))

Started-suc : (n k d : ℕ) → Started n k d → Started n (suc k) d
Started-suc n k d (inl z) = inl z
Started-suc n k d (inr (j, le, e, l, m)) = inr (j, omega arith, e, l, m)

start-next : (fuel n d : ℕ) → n < d → start (suc fuel) d n ≡ start fuel (d / 4) n
unfolding start
start-next fuel n d h = ground arith

start-stop : (fuel n d : ℕ) → d ≤ n → start (suc fuel) d n ≡ some d
unfolding start
start-stop fuel n d h = ground arith

start-Started :
    (k fuel n d : ℕ)
    → k + 1 ≤ fuel
    → d ≡ 2 ^ k * 2 ^ k
    → n < 4 * d
    → (d' : ℕ) × (start (suc fuel) d n ≡ some d') × Started n k d'
start-Started k zero n d h e l = absurd (omega arith)
start-Started zero (suc fuel) n d h e l = elim (Bool-cases (ltb n d)) [
  | inl t ↦ (
    d / 4,
    start-next (suc fuel) n d (ground arith) ∙ start-stop fuel n (d / 4) (omega (arith, e)),
    inl (ground arith, omega (arith, e)),
  )
  | inr t ↦ (d, start-stop (suc fuel) n d (ground arith), inr (0, omega arith, e, l, ground arith))
]
start-Started (suc k) (suc fuel) n d h e l =
    let double : 2 ^ suc k ≡ 2 * 2 ^ k = omega arith in
    let e' : d ≡ (2 * 2 ^ k) * (2 * 2 ^ k) = e ∙ ap (λ (t : ℕ). t * t) double in
    elim (Bool-cases (ltb n d)) [
      | inl t ↦
          let (d', run, found) =
            start-Started k fuel n (d / 4) (omega arith) (omega (arith, e')) (ground (arith, e')) in
          (d', start-next (suc fuel) n d (ground arith) ∙ run, Started-suc n k d' found)
      | inr t ↦ (
        d,
        start-stop (suc fuel) n d (ground arith),
        inr (suc k, omega arith, e, l, ground arith),
      )
    ]

isqrt-start : (n d : ℕ) → start 17 (2 ^ 30) n ≡ some d → isqrt n ≡ refine 17 n 0 d
unfolding isqrt
isqrt-start n d h =
    ap (λ (o : Option ℕ). elim o as (λ x. Option ℕ) [ none ↦ none | some d ↦ refine 17 n 0 d ]) h

-- On every 32-bit number isqrt ends, and gives the number whose square is the largest one that is
-- not above it.
pub isqrt-IsRoot : (n : ℕ) → n < 2 ^ 32 → (s : ℕ) × (isqrt n ≡ some s) × IsRoot n s
isqrt-IsRoot n h =
    let (d, run, found) = start-Started 15 16 n (2 ^ 30) (omega arith) refl (omega arith) in
    elim found [
      | inl (z, e) ↦ (
        0,
        isqrt-start n d run ∙ refine-done 16 n 0 d e,
        IsRoot-eq n 0 0 refl (omega arith, omega arith),
      )
      | inr (j, le, e, l, m) ↦
          let (s, run', root) = refine-IsRoot j 16 n 0 n 0 d (omega arith) (record {
            rest = omega arith;
            above = omega (arith, l, e);
            below = omega (arith, pow_le j 15 le);
            c_eq = omega arith;
            d_eq = e;
          }) in
          (s, isqrt-start n d run ∙ run', root)
    ]
