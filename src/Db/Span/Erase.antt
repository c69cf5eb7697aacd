-- ===== src/Db/Span/Erase.antt =====
-- `span_pull_erase_block`: where the erase block lies, and what is left of the list.
use fw.Base.{
  ℕ, ◌+◌, ◌-◌, ◌*◌, ◌/◌, ◌%◌, ◌^◌, ◌≤◌, ◌<◌, ◌≡◌, refl, true, false, Option, none, some, ◌==◌, ◌||◌,
  ◌⊎◌, inl, inr, Bool-cases, ap, sym, ◌∙◌, arith,
}
use mathlib.Core.Option
use native.Mathlib.Nat.{
  mod-lt, div-add-mod, mul-mod_left, mod-le, mod-add-mod, mod-eq_of_lt, zero-add,
}
use fw.Db.Span.{Spans, null, dangling, span, add32, sub32, round_up, holds_erase_block, split_span}
use fw.Db.Span.{Pulled, keep_span, span_pull_erase_block, span_free_all}
use fw.Db.Span.Blocks.{IsLive, within, holds, count}

-- What `round_up` computes where it does not wrap.
round_up_lem : (n m : ℕ) → 0 < m → n + m < 2 ^ 32 → round_up n m ≡ (n + m - 1) / m * m
unfolding round_up
round_up_lem n m p q =
    let e : add32 n (sub32 m 1) ≡ n + m - 1 = omega arith in
    rw e (omega (arith, mod-le (n + m - 1) m, div-add-mod (n + m - 1) m))

pub round_up_bounds :
    (n m : ℕ) → 0 < m → n + m < 2 ^ 32 → (n ≤ round_up n m) × (round_up n m < n + m)
round_up_bounds n m p q =
    omega (arith, round_up_lem n m p q, mod-lt (n + m - 1) p, div-add-mod (n + m - 1) m)

pub round_up-mod : (n m : ℕ) → 0 < m → n + m < 2 ^ 32 → round_up n m % m ≡ 0
round_up-mod n m p q = rw (round_up_lem n m p q) (mul-mod_left ((n + m - 1) / m) m)

offset-eq-zero : (n m d : ℕ) → n % m ≡ 0 → (n + d) % m ≡ 0 → d < m → d ≡ 0
offset-eq-zero n m d a z h =
    let y : (0 + d) % m ≡ 0 = rw a at (mod-add-mod n m d ∙ z) in
    sym (mod-eq_of_lt h) ∙ rw zero-add at y

round_up_aligned : (n m : ℕ) → 0 < m → n + m < 2 ^ 32 → n % m ≡ 0 → round_up n m ≡ n
round_up_aligned n m p q a =
    let b = round_up_bounds n m p q in
    let e : round_up n m ≡ n + (round_up n m - n) = omega (arith, b) in
    let z : (n + (round_up n m - n)) % m ≡ 0 = rw (← e) (round_up-mod n m p q) in
    omega (arith, b, offset-eq-zero n m (round_up n m - n) a z (omega (arith, b)))

-- The span, the first that holds a whole erase block, is exactly that erase block.
abbrev pub FitsExactly : Spans → ℕ → Type 0
FitsExactly null e = ⊥
FitsExactly dangling e = ⊥
FitsExactly (span start len rest) e =
    ((start % e ≡ 0) × (len ≡ e)) ⊎ ((holds_erase_block start len e ≡ false) × FitsExactly rest e)

-- No sum of the search wraps.
abbrev pub Roomy : Spans → ℕ → Type 0
Roomy null e = Unit
Roomy dangling e = Unit
Roomy (span start len rest) e = (start + len + 2 * e < 2 ^ 32) × Roomy rest e

-- The list `t` is live, and with the erase block at `n`, which is aligned, it makes up `s`.
pub record IsSplit (s : Spans) (e n : ℕ) (t : Spans) : Type 0 where
  pub aligned : n % e ≡ 0
  pub live : IsLive t
  pub counted : count t + e ≡ count s
  pub held : (b : ℕ) → holds s b ≡ (within n e b || holds t b)

-- The outcome of a search that met no exact fit.
abbrev pub PulledBlock : Spans → ℕ → Option Pulled → Type 0
PulledBlock s e none = ⊥
PulledBlock s e (some (none, t)) = t ≡ s
PulledBlock s e (some (some n, t)) = IsSplit s e n t

split_span-PulledBlock :
    (start len e : ℕ) (rest : Spans)
    → IsLive (span start len rest)
    → 0 < e
    → start + len + 2 * e < 2 ^ 32
    → holds_erase_block start len e ≡ true
    → ¬ ((start % e ≡ 0) × (len ≡ e))
    → PulledBlock (span start len rest) e (some (split_span start len rest e))
unfolding split_span holds_erase_block
split_span-PulledBlock start len e rest v p q h ne =
    let b = round_up_bounds start e p (omega arith) in
    let a = round_up-mod start e p (omega arith) in
    elim (Bool-cases (round_up start e == start)) [
      | inl i ↦ elim (Bool-cases (len == e)) [
        | inl j ↦ absurd (ne (ground (arith, a), ground arith))
        | inr j ↦
            rw (i, j)
              record {
                aligned = a;
                live = ground (arith, b);
                counted = ground (arith, b);
                held = λ c. ground (arith, b);
              }
      ]
      | inr i ↦ elim (Bool-cases (add32 start len == add32 (round_up start e) e)) [
        | inl j ↦
            rw (i, j)
              record {
                aligned = a;
                live = ground (arith, b);
                counted = ground (arith, b);
                held = λ c. ground (arith, b);
              }
        | inr j ↦
            rw (i, j)
              record {
                aligned = a;
                live = ground (arith, b);
                counted = ground (arith, b);
                held = λ c. ground (arith, b);
              }
      ]
    ]

PulledBlock-cons :
    (start len e : ℕ) (rest : Spans) (r : Option Pulled)
    → IsLive (span start len rest)
    → PulledBlock rest e r
    → PulledBlock (span start len rest) e (Option.map (keep_span start len) r)
unfolding keep_span
PulledBlock-cons start len e rest none v a = elim a [ ]
PulledBlock-cons start len e rest (some (none, t)) v a = ap (span start len) a
PulledBlock-cons start len e rest (some (some n, t)) v a = record {
  aligned = a.aligned;
  live = (v.0, v.1, a.live);
  counted = omega arith;
  held = λ b. ground (arith, a.held b);
}

-- Where the search does not end at a span that is exactly an erase block, the function leaves the
-- list alone, or takes exactly the blocks of an aligned erase block out of it.
pub span_pull_erase_block-PulledBlock :
    (s : Spans) (e : ℕ)
    → IsLive s
    → 0 < e
    → Roomy s e
    → ¬ FitsExactly s e
    → PulledBlock s e (span_pull_erase_block s e)
unfolding span_pull_erase_block
span_pull_erase_block-PulledBlock null e v p q f = refl
span_pull_erase_block-PulledBlock dangling e v p q f = elim v [ ]
span_pull_erase_block-PulledBlock (span start len rest) e v p q f =
    elim (Bool-cases (holds_erase_block start len e)) [
      | inl h ↦ rw h (split_span-PulledBlock start len e rest v p q.0 h (λ x. f (inl x)))
      | inr h ↦ rw h (
          PulledBlock-cons start len e rest _ v
            (span_pull_erase_block-PulledBlock rest e v.2 p q.1 (λ x. f (inr (h, x)))))
    ]

-- After an exact fit the list ends in a freed cell, and freeing it is a fault.
pub span_pull_erase_block_exact :
    (s : Spans) (e : ℕ)
    → IsLive s
    → 0 < e
    → Roomy s e
    → FitsExactly s e
    → (n : ℕ) × (t : Spans) × (span_pull_erase_block s e ≡ some (some n, t))
      × (span_free_all t ≡ none)
unfolding span_pull_erase_block span_free_all
span_pull_erase_block_exact null e v p q f = elim f [ ]
span_pull_erase_block_exact dangling e v p q f = elim f [ ]
span_pull_erase_block_exact (span start len rest) e v p q (inl x) =
    let r = round_up_aligned start e p (omega arith) x.0 in
    let h : holds_erase_block start len e ≡ true = unfold holds_erase_block in ground (arith, r) in
    let g : split_span start len rest e ≡ (some start, dangling) =
      unfold split_span in ground (arith, r) in
    (start, dangling, rw (h, g), refl)
span_pull_erase_block_exact (span start len rest) e v p q (inr (h, f)) =
    let (n, t, g, d) = span_pull_erase_block_exact rest e v.2 p q.1 f in
    (n, span start len t, rw (h, g), d)

-- No sum wraps and no span is empty; the list may end in a freed cell.
abbrev pub IsSound : Spans → ℕ → Type 0
IsSound null e = Unit
IsSound dangling e = Unit
IsSound (span start len rest) e = (0 < len) × (start + len + 2 * e < 2 ^ 32) × IsSound rest e

-- The outcome of any search: a fault, the list as it was, or a list that counts at least `e`
-- blocks fewer.
abbrev pub Shrinks : Spans → ℕ → Option Pulled → Type 0
Shrinks s e none = Unit
Shrinks s e (some (none, t)) = t ≡ s
Shrinks s e (some (some n, t)) = IsSound t e × (count t + e ≤ count s)

split_span-Shrinks :
    (start len e : ℕ) (rest : Spans)
    → IsSound (span start len rest) e
    → 0 < e
    → holds_erase_block start len e ≡ true
    → Shrinks (span start len rest) e (some (split_span start len rest e))
unfolding split_span holds_erase_block
split_span-Shrinks start len e rest v p h =
    let b = round_up_bounds start e p (omega arith) in
    elim (Bool-cases (round_up start e == start)) [
      | inl i ↦ elim (Bool-cases (len == e)) [
        | inl j ↦ rw (i, j) (tt, ground arith)
        | inr j ↦ rw (i, j) ((ground (arith, b), ground (arith, b), v.2), ground (arith, b))
      ]
      | inr i ↦ elim (Bool-cases (add32 start len == add32 (round_up start e) e)) [
        | inl j ↦ rw (i, j) ((ground (arith, b), ground (arith, b), v.2), ground (arith, b))
        | inr j ↦
            rw (i, j)
              (
                (ground (arith, b), ground (arith, b), (ground (arith, b), ground (arith, b), v.2)),
                ground (arith, b),
              )
      ]
    ]

Shrinks-cons :
    (start len e : ℕ) (rest : Spans) (r : Option Pulled)
    → IsSound (span start len rest) e
    → Shrinks rest e r
    → Shrinks (span start len rest) e (Option.map (keep_span start len) r)
unfolding keep_span
Shrinks-cons start len e rest none v a = tt
Shrinks-cons start len e rest (some (none, t)) v a = ap (span start len) a
Shrinks-cons start len e rest (some (some n, t)) v a = ((v.0, v.1, a.0), omega arith)

pub span_pull_erase_block-Shrinks :
    (s : Spans) (e : ℕ) → IsSound s e → 0 < e → Shrinks s e (span_pull_erase_block s e)
unfolding span_pull_erase_block
span_pull_erase_block-Shrinks null e v p = refl
span_pull_erase_block-Shrinks dangling e v p = tt
span_pull_erase_block-Shrinks (span start len rest) e v p =
    elim (Bool-cases (holds_erase_block start len e)) [
      | inl h ↦ rw h (split_span-Shrinks start len e rest v p h)
      | inr h ↦
          rw h (Shrinks-cons start len e rest _ v (span_pull_erase_block-Shrinks rest e v.2 p))
    ]
