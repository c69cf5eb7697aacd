-- ===== src/Db/Span/Blocks.antt =====
-- The blocks that a span list holds, and what `span_add` and `span_pull_one` make of them.
use fw.Base.{
  ℕ, ◌+◌, ◌^◌, ◌<◌, ◌≡◌, ◌≢◌, refl, Bool, true, false, Option, none, some, ◌==◌, leb, ltb, ◌&&◌,
  ◌||◌, ◌⊎◌, inl, inr, Bool-cases, arith,
}
use mathlib.Core.Option
use fw.Db.Span.{Spans, null, dangling, span, add32, sub32, merge_after, span_add, Pulled}
use fw.Db.Span.{span_pull_one}

-- No cell of the list has been freed, no span is empty, and block numbers do not wrap.
abbrev pub IsLive : Spans → Type 0
IsLive null = Unit
IsLive dangling = ⊥
IsLive (span start len rest) = (0 < len) × (start + len < 2 ^ 32) × IsLive rest

-- Is block `b` one of the `size` blocks from `n` on?
abbrev pub within : ℕ → ℕ → ℕ → Bool
within n size b = leb n b && ltb b (n + size)

abbrev pub holds : Spans → ℕ → Bool
holds null b = false
holds dangling b = false
holds (span start len rest) b = within start len b || holds rest b

abbrev pub count : Spans → ℕ
count null = 0
count dangling = 0
count (span start len rest) = len + count rest

-- The scan of `span_add` meets a span that ends at `n` before one that starts at `n + size`.
abbrev pub Joins : Spans → ℕ → ℕ → Type 0
Joins null n size = Unit
Joins dangling n size = ⊥
Joins (span start len rest) n size =
    (start + len ≡ n) ⊎ ((start + len ≢ n) × (start ≢ n + size) × Joins rest n size)

-- The scan meets a span that starts at `n + size` before one that ends at `n`.
abbrev pub Meets : Spans → ℕ → ℕ → Type 0
Meets null n size = ⊥
Meets dangling n size = ⊥
Meets (span start len rest) n size =
    (start + len ≢ n) × ((start ≡ n + size) ⊎ ((start ≢ n + size) × Meets rest n size))

-- The list `t` is live and holds what `s` holds and the `size` blocks from `n` on.
pub record IsSum (s : Spans) (n size : ℕ) (t : Spans) : Type 0 where
  pub live : IsLive t
  pub counted : count t ≡ count s + size
  pub held : (b : ℕ) → holds t b ≡ (within n size b || holds s b)

abbrev pub Added : Spans → ℕ → ℕ → Option Spans → Type 0
Added s n size none = ⊥
Added s n size (some t) = IsSum s n size t

merge_after-Added :
    (start len size : ℕ) (rest : Spans)
    → IsLive (span start len rest)
    → 0 < size
    → start + len + size < 2 ^ 32
    → Added (span start len rest) (start + len) size (merge_after start len size rest)
unfolding merge_after
merge_after-Added start len size null v p q = record {
  live = omega arith;
  counted = omega arith;
  held = λ b. ground arith;
}
merge_after-Added start len size dangling v p q = elim v.2 [ ]
merge_after-Added start len size (span start' len' rest) v p q =
    elim (Bool-cases (start' == add32 start (add32 len size))) [
      | inl e ↦
          rw e record { live = ground arith; counted = ground arith; held = λ b. ground arith }
      | inr e ↦
          rw e record { live = ground arith; counted = ground arith; held = λ b. ground arith }
    ]

Added-cons :
    (start len n size : ℕ) (rest : Spans) (r : Option Spans)
    → IsLive (span start len rest)
    → Added rest n size r
    → Added (span start len rest) n size (Option.map (span start len) r)
Added-cons start len n size rest none v a = elim a [ ]
Added-cons start len n size rest (some t) v a = record {
  live = (v.0, v.1, a.live);
  counted = omega arith;
  held = λ b. ground (arith, a.held b);
}

-- Where the scan joins the new blocks to the span before them, or comes to the end, the list
-- afterwards is live and holds exactly the blocks that it held and the new ones.
pub span_add-Added :
    (s : Spans) (n size : ℕ)
    → IsLive s
    → 0 < size
    → n + size < 2 ^ 32
    → Joins s n size
    → Added s n size (span_add s n size)
unfolding span_add
span_add-Added null n size v p q j = record {
  live = omega arith;
  counted = omega arith;
  held = λ b. ground arith;
}
span_add-Added dangling n size v p q j = elim v [ ]
span_add-Added (span start len rest) n size v p q (inl e) =
    let h : (add32 start len == n) ≡ true = ground arith in
    rw (h, ← e) (merge_after-Added start len size rest v p (omega arith))
span_add-Added (span start len rest) n size v p q (inr (ne, ns, j)) =
    let h : (add32 start len == n) ≡ false = ground arith in
    let k : (start == add32 n size) ≡ false = ground arith in
    rw (h, k) (Added-cons start len n size rest _ v (span_add-Added rest n size v.2 p q j))

-- Where the scan meets a span that starts at `n + size`, blocks of the list are lost.
pub span_add_loses :
    (s : Spans) (n size : ℕ)
    → IsLive s
    → n + size < 2 ^ 32
    → Meets s n size
    → (t : Spans) × (span_add s n size ≡ some t) × (count t < count s + size)
unfolding span_add
span_add_loses null n size v q m = elim m [ ]
span_add_loses dangling n size v q m = elim m [ ]
span_add_loses (span start len rest) n size v q (ne, inl e) =
    (span n size null, ground arith, omega arith)
span_add_loses (span start len rest) n size v q (ne, inr (ns, m)) =
    let (t, e, lt) = span_add_loses rest n size v.2 q m in
    (span start len t, ground (arith, e), omega arith)

-- The outcome of `span_pull_one`: no block and an empty list, or a block of the list and the others.
abbrev pub PulledOne : Spans → Option Pulled → Type 0
PulledOne s none = ⊥
PulledOne s (some (none, t)) = (s ≡ null) × (t ≡ null)
PulledOne s (some (some n, t)) =
    IsLive t × (count t + 1 ≡ count s) × ((b : ℕ) → holds s b ≡ ((n == b) || holds t b))

-- `span_pull_one` on a live list gives -1 only if the list is empty, and otherwise takes exactly one
-- block out of it.
pub span_pull_one-PulledOne : (s : Spans) → IsLive s → PulledOne s (span_pull_one s)
unfolding span_pull_one
span_pull_one-PulledOne null v = (refl, refl)
span_pull_one-PulledOne dangling v = elim v [ ]
span_pull_one-PulledOne (span start len rest) v = elim (Bool-cases (sub32 len 1 == 0)) [
  | inl e ↦ rw e (v.2, ground arith, λ b. ground arith)
  | inr e ↦ rw e ((ground arith, ground arith, v.2), ground arith, λ b. ground arith)
]

pub span_pull_one-null : span_pull_one null ≡ some (none, null)
unfolding span_pull_one
span_pull_one-null = refl
