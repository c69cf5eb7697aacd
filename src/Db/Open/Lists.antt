-- ===== src/Db/Open/Lists.antt =====
-- A span list that grows by the blocks of one kind, as they are met in order.
use fw.Base.{
  ℕ, suc, ◌+◌, ◌-◌, ◌^◌, ◌<◌, ◌≤◌, ◌≡◌, refl, Bool, true, false, ◌&&◌, Option, none, some,
  Bool-cases, inl, inr, arith, leb, ltb, ◌==◌,
}
use fw.Db.Span.{Spans, null, dangling, span, add32, span_add}
use fw.Db.Span.Blocks.{IsLive, holds, count, Joins, IsSum, Added, span_add-Added}
use fw.Db.Entry.{reserved_blocks}
use fw.Db.Open.{Block, deleted, erased, empty}

abbrev pub is_deleted : Block → Bool
is_deleted deleted = true
is_deleted _ = false

abbrev pub is_erased : Block → Bool
is_erased erased = true
is_erased _ = false

abbrev pub is_empty : Block → Bool
is_empty empty = true
is_empty _ = false

-- The list is live, its blocks are those before `n` of which `P` holds, and `c` is their number.
pub record Lists (n : ℕ) (P : ℕ → Bool) (s : Spans) (c : ℕ) : Type 0 where
  pub live : IsLive s
  pub counted : count s ≡ c
  pub held : (b : ℕ) → holds s b ≡ (leb reserved_blocks b && ltb b n && P b)

Joins-end : (s : Spans) (n : ℕ) → IsLive s → ((b : ℕ) → holds s b ≡ true → b < n) → Joins s n 1
Joins-end null n v h = tt
Joins-end dangling n v h = v
Joins-end (span start len rest) n v h =
    let last : start + len - 1 < n = h (start + len - 1) (ground arith) in
    let j = Joins-end rest n v.2 (λ b k. h b (ground (arith, k))) in
    elim (Bool-cases (start + len == n)) [
      | inl e ↦ inl (ground arith)
      | inr e ↦ inr (ground arith, omega arith, j)
    ]

pub Lists-skip :
    (n : ℕ) (P : ℕ → Bool) (s : Spans) (c : ℕ) → Lists n P s c → P n ≡ false → Lists (suc n) P s c
Lists-skip n P s c l h = record {
  live = l.live;
  counted = l.counted;
  held = λ b. elim (Bool-cases (n == b)) [
    | inl e ↦ (let q : n ≡ b = ground arith in ground (arith, l.held b, h, q))
    | inr e ↦ ground (arith, l.held b)
  ];
}

pub Added-some :
    (s : Spans) (n : ℕ) (r : Option Spans)
    → Added s n 1 r
    → (t : Spans) × (r ≡ some t) × IsSum s n 1 t
Added-some s n none a = elim a [ ]
Added-some s n (some t) a = (t, refl, a)

-- The block `n` at the end of a list.
pub span_add-Lists :
    (n : ℕ) (P : ℕ → Bool) (s : Spans) (c : ℕ)
    → Lists n P s c
    → P n ≡ true
    → reserved_blocks ≤ n
    → n + 1 < 2 ^ 32
    → c + 1 < 2 ^ 32
    → (t : Spans) × (span_add s n 1 ≡ some t) × Lists (suc n) P t (add32 c 1)
span_add-Lists n P s c l h k q q' =
    let joins = Joins-end s n l.live (λ b e. ground (arith, l.held b, e)) in
    let (t, e, a) =
      Added-some s n (span_add s n 1) (span_add-Added s n 1 l.live (omega arith) q joins) in
    (
      t,
      e,
      record {
        live = a.live;
        counted = ground (arith, a.counted, l.counted);
        held = λ b. elim (Bool-cases (n == b)) [
          | inl e ↦ (let e' : n ≡ b = ground arith in ground (arith, a.held b, l.held b, h, e'))
          | inr e ↦ ground (arith, a.held b, l.held b)
        ];
      },
    )
