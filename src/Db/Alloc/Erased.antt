-- ===== src/Db/Alloc/Erased.antt =====
-- Where the blocks that `get_erased_block` hands out come from, and that its loop ends.
use fw.Base.{ℕ, zero, suc, ◌+◌, ◌≤◌, ◌<◌, ◌≡◌, ◌≢◌, refl, arith}
use fw.Base.{Option, none, some, inl, inr, Bool-cases, ◌==◌, ◌||◌}
use fw.Base.{ap, ◌∙◌}
use mathlib.Core.Path.{subst, subst⁻¹}
use fw.Db.Span.{Spans, null, sub32, span_pull_one}
use fw.Db.Span.{Pulled}
use fw.Db.Span.Blocks.{span_pull_one-null, IsLive, holds, count, PulledOne, span_pull_one-PulledOne}
use fw.Db.Span.Erase.{IsSound, Shrinks, span_pull_erase_block-Shrinks}
use fw.Db.Store.{Outcome, done, fault, stuck, Medium, Pool}
use fw.Db.Alloc.{Allocated, Attempt, again, go_on, crash, try_empty, try_deleted}
use fw.Db.Alloc.{from_empty, from_deleted, after_deleted, after_empty, get_erased_block}

module _ (m : Medium) where
  -- The list of erased blocks after an attempt.
  abbrev KeepsErased : Spans → Attempt m → Type 0
  KeepsErased e (again p s) = p.erased ≡ e
  KeepsErased e (go_on p s) = p.erased ≡ e
  KeepsErased e crash = Unit

  try_empty-KeepsErased : (p : Pool) (s : m.State) → KeepsErased p.erased (try_empty m p s)
  unfolding try_empty
  try_empty-KeepsErased p s = ground arith

  try_deleted-KeepsErased : (p : Pool) (s : m.State) → KeepsErased p.erased (try_deleted m p s)
  unfolding try_deleted
  try_deleted-KeepsErased p s = ground arith

  -- The outcome gives no block.
  abbrev pub NoBlock : Outcome (Allocated m) → Type 0
  NoBlock (done (b, p, s)) = b ≡ none
  NoBlock fault = Unit
  NoBlock stuck = Unit

  after_deleted-NoBlock :
      (round : Pool → m.State → Outcome (Allocated m)) (a : Attempt m)
      → ((p : Pool) (s : m.State) → p.erased ≡ null → NoBlock (round p s))
      → KeepsErased null a
      → NoBlock (after_deleted m round a)
  unfolding after_deleted
  after_deleted-NoBlock round (again p s) h k = h p s k
  after_deleted-NoBlock round (go_on p s) h k = refl
  after_deleted-NoBlock round crash h k = tt

  after_empty-NoBlock :
      (round : Pool → m.State → Outcome (Allocated m)) (a : Attempt m)
      → ((p : Pool) (s : m.State) → p.erased ≡ null → NoBlock (round p s))
      → KeepsErased null a
      → NoBlock (after_empty m round a)
  unfolding after_empty
  after_empty-NoBlock round (again p s) h k = h p s k
  after_empty-NoBlock round (go_on p s) h k =
      after_deleted-NoBlock round _ h
        (subst (λ e. KeepsErased e (try_deleted m p s)) k (try_deleted-KeepsErased p s))
  after_empty-NoBlock round crash h k = tt

  -- A round that finds no erased block.
  round_empty :
      (fuel : ℕ) (p : Pool) (s : m.State)
      → p.erased ≡ null
      → get_erased_block m (suc fuel) p s
        ≡ after_empty m (get_erased_block m fuel) (try_empty m (record p { erased = null }) s)
  unfolding get_erased_block
  round_empty fuel p s h =
      let e : span_pull_one p.erased ≡ some (none, null) =
        ap span_pull_one h ∙ span_pull_one-null in
      rw (e, get_erased_block)

  -- If the list of erased blocks is empty, `get_erased_block` hands out no block, whatever groups it
  -- erases: the erased blocks are counted, and not put into the list.
  pub get_erased_block-NoBlock :
      (fuel : ℕ) (p : Pool) (s : m.State) → p.erased ≡ null → NoBlock (get_erased_block m fuel p s)
  get_erased_block-NoBlock zero p s h = unfold get_erased_block in tt
  get_erased_block-NoBlock (suc fuel) p s h = subst⁻¹ NoBlock (round_empty fuel p s h) (
      after_empty-NoBlock (get_erased_block m fuel) _ (get_erased_block-NoBlock fuel)
        (try_empty-KeepsErased (record p { erased = null }) s))

  -- The blocks that the loop can still turn into erased ones, none of them in a list that wraps.
  abbrev pub IsSoundPool : Pool → Type 0
  IsSoundPool p = IsSound p.empty m.erase_size × IsSound p.deleted m.erase_size

  abbrev pub supply : Pool → ℕ
  supply p = count p.empty + count p.deleted

  abbrev Attempted : ℕ → Attempt m → Type 0
  Attempted k (again p s) = IsSoundPool p × (supply p + m.erase_size ≤ k)
  Attempted k (go_on p s) = IsSoundPool p × (supply p ≤ k)
  Attempted k crash = Unit

  from_empty-Attempted :
      (p : Pool) (s : m.State) (r : Option Pulled)
      → IsSoundPool p
      → Shrinks p.empty m.erase_size r
      → Attempted (supply p) (from_empty m p s r)
  unfolding from_empty
  from_empty-Attempted p s none v h = tt
  from_empty-Attempted p s (some (none, t)) v h =
      ((subst⁻¹ (λ e. IsSound e m.erase_size) h v.0, v.1), omega (arith, ap count h))
  from_empty-Attempted p s (some (some n, t)) v h =
      elim (Bool-cases (m.erase_blocks s n m.erase_size).0) [
        | inl e ↦ simp e ((h.0, v.1), omega arith)
        | inr e ↦ simp e ((h.0, v.1), omega arith)
      ]

  from_deleted-Attempted :
      (p : Pool) (s : m.State) (r : Option Pulled)
      → IsSoundPool p
      → Shrinks p.deleted m.erase_size r
      → Attempted (supply p) (from_deleted m p s r)
  unfolding from_deleted
  from_deleted-Attempted p s none v h = tt
  from_deleted-Attempted p s (some (none, t)) v h =
      ((v.0, subst⁻¹ (λ e. IsSound e m.erase_size) h v.1), omega (arith, ap count h))
  from_deleted-Attempted p s (some (some n, t)) v h =
      elim (Bool-cases (m.erase_blocks s n m.erase_size).0) [
        | inl e ↦ simp e ((v.0, h.0), omega arith)
        | inr e ↦ simp e ((v.0, h.0), omega arith)
      ]

  after_empty-ne-stuck :
      (round : Pool → m.State → Outcome (Allocated m)) (a : Attempt m) (k : ℕ)
      → 0 < m.erase_size
      → ((p : Pool) (s : m.State)
          → IsSoundPool p
          → p.erased ≡ null
          → supply p + m.erase_size ≤ k
          → round p s ≢ stuck)
      → Attempted k a
      → KeepsErased null a
      → after_empty m round a ≢ stuck
  unfolding after_empty after_deleted
  after_empty-ne-stuck round crash k z h v e = λ q. cc
  after_empty-ne-stuck round (again p s) k z h v e = h p s v.0 e v.1
  after_empty-ne-stuck round (go_on p s) k z h v e =
      go (try_deleted m p s)
        (unfold try_deleted in
          from_deleted-Attempted p s _ v.0
            (span_pull_erase_block-Shrinks p.deleted m.erase_size v.0.1 z))
        (subst (λ x. KeepsErased x (try_deleted m p s)) e (try_deleted-KeepsErased p s))
    where
      go :
          (a : Attempt m)
          → Attempted (supply p) a
          → KeepsErased null a
          → after_deleted m round a ≢ stuck
      go crash w f = λ q. cc
      go (again p' s') w f = h p' s' w.0 f (omega (arith, w.1, v.1))
      go (go_on p' s') w f = λ q. cc

  -- The loop ends, by a block, by -1 or by a fault, if each round is given one unit of fuel for a
  -- block that can be erased.
  pub get_erased_block-ne-stuck :
      (fuel : ℕ) (p : Pool) (s : m.State)
      → 0 < m.erase_size
      → IsSoundPool p
      → p.erased ≡ null
      → supply p < fuel
      → get_erased_block m fuel p s ≢ stuck
  get_erased_block-ne-stuck zero p s z v e h = absurd (omega arith)
  get_erased_block-ne-stuck (suc fuel) p s z v e h =
      subst⁻¹ (λ o. o ≢ stuck) (round_empty fuel p s e)
        (after_empty-ne-stuck (get_erased_block m fuel) _ (supply p) z
          (λ p' s' v' e' h'. get_erased_block-ne-stuck fuel p' s' z v' e' (omega arith))
          (unfold try_empty in
            from_empty-Attempted (record p { erased = null }) s _ v
              (span_pull_erase_block-Shrinks p.empty m.erase_size v.0 z))
          (try_empty-KeepsErased (record p { erased = null }) s))

  -- While the list of erased blocks holds one, `get_erased_block` takes a block out of it and counts
  -- it off, and touches neither the medium nor the other lists.
  pub get_erased_block_ready :
      (fuel : ℕ) (p : Pool) (s : m.State)
      → IsLive p.erased
      → p.erased ≢ null
      → (n : ℕ) × (t : Spans) × (get_erased_block m (suc fuel) p s
          ≡ done (
            some n,
            record p { erased = t; stats = record p.stats { erased = sub32 p.stats.erased 1 } },
            s,
          ))
        × IsLive t
        × (count t + 1 ≡ count p.erased)
        × ((b : ℕ) → holds p.erased b ≡ ((n == b) || holds t b))
  get_erased_block_ready fuel p s v ne =
      go (span_pull_one p.erased) refl (span_pull_one-PulledOne p.erased v)
    where
      go :
          (r : Option Pulled)
          → span_pull_one p.erased ≡ r
          → PulledOne p.erased r
          → (n : ℕ) × (t : Spans) × (get_erased_block m (suc fuel) p s
              ≡ done (
                some n,
                record p { erased = t; stats = record p.stats { erased = sub32 p.stats.erased 1 } },
                s,
              ))
            × IsLive t
            × (count t + 1 ≡ count p.erased)
            × ((b : ℕ) → holds p.erased b ≡ ((n == b) || holds t b))
      go none e h = elim h [ ]
      go (some (none, t)) e h = absurd (ne h.0)
      go (some (some n, t)) e h =
          (n, t, unfold get_erased_block in rw (e, get_erased_block), h.0, h.1, h.2)
