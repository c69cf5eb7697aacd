-- ===== src/Db/Move/Laws.antt =====
-- `db_move_after` when no block can be had.
use fw.Base.{
  ℕ, zero, suc, ◌≡◌, refl, true, false, none, some, Option, List, ◌∷◌, Bool-cases, Option-cases,
  inl, inr, arith,
}
use fw.Db.Ft
use fw.Db.Span.{null, span_pull_one, span_pull_erase_block}
use fw.Db.Store.{done, stuck, Medium}
use fw.Db.Alloc.{get_erased_block}
use fw.Db.Field.{db_field_find}
use fw.Db.Entry.{Entry, Db, entry, get_block, block_for, db_change_field, db_delete_field}
use fw.Base.{[], not, ◌&&◌, ◌==◌}
use fw.Db.Move.{is_prev, bypass, bypass_all, follower, db_move_after, is_self}

-- No block is erased, deleted or empty.
pub record IsFull {S : Type 0} (d : Db S) : Type 0 where
  pub erased : d.pool.erased ≡ null
  pub deleted : d.pool.deleted ≡ null
  pub empty : d.pool.empty ≡ null

follower-is_prev :
    (cell : ℕ → Entry) (prev : Option ℕ) (a b : ℕ) (as' : List ℕ)
    → follower cell prev a as' ≡ some b
    → is_prev cell prev b ≡ true
unfolding follower
follower-is_prev cell prev a b [] h = absurd (ground arith)
follower-is_prev cell prev a b (c ∷ as') h =
    elim (Bool-cases (not (c == a) && is_prev cell prev c)) [
      | inl e ↦ (let same : c ≡ b = ground arith in rw (← same) (ground arith))
      | inr e ↦ follower-is_prev cell prev a b as' (ground arith)
    ]

module _ (m : Medium) (fuel : ℕ) where
  get_block-IsFull : (d : Db m.State) → IsFull d → get_block m (suc fuel) d ≡ done (none, d)
  unfolding get_block get_erased_block span_pull_one span_pull_erase_block
  get_block-IsFull d h = rw (h.erased, h.deleted, h.empty) refl

  block_for-IsFull :
      (d : Db m.State) (a : ℕ)
      → IsFull d
      → (d.cell a).defer ≡ false
      → block_for m (suc fuel) a d ≡ done (none, d)
  unfolding block_for entry
  block_for-IsFull d a h w = rw w (rw (get_block-IsFull d h) refl)

  bypass-IsFull :
      (d : Db m.State) (a b : ℕ)
      → IsFull d
      → (d.cell b).defer ≡ false
      → is_prev d.cell (some a) b ≡ true
      → bypass m (suc fuel) a b d ≡ done (false, d)
  unfolding bypass entry db_change_field db_delete_field is_prev
  bypass-IsFull d a b h w p = elim (Option-cases (db_field_find (d.cell a).fields Ft.prev)) [
    | inr (f, e) ↦ ground (arith, block_for-IsFull d b h w)
    | inl e ↦ elim (Option-cases (db_field_find (d.cell b).fields Ft.prev)) [
      | inr (f2, e2) ↦ ground (arith, block_for-IsFull d b h w)
      | inl e2 ↦ absurd (ground arith)
    ]
  ]

  bypass_all-stuck :
      (rounds a b : ℕ) (d : Db m.State)
      → IsFull d
      → follower d.cell (some a) a d.entries ≡ some b
      → (d.cell b).defer ≡ false
      → bypass_all m (suc fuel) rounds a d ≡ stuck
  unfolding bypass_all
  bypass_all-stuck zero a b d h f w = refl
  bypass_all-stuck (suc rounds) a b d h f w = rw f (
      rw (bypass-IsFull d a b h w (follower-is_prev d.cell (some a) a b d.entries f))
        (bypass_all-stuck rounds a b d h f w))

  -- Where the lists of erased, deleted and empty blocks are all NULL, the entry is not to be put after
  -- itself, and the first of the entries that follow it is not deferred, db_move_after runs for ever,
  -- however many rounds it is given.
  pub db_move_after-stuck :
      (rounds a b : ℕ) (after : Option ℕ) (d : Db m.State)
      → IsFull d
      → is_self a after ≡ false
      → follower d.cell (some a) a d.entries ≡ some b
      → (d.cell b).defer ≡ false
      → db_move_after m (suc fuel) rounds a after d ≡ stuck
  unfolding db_move_after
  db_move_after-stuck rounds a b after d h s f w =
      rw s (rw (bypass_all-stuck rounds a b d h f w) refl)
