-- ===== src/Db/Alloc.antt =====
-- `get_erased_block` of db/db.c: an erased block, if need be after erasing a group of blocks.
pub mod Erased
use fw.Base.{ℕ, zero, suc, ◌+◌, ◌-◌, ◌%◌, ◌^◌, Bool, true, false, Option, none, some, if◌then◌else◌}
use fw.Db.Span.{Pulled, Spans, add32, sub32, span_pull_one, span_pull_erase_block}
use fw.Db.Store.{Outcome, done, fault, stuck, Medium, Stats, Pool}

-- The block (`none` is -1), the pool and the medium afterwards.
abbrev pub Allocated : Medium → Type 0
Allocated m = Option ℕ × Pool × m.State

-- The counters move `k` blocks from one state to another.
abbrev pub count_erased : ℕ → Pool → Pool
count_erased k p = record p { stats = record p.stats { erased = add32 p.stats.erased k } }

abbrev pub count_error : ℕ → Pool → Pool
count_error k p = record p { stats = record p.stats { error = add32 p.stats.error k } }

-- What came of one of the two attempts of a round to erase a group of blocks: it was erased and the
-- loop goes on, or the function falls through to what follows.
pub data Attempt (m : Medium) : Type 0 where
  again : Pool → m.State → Attempt m
  go_on : Pool → m.State → Attempt m
  crash : Attempt m

module _ (m : Medium) where
  -- The erasure of the group at `n`, which is no longer in the pool.
  unfoldable pub try_erase : ℕ → Pool → m.State → Attempt m
  try_erase n p s =
      let (erased, s') = m.erase_blocks s n m.erase_size in
      if erased
      then again (count_erased m.erase_size p) s'
      else go_on (count_error m.erase_size p) s'

  -- An attempt, by what `span_pull_erase_block` gave.
  unfoldable pub from_empty : Pool → m.State → Option Pulled → Attempt m
  unfolding try_erase
  from_empty p s none = crash
  from_empty p s (some (none, t)) = go_on (record p { empty = t }) s
  from_empty p s (some (some n, t)) =
      try_erase n
        (record p {
          empty = t;
          stats = record p.stats { empty = sub32 p.stats.empty m.erase_size };
        })
        s

  unfoldable pub try_empty : Pool → m.State → Attempt m
  unfolding from_empty
  try_empty p s = from_empty p s (span_pull_erase_block p.empty m.erase_size)

  unfoldable pub from_deleted : Pool → m.State → Option Pulled → Attempt m
  unfolding try_erase
  from_deleted p s none = crash
  from_deleted p s (some (none, t)) = go_on (record p { deleted = t }) s
  from_deleted p s (some (some n, t)) =
      try_erase n
        (record p {
          deleted = t;
          stats = record p.stats { deleted = sub32 p.stats.deleted m.erase_size };
        })
        s

  unfoldable pub try_deleted : Pool → m.State → Attempt m
  unfolding from_deleted
  try_deleted p s = from_deleted p s (span_pull_erase_block p.deleted m.erase_size)

  -- What follows the second attempt and the first, with the next round.
  unfoldable pub after_deleted :
      (Pool → m.State → Outcome (Allocated m)) → Attempt m → Outcome (Allocated m)
  after_deleted round crash = fault
  after_deleted round (again p s) = round p s
  after_deleted round (go_on p s) = done (none, p, s)

  unfoldable pub after_empty :
      (Pool → m.State → Outcome (Allocated m)) → Attempt m → Outcome (Allocated m)
  unfolding try_deleted after_deleted
  after_empty round crash = fault
  after_empty round (again p s) = round p s
  after_empty round (go_on p s) = after_deleted round (try_deleted p s)

  -- The `while (1)` loop; `stuck` means that the fuel ran out.
  unfoldable pub get_erased_block : ℕ → Pool → m.State → Outcome (Allocated m)
  unfolding try_empty after_empty
  get_erased_block zero p s = stuck
  get_erased_block (suc fuel) p s = elim (span_pull_one p.erased) [
    | none ↦ fault
    | some (some n, t) ↦ done (
      some n,
      record p { erased = t; stats = record p.stats { erased = sub32 p.stats.erased 1 } },
      s,
    )
    | some (none, t) ↦ after_empty (get_erased_block fuel) (try_empty (record p { erased = t }) s)
  ]
