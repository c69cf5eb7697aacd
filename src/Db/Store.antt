-- ===== src/Db/Store.antt =====
-- What db/db.c uses of the blocks below it (db/block.h, db/storage.h), and the state that its block
-- accounting works on.
use fw.Base.{ℕ, Bool, List}
use fw.Db.Span.{Spans}

-- The outcome of an operation: a value, an access to freed memory, or no more fuel.
pub data Outcome {ℓ} (A : Type ℓ) : Type ℓ where
  done : A → Outcome A
  fault : Outcome A
  stuck : Outcome A

-- `storage_erase_blocks`, `block_write` (of a type, a sequence number and a payload) and
-- `block_delete`, on some state of the medium; each says whether it succeeded.
pub record Medium : Type 1 where
  pub State : Type 0
  pub erase_size : ℕ
  pub erase_blocks : State → ℕ → ℕ → Bool × State
  pub write : State → ℕ → ℕ → List ℕ → ℕ → Bool × State
  pub delete : State → ℕ → Bool × State

-- `struct db_stats`; the counters are `unsigned`.
pub record Stats : Type 0 where
  pub total : ℕ
  pub erased : ℕ
  pub deleted : ℕ
  pub empty : ℕ
  pub invalid : ℕ
  pub error : ℕ
  pub data_blocks : ℕ
  pub special : ℕ

-- The part of `struct db` that the allocation of blocks works on: the counters and the span lists.
pub record Pool : Type 0 where
  pub stats : Stats
  pub erased : Spans
  pub deleted : Spans
  pub empty : Spans
