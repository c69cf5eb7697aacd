-- ===== src/Db/StorageFile.antt =====
-- The storage in a file (db/storage-file.c), which behaves like flash memory.
--
-- The file has some number of blocks, and its input and output do not fail, since the program exits
-- where they do. A failed assertion is a failure of the operation.
pub mod Laws
use fw.Base.{ℕ, zero, suc, ◌+◌, ◌%◌, Bool, true, false, ◌&&◌, Option, none, some, List, [], ◌∷◌}
use fw.Base.{◌==◌, ltb, replicate, if◌then◌else◌}
use Prim.Native.Nat.{bit_and}
use fw.Db.Secrets.{Storage, storage_block_size}

-- `ERASE_SIZE`
abbrev pub erase_size : ℕ
erase_size = 4

-- The blocks of the file, by their numbers.
abbrev pub File : Type 0
File = ℕ → List ℕ

abbrev pub put_block : List ℕ → ℕ → File → File
put_block buf n s b = if b == n then buf else s b

-- `*p &= *q++`, byte by byte; with 255 that is the new byte.
unfoldable pub and_bytes : List ℕ → List ℕ → List ℕ
and_bytes [] qs = []
and_bytes (p ∷ ps) [] = []
and_bytes (p ∷ ps) (q ∷ qs) = (if p == 255 then q else bit_and p q) ∷ and_bytes ps qs

module _ (total_blocks : ℕ) where
  unfoldable pub storage_read_block : File → ℕ → Option (List ℕ)
  storage_read_block s n = if ltb n total_blocks then some (s n) else none

  unfoldable pub do_write_block : List ℕ → ℕ → File → Bool × File
  do_write_block buf n s = if ltb n total_blocks then (true, put_block buf n s) else (false, s)

  unfoldable pub storage_write_block : File → List ℕ → ℕ → Bool × File
  unfolding do_write_block and_bytes
  storage_write_block s buf n = do_write_block (and_bytes (s n) buf) n s

  -- The loop over the blocks, with so many left.
  unfoldable pub erase_from : ℕ → ℕ → File → Bool × File
  unfolding do_write_block
  erase_from zero n s = (true, s)
  erase_from (suc left) n s =
      let r = do_write_block (replicate storage_block_size 255) n s in
      let rest = erase_from left (n + 1) r.1 in if r.0 then rest else (false, r.1)

  unfoldable pub storage_erase_blocks : File → ℕ → ℕ → Bool × File
  unfolding erase_from
  storage_erase_blocks s n n_blocks =
      if (n % erase_size == 0) && (n_blocks % erase_size == 0)
      then erase_from n_blocks n s
      else (false, s)

  abbrev pub file_storage : Storage
  file_storage = record {
    State = File;
    erase_size = erase_size;
    read = storage_read_block;
    write = storage_write_block;
    erase_blocks = storage_erase_blocks;
  }
