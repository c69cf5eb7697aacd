-- ===== src/Db/Secrets/Change.antt =====
-- `secrets_change` of db/secrets.c: a new PIN, with a new pad in a new block.
use fw.Base.{ℕ, zero, suc, ◌+◌, ◌%◌, ◌^◌, Bool, true, false, not, Option, none, some}
use fw.Base.{List, ◌++◌, ◌==◌, ltb, drop, if◌then◌else◌}
use mathlib.Core.Option
use fw.Db.Secrets.{
  pad_blocks, Storage, Crypto, Secrets, master_hash, id_hash, xor_bytes, all_ff, change_pad, seq_of,
  head_of,
}

-- The block for a new pad, and whether it is erased already.
abbrev pub Choice : Type 0
Choice = Option (Bool × ℕ)

-- The best block so far, with its number, and the next one.
abbrev pub better : Option (ℕ × ℕ) → ℕ → ℕ → Option (ℕ × ℕ)
better none seq n = some (seq, n)
better (some (best_seq, new_block)) seq n =
    if ltb seq best_seq then some (seq, n) else some (best_seq, new_block)

abbrev pub to_erase : Option (ℕ × ℕ) → Choice
to_erase none = none
to_erase (some (best_seq, new_block)) = some (false, new_block)

module _ (st : Storage) where
  -- The search of `secrets_change` for a block; it reads the block `pad_block` each time.
  unfoldable pub choose_block : ℕ → st.State → ℕ → ℕ → Option (ℕ × ℕ) → Choice
  unfolding all_ff seq_of
  choose_block zero s pad_block n best = to_erase best
  choose_block (suc rounds) s pad_block n best =
      let next = choose_block rounds s pad_block (n + st.erase_size) in
      if not (ltb n pad_blocks)
      then to_erase best
      else if n == pad_block
      then next best
      else elim (st.read s pad_block) [
        | none ↦ next best
        | some buf ↦ if all_ff buf then some (true, n) else next (better best (seq_of buf) n)
      ]

  -- The erasure of the block, if it is not erased; without a block the change is given up.
  abbrev pub prepare : st.State → Choice → Option ℕ × st.State
  prepare s none = (none, s)
  prepare s (some (true, n)) = (some n, s)
  prepare s (some (false, n)) =
      let (ok, s') = st.erase_blocks s n st.erase_size in (if ok then some n else none, s')

  -- The block with the pad changed.
  unfoldable pub changed_block : ℕ → List ℕ → List ℕ → List ℕ → List ℕ → Option (List ℕ)
  unfolding change_pad head_of
  changed_block seq buf old_id new_id new_pad =
      Option.map (λ pads. head_of seq ++ pads) (change_pad (drop 32 buf) old_id new_id new_pad)

  -- The last steps: the new block is written, and the old one erased.
  unfoldable pub replace_block : st.State → Secrets → ℕ → ℕ → List ℕ → Bool × Secrets × st.State
  replace_block s x pad_block new_block buf =
      let (ok, s1) = st.write s buf new_block in
      let (ok', s2) = st.erase_blocks s1 pad_block st.erase_size in
      if not ok
      then (false, x, s1)
      else if not ok'
      then (false, x, s2)
      else (true, record x { pad_block = some new_block; pad_seq = (x.pad_seq + 1) % 2 ^ 16 }, s2)

  module _ (c : Crypto) where
    -- What follows the choice of a block, from the label `erased` on.
    unfoldable pub change_in : st.State → Secrets → ℕ → ℕ → ℕ → ℕ → Bool × Secrets × st.State
    unfolding changed_block replace_block master_hash id_hash xor_bytes
    change_in s x pad_block new_block old_pin new_pin =
        let pattern = master_hash c x.device_secret new_pin in
        elim (st.read s pad_block) [
          | none ↦ (false, x, s)
          | some buf ↦
              elim (changed_block ((x.pad_seq + 1) % 2 ^ 16) buf (id_hash c x.device_secret old_pin)
                (id_hash c x.device_secret new_pin) (xor_bytes pattern x.master_secret)) [
                  | none ↦ (false, x, s)
                  | some buf' ↦ replace_block s x pad_block new_block buf'
                ]
        ]

    abbrev pub change_chosen : Secrets → ℕ → ℕ → ℕ → Option ℕ × st.State → Bool × Secrets × st.State
    change_chosen x pad_block old_pin new_pin (none, s) = (false, x, s)
    change_chosen x pad_block old_pin new_pin (some new_block, s) =
        change_in s x pad_block new_block old_pin new_pin

    unfoldable pub secrets_change : st.State → Secrets → ℕ → ℕ → Option (Bool × Secrets × st.State)
    unfolding choose_block change_in
    secrets_change s x old_pin new_pin = elim x.pad_block [
      | none ↦ none
      | some pad_block ↦
          if not x.have_pad
          then none
          else some (
              change_chosen x pad_block old_pin new_pin
                (prepare s (choose_block pad_blocks s pad_block 0 none)))
    ]
