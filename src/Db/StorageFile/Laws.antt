-- ===== src/Db/StorageFile/Laws.antt =====
-- The storage in a file, against what the users of a storage rely on.
use fw.Base.{
  ℕ, zero, suc, ◌+◌, ◌%◌, ◌≡◌, ◌≢◌, ◌<◌, ◌≤◌, refl, true, false, ◌&&◌, some, arith, sym, ap, ◌∙◌,
  Bool-cases, inl, inr, List, [], ◌∷◌, ◌==◌, ltb, length, replicate, some_inj, dec_lt,
}
use fw.Db.Secrets.{storage_block_size}
use fw.Db.Secrets.Setup.{erased_block, IsStorage}
use fw.Db.StorageFile.{
  erase_size, File, put_block, and_bytes, storage_read_block, do_write_block, storage_write_block,
  erase_from, storage_erase_blocks, file_storage,
}

and_bytes-erased : (n : ℕ) (buf : List ℕ) → length buf ≡ n → and_bytes (replicate n 255) buf ≡ buf
unfolding and_bytes
and_bytes-erased zero [] h = refl
and_bytes-erased zero (q ∷ qs) h = absurd (omega arith)
and_bytes-erased (suc n) [] h = absurd (omega arith)
and_bytes-erased (suc n) (q ∷ qs) h = ap (◌∷◌ q) (and_bytes-erased n qs (omega arith))

module _ (total : ℕ) where
  -- A write that succeeds is of a block of the file.
  do_write_block-true :
      (buf : List ℕ) (n : ℕ) (s s' : File)
      → do_write_block total buf n s ≡ (true, s')
      → (ltb n total ≡ true) × (put_block buf n s ≡ s')
  unfolding do_write_block
  do_write_block-true buf n s s' e = elim (Bool-cases (ltb n total)) [
    | inl t ↦ (t, ap (λ r. r.1) (rw t at e))
    | inr f ↦ absurd (let no = ap (λ r. r.0) (rw f at e) in ground arith)
  ]

  read_put :
      (buf : List ℕ) (n : ℕ) (s : File)
      → ltb n total ≡ true
      → storage_read_block total (put_block buf n s) n ≡ some buf
  unfolding storage_read_block
  read_put buf n s t = let same : (n == n) ≡ true = ground arith in rw (t, same) refl

  read_put_other :
      (buf : List ℕ) (n b : ℕ) (s : File)
      → b ≢ n
      → storage_read_block total (put_block buf n s) b ≡ storage_read_block total s b
  unfolding storage_read_block
  read_put_other buf n b s h = let other : (b == n) ≡ false = ground (arith, h) in rw other refl

  -- One round of the loop that erases.
  erase_from-round :
      (left n : ℕ) (s s' : File)
      → erase_from total (suc left) n s ≡ (true, s')
      → (ltb n total ≡ true)
        × (erase_from total left (n + 1) (put_block erased_block n s) ≡ (true, s'))
  unfolding erase_from do_write_block
  erase_from-round left n s s' e = elim (Bool-cases (ltb n total)) [
    | inl t ↦ (t, rw t at e)
    | inr f ↦ absurd (let no = ap (λ r. r.0) (rw f at e) in ground arith)
  ]

  erase_from-kept :
      (left n b : ℕ) (s s' : File)
      → erase_from total left n s ≡ (true, s')
      → b < n
      → storage_read_block total s' b ≡ storage_read_block total s b
  unfolding erase_from
  erase_from-kept zero n b s s' e h = ap (λ r. storage_read_block total r.1 b) (sym e)
  erase_from-kept (suc left) n b s s' e h =
      erase_from-kept left (n + 1) b (put_block erased_block n s) s'
        (erase_from-round left n s s' e).1 (omega arith)
      ∙ read_put_other erased_block n b s (λ z. omega (arith, z, h))

  erase_from-erased :
      (left n b : ℕ) (s s' : File)
      → erase_from total left n s ≡ (true, s')
      → n ≤ b
      → b < n + left
      → storage_read_block total s' b ≡ some erased_block
  erase_from-erased zero n b s s' e h k = absurd (omega arith)
  erase_from-erased (suc left) n b s s' e h k =
      let (t, rest) = erase_from-round left n s s' e in
      let s1 = put_block erased_block n s in
      elim (dec_lt n b) [
        | yes more ↦ erase_from-erased left (n + 1) b s1 s' rest (omega arith) (omega arith)
        | no here ↦
            let at : n ≡ b = omega arith in
            erase_from-kept left (n + 1) b s1 s' rest (omega arith)
            ∙ rw (← at) (read_put erased_block n s t)
      ]

  erasure-runs :
      (n k : ℕ) (s s' : File)
      → storage_erase_blocks total s n k ≡ (true, s')
      → erase_from total k n s ≡ (true, s')
  unfolding storage_erase_blocks
  erasure-runs n k s s' e = elim (Bool-cases ((n % erase_size == 0) && (k % erase_size == 0))) [
    | inl t ↦ rw t at e
    | inr f ↦ absurd (let no = ap (λ r. r.0) (rw f at e) in ground arith)
  ]

  write-put :
      (s s' : File) (buf : List ℕ) (n : ℕ)
      → length buf ≡ storage_block_size
      → storage_read_block total s n ≡ some erased_block
      → storage_write_block total s buf n ≡ (true, s')
      → storage_read_block total s' n ≡ some buf
  unfolding storage_write_block storage_read_block
  write-put s s' buf n l r e =
      let (t, w) = do_write_block-true (and_bytes (s n) buf) n s s' e in
      let blank : s n ≡ erased_block = some_inj (rw t at r) in
      ap (λ f. storage_read_block total f n) (sym w)
      ∙ (read_put (and_bytes (s n) buf) n s t
          ∙ ap some
              (ap (λ old. and_bytes old buf) blank ∙ and_bytes-erased storage_block_size buf l))

pub file_storage-IsStorage : (total_blocks : ℕ) → IsStorage (file_storage total_blocks) total_blocks
unfolding storage_write_block
file_storage-IsStorage total = record {
  positive = omega arith;
  read_written = λ s s' buf n h l r e. write-put total s s' buf n l r e;
  read_other = λ s s' buf n b e h.
      let w = do_write_block-true total (and_bytes (s n) buf) n s s' e in
      ap (λ t. storage_read_block total t b) (sym w.1)
      ∙ read_put_other total (and_bytes (s n) buf) n b s h;
  read_erased = λ s s' n k b z h e p q.
      erase_from-erased total erase_size n b s s' (erasure-runs total n erase_size s s' e) p q;
  read_kept = λ s s' n b e h.
      erase_from-kept total erase_size n b s s' (erasure-runs total n erase_size s s' e) h;
}
