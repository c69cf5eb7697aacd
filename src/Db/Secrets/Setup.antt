-- ===== src/Db/Secrets/Setup.antt =====
-- A new secret is found again with its PIN.
use fw.Base.{
  ℕ, zero, suc, ◌+◌, ◌≡◌, ◌≢◌, ◌<◌, ◌≤◌, refl, Bool, true, false, none, some, arith, sym, ◌∙◌,
  Bool-cases, inl, inr,
}
use fw.Base.{◌*◌, ◌&&◌, if◌then◌else◌}
use native.Mathlib.Nat.{suc-mul}
use fw.Base.{List, ◌++◌, ltb, length, length-append, length-replicate, replicate}
use mathlib.Core.Path.{subst}
use mathlib.Core.List.{append_assoc}
use fw.Db.Secrets.{
  storage_block_size, pad_blocks, Storage, Crypto, Secrets, master_hash, id_hash, xor_bytes,
  find_pad, apply_pad, is_older, seq_of, head_of, search, look_at, secrets_setup, erase_pads,
  first_block, secrets_new,
}
use fw.Db.Secrets.Bytes.{xor_bytes_twice, length-xor_bytes}
use fw.Db.Secrets.Pads.{find_pad-head}

abbrev pub erased_block : List ℕ
erased_block = replicate storage_block_size 255

-- What a storage of so many blocks promises: a block that is erased when it is written reads as what
-- was written; blocks that were erased read as all ones; and other blocks are not touched. Erasures
-- are of whole erase blocks.
pub record IsStorage (st : Storage) (storage_blocks : ℕ) : Type 0 where
  pub positive : 0 < st.erase_size
  pub read_written :
      (s s' : st.State) (buf : List ℕ) (n : ℕ)
      → n < storage_blocks
      → length buf ≡ storage_block_size
      → st.read s n ≡ some erased_block
      → st.write s buf n ≡ (true, s')
      → st.read s' n ≡ some buf
  pub read_other :
      (s s' : st.State) (buf : List ℕ) (n b : ℕ)
      → st.write s buf n ≡ (true, s')
      → b ≢ n
      → st.read s' b ≡ st.read s b
  pub read_erased :
      (s s' : st.State) (n k b : ℕ)
      → n ≡ k * st.erase_size
      → n < storage_blocks
      → st.erase_blocks s n st.erase_size ≡ (true, s')
      → n ≤ b
      → b < n + st.erase_size
      → st.read s' b ≡ some erased_block
  pub read_kept :
      (s s' : st.State) (n b : ℕ)
      → st.erase_blocks s n st.erase_size ≡ (true, s')
      → b < n
      → st.read s' b ≡ st.read s b

true_pair : {A : Type 0} (p : Bool × A) → p.0 ≡ true → p ≡ (true, p.1)
true_pair (true, a) e = refl
true_pair (false, a) e = absurd (ground arith)

-- Whether the erasures of `erase_pads` all succeed.
abbrev pub pads_erased : (st : Storage) → ℕ → st.State → ℕ → Bool
pads_erased st zero s n = true
pads_erased st (suc rounds) s n =
    let r = st.erase_blocks s n st.erase_size in
    let rest = pads_erased st rounds r.1 (n + st.erase_size) in
    if ltb n pad_blocks then r.0 && rest else true

and-left : (a b : Bool) → (a && b) ≡ true → a ≡ true
and-left a b h = ground arith

and-right : (a b : Bool) → (a && b) ≡ true → b ≡ true
and-right a b h = ground arith

module _ (st : Storage) (storage_blocks : ℕ) (laws : IsStorage st storage_blocks)
    (pads : pad_blocks ≤ storage_blocks) (c : Crypto) where
  erase_pads-erased :
      (rounds n k b : ℕ) (s : st.State)
      → n ≡ k * st.erase_size
      → pad_blocks ≤ n + rounds
      → pads_erased st rounds s n ≡ true
      → ((i : ℕ) → i < n → st.read s i ≡ some erased_block)
      → b < pad_blocks
      → st.read (erase_pads st c rounds s n) b ≡ some erased_block
  unfolding erase_pads
  erase_pads-erased zero n k b s z h w e l = e b (omega arith)
  erase_pads-erased (suc rounds) n k b s z h w e l = elim (Bool-cases (ltb n pad_blocks)) [
    | inr f ↦ rw f (e b (ground arith))
    | inl t ↦
        let r = st.erase_blocks s n st.erase_size in
        let both : (r.0 && pads_erased st rounds r.1 (n + st.erase_size)) ≡ true = rw t at w in
        let ok : r ≡ (true, r.1) = true_pair r (and-left _ _ both) in
        let up : n + st.erase_size ≡ suc k * st.erase_size =
          omega (arith, z, suc-mul k st.erase_size) in
        rw t (
          erase_pads-erased rounds (n + st.erase_size) (suc k) b r.1 up
            (omega (arith, laws.positive)) (and-right _ _ both)
            (λ i q. elim (Bool-cases (ltb i n)) [
              | inl below ↦ laws.read_kept s r.1 n i ok (ground arith) ∙ e i (ground arith)
              | inr g ↦ laws.read_erased s r.1 n k i z (ground (arith, pads)) ok (ground arith) q
            ])
            l)
  ]

  -- Erased blocks do not take the place of what was found.
  search-erased :
      (rounds n : ℕ) (s : st.State) (pattern id secret : List ℕ)
      → 0 < n
      → ((b : ℕ) → 0 < b → b < pad_blocks → st.read s b ≡ some erased_block)
      → search st c rounds s pattern id n (some (0, secret, 0)) ≡ some (0, secret, 0)
  unfolding search apply_pad is_older
  search-erased zero n s pattern id secret h e = refl
  search-erased (suc rounds) n s pattern id secret h e = elim (Bool-cases (ltb n pad_blocks)) [
    | inr f ↦ rw f refl
    | inl t ↦
        rw (t, e n h (ground arith))
          (search-erased rounds (n + st.erase_size) s pattern id secret (omega arith) e)
  ]

  first_pads :
      (pattern id secret : List ℕ)
      → length pattern ≡ 32
      → length id ≡ 32
      → length secret ≡ 32
      → look_at st c pattern id 0 (some (first_block st c pattern id secret)) none
        ≡ some (0, secret, 0)
  unfolding apply_pad is_older first_block head_of seq_of
  first_pads pattern id secret p i k =
      let pad = xor_bytes pattern secret in
      let m : length pad ≡ 32 = length-xor_bytes pattern secret (p ∙ sym k) ∙ k in
      let l : length (id ++ (pad ++ replicate 928 255)) ≡ 992 = omega (
        arith,
        length-append id (pad ++ replicate 928 255),
        length-append pad (replicate 928 255),
        length-replicate {A = ℕ} 928 255,
        m,
      ) in
      let f : find_pad 992 pattern id ((id ++ pad) ++ replicate 928 255)
          ≡ some (xor_bytes pattern pad) =
        find_pad-head 991 pattern id pad (replicate 928 255) i m in
      let f' : find_pad 992 pattern id (id ++ (pad ++ replicate 928 255))
          ≡ some (xor_bytes pattern pad) =
        subst (λ b. find_pad 992 pattern id b ≡ some (xor_bytes pattern pad))
          (append_assoc id pad (replicate 928 255)) f in
      rw (l, f', xor_bytes_twice pattern secret (omega arith)) refl

  -- Storage with the first block of a new secret, and erased ones behind it.
  search-first_block :
      (s : st.State) (pattern id secret : List ℕ)
      → length pattern ≡ 32
      → length id ≡ 32
      → length secret ≡ 32
      → st.read s 0 ≡ some (first_block st c pattern id secret)
      → ((b : ℕ) → 0 < b → b < pad_blocks → st.read s b ≡ some erased_block)
      → search st c pad_blocks s pattern id 0 none ≡ some (0, secret, 0)
  unfolding search
  search-first_block s pattern id secret p i k r e =
      rw (r, first_pads pattern id secret p i k)
        (search-erased 7 (0 + st.erase_size) s pattern id secret (omega (arith, laws.positive)) e)

  length-first_block :
      (pattern id secret : List ℕ)
      → length pattern ≡ 32
      → length id ≡ 32
      → length secret ≡ 32
      → length (first_block st c pattern id secret) ≡ storage_block_size
  unfolding first_block head_of
  length-first_block pattern id secret p i k =
      let pad = xor_bytes pattern secret in
      omega (
        arith,
        length-append id (pad ++ replicate 928 255),
        length-append pad (replicate 928 255),
        length-replicate {A = ℕ} 928 255,
        length-xor_bytes pattern secret (p ∙ sym k),
        p,
        i,
        k,
      )

  -- With hashes of 32 bytes, storage that keeps its promises and has room for the pads, and a secret of
  -- 32 bytes, when the erasures of the blocks with pads all succeed and secrets_new then succeeds, that
  -- is, can write the block, secrets_setup finds that secret from then on with the same PIN, also
  -- after a restart of the device, in block 0 and with the number 0, whatever the storage held before.
  pub secrets_new-setup :
      (s : st.State) (x y : Secrets) (fresh : List ℕ) (pin : ℕ)
      → ((bytes : List ℕ) → length (c.sha256 bytes) ≡ 32)
      → length fresh ≡ 32
      → pads_erased st pad_blocks s 0 ≡ true
      → (secrets_new st c s x fresh pin).0 ≡ true
      → y.device_secret ≡ x.device_secret
      → secrets_setup st c (secrets_new st c s x fresh pin).2 y pin ≡ some (0, fresh, 0)
  unfolding secrets_new secrets_setup master_hash id_hash
  secrets_new-setup s x y fresh pin h k all w d =
      let erased = erase_pads st c pad_blocks s 0 in
      let pattern = master_hash c x.device_secret pin in
      let id = id_hash c x.device_secret pin in
      let buf = first_block st c pattern id fresh in
      let (ok, s') = st.write erased buf 0 in
      let e : st.write erased buf 0 ≡ (true, s') = true_pair (st.write erased buf 0) w in
      let blank = λ (b : ℕ) (l : b < pad_blocks).
        erase_pads-erased pad_blocks 0 0 b s (omega arith) (omega arith) all
          (λ i n. absurd (omega arith)) l in
      rw d (
        search-first_block s' pattern id fresh (h _) (h _) k
          (laws.read_written erased s' buf 0 (omega (arith, pads))
            (length-first_block pattern id fresh (h _) (h _) k) (blank 0 (omega arith)) e)
          (λ b p q. laws.read_other erased s' buf 0 b e (λ z. omega (arith, z)) ∙ blank b q))
