-- ===== src/Db/Secrets.antt =====
-- The master secret and the pads that hide it (db/secrets.c).
--
-- A pad is what the pattern of a PIN has to be XOR-ed with to give the master secret; it is stored
-- with the identity of the PIN. The storage, the hash function, the product of curve points and the
-- random bytes are arguments. `none` is a failed assertion.
pub mod Bytes
pub mod Pads
pub mod Change
pub mod Setup
use fw.Base.{
  ℕ, zero, suc, ◌+◌, ◌-◌, ◌*◌, ◌/◌, ◌%◌, ◌^◌, Bool, true, false, not, ◌&&◌, ◌||◌, Option, none,
  some,
}
use fw.Base.{List, [], ◌∷◌, ◌++◌, ◌==◌, ltb, leb, length, take, drop, replicate, if◌then◌else◌}
use Prim.Native.Nat.{bit_xor}
use mathlib.Core.Option
use fw.Db.Entry.{bytes_eq}

-- `MASTER_SECRET_BYTES`, `STORAGE_BLOCK_SIZE` and `PAD_BLOCKS`
abbrev pub master_secret_bytes : ℕ
master_secret_bytes = 32

abbrev pub storage_block_size : ℕ
storage_block_size = 1024

abbrev pub pad_blocks : ℕ
pad_blocks = 8

-- db/storage.h, on some state; `read` gives `none` where it fails.
pub record Storage : Type 1 where
  pub State : Type 0
  pub erase_size : ℕ
  pub read : State → ℕ → Option (List ℕ)
  pub write : State → List ℕ → ℕ → Bool × State
  pub erase_blocks : State → ℕ → ℕ → Bool × State

-- SHA-256, and `crypto_box_beforenm` of a point and a scalar.
pub record Crypto : Type 0 where
  pub sha256 : List ℕ → List ℕ
  pub beforenm : List ℕ → List ℕ → List ℕ

-- The static variables of the file.
pub record Secrets : Type 0 where
  pub device_secret : List ℕ
  pub master_secret : List ℕ
  pub have_pad : Bool
  pub pad_seq : ℕ
  pub pad_block : Option ℕ

-- The bytes of a PIN, a `uint32_t`.
unfoldable pub pin_bytes : ℕ → List ℕ
pin_bytes pin = (pin % 256) ∷ (pin / 2 ^ 8 % 256) ∷ (pin / 2 ^ 16 % 256) ∷ (pin / 2 ^ 24 % 256) ∷ []

module _ (c : Crypto) where
  unfoldable pub mult : List ℕ → List ℕ → List ℕ
  mult n p = c.beforenm p n

  unfoldable pub master_hash : List ℕ → ℕ → List ℕ
  unfolding pin_bytes mult
  master_hash device pin =
      let a = c.sha256 (pin_bytes pin) in
      c.sha256 (mult (c.sha256 (device ++ a)) (c.sha256 (a ++ device)))

  unfoldable pub id_hash : List ℕ → ℕ → List ℕ
  unfolding pin_bytes mult
  id_hash device pin =
      let a = c.sha256 (pin_bytes pin) in
      let b = c.sha256 (device ++ pin_bytes pin) in
      let ab = mult a b in c.sha256 (c.sha256 (ab ++ mult b a) ++ ab)

unfoldable pub xor_bytes : List ℕ → List ℕ → List ℕ
xor_bytes [] ys = []
xor_bytes (x ∷ xs) [] = []
xor_bytes (x ∷ xs) (y ∷ ys) = bit_xor x y ∷ xor_bytes xs ys

-- The loop of `apply_pad` over the pads, of an identity and the pad itself: the secret, if the
-- identity is there. It is given as many rounds as there are bytes.
unfoldable pub find_pad : ℕ → List ℕ → List ℕ → List ℕ → Option (List ℕ)
unfolding bytes_eq xor_bytes
find_pad zero pattern id pads = none
find_pad (suc rounds) pattern id pads =
    let rest = find_pad rounds pattern id (drop 64 pads) in
    if ltb (length pads) 64
    then none
    else if bytes_eq (take 32 pads) id
    then some (xor_bytes pattern (take 32 (drop 32 pads)))
    else rest

-- Is the block older than the one that was found? `none` is a `last_seq` of -1.
unfoldable pub is_older : Option ℕ → ℕ → Bool
is_older none seq = false
is_older (some last_seq) seq = leb 0x8000 ((seq + 0x10000 - last_seq) % 2 ^ 16)

unfoldable pub apply_pad : List ℕ → Option ℕ → ℕ → List ℕ → List ℕ → Option (List ℕ)
unfolding is_older find_pad
apply_pad pattern last_seq seq pads id =
    if is_older last_seq seq then none else find_pad (length pads) pattern id pads

unfoldable pub all_ff : List ℕ → Bool
all_ff [] = true
all_ff (b ∷ bytes) = (b == 255) && all_ff bytes

-- The first pad of which `test` holds is overwritten.
unfoldable pub replace_pad : ℕ → (List ℕ → Bool) → List ℕ → List ℕ → Option (List ℕ)
replace_pad zero test pad buf = none
replace_pad (suc rounds) test pad buf =
    let rest = replace_pad rounds test pad (drop 64 buf) in
    if ltb (length buf) 64
    then none
    else if test (take 64 buf)
    then some (pad ++ drop 64 buf)
    else Option.map (λ r. take 64 buf ++ r) rest

abbrev pub or_else : Option (List ℕ) → Option (List ℕ) → Option (List ℕ)
or_else (some found) erased = some found
or_else none erased = erased

-- The pad with the old identity, or else the first one that is erased.
unfoldable pub change_pad : List ℕ → List ℕ → List ℕ → List ℕ → Option (List ℕ)
unfolding replace_pad all_ff bytes_eq
change_pad buf old_id new_id new_pad =
    or_else (replace_pad (length buf) (λ p. bytes_eq (take 32 p) old_id) (new_id ++ new_pad) buf)
      (replace_pad (length buf) all_ff (new_id ++ new_pad) buf)

-- `*seq` of a block, and the first bytes of a block with that number.
unfoldable pub seq_of : List ℕ → ℕ
seq_of [] = 0
seq_of (b ∷ []) = b
seq_of (b ∷ c ∷ bytes) = b + 256 * c

unfoldable pub head_of : ℕ → List ℕ
head_of seq = (seq % 256) ∷ (seq / 256 % 256) ∷ replicate 30 255

-- What the search of `secrets_setup` has found: the number of the block, the secret, and the block.
abbrev pub Found : Type 0
Found = Option (ℕ × List ℕ × ℕ)

abbrev pub found_seq : Found → Option ℕ
found_seq none = none
found_seq (some (seq, secret, n)) = some seq

abbrev pub found_in : Option (List ℕ) → ℕ → ℕ → Found → Found
found_in none seq n found = found
found_in (some secret) seq n found = some (seq, secret, n)

module _ (st : Storage) (c : Crypto) where
  -- One block of the search.
  abbrev pub look_at : List ℕ → List ℕ → ℕ → Option (List ℕ) → Found → Found
  look_at pattern id n none found = found
  look_at pattern id n (some buf) found =
      found_in (apply_pad pattern (found_seq found) (seq_of buf) (drop 32 buf) id) (seq_of buf) n
        found

  -- The loop over the blocks with pads, with as many rounds as there are such blocks.
  unfoldable pub search : ℕ → st.State → List ℕ → List ℕ → ℕ → Found → Found
  unfolding apply_pad seq_of
  search zero s pattern id n found = found
  search (suc rounds) s pattern id n found =
      if ltb n pad_blocks
      then search rounds s pattern id (n + st.erase_size) (look_at pattern id n (st.read s n) found)
      else found

  unfoldable pub secrets_setup : st.State → Secrets → ℕ → Found
  unfolding search master_hash id_hash
  secrets_setup s x pin =
      search pad_blocks s (master_hash c x.device_secret pin) (id_hash c x.device_secret pin) 0 none

  abbrev pub set_up : Found → Secrets → Bool × Secrets
  set_up none x = (false, record x { have_pad = false; pad_block = none })
  set_up (some (seq, secret, n)) x = (
    true,
    record x { master_secret = secret; have_pad = true; pad_seq = seq; pad_block = some n },
  )

  unfoldable pub secrets_setup_master : st.State → Secrets → ℕ → Bool × Secrets
  unfolding secrets_setup
  secrets_setup_master s x pin = set_up (secrets_setup s x pin) x

  -- The erasure of all blocks with pads; whether it worked is not looked at.
  unfoldable pub erase_pads : ℕ → st.State → ℕ → st.State
  erase_pads zero s n = s
  erase_pads (suc rounds) s n =
      if ltb n pad_blocks
      then erase_pads rounds (st.erase_blocks s n st.erase_size).1 (n + st.erase_size)
      else s

  -- The block that `secrets_new` writes.
  unfoldable pub first_block : List ℕ → List ℕ → List ℕ → List ℕ
  unfolding head_of xor_bytes
  first_block pattern id secret =
      head_of 0 ++ (id ++ (xor_bytes pattern secret ++ replicate (storage_block_size - 96) 255))

  -- `secrets_new`, where `fresh` is what `rnd_bytes` gives.
  unfoldable pub secrets_new : st.State → Secrets → List ℕ → ℕ → Bool × Secrets × st.State
  unfolding erase_pads first_block master_hash id_hash
  secrets_new s x fresh pin =
      let s1 = erase_pads pad_blocks s 0 in
      let x1 : Secrets = record x { master_secret = fresh; pad_block = some 0 } in
      let buf =
        first_block (master_hash c x.device_secret pin) (id_hash c x.device_secret pin) fresh in
      let (ok, s2) = st.write s1 buf 0 in (ok, if ok then record x1 { have_pad = true } else x1, s2)

unfoldable pub secrets_init : Secrets → Secrets
secrets_init x = record x {
  device_secret = replicate master_secret_bytes 0;
  master_secret = replicate master_secret_bytes 0;
  have_pad = false;
}
