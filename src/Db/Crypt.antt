-- ===== src/Db/Crypt.antt =====
-- Encrypting a block for several readers, and decrypting it (db/dbcrypt.c).
--
-- A block is the writer's public key (32 bytes), a nonce (24 bytes), the record key encrypted for each
-- reader (32 bytes each), and the box with the contents. NaCl and the random bytes are arguments. The
-- static buffers are written before they are read, so that each call has its own. The first `none` is
-- a failed assertion or DIE, the `none` within is the length -1.
pub mod Keys
pub mod RoundTrip
use fw.Base.{ℕ, zero, suc, ◌+◌, ◌-◌, ◌*◌, ◌%◌, Bool, true, false, Option, none, some}
use fw.Base.{List, [], ◌∷◌, ◌++◌, ◌==◌, leb, ltb, length, take, drop, replicate, if◌then◌else◌}
use Prim.Native.Nat.{bit_xor}
use mathlib.Core.Option
use fw.Db.Secrets.{storage_block_size}

-- The functions of tweetnacl.c that are called; `none` is a result other than 0.
pub record Nacl : Type 0 where
  pub secretbox : List ℕ → List ℕ → List ℕ → Option (List ℕ)
  pub secretbox_open : List ℕ → List ℕ → List ℕ → Option (List ℕ)
  pub stream_xor : List ℕ → List ℕ → List ℕ → Option (List ℕ)
  pub beforenm : List ℕ → List ℕ → Option (List ℕ)
  pub scalarmult_base : List ℕ → Option (List ℕ)

-- `struct peer`
pub record Peer : Type 0 where
  pub k : List ℕ
  pub pk : List ℕ

-- `struct dbcrypt`; nothing ever enters its cache.
pub record Dbcrypt : Type 0 where
  pub sk : List ℕ
  pub pk : List ℕ
  pub readers : List Peer

-- Public key, nonce and key: 32, 24 and 32 bytes. The padding of NaCl: 32 and 16 bytes.
abbrev pub header_bytes : ℕ
header_bytes = 56

abbrev pub key_bytes : ℕ
key_bytes = 32

-- `DB_MAX_READERS`
abbrev pub db_max_readers : ℕ
db_max_readers = 12

-- The size of `in_buf` and of `out_buf`.
abbrev pub buf_size : ℕ
buf_size = 1056

abbrev pub zeros : ℕ → List ℕ
zeros n = replicate n 0

-- The first `n` bytes of a buffer of zeros that `bytes` were copied to.
abbrev pub zero_padded : ℕ → List ℕ → List ℕ
zero_padded n bytes = take n (bytes ++ zeros (n - length bytes))

abbrev pub or_failure {ℓ} :
    {A : Type ℓ} → Option (List ℕ) → Option A → (List ℕ → Option A) → Option A
or_failure none failure f = failure
or_failure (some x) failure f = f x

abbrev pub guard {ℓ} : {A : Type ℓ} → Bool → Option A → Option A
guard true x = x
guard false x = none

-- The nonce of the record key for a reader: its first byte is changed by the reader's number, from 1.
unfoldable pub key_nonce : List ℕ → ℕ → List ℕ
key_nonce [] i = []
key_nonce (b ∷ nonce) i = bit_xor b (i % 256) ∷ nonce

-- The bytes of a block behind the record keys of so many readers.
abbrev pub box_bytes : ℕ → ℕ
box_bytes n_readers = storage_block_size - (header_bytes + key_bytes * n_readers)

unfoldable pub has_room : ℕ → Bool
has_room n_readers = leb (header_bytes + key_bytes * n_readers + 16) storage_block_size

module _ (z : Nacl) where
  -- The box of `encrypted_bytes` bytes, its 16 leading zeros cut off.
  unfoldable pub db_encrypt_payload : List ℕ → ℕ → List ℕ → List ℕ → Option (List ℕ)
  db_encrypt_payload nonce encrypted_bytes content rk =
      guard (leb (16 + encrypted_bytes) buf_size) (
        Option.map (λ out. take encrypted_bytes (drop 16 out))
          (z.secretbox (zeros 32 ++ zero_padded (encrypted_bytes - 16) content) nonce rk))

  -- The record key as reader number `i` gets it.
  unfoldable pub encrypt_key : List ℕ → List ℕ → ℕ → Peer → Option (List ℕ)
  unfolding key_nonce
  encrypt_key nonce rk i reader =
      Option.map (λ out. take key_bytes (drop 32 out))
        (z.stream_xor (zeros 32 ++ rk) (key_nonce nonce i) reader.k)

  abbrev pub joined : Option (List ℕ) → Option (List ℕ) → Option (List ℕ)
  joined none rest = none
  joined (some key) rest = Option.map (λ keys. key ++ keys) rest

  -- The loop over the readers, behind the first `i` of them.
  unfoldable pub encrypt_keys : List ℕ → List ℕ → ℕ → List Peer → Option (List ℕ)
  unfolding encrypt_key
  encrypt_keys nonce rk i [] = some []
  encrypt_keys nonce rk i (reader ∷ readers) =
      joined (encrypt_key nonce rk (suc i) reader) (encrypt_keys nonce rk (suc i) readers)

  -- `nonce` and `rk` are what `rnd_bytes` gave.
  unfoldable pub db_encrypt : Dbcrypt → List ℕ → List ℕ → List ℕ → Option (List ℕ)
  unfolding db_encrypt_payload encrypt_keys
  db_encrypt c nonce rk content =
      let n_readers = length c.readers in
      guard (ltb 0 n_readers) (
        guard (leb (header_bytes + key_bytes * n_readers + 16) storage_block_size) (
          guard (leb (length content + 16) (box_bytes n_readers)) (
            or_failure (db_encrypt_payload nonce (box_bytes n_readers) content rk) none λ box.
              or_failure (encrypt_keys nonce rk 0 c.readers) none
                λ keys. some (c.pk ++ (nonce ++ (keys ++ box))))))

  -- `size` is the size of the buffer for the contents.
  unfoldable pub db_decrypt_payload : ℕ → List ℕ → List ℕ → List ℕ → Option (Option (List ℕ))
  db_decrypt_payload size nonce encrypted rk =
      let mlen = 16 + length encrypted in
      guard (leb mlen buf_size) (
        or_failure (z.secretbox_open (zeros 16 ++ encrypted) nonce rk) (some none) λ out.
          guard (leb 32 mlen)
            (guard (leb (mlen - 32) size) (some (some (take (mlen - 32) (drop 32 out))))))

  unfoldable pub db_try_decrypt :
      ℕ → List ℕ → List ℕ → ℕ → List ℕ → List ℕ → Option (Option (List ℕ))
  unfolding db_decrypt_payload key_nonce
  db_try_decrypt size nonce encrypted i ek shared =
      or_failure (z.stream_xor (zeros 32 ++ ek) (key_nonce nonce (i + 1)) shared) (some none)
        λ out. db_decrypt_payload size nonce encrypted (take key_bytes (drop 32 out))

  -- The attempt at the key `i` of a block laid out for `n_readers`.
  unfoldable pub attempt : ℕ → List ℕ → List ℕ → ℕ → ℕ → Option (Option (List ℕ))
  unfolding db_try_decrypt
  attempt size block shared n_readers i =
      db_try_decrypt size (take 24 (drop 32 block))
        (drop (header_bytes + key_bytes * n_readers) block) i
        (take key_bytes (drop (header_bytes + key_bytes * i) block)) shared

-- A loop over `left` attempts, from number `i` on, up to the first that succeeds.
unfoldable pub first_opened : ℕ → ℕ → (ℕ → Option (Option (List ℕ))) → Option (Option (List ℕ))
first_opened zero i try = some none
first_opened (suc left) i try = elim (try i) [
  | none ↦ none
  | some none ↦ first_opened left (suc i) try
  | some (some content) ↦ some (some content)
]

module _ (z : Nacl) where
  -- The loop body for a layout, with its two checks of the room for the box.
  unfoldable pub try_layout : ℕ → List ℕ → List ℕ → ℕ → Option (Option (List ℕ))
  unfolding attempt first_opened
  try_layout size block shared n_readers =
      first_opened n_readers 0 (attempt z size block shared n_readers)

  -- The loop over the layouts. A layout without room for the box ends it, with -1.
  unfoldable pub try_layouts : ℕ → ℕ → List ℕ → List ℕ → ℕ → Option (Option (List ℕ))
  unfolding try_layout has_room
  try_layouts zero size block shared n_readers = some none
  try_layouts (suc left) size block shared n_readers =
      let rest = try_layouts left size block shared (suc n_readers) in
      if has_room n_readers
      then (elim (try_layout size block shared n_readers) [
        | none ↦ none
        | some none ↦ rest
        | some (some content) ↦ some (some content)
      ])
      else some none

  unfoldable pub db_decrypt : Dbcrypt → ℕ → List ℕ → Option (Option (List ℕ))
  unfolding try_layouts
  db_decrypt c size block =
      or_failure (z.beforenm (take 32 block) c.sk) (some none)
        λ shared. try_layouts db_max_readers size block shared 1

  -- The context is its own first reader.
  unfoldable pub dbcrypt_init : List ℕ → Option Dbcrypt
  dbcrypt_init sk = guard (length sk == key_bytes) (
      or_failure (z.scalarmult_base sk) none λ pk.
        or_failure (z.beforenm pk sk) none
          λ k. some (record { sk = sk; pk = pk; readers = record { k = k; pk = pk } ∷ [] }))

  -- A new reader goes behind the others.
  unfoldable pub dbcrypt_add_reader : Dbcrypt → List ℕ → Option Dbcrypt
  dbcrypt_add_reader c pk = guard (length pk == 32) (
      or_failure (z.beforenm pk c.sk) none
        λ k. some (record c { readers = c.readers ++ (record { k = k; pk = pk } ∷ []) }))
