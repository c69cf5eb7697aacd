-- ===== src/Db/Block.antt =====
-- Reading, writing and deleting blocks (db/block.c).
--
-- The storage, NaCl and the random bytes are arguments. `none` is a failed assertion or ABORT. Where
-- the caller gives no place for the sequence number, it drops the one of the result.
pub mod RoundTrip
use fw.Base.{ℕ, ◌+◌, ◌*◌, ◌-◌, ◌/◌, ◌%◌, Bool, true, false, ◌&&◌, Option, none, some, List, []}
use fw.Base.{◌∷◌, ◌++◌, ◌==◌, leb, ltb, length, take, drop, get_or, if◌then◌else◌}
use fw.Db.Secrets.{Storage, storage_block_size}
use fw.Db.Entry.{reserved_blocks, bt_data}
use fw.Db.Special.{bt_settings}
use fw.Db.Open.{Block, error, deleted, erased, invalid, empty, content, settings}
use fw.Db.Crypt.{Nacl, Dbcrypt, guard, or_failure, zeros, db_encrypt, db_decrypt}

-- `ct_empty`, `DB_NONCE_SIZE` and the size of `struct block_header`
abbrev pub ct_empty : ℕ
ct_empty = 3

abbrev pub db_nonce_size : ℕ
db_nonce_size = 24

abbrev pub block_header_size : ℕ
block_header_size = 4

-- What a block looks like before it is decrypted; anything else may hold data.
pub data Class : Type 0 where
  looks_deleted looks_erased looks_invalid may_hold_data : Class

unfoldable pub all_are : ℕ → List ℕ → Bool
all_are v [] = true
all_are v (b ∷ bytes) = (b == v) && all_are v bytes

unfoldable pub classify_block : List ℕ → Class
unfolding all_are
classify_block b =
    if all_are 0 (take db_nonce_size b)
    then looks_deleted
    else if all_are 255 (take db_nonce_size b)
    then (if all_are 255 (drop db_nonce_size b) then looks_erased else looks_invalid)
    else may_hold_data

-- `struct block_header`, whose sequence number has its lower byte first.
unfoldable pub block_header : ℕ → ℕ → List ℕ
block_header type seq = (type % 256) ∷ 0 ∷ (seq % 256) ∷ (seq / 256 % 256) ∷ []

-- What is in a block that was decrypted, by the type in its header.
unfoldable pub block_content : List ℕ → Block
block_content bc =
    let type = get_or bc 0 0 in
    let seq = get_or bc 2 0 + 256 * get_or bc 3 0 in
    let payload = drop block_header_size bc in
    if type == bt_data
    then content seq payload
    else if type == bt_settings
    then settings seq payload
    else if type == ct_empty
    then empty
    else invalid

abbrev pub read_content : ℕ → Option (Option (List ℕ)) → Option Block
read_content payload_len none = none
read_content payload_len (some none) = some invalid
read_content payload_len (some (some bc)) =
    guard (leb block_header_size (length bc))
      (guard (leb (length bc) (block_header_size + payload_len)) (some (block_content bc)))

abbrev pub by_class : Class → Option Block → Option Block
by_class looks_deleted decrypted = some deleted
by_class looks_erased decrypted = some erased
by_class looks_invalid decrypted = some invalid
by_class may_hold_data decrypted = decrypted

abbrev pub if_opened : Option (Option (List ℕ)) → Option Bool
if_opened none = none
if_opened (some none) = some false
if_opened (some (some bc)) = some true

-- What is behind the header, for the types that have it: `none` is ABORT.
unfoldable pub payload_of_type : ℕ → List ℕ → Option (List ℕ)
payload_of_type type payload =
    if type == ct_empty
    then some []
    else if (type == bt_data)
    then some payload
    else if type == bt_settings
    then some payload
    else none

-- The two assertions on the number of a block.
abbrev pub is_usable : ℕ → ℕ → Bool
is_usable storage_blocks n = leb reserved_blocks n && ltb n storage_blocks

module _ (z : Nacl) (st : Storage) (storage_blocks : ℕ) where
  -- `block_read` with a buffer of `payload_len` bytes.
  unfoldable pub block_read : Dbcrypt → ℕ → ℕ → st.State → Option Block
  unfolding classify_block block_content
  block_read c payload_len n s = guard (is_usable storage_blocks n) (
      or_failure (st.read s n) (some error) λ io_buf.
        by_class (classify_block io_buf)
          (read_content payload_len (db_decrypt z c storage_block_size io_buf)))

  -- `block_read` without a buffer: `none` within is `bt_error`.
  unfoldable pub block_class : ℕ → st.State → Option (Option Class)
  unfolding classify_block
  block_class n s =
      guard (is_usable storage_blocks n)
        (or_failure (st.read s n) (some none) λ io_buf. some (some (classify_block io_buf)))

  unfoldable pub block_validate : Dbcrypt → ℕ → st.State → Option Bool
  block_validate c n s = guard (ltb n storage_blocks) (
      or_failure (st.read s n) (some false)
        λ io_buf. if_opened (db_decrypt z c storage_block_size io_buf))

  -- `nonce` and `rk` are the random bytes that `db_encrypt` draws.
  unfoldable pub block_write :
      Dbcrypt → List ℕ → List ℕ → ℕ → ℕ → List ℕ → ℕ → st.State → Option (Bool × st.State)
  unfolding block_header payload_of_type
  block_write c nonce rk type seq payload n s = guard (is_usable storage_blocks n) (
      guard (leb (block_header_size + length payload) storage_block_size) (
        or_failure (payload_of_type type payload) none λ body.
          or_failure (db_encrypt z c nonce rk (block_header type seq ++ body)) none
            λ io_buf. some (st.write s io_buf n)))

  unfoldable pub block_delete : ℕ → st.State → Option (Bool × st.State)
  block_delete n s =
      guard (is_usable storage_blocks n) (some (st.write s (zeros storage_block_size) n))
