-- ===== src/Db/Tests/Blocks.antt =====
-- A box that shows its contents, and the theorems about blocks at it.
use fw.Base.{
  ℕ, ◌≡◌, refl, true, none, some, List, [], ◌∷◌, ◌++◌, length, take, replicate, arith, ap, sym,
  some_inj, length-replicate,
}
use fw.Db.Field.{Field}
use fw.Db.Payload.{write_fields, fields_of}
use fw.Db.Open.{content}
use fw.Db.Secrets.{xor_bytes}
use fw.Db.Crypt.{Nacl, Dbcrypt, zeros, zero_padded, key_nonce, db_encrypt, dbcrypt_init}
use fw.Db.Crypt.Keys.{IsNacl}
use fw.Db.Block.{block_read, block_write, all_are}
use fw.Db.Block.RoundTrip.{IsPlain, block_write_too_long, fields_of-block_read}
use fw.Db.Secrets.Setup.{erased_block}
use fw.Db.StorageFile.{File, storage_read_block, storage_write_block, do_write_block}
use fw.Db.StorageFile.Laws.{file_storage-IsStorage}
use fw.Db.Tests.PinSecrets.{storage}

abbrev nacl : Nacl
nacl = record {
  secretbox = λ m nonce k. some m;
  secretbox_open = λ c nonce k. some c;
  stream_xor = λ m nonce k. some (xor_bytes (zeros (length m)) m);
  beforenm = λ pk sk. some pk;
  scalarmult_base = λ sk. some sk;
}

length-zeros : (n : ℕ) → length (zeros n) ≡ n
length-zeros n = length-replicate n 0

nacl-IsNacl : IsNacl nacl
nacl-IsNacl = record {
  stream = λ nonce k n. zeros n;
  length-stream = λ nonce k n. length-zeros n;
  stream_xor_lem = λ m nonce k. refl;
  secretbox_lem = λ m nonce k e.
      let same = some_inj e in (ap (take 16) (sym same), omega (arith, ap length same), sym e);
}

abbrev key : List ℕ
key = replicate 32 7

abbrev crypt : Dbcrypt
crypt = record { sk = key; pk = key; readers = record { k = key; pk = key } ∷ [] }

abbrev nonce : List ℕ
nonce = replicate 24 5

crypt_init : dbcrypt_init nacl key ≡ some crypt
unfolding dbcrypt_init
crypt_init = refl

key-IsPlain : IsPlain key
unfolding all_are
key-IsPlain = record { not_deleted = refl; not_erased = refl }

-- A file whose blocks are all erased.
abbrev blank : File
blank n = erased_block

-- An identifier and a user.
abbrev fields : List Field
fields =
    record { type = 1; len = 2; bytes = 97 ∷ 98 ∷ [] }
    ∷ record { type = 3; len = 1; bytes = 99 ∷ [] }
    ∷ []

abbrev payload : List ℕ
payload = 1 ∷ 2 ∷ 97 ∷ 98 ∷ 3 ∷ 1 ∷ 99 ∷ []

abbrev entry_block : List ℕ
entry_block = key ++ (nonce ++ (key ++ (zeros 16 ++ zero_padded 920 (4 ∷ 0 ∷ 44 ∷ 1 ∷ payload))))

abbrev stored : File
stored = (storage.write blank entry_block 9).1

fields_written : write_fields 1024 fields ≡ some payload
unfolding write_fields
fields_written = refl

blank_read : storage.read blank 9 ≡ some erased_block
unfolding storage_read_block
blank_read = refl

block_written :
    block_write nacl storage 64 crypt nonce key 4 300 payload 9 blank ≡ some (true, stored)
unfolding block_write db_encrypt xor_bytes key_nonce storage_write_block do_write_block
block_written = refl

fields_of-block_read_example :
    (read : List ℕ) × (block_read nacl storage 64 crypt 1024 9 stored ≡ some (content 300 read))
    × (fields_of read ≡ fields)
fields_of-block_read_example =
    fields_of-block_read nacl storage 64 nacl-IsNacl (file_storage-IsStorage 64) key crypt_init refl
      key-IsPlain fields payload nonce key 300 9 blank stored (omega arith) (omega arith) refl refl
      (omega arith) fields_written blank_read block_written

block_write_too_long_example :
    block_write nacl storage 64 crypt nonce key 4 300 (replicate 917 65) 9 blank ≡ none
block_write_too_long_example =
    block_write_too_long nacl storage 64 nacl-IsNacl key crypt_init refl nonce key 300
      (replicate 917 65) 9 blank refl refl (omega arith)
