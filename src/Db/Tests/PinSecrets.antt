-- ===== src/Db/Tests/PinSecrets.antt =====
-- A storage of blocks, and the theorems about secrets at it.
use fw.Base.{◌%◌, ◌≡◌, refl, true, false, none, some, [], ◌++◌, length, replicate, arith}
use fw.Db.Entry.{bytes_eq}
use fw.Db.Secrets.{
  Storage, Crypto, Secrets, xor_bytes, find_pad, replace_pad, change_pad, all_ff, apply_pad,
  is_older, secrets_new, secrets_setup,
}
use fw.Db.Secrets.Pads.{apply_pad-change_pad}
use fw.Db.StorageFile.{
  file_storage, storage_erase_blocks, erase_from, do_write_block, storage_write_block,
}
use fw.Db.StorageFile.Laws.{file_storage-IsStorage}
use fw.Db.Secrets.Setup.{pads_erased, secrets_new-setup}

-- A file of 64 blocks.
abbrev pub storage : Storage
storage = file_storage 64

-- A hash that has the right length.
abbrev crypto : Crypto
crypto = record { sha256 = λ bytes. replicate 32 (length bytes % 256); beforenm = λ p n. p }

abbrev secrets : Secrets
secrets = record {
  device_secret = replicate 32 0;
  master_secret = replicate 32 0;
  have_pad = false;
  pad_seq = 0;
  pad_block = none;
}

all_erased : pads_erased storage 8 (λ n. []) 0 ≡ true
unfolding storage_erase_blocks erase_from do_write_block
all_erased = refl

all_written : (secrets_new storage crypto (λ n. []) secrets (replicate 32 7) 0x1234).0 ≡ true
unfolding secrets_new storage_write_block do_write_block
all_written = refl

secrets_new-setup_example :
    secrets_setup storage crypto
      (secrets_new storage crypto (λ n. []) secrets (replicate 32 7) 0x1234).2
      secrets
      0x1234
    ≡ some (0, replicate 32 7, 0)
secrets_new-setup_example =
    secrets_new-setup storage 64 (file_storage-IsStorage 64) (omega arith) crypto (λ n. []) secrets
      secrets (replicate 32 7) 0x1234 (λ bytes. refl) refl all_erased all_written refl

-- One erased pad takes the new one.
changed :
    change_pad
      (replicate 64 255)
      (replicate 32 8)
      (replicate 32 9)
      (xor_bytes (replicate 32 1) (replicate 32 7))
    ≡ some (replicate 32 9 ++ replicate 32 6)
unfolding change_pad xor_bytes replace_pad all_ff bytes_eq
changed = refl

absent : find_pad 64 (replicate 32 1) (replicate 32 9) (replicate 64 255) ≡ none
unfolding find_pad bytes_eq
absent = refl

apply_pad-change_pad_example :
    apply_pad (replicate 32 1) (some 3) 4 (replicate 32 9 ++ replicate 32 6) (replicate 32 9)
    ≡ some (replicate 32 7)
apply_pad-change_pad_example =
    apply_pad-change_pad (replicate 32 1) (replicate 32 7) (replicate 32 8) (replicate 32 9)
      (replicate 64 255) (replicate 32 9 ++ replicate 32 6) (some 3) 4 refl refl refl absent
      (unfold is_older in refl) changed
