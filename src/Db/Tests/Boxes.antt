-- ===== src/Db/Tests/Boxes.antt =====
-- A box with a tag that depends on its key, and a block for two readers.
use fw.Base.{
  ℕ, zero, suc, ◌≡◌, ◌<◌, refl, true, none, some, List, [], ◌∷◌, ◌++◌, length, take, drop,
  replicate, arith, ap, sym, ◌∙◌, some_inj, length-replicate, length-append, length-take, get_or,
  if◌then◌else◌,
}
use fw.Db.Entry.{bytes_eq}
use fw.Db.Secrets.{xor_bytes}
use fw.Db.Secrets.Bytes.{take_at, drop_at, bytes_eq_self}
use fw.Db.Crypt.{
  Nacl, Dbcrypt, zeros, zero_padded, key_nonce, encrypt_key, db_encrypt, db_decrypt, attempt,
  db_try_decrypt, db_decrypt_payload,
}
use fw.Db.Crypt.Keys.{IsNacl}
use fw.Db.Crypt.RoundTrip.{db_decrypt-encrypt}

abbrev tag : List ℕ → List ℕ
tag k = take 16 (k ++ zeros 16)

abbrev nacl : Nacl
nacl = record {
  secretbox = λ m nonce k. some (zeros 16 ++ (tag k ++ drop 32 m));
  secretbox_open = λ c nonce k.
      if bytes_eq (take 16 (drop 16 c)) (tag k) then some (zeros 32 ++ drop 32 c) else none;
  stream_xor = λ m nonce k. some (xor_bytes (replicate (length m) (get_or k 0 0)) m);
  beforenm = λ pk sk. some pk;
  scalarmult_base = λ sk. some sk;
}

length-tag : (k : List ℕ) → length (tag k) ≡ 16
length-tag k = omega (
  arith,
  length-take 16 (k ++ zeros 16),
  length-append k (zeros 16),
  length-replicate {A = ℕ} 16 0,
)

opens :
    (m nonce k : List ℕ)
    → nacl.secretbox_open (zeros 16 ++ (tag k ++ m)) nonce k ≡ some (zeros 32 ++ m)
opens m nonce k =
    let front : drop 16 (zeros 16 ++ (tag k ++ m)) ≡ tag k ++ m = refl in
    let at : take 16 (tag k ++ m) ≡ tag k = take_at 16 (tag k) m (length-tag k) in
    let same : bytes_eq (take 16 (tag k ++ m)) (tag k) ≡ true =
      ap (λ t. bytes_eq t (tag k)) at ∙ bytes_eq_self (tag k) in
    let behind : drop 16 (tag k ++ m) ≡ m = drop_at 16 (tag k) m (length-tag k) in
    rw same (ap (λ t. some (zeros 32 ++ t)) behind)

nacl-IsNacl : IsNacl nacl
nacl-IsNacl = record {
  stream = λ nonce k n. replicate n (get_or k 0 0);
  length-stream = λ nonce k n. length-replicate n (get_or k 0 0);
  stream_xor_lem = λ m nonce k. refl;
  secretbox_lem = λ m nonce k {out} e.
      let same : zeros 16 ++ (tag k ++ m) ≡ out = some_inj e in
      (
        ap (take 16) (sym same),
        omega (arith, ap length same, length-append (tag k) m, length-tag k),
        ap (λ o. nacl.secretbox_open o nonce k) (sym same) ∙ opens m nonce k,
      );
}

abbrev key : List ℕ
key = replicate 32 7

abbrev other : List ℕ
other = replicate 32 9

abbrev crypt : Dbcrypt
crypt = record {
  sk = key;
  pk = key;
  readers = record { k = other; pk = other } ∷ record { k = key; pk = key } ∷ [];
}

abbrev nonce : List ℕ
nonce = replicate 24 5

abbrev record_key : List ℕ
record_key = replicate 32 3

abbrev hello : List ℕ
hello = 104 ∷ 105 ∷ []

-- The record key is sent XOR-ed with 9 and with 7.
abbrev hello_block : List ℕ
hello_block =
    key
    ++ (nonce ++ ((replicate 32 10 ++ replicate 32 4) ++ (replicate 16 3 ++ zero_padded 888 hello)))

hello_encrypted : db_encrypt nacl crypt nonce record_key hello ≡ some hello_block
unfolding db_encrypt encrypt_key xor_bytes key_nonce
hello_encrypted = refl

rejected_layout : attempt nacl 1024 hello_block key 1 0 ≡ some none
unfolding attempt db_try_decrypt db_decrypt_payload xor_bytes bytes_eq key_nonce
rejected_layout = refl

rejected_key : attempt nacl 1024 hello_block key 2 0 ≡ some none
unfolding attempt db_try_decrypt db_decrypt_payload xor_bytes bytes_eq key_nonce
rejected_key = refl

rejects_layouts : (m j : ℕ) → j < m → m < 2 → attempt nacl 1024 hello_block key m j ≡ some none
rejects_layouts zero j h k = absurd (omega arith)
rejects_layouts (suc zero) zero h k = rejected_layout
rejects_layouts (suc zero) (suc j) h k = absurd (omega arith)
rejects_layouts (suc (suc m)) j h k = absurd (omega arith)

rejects_keys : (j : ℕ) → j < 1 → attempt nacl 1024 hello_block key 2 j ≡ some none
rejects_keys zero h = rejected_key
rejects_keys (suc j) h = absurd (omega arith)

db_decrypt-encrypt_example :
    db_decrypt nacl crypt 1024 hello_block ≡ some (some (zero_padded 888 hello))
db_decrypt-encrypt_example =
    db_decrypt-encrypt nacl nacl-IsNacl crypt crypt 1024 1 nonce record_key hello hello_block
      (record { k = key; pk = key }) refl refl refl (omega arith) (omega arith) hello_encrypted refl
      refl (record { layouts = rejects_layouts; keys = rejects_keys })
