-- ===== src/Db/Crypt/Keys.antt =====
-- The laws of NaCl, and what follows for a box and for the record keys.
use fw.Base.{le→leb}
use fw.Base.{
  ℕ, zero, suc, ◌+◌, ◌-◌, ◌*◌, ◌≤◌, ◌≡◌, refl, sym, ap, ◌∙◌, true, none, some, arith, Option,
}
use fw.Base.{
  List, [], ◌∷◌, ◌++◌, length, take, drop, get_elem?, leb, length-append, length-take, length-drop,
  length-replicate, some_inj, take-append-drop,
}
use mathlib.Core.Option
use mathlib.Core.List.{append_assoc}
use fw.Db.Secrets.{xor_bytes}
use fw.Db.Secrets.Bytes.{xor_bytes_twice, length-xor_bytes, take_at, drop_at}
use fw.Db.Crypt.{
  Nacl, Peer, key_bytes, buf_size, zeros, zero_padded, guard, key_nonce, db_encrypt_payload,
  encrypt_key, encrypt_keys, db_decrypt_payload, db_try_decrypt,
}

-- What NaCl documents: the stream cipher XORs a stream that depends on the nonce and the key, and a
-- box starts with 16 zeros, is as long as its message, and is opened with the same nonce and key.
pub record IsNacl (z : Nacl) : Type 0 where
  pub stream : List ℕ → List ℕ → ℕ → List ℕ
  pub length-stream : (nonce k : List ℕ) (n : ℕ) → length (stream nonce k n) ≡ n
  pub stream_xor_lem :
      (m nonce k : List ℕ) → z.stream_xor m nonce k ≡ some (xor_bytes (stream nonce k (length m)) m)
  pub secretbox_lem :
      (m nonce k : List ℕ) {out : List ℕ}
      → z.secretbox (zeros 32 ++ m) nonce k ≡ some out
      → (take 16 out ≡ zeros 16)
        × (length out ≡ 32 + length m)
        × (z.secretbox_open out nonce k ≡ some (zeros 32 ++ m))

pub drop-nil : (n : ℕ) → drop {A = ℕ} n [] ≡ []
drop-nil zero = refl
drop-nil (suc n) = refl

pub drop-drop : (m n : ℕ) (xs : List ℕ) → drop (m + n) xs ≡ drop n (drop m xs)
drop-drop zero n xs = ap (λ k. drop k xs) (omega arith)
drop-drop (suc m) n [] = drop-nil (suc m + n) ∙ sym (drop-nil n)
drop-drop (suc m) n (x ∷ xs) =
    let e : suc m + n ≡ suc (m + n) = omega arith in ap (λ k. drop k (x ∷ xs)) e ∙ drop-drop m n xs

pub xor_bytes-nil : (xs : List ℕ) → xor_bytes xs [] ≡ []
unfolding xor_bytes
xor_bytes-nil [] = refl
xor_bytes-nil (x ∷ xs) = refl

pub drop-xor_bytes :
    (n : ℕ) (xs ys : List ℕ) → drop n (xor_bytes xs ys) ≡ xor_bytes (drop n xs) (drop n ys)
unfolding xor_bytes
drop-xor_bytes zero xs ys = refl
drop-xor_bytes (suc n) [] ys = refl
drop-xor_bytes (suc n) (x ∷ xs) [] = sym (xor_bytes-nil (drop n xs))
drop-xor_bytes (suc n) (x ∷ xs) (y ∷ ys) = drop-xor_bytes n xs ys

pub take_all : (n : ℕ) (xs : List ℕ) → length xs ≡ n → take n xs ≡ xs
take_all zero [] h = refl
take_all zero (x ∷ xs) h = absurd (omega arith)
take_all (suc n) [] h = absurd (omega arith)
take_all (suc n) (x ∷ xs) h = ap (◌∷◌ x) (take_all n xs (omega arith))

pub length-zero_padded : (n : ℕ) (xs : List ℕ) → length (zero_padded n xs) ≡ n
length-zero_padded n xs = omega (
  arith,
  length-take n (xs ++ zeros (n - length xs)),
  length-append xs (zeros (n - length xs)),
  length-replicate {A = ℕ} (n - length xs) 0,
)

pub guard-eq_some :
    {A : Type 0} (b : _) (x : Option A) {a : A} → guard b x ≡ some a → (b ≡ true) × (x ≡ some a)
guard-eq_some b x h = ground arith

pub map-eq_some :
    (f : List ℕ → List ℕ) (o : Option (List ℕ)) {y : List ℕ}
    → Option.map f o ≡ some y
    → (x : List ℕ) × (o ≡ some x) × (f x ≡ y)
map-eq_some f none h = absurd (ground arith)
map-eq_some f (some x) h = (x, refl, some_inj h)

pub db_decrypt_payload-opened :
    (z : Nacl) (size n : ℕ) (nonce m rk box : List ℕ)
    → 16 ≤ n
    → n ≤ size
    → n ≤ 1040
    → length box ≡ n
    → length m ≡ n - 16
    → z.secretbox_open (zeros 16 ++ box) nonce rk ≡ some (zeros 32 ++ m)
    → db_decrypt_payload z size nonce box rk ≡ some (some m)
unfolding db_decrypt_payload
db_decrypt_payload-opened z size n nonce m rk box p q r a b e =
    rw
      (
        e,
        le→leb (16 + length box) buf_size (omega arith),
        le→leb 32 (16 + length box) (omega arith),
        le→leb (16 + length box - 32) size (omega arith),
      )
      (ap (λ x. some (some x)) (take_all (16 + length box - 32) m (omega arith)))

module _ (z : Nacl) (laws : IsNacl z) where
  -- The box of the payload has the bytes that it is given, and is opened with its nonce and key.
  pub db_decrypt_payload-encrypt :
      (size n : ℕ) (nonce content rk : List ℕ) {box : List ℕ}
      → 16 ≤ n
      → n ≤ size
      → db_encrypt_payload z nonce n content rk ≡ some box
      → (length box ≡ n)
        × (db_decrypt_payload z size nonce box rk ≡ some (some (zero_padded (n - 16) content)))
  unfolding db_encrypt_payload
  db_decrypt_payload-encrypt size n nonce content rk {box} p q e =
      let m = zero_padded (n - 16) content in
      let g = guard-eq_some (leb (16 + n) buf_size) _ e in
      let (out, boxed, cut) = map-eq_some _ _ g.1 in
      let (front, long, opened) = laws.secretbox_lem m nonce rk boxed in
      let len : length (drop 16 out) ≡ n =
        omega (arith, length-drop 16 out, length-zero_padded (n - 16) content) in
      let whole : drop 16 out ≡ box = sym (take_all n (drop 16 out) len) ∙ cut in
      let joined : zeros 16 ++ box ≡ out =
        ap (λ b. zeros 16 ++ b) (sym whole)
        ∙ (ap (λ a. a ++ drop 16 out) (sym front) ∙ take-append-drop 16 out) in
      let box_len : length box ≡ n = ap length (sym whole) ∙ len in
      (
        box_len,
        db_decrypt_payload-opened z size n nonce m rk box p q (ground arith) box_len
            (length-zero_padded (n - 16) content)
            (ap (λ b. z.secretbox_open b nonce rk) joined ∙ opened),
      )

  -- What is left of 32 bytes that were sent through the stream behind 32 zeros.
  pub sent : (nonce k : List ℕ) → List ℕ → List ℕ
  sent nonce k x = xor_bytes (drop 32 (laws.stream nonce k 64)) x

  pub length-sent : (nonce k x : List ℕ) → length x ≡ 32 → length (sent nonce k x) ≡ 32
  unfolding sent
  length-sent nonce k x h =
      length-xor_bytes (drop 32 (laws.stream nonce k 64)) x
        (omega (arith, length-drop 32 (laws.stream nonce k 64), laws.length-stream nonce k 64))
      ∙ h

  pub sent_twice : (nonce k x : List ℕ) → length x ≡ 32 → sent nonce k (sent nonce k x) ≡ x
  unfolding sent
  sent_twice nonce k x h =
      xor_bytes_twice (drop 32 (laws.stream nonce k 64)) x
        (omega (arith, length-drop 32 (laws.stream nonce k 64), laws.length-stream nonce k 64))

  pub stream_xor-sent :
      (nonce k x : List ℕ)
      → length x ≡ 32
      → (out : List ℕ) × (z.stream_xor (zeros 32 ++ x) nonce k ≡ some out)
        × (take key_bytes (drop 32 out) ≡ sent nonce k x)
  unfolding sent
  stream_xor-sent nonce k x h =
      let n : length (zeros 32 ++ x) ≡ 64 = omega arith in
      let out = xor_bytes (laws.stream nonce k 64) (zeros 32 ++ x) in
      let back : drop 32 out ≡ sent nonce k x =
        drop-xor_bytes 32 (laws.stream nonce k 64) (zeros 32 ++ x) in
      (
        out,
        laws.stream_xor_lem (zeros 32 ++ x) nonce k
            ∙ ap (λ j. some (xor_bytes (laws.stream nonce k j) (zeros 32 ++ x))) n,
        ap (take key_bytes) back ∙ take_all key_bytes (sent nonce k x) (length-sent nonce k x h),
      )

  pub encrypt_key-sent :
      (nonce rk : List ℕ) (i : ℕ) (reader : Peer)
      → length rk ≡ 32
      → encrypt_key z nonce rk i reader ≡ some (sent (key_nonce nonce i) reader.k rk)
  unfolding encrypt_key
  encrypt_key-sent nonce rk i reader h =
      let (out, e, cut) = stream_xor-sent (key_nonce nonce i) reader.k rk h in rw e (ap some cut)

  -- The record key that was encrypted for a reader opens what it opens itself.
  pub db_try_decrypt-sent :
      (size i : ℕ) (nonce encrypted rk : List ℕ) (reader : Peer)
      → length rk ≡ 32
      → db_try_decrypt z size nonce encrypted i
          (sent (key_nonce nonce (i + 1)) reader.k rk)
          reader.k
        ≡ db_decrypt_payload z size nonce encrypted rk
  unfolding db_try_decrypt
  db_try_decrypt-sent size i nonce encrypted rk reader h =
      let nonce2 = key_nonce nonce (i + 1) in
      let ek = sent nonce2 reader.k rk in
      let (out, e, cut) = stream_xor-sent nonce2 reader.k ek (length-sent nonce2 reader.k rk h) in
      rw e (ap (db_decrypt_payload z size nonce encrypted) (cut ∙ sent_twice nonce2 reader.k rk h))

  -- The record keys for the readers behind the first `i`.
  pub all_sent : List ℕ → List ℕ → ℕ → List Peer → List ℕ
  all_sent nonce rk i [] = []
  all_sent nonce rk i (reader ∷ readers) =
      sent (key_nonce nonce (suc i)) reader.k rk ++ all_sent nonce rk (suc i) readers

  pub encrypt_keys-sent :
      (nonce rk : List ℕ) (i : ℕ) (readers : List Peer)
      → length rk ≡ 32
      → encrypt_keys z nonce rk i readers ≡ some (all_sent nonce rk i readers)
  unfolding encrypt_keys all_sent
  encrypt_keys-sent nonce rk i [] h = refl
  encrypt_keys-sent nonce rk i (reader ∷ readers) h =
      rw (encrypt_key-sent nonce rk (suc i) reader h, encrypt_keys-sent nonce rk (suc i) readers h)

  pub length-all_sent :
      (nonce rk : List ℕ) (i : ℕ) (readers : List Peer)
      → length rk ≡ 32
      → length (all_sent nonce rk i readers) ≡ key_bytes * length readers
  unfolding all_sent
  length-all_sent nonce rk i [] h = refl
  length-all_sent nonce rk i (reader ∷ readers) h = omega (
    arith,
    length-append (sent (key_nonce nonce (suc i)) reader.k rk) (all_sent nonce rk (suc i) readers),
    length-sent (key_nonce nonce (suc i)) reader.k rk h,
    length-all_sent nonce rk (suc i) readers h,
  )

  -- The record key of the reader `j` among those.
  pub all_sent_at :
      (nonce rk rest : List ℕ) (i j : ℕ) (readers : List Peer) {reader : Peer}
      → length rk ≡ 32
      → get_elem? readers j ≡ some reader
      → take key_bytes (drop (key_bytes * j) (all_sent nonce rk i readers ++ rest))
        ≡ sent (key_nonce nonce (suc (i + j))) reader.k rk
  unfolding all_sent
  all_sent_at nonce rk rest i j [] h g = absurd (ground arith)
  all_sent_at nonce rk rest i zero (r ∷ readers) {reader} h g =
      let key = sent (key_nonce nonce (suc i)) r.k rk in
      let others = all_sent nonce rk (suc i) readers in
      let e : i + 0 ≡ i = omega arith in
      ap (take key_bytes) (append_assoc key others rest)
      ∙ take_at key_bytes key (others ++ rest) (length-sent (key_nonce nonce (suc i)) r.k rk h)
      ∙ ap (λ (q : Peer). sent (key_nonce nonce (suc i)) q.k rk) (some_inj g)
      ∙ ap (λ n. sent (key_nonce nonce (suc n)) reader.k rk) (sym e)
  all_sent_at nonce rk rest i (suc j) (r ∷ readers) {reader} h g =
      let key = sent (key_nonce nonce (suc i)) r.k rk in
      let others = all_sent nonce rk (suc i) readers in
      let bytes = (key ++ others) ++ rest in
      let n : key_bytes * suc j ≡ key_bytes + key_bytes * j = omega arith in
      let e : suc i + j ≡ i + suc j = omega arith in
      let skip : drop key_bytes bytes ≡ others ++ rest =
        ap (drop key_bytes) (append_assoc key others rest)
        ∙ drop_at key_bytes key (others ++ rest) (length-sent (key_nonce nonce (suc i)) r.k rk h) in
      ap (λ k. take key_bytes (drop k bytes)) n
      ∙ ap (take key_bytes)
          (drop-drop key_bytes (key_bytes * j) bytes ∙ ap (drop (key_bytes * j)) skip)
      ∙ all_sent_at nonce rk rest (suc i) j readers h g
      ∙ ap (λ k. sent (key_nonce nonce (suc k)) reader.k rk) e
