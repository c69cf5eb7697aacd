-- ===== src/Db/Block/RoundTrip.antt =====
-- What is written to a block is read from it.
use fw.Base.{ℕ, suc, ◌+◌, ◌-◌, ◌*◌, ◌≤◌, ◌<◌, ◌^◌, ◌≡◌, sym, ap, ◌∙◌}
use fw.Base.{
  Bool, true, false, none, some, arith, List, [], ◌∷◌, ◌++◌, length, take, ◌==◌, ◌%◌, ◌/◌,
}
use fw.Base.{
  replicate, get_elem?, some_inj, length-append, length-drop, length-replicate, Option-cases, inl,
  inr, leb,
}
use fw.Db.Secrets.{Storage, storage_block_size}
use fw.Db.Secrets.Bytes.{take-take}
use fw.Db.Secrets.Setup.{erased_block, IsStorage}
use fw.Db.Entry.{bt_data}
use fw.Db.Open.{content}
use fw.Db.Crypt.{
  Nacl, Dbcrypt, Peer, zeros, zero_padded, box_bytes, db_encrypt, db_decrypt, dbcrypt_init,
  key_bytes, header_bytes,
}
use fw.Db.Crypt.Keys.{
  IsNacl, db_decrypt_payload-encrypt, guard-eq_some, take_all, length-zero_padded,
}
use fw.Db.Crypt.RoundTrip.{Rejects, db_decrypt-encrypt, or_failure-eq_some, db_encrypt-Layout}
use fw.Db.Field.{Field}
use fw.Db.Field.Order.{IsOrdered}
use fw.Db.Payload.{payload_size, write_fields, fields_of}
use fw.Db.Payload.RoundTrip.{AllWhole, fields_of-write_fields}
use fw.Db.Block.{
  may_hold_data, all_are, classify_block, block_header, block_content, is_usable, block_read,
  block_write, db_nonce_size,
}

-- A public key by which a block does not look as if it was deleted or erased.
pub record IsPlain (pk : List ℕ) : Type 0 where
  pub not_deleted : all_are 0 (take db_nonce_size pk) ≡ false
  pub not_erased : all_are 255 (take db_nonce_size pk) ≡ false

-- After `dbcrypt_init` there is one reader, and its secret is the one shared with the writer.
dbcrypt_init_lem :
    (z : Nacl) (sk : List ℕ) {c : Dbcrypt}
    → dbcrypt_init z sk ≡ some c
    → (reader : Peer) × (c.readers ≡ reader ∷ []) × (z.beforenm c.pk c.sk ≡ some reader.k)
unfolding dbcrypt_init
dbcrypt_init_lem z sk {c} e =
    let g = guard-eq_some (length sk == key_bytes) _ e in
    let (pk, made, e1) = or_failure-eq_some (z.scalarmult_base sk) _ g.1 in
    let (k, shared, e2) = or_failure-eq_some (z.beforenm pk sk) _ e1 in
    (
      record { k = k; pk = pk },
      ap (λ (d : Dbcrypt). d.readers) (sym (some_inj e2)),
      ap (λ (d : Dbcrypt). z.beforenm d.pk d.sk) (sym (some_inj e2)) ∙ shared,
    )

-- A block that starts with such a key may hold data.
classify_block_plain :
    (pk block : List ℕ) → take 32 block ≡ pk → IsPlain pk → classify_block block ≡ may_hold_data
unfolding classify_block
classify_block_plain pk block h p =
    let e : take db_nonce_size block ≡ take db_nonce_size pk =
      sym (take-take db_nonce_size 32 block (omega arith)) ∙ ap (take db_nonce_size) h in
    rw (e, p.not_deleted, p.not_erased)

zero_padded-append :
    (xs ys : List ℕ) (n : ℕ) → zero_padded (length xs + n) (xs ++ ys) ≡ xs ++ zero_padded n ys
zero_padded-append [] ys n = ap (λ k. zero_padded k ys) (omega arith)
zero_padded-append (x ∷ xs) ys n =
    let e : suc (length xs) + n ≡ suc (length xs + n) = omega arith in
    let f : suc (length xs + n) - suc (length (xs ++ ys)) ≡ length xs + n - length (xs ++ ys) =
      omega arith in
    ap (λ k. zero_padded k (x ∷ (xs ++ ys))) e
    ∙ ap (λ k. x ∷ take (length xs + n) ((xs ++ ys) ++ zeros k)) f
    ∙ ap (◌∷◌ x) (zero_padded-append xs ys n)

block_content-header :
    (seq : ℕ) (payload : List ℕ)
    → seq < 2 ^ 16
    → block_content (block_header bt_data seq ++ payload) ≡ content seq payload
unfolding block_content block_header
block_content-header seq payload h =
    let e : seq % 256 + 256 * (seq / 256 % 256) ≡ seq = omega arith in ap (λ q. content q payload) e

zero_padded-header :
    (seq : ℕ) (payload : List ℕ)
    → zero_padded 920 (block_header bt_data seq ++ payload)
      ≡ block_header bt_data seq ++ zero_padded 916 payload
unfolding block_header
zero_padded-header seq payload = zero_padded-append (block_header bt_data seq) payload 916

-- With one reader there is nothing to be tried before.
only_reader :
    (z : Nacl) (size : ℕ) (block shared : List ℕ) (n : ℕ) → n ≡ 1 → Rejects z size block shared n 0
only_reader z size block shared n e = record {
  layouts = λ m j p q. absurd (omega arith);
  keys = λ j p. absurd (omega arith);
}

-- The bytes that are left for the payload where there is one reader.
abbrev pub payload_room : ℕ
payload_room = 916

module _ (z : Nacl) (st : Storage) (storage_blocks : ℕ) where
  -- What `block_write` did where it returned.
  block_write-sent :
      (c : Dbcrypt) (nonce rk : List ℕ) (seq : ℕ) (payload : List ℕ) (n : ℕ) (s : st.State)
      {r : Bool × st.State}
      → block_write z st storage_blocks c nonce rk bt_data seq payload n s ≡ some r
      → (io_buf : List ℕ) × (is_usable storage_blocks n ≡ true)
        × (db_encrypt z c nonce rk (block_header bt_data seq ++ payload) ≡ some io_buf)
        × (st.write s io_buf n ≡ r)
  unfolding block_write
  block_write-sent c nonce rk seq payload n s w =
      let g = guard-eq_some (is_usable storage_blocks n) _ w in
      let h = guard-eq_some (leb (4 + length payload) storage_block_size) _ g.1 in
      let (io_buf, made, e) =
        or_failure-eq_some (db_encrypt z c nonce rk (block_header bt_data seq ++ payload)) _ h.1 in
      (io_buf, g.0, made, some_inj e)

  block_read-opened :
      (c : Dbcrypt) (seq : ℕ) (payload io_buf : List ℕ) (n : ℕ) (s : st.State)
      → seq < 2 ^ 16
      → length payload ≡ payload_room
      → is_usable storage_blocks n ≡ true
      → st.read s n ≡ some io_buf
      → classify_block io_buf ≡ may_hold_data
      → db_decrypt z c storage_block_size io_buf ≡ some (some (block_header bt_data seq ++ payload))
      → block_read z st storage_blocks c storage_block_size n s ≡ some (content seq payload)
  unfolding block_read block_header
  block_read-opened c seq payload io_buf n s h l usable read class decrypted =
      let len : length (block_header bt_data seq ++ payload) ≡ 920 = omega (arith, l) in
      rw (usable, read, class, decrypted, len) (ap some (block_content-header seq payload h))

  module _ (laws : IsNacl z) (sk : List ℕ) {c : Dbcrypt} (init : dbcrypt_init z sk ≡ some c)
      (pk_bytes : length c.pk ≡ 32) where
    -- The length of what a successful write was given.
    payload-le :
        (nonce rk : List ℕ) (seq : ℕ) (payload : List ℕ) (n : ℕ) (s : st.State)
        {r : Bool × st.State}
        → length nonce ≡ 24
        → length rk ≡ 32
        → block_write z st storage_blocks c nonce rk bt_data seq payload n s ≡ some r
        → length payload ≤ payload_room
    unfolding block_header
    payload-le nonce rk seq payload n s a b w =
        let (reader, one, k) = dbcrypt_init_lem z sk init in
        let readers : length c.readers ≡ 1 = ap length one in
        let (io_buf, usable, made, written) = block_write-sent c nonce rk seq payload n s w in
        let (box, boxed, room, fits, at) =
          db_encrypt-Layout z laws c nonce rk (block_header bt_data seq ++ payload) io_buf pk_bytes
            a b made in
        omega (arith, readers, fits)

    -- A payload of more bytes than a block has room for fails an assertion.
    pub block_write_too_long :
        (nonce rk : List ℕ) (seq : ℕ) (payload : List ℕ) (n : ℕ) (s : st.State)
        → length nonce ≡ 24
        → length rk ≡ 32
        → payload_room < length payload
        → block_write z st storage_blocks c nonce rk bt_data seq payload n s ≡ none
    block_write_too_long nonce rk seq payload n s a b h =
        elim (Option-cases (block_write z st storage_blocks c nonce rk bt_data seq payload n s)) [
          | inl e ↦ e
          | inr (r, e) ↦ absurd (omega (arith, payload-le nonce rk seq payload n s a b e))
        ]

  module _ (laws : IsNacl z) (store : IsStorage st storage_blocks) (sk : List ℕ) {c : Dbcrypt}
      (init : dbcrypt_init z sk ≡ some c) (pk_bytes : length c.pk ≡ 32) (plain : IsPlain c.pk) where
    -- A block of data that was written under the device's own key, read again.
    pub block_read-write :
        (nonce rk : List ℕ) (seq : ℕ) (payload : List ℕ) (n : ℕ) (s s' : st.State)
        → length nonce ≡ 24
        → length rk ≡ 32
        → seq < 2 ^ 16
        → st.read s n ≡ some erased_block
        → block_write z st storage_blocks c nonce rk bt_data seq payload n s ≡ some (true, s')
        → block_read z st storage_blocks c storage_block_size n s'
          ≡ some (content seq (zero_padded payload_room payload))
    block_read-write nonce rk seq payload n s s' a b h blank w =
        let (reader, one, k) = dbcrypt_init_lem z sk init in
        let (io_buf, usable, made, written) = block_write-sent c nonce rk seq payload n s w in
        let readers : length c.readers ≡ 1 = ap length one in
        let (box, boxed, room, fits, at) =
          db_encrypt-Layout z laws c nonce rk (block_header bt_data seq ++ payload) io_buf pk_bytes
            a b made in
        let full =
          (db_decrypt_payload-encrypt z laws storage_block_size (box_bytes (length c.readers)) nonce
            (block_header bt_data seq ++ payload) rk (omega (arith, room)) (omega arith) boxed).0 in
        let size : length io_buf ≡ storage_block_size = omega (
          arith,
          room,
          full,
          length-drop (header_bytes + key_bytes * length c.readers) io_buf,
          ap length at.box_at,
        ) in
        let below : n < storage_blocks = ground arith in
        let read = store.read_written s s' io_buf n below size blank written in
        let decrypted =
          db_decrypt-encrypt z laws c c storage_block_size 0 nonce rk
            (block_header bt_data seq ++ payload) io_buf reader pk_bytes a b (omega arith)
            (omega arith) made (ap (λ rs. get_elem? rs 0) one) k
            (only_reader z storage_block_size io_buf reader.k (length c.readers) readers) in
        block_read-opened c seq (zero_padded payload_room payload) io_buf n s' h
          (length-zero_padded payload_room payload) usable read
          (classify_block_plain c.pk io_buf at.writer plain)
          (decrypted
            ∙ ap
                (λ r.
                  some
                    (some (zero_padded (box_bytes r - 16) (block_header bt_data seq ++ payload))))
                readers
            ∙ ap (λ p. some (some p)) (zero_padded-header seq payload))

    -- The fields that `write_entry` put into a block come out of it when it is read.
    pub fields_of-block_read :
        (fs : List Field) (out nonce rk : List ℕ) (seq n : ℕ) (s s' : st.State)
        → AllWhole fs
        → IsOrdered fs
        → length nonce ≡ 24
        → length rk ≡ 32
        → seq < 2 ^ 16
        → write_fields payload_size fs ≡ some out
        → st.read s n ≡ some erased_block
        → block_write z st storage_blocks c nonce rk bt_data seq out n s ≡ some (true, s')
        → (payload : List ℕ) × (block_read z st storage_blocks c storage_block_size n s'
            ≡ some (content seq payload))
          × (fields_of payload ≡ fs)
    fields_of-block_read fs out nonce rk seq n s s' whole ordered a b h made blank w =
        let k = payload_room - length out in
        let padded : zero_padded payload_room out ≡ out ++ replicate k 0 =
          take_all payload_room (out ++ zeros k) (
            omega (
              arith,
              length-append out (zeros k),
              length-replicate {A = ℕ} k 0,
              payload-le laws sk init pk_bytes nonce rk seq out n s a b w,
            )) in
        (
          zero_padded payload_room out,
          block_read-write nonce rk seq out n s s' a b h blank w,
          ap fields_of padded ∙ fields_of-write_fields payload_size k fs out whole ordered made,
        )
