-- ===== src/Db/Crypt/RoundTrip.antt =====
-- What was encrypted for a reader, the reader decrypts.
use fw.Base.{le→leb}
use fw.Base.{
  ℕ, zero, suc, ◌+◌, ◌-◌, ◌*◌, ◌≤◌, ◌<◌, ◌≡◌, refl, sym, ap, ◌∙◌, true, none, some, arith, Option,
}
use fw.Base.{List, [], ◌∷◌, ◌++◌, length, take, drop, get_elem?, leb, ltb, leb→le, some_inj}
use fw.Db.Secrets.{storage_block_size}
use fw.Db.Secrets.Bytes.{take_at, drop_at}
use fw.Db.Crypt.{
  Nacl, Peer, Dbcrypt, header_bytes, key_bytes, db_max_readers, zero_padded, or_failure, key_nonce,
  db_encrypt_payload, box_bytes, db_encrypt, db_decrypt_payload, attempt, first_opened, try_layout,
  has_room, try_layouts, db_decrypt,
}
use fw.Db.Crypt.Keys.{
  IsNacl, drop-drop, guard-eq_some, db_decrypt_payload-encrypt, sent, db_try_decrypt-sent, all_sent,
  encrypt_keys-sent, length-all_sent, all_sent_at,
}

-- The parts of a block, by their places.
pub record Layout (block pk nonce keys box : List ℕ) (n : ℕ) : Type 0 where
  pub writer : take 32 block ≡ pk
  nonce_at : take 24 (drop 32 block) ≡ nonce
  keys_at : drop header_bytes block ≡ keys ++ box
  pub box_at : drop (header_bytes + n) block ≡ box

Layout_lem :
    (pk nonce keys box : List ℕ) (n : ℕ)
    → length pk ≡ 32
    → length nonce ≡ 24
    → length keys ≡ n
    → Layout (pk ++ (nonce ++ (keys ++ box))) pk nonce keys box n
Layout_lem pk nonce keys box n a b c =
    let block = pk ++ (nonce ++ (keys ++ box)) in
    let behind : drop 32 block ≡ nonce ++ (keys ++ box) = drop_at 32 pk _ a in
    let front : drop header_bytes block ≡ keys ++ box =
      drop-drop 32 24 block ∙ (ap (drop 24) behind ∙ drop_at 24 nonce _ b) in
    record {
      writer = take_at 32 pk _ a;
      nonce_at = ap (take 24) behind ∙ take_at 24 nonce _ b;
      keys_at = front;
      box_at = drop-drop header_bytes n block ∙ (ap (drop n) front ∙ drop_at n keys box c);
    }

first_opened-none :
    (left i : ℕ) (try : ℕ → Option (Option (List ℕ)))
    → ((j : ℕ) → j < i + left → try j ≡ some none)
    → first_opened left i try ≡ some none
unfolding first_opened
first_opened-none zero i try h = refl
first_opened-none (suc left) i try h =
    rw (h i (omega arith), first_opened)
      (first_opened-none left (suc i) try (λ j q. h j (omega arith)))

first_opened_at :
    (left i k : ℕ) (try : ℕ → Option (Option (List ℕ))) {content : List ℕ}
    → k < left
    → ((j : ℕ) → j < i + k → try j ≡ some none)
    → try (i + k) ≡ some (some content)
    → first_opened left i try ≡ some (some content)
unfolding first_opened
first_opened_at zero i k try p h e = absurd (omega arith)
first_opened_at (suc left) i zero try p h e =
    let n : i ≡ i + 0 = omega arith in rw (ap try n ∙ e, first_opened)
first_opened_at (suc left) i (suc k) try p h e =
    let n : suc i + k ≡ i + suc k = omega arith in
    rw (h i (omega arith), first_opened)
      (first_opened_at left (suc i) k try (omega arith) (λ j q. h j (omega arith)) (ap try n ∙ e))

-- Before the key `i` of the layout for `n` readers no attempt opens the block.
pub record Rejects (z : Nacl) (size : ℕ) (block shared : List ℕ) (n i : ℕ) : Type 0 where
  pub layouts : (m j : ℕ) → j < m → m < n → attempt z size block shared m j ≡ some none
  pub keys : (j : ℕ) → j < i → attempt z size block shared n j ≡ some none

module _ (z : Nacl) (left size : ℕ) (block shared : List ℕ) (n : ℕ) where
  try_layouts_opens :
      {content : List ℕ}
      → has_room n ≡ true
      → try_layout z size block shared n ≡ some (some content)
      → try_layouts z (suc left) size block shared n ≡ some (some content)
  unfolding try_layouts
  try_layouts_opens r e = rw (r, e)

  try_layouts_goes_on :
      has_room n ≡ true
      → try_layout z size block shared n ≡ some none
      → try_layouts z (suc left) size block shared n ≡ try_layouts z left size block shared (suc n)
  unfolding try_layouts
  try_layouts_goes_on r e = rw (r, e)

has_room_lem :
    (n k : ℕ) → header_bytes + key_bytes * (n + k) + 16 ≤ storage_block_size → has_room n ≡ true
unfolding has_room
has_room_lem n k h = le→leb (header_bytes + key_bytes * n + 16) storage_block_size (omega arith)

try_layouts_at :
    (z : Nacl) (left size : ℕ) (block shared : List ℕ) (m k i : ℕ) {content : List ℕ}
    → k < left
    → header_bytes + key_bytes * (m + k) + 16 ≤ storage_block_size
    → i < m + k
    → Rejects z size block shared (m + k) i
    → attempt z size block shared (m + k) i ≡ some (some content)
    → try_layouts z left size block shared m ≡ some (some content)
unfolding try_layout
try_layouts_at z zero size block shared m k i p r q h e = absurd (omega arith)
try_layouts_at z (suc left) size block shared m zero i p r q h e =
    let n : m + 0 ≡ m = omega arith in
    let try = attempt z size block shared m in
    try_layouts_opens z left size block shared m (has_room_lem m 0 r) (
      first_opened_at m 0 i try (omega arith)
        (λ j b. ap (λ l. attempt z size block shared l j) (sym n) ∙ h.keys j (omega arith))
        (ap try (omega arith) ∙ (ap (λ l. attempt z size block shared l i) (sym n) ∙ e)))
try_layouts_at z (suc left) size block shared m (suc k) i p r q h e =
    let n : m + suc k ≡ suc m + k = omega arith in
    try_layouts_goes_on z left size block shared m (has_room_lem m (suc k) r) (
      first_opened-none m 0 (attempt z size block shared m)
        (λ j b. h.layouts m j (omega arith) (omega arith)))
    ∙ try_layouts_at z left size block shared (suc m) k i (omega arith) (omega arith) (omega arith)
        (rw (← n) h) (rw (← n) e)

pub or_failure-eq_some :
    {A : Type 0} (o : Option (List ℕ)) (f : List ℕ → Option A) {y : A}
    → or_failure o none f ≡ some y
    → (x : List ℕ) × (o ≡ some x) × (f x ≡ some y)
or_failure-eq_some none f h = absurd (ground arith)
or_failure-eq_some (some x) f h = (x, refl, h)

module _ (z : Nacl) (laws : IsNacl z) where
  -- What `db_encrypt` made, part by part.
  pub db_encrypt-Layout :
      (c : Dbcrypt) (nonce rk content block : List ℕ)
      → length c.pk ≡ 32
      → length nonce ≡ 24
      → length rk ≡ 32
      → db_encrypt z c nonce rk content ≡ some block
      → (box : List ℕ) × (db_encrypt_payload z nonce (box_bytes (length c.readers)) content rk
          ≡ some box)
        × (header_bytes + key_bytes * length c.readers + 16 ≤ storage_block_size)
        × (length content + 16 ≤ box_bytes (length c.readers))
        × Layout block c.pk nonce
            (all_sent z laws nonce rk 0 c.readers)
            box
            (key_bytes * length c.readers)
  unfolding db_encrypt
  db_encrypt-Layout c nonce rk content block a b l e =
      let n = length c.readers in
      let keys = all_sent z laws nonce rk 0 c.readers in
      let g = guard-eq_some (ltb 0 n) _ e in
      let h = guard-eq_some (leb (header_bytes + key_bytes * n + 16) storage_block_size) _ g.1 in
      let k = guard-eq_some (leb (length content + 16) (box_bytes n)) _ h.1 in
      let (box, boxed, e1) = or_failure-eq_some _ _ k.1 in
      let (keys', sent_keys, e2) = or_failure-eq_some _ _ e1 in
      let same : keys ≡ keys' =
        some_inj (sym (encrypt_keys-sent z laws nonce rk 0 c.readers l) ∙ sent_keys) in
      let made : c.pk ++ (nonce ++ (keys ++ box)) ≡ block =
        ap (λ ks. c.pk ++ (nonce ++ (ks ++ box))) same ∙ some_inj e2 in
      (
        box,
        boxed,
        leb→le (header_bytes + key_bytes * n + 16) storage_block_size h.0,
        leb→le (length content + 16) (box_bytes n) k.0,
        rw (← made) (
            Layout_lem c.pk nonce keys box (key_bytes * n) a b
              (length-all_sent z laws nonce rk 0 c.readers l)),
      )

  attempt_at :
      (size i : ℕ) (pk nonce rk box block : List ℕ) (readers : List Peer) (reader : Peer)
      → length rk ≡ 32
      → get_elem? readers i ≡ some reader
      → Layout block pk nonce (all_sent z laws nonce rk 0 readers) box (key_bytes * length readers)
      → attempt z size block reader.k (length readers) i ≡ db_decrypt_payload z size nonce box rk
  unfolding attempt
  attempt_at size i pk nonce rk box block readers reader l g at =
      let ek : take key_bytes (drop (header_bytes + key_bytes * i) block)
          ≡ sent z laws (key_nonce nonce (suc (0 + i))) reader.k rk =
        ap (take key_bytes)
          (drop-drop header_bytes (key_bytes * i) block ∙ ap (drop (key_bytes * i)) at.keys_at)
        ∙ all_sent_at z laws nonce rk box 0 i readers l g in
      let n : suc (0 + i) ≡ i + 1 = omega arith in
      rw (at.nonce_at, at.box_at, ek, n) (db_try_decrypt-sent z laws size i nonce box rk reader l)

get_elem?-lt :
    (readers : List Peer) (i : ℕ) {reader : Peer}
    → get_elem? readers i ≡ some reader
    → i < length readers
get_elem?-lt [] i g = absurd (ground arith)
get_elem?-lt (r ∷ readers) zero g = omega arith
get_elem?-lt (r ∷ readers) (suc i) g = omega (arith, get_elem?-lt readers i g)

db_decrypt-layouts :
    (z : Nacl) (d : Dbcrypt) (size : ℕ) (block shared : List ℕ)
    → z.beforenm (take 32 block) d.sk ≡ some shared
    → db_decrypt z d size block ≡ try_layouts z db_max_readers size block shared 1
unfolding db_decrypt
db_decrypt-layouts z d size block shared e = rw e

module _ (z : Nacl) (laws : IsNacl z) (c d : Dbcrypt) where
  -- With NaCl as documented, a public key, a nonce and a record key of the right lengths, and no more than
  -- 12 readers: a reader whose secret shared with the writer is that of one of the readers that
  -- db_encrypt made the block for gets its contents from db_decrypt, padded with zeros to the end of the
  -- box, in a buffer of at least 1024 bytes, if none of the attempts before the right one, at layouts
  -- with fewer readers and at the keys of the readers before, opens the block or fails an assertion.
  pub db_decrypt-encrypt :
      (size i : ℕ) (nonce rk content block : List ℕ) (reader : Peer)
      → length c.pk ≡ 32
      → length nonce ≡ 24
      → length rk ≡ 32
      → length c.readers ≤ db_max_readers
      → storage_block_size ≤ size
      → db_encrypt z c nonce rk content ≡ some block
      → get_elem? c.readers i ≡ some reader
      → z.beforenm c.pk d.sk ≡ some reader.k
      → Rejects z size block reader.k (length c.readers) i
      → db_decrypt z d size block
        ≡ some (some (zero_padded (box_bytes (length c.readers) - 16) content))
  db_decrypt-encrypt size i nonce rk content block reader a b l m s e g k rej =
      let n = length c.readers in
      let (box, boxed, room, fits, at) =
        db_encrypt-Layout z laws c nonce rk content block a b l e in
      let opens =
        attempt_at z laws size i c.pk nonce rk box block c.readers reader l g at
        ∙ (db_decrypt_payload-encrypt z laws size (box_bytes n) nonce content rk (omega arith)
            (omega arith) boxed).1 in
      let last : 1 + (n - 1) ≡ n = omega (arith, get_elem?-lt c.readers i g) in
      db_decrypt-layouts z d size block reader.k (ap (λ w. z.beforenm w d.sk) at.writer ∙ k)
      ∙ try_layouts_at z db_max_readers size block reader.k 1 (n - 1) i (omega arith)
          (omega (arith, last)) (omega (arith, get_elem?-lt c.readers i g)) (rw last rej)
          (rw last opens)
