-- ===== src/Crypto/Hotp/Truncation.antt =====
-- The truncation of the hash to a code (crypto/hotp.c), against RFC 4226.
use fw.Base.{
  ℕ, zero, suc, ◌+◌, ◌*◌, ◌%◌, ◌^◌, ◌<◌, ◌≡◌, refl, ap, ◌∙◌, sym, some, arith, List, [], ◌∷◌,
  length, get_elem?, take, drop, Option, get_or, some_inj,
}
use fw.Crypto.Hotp.{hmac_sha1, with_byte, truncate, counter_bytes, hotp64}

-- The number that bytes stand for, the first one being the highest, behind those for `acc`.
abbrev pub be_value : ℕ → List ℕ → ℕ
be_value acc [] = acc
be_value acc (b ∷ bytes) = be_value (acc * 256 + b) bytes

abbrev pub AllBytes : List ℕ → Type 0
AllBytes [] = Unit
AllBytes (b ∷ bs) = (b < 256) × AllBytes bs

-- Four bytes of a list, from `i` on.
record Four (hash : List ℕ) (i : ℕ) : Type 0 where
  a : ℕ
  b : ℕ
  c : ℕ
  d : ℕ
  at_a : get_elem? hash i ≡ some a
  at_b : get_elem? hash (suc i) ≡ some b
  at_c : get_elem? hash (suc (suc i)) ≡ some c
  at_d : get_elem? hash (suc (suc (suc i))) ≡ some d
  all : take 4 (drop i hash) ≡ a ∷ b ∷ c ∷ d ∷ []
  bytes : (b < 256) × (c < 256) × (d < 256)

Four_lem : (hash : List ℕ) (i : ℕ) → AllBytes hash → i + 3 < length hash → Four hash i
Four_lem [] i w h = absurd (omega arith)
Four_lem (a ∷ []) zero w h = absurd (omega arith)
Four_lem (a ∷ b ∷ []) zero w h = absurd (omega arith)
Four_lem (a ∷ b ∷ c ∷ []) zero w h = absurd (omega arith)
Four_lem (a ∷ b ∷ c ∷ d ∷ hash) zero w h = record {
  a = a;
  b = b;
  c = c;
  d = d;
  at_a = refl;
  at_b = refl;
  at_c = refl;
  at_d = refl;
  all = refl;
  bytes = (w.1.0, w.1.1.0, w.1.1.1.0);
}
Four_lem (x ∷ hash) (suc i) w h =
    let f = Four_lem hash i w.1 (omega arith) in
    record {
      a = f.a;
      b = f.b;
      c = f.c;
      d = f.d;
      at_a = f.at_a;
      at_b = f.at_b;
      at_c = f.at_c;
      at_d = f.at_d;
      all = f.all;
      bytes = f.bytes;
    }

last_byte : (hash : List ℕ) (i : ℕ) → i < length hash → (b : ℕ) × (get_elem? hash i ≡ some b)
last_byte [] i h = absurd (omega arith)
last_byte (b ∷ hash) zero h = (b, refl)
last_byte (b ∷ hash) (suc i) h = last_byte hash i (omega arith)

-- The place in the hash that its last byte gives.
abbrev pub offset : List ℕ → ℕ
offset hash = get_or hash 19 0 % 16

get_or-of_some : (hash : List ℕ) (i : ℕ) {b : ℕ} → get_elem? hash i ≡ some b → get_or hash i 0 ≡ b
get_or-of_some [] i e = absurd (ground arith)
get_or-of_some (x ∷ hash) zero e = some_inj e
get_or-of_some (x ∷ hash) (suc i) e = get_or-of_some hash i e

with_byte_at :
    (hash : List ℕ) (i : ℕ) {b : ℕ}
    → get_elem? hash i ≡ some b
    → (f : ℕ → Option ℕ) → with_byte hash i f ≡ f b
unfolding with_byte
with_byte_at hash i e f = rw (e, with_byte)

without_top_bit :
    (a b c d : ℕ)
    → b < 256
    → c < 256
    → d < 256
    → a % 128 * 2 ^ 24 + b * 2 ^ 16 + c * 2 ^ 8 + d ≡ be_value 0 (a ∷ b ∷ c ∷ d ∷ []) % 2 ^ 31
without_top_bit a b c d p q r = omega arith

abbrev truncated : List ℕ → ℕ → Option ℕ
truncated hash i = some (be_value 0 (take 4 (drop i hash)) % 2 ^ 31)

truncate_at :
    (hash : List ℕ) (last : ℕ)
    → get_elem? hash 19 ≡ some last
    → Four hash (last % 16)
    → truncate hash ≡ truncated hash (last % 16)
unfolding truncate
truncate_at hash last e f =
    let n1 : last % 16 + 1 ≡ suc (last % 16) = omega arith in
    let n2 : last % 16 + 2 ≡ suc (suc (last % 16)) = omega arith in
    let n3 : last % 16 + 3 ≡ suc (suc (suc (last % 16))) = omega arith in
    with_byte_at hash 19 e _
    ∙ (with_byte_at hash (last % 16) f.at_a _
        ∙ (with_byte_at hash (last % 16 + 1) (ap (get_elem? hash) n1 ∙ f.at_b) _
            ∙ (with_byte_at hash (last % 16 + 2) (ap (get_elem? hash) n2 ∙ f.at_c) _
                ∙ with_byte_at hash (last % 16 + 3) (ap (get_elem? hash) n3 ∙ f.at_d) _)))
    ∙ ap some (without_top_bit f.a f.b f.c f.d f.bytes.0 f.bytes.1 f.bytes.2)
    ∙ ap (λ bs. some (be_value 0 bs % 2 ^ 31)) (sym f.all)

truncate_lem :
    (hash : List ℕ)
    → AllBytes hash
    → length hash ≡ 20
    → truncate hash ≡ truncated hash (offset hash)
truncate_lem hash w n =
    let (last, e) = last_byte hash 19 (omega arith) in
    let r : last % 16 < 16 = omega arith in
    truncate_at hash last e (Four_lem hash (last % 16) w (omega (arith, n, r)))
    ∙ ap (λ l. truncated hash (l % 16)) (sym (get_or-of_some hash 19 e))

-- The counter is passed as eight bytes, the highest first.
be_value-counter_bytes : (count : ℕ) → count < 2 ^ 64 → be_value 0 (counter_bytes 8 count) ≡ count
unfolding counter_bytes
be_value-counter_bytes count h = omega arith

counter_bytes-length : (count : ℕ) → length (counter_bytes 8 count) ≡ 8
unfolding counter_bytes
counter_bytes-length count = refl

hmac_sha1-hash :
    (sha1 : List ℕ → List ℕ) (k c : List ℕ)
    → ((text : List ℕ) → (length (sha1 text) ≡ 20) × AllBytes (sha1 text))
    → (length (hmac_sha1 sha1 k c) ≡ 20) × AllBytes (hmac_sha1 sha1 k c)
unfolding hmac_sha1
hmac_sha1-hash sha1 k c h = h _

hotp64-truncate :
    (sha1 : List ℕ → List ℕ) (k : List ℕ) (count : ℕ)
    → hotp64 sha1 k count ≡ truncate (hmac_sha1 sha1 k (counter_bytes 8 count))
unfolding hotp64
hotp64-truncate sha1 k count = refl

-- With a hash function that gives 20 bytes, `hotp64` gives the truncation of the HMAC of the counter as
-- eight bytes, the highest first: the number that four bytes of it from the offset on stand for, which
-- its last byte gives, without the top bit.
pub hotp64-truncated :
    (sha1 : List ℕ → List ℕ) (k : List ℕ) (count : ℕ)
    → ((text : List ℕ) → (length (sha1 text) ≡ 20) × AllBytes (sha1 text))
    → count < 2 ^ 64
    → (text : List ℕ) × (length text ≡ 8)
      × (be_value 0 text ≡ count)
      × (hotp64 sha1 k count
          ≡ some (
              be_value 0 (take 4 (drop (offset (hmac_sha1 sha1 k text)) (hmac_sha1 sha1 k text)))
              % 2 ^ 31))
hotp64-truncated sha1 k count h p =
    let text = counter_bytes 8 count in
    let hash = hmac_sha1-hash sha1 k text h in
    (
      text,
      counter_bytes-length count,
      be_value-counter_bytes count p,
      hotp64-truncate sha1 k count ∙ truncate_lem (hmac_sha1 sha1 k text) hash.1 hash.0,
    )
