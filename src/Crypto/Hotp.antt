-- ===== src/Crypto/Hotp.antt =====
-- One-time passwords (crypto/hotp.c), with the HMAC that they are made of (crypto/hmac.c).
--
-- SHA-1 is an argument: the hash of what was passed to sha1_hash since sha1_begin, in one piece. The
-- bytes of the result of hotp are below 256, so that `|` is a sum. `none` is an access outside `hash`.
pub mod Truncation
use fw.Base.{ℕ, zero, suc, ◌+◌, ◌-◌, ◌*◌, ◌/◌, ◌%◌, ◌^◌, Option, none, some, List, [], ◌∷◌, ◌++◌}
use fw.Base.{map, ltb, length, get_elem?, take, drop, replicate, if◌then◌else◌}
use Prim.Native.Nat.{bit_xor}

-- `HMAC_SHA1_BYTES` and `SHA1_BLOCK_BYTES`
abbrev pub hmac_sha1_bytes : ℕ
hmac_sha1_bytes = 20

abbrev pub sha1_block_bytes : ℕ
sha1_block_bytes = 64

-- A key is filled up to a block by zeros, and a longer one is hashed before.
unfoldable pub block_key : (List ℕ → List ℕ) → List ℕ → List ℕ
block_key sha1 k =
    let key = if ltb sha1_block_bytes (length k) then sha1 k else k in
    key ++ replicate (sha1_block_bytes - length key) 0

unfoldable pub hmac_sha1 : (List ℕ → List ℕ) → List ℕ → List ℕ → List ℕ
unfolding block_key
hmac_sha1 sha1 k c =
    let key = block_key sha1 k in
    let h_text = sha1 (map (λ b. bit_xor b 0x36) key ++ c) in
    sha1 (map (λ b. bit_xor b 0x5c) key ++ h_text)

unfoldable pub with_byte : List ℕ → ℕ → (ℕ → Option ℕ) → Option ℕ
with_byte hash i f = elim (get_elem? hash i) [ none ↦ none | some b ↦ f b ]

-- The number that the code is made of: the first of four bytes without its top bit, and the others.
unfoldable pub truncate : List ℕ → Option ℕ
truncate hash = with_byte hash (hmac_sha1_bytes - 1) λ last.
    let i = last % 16 in
    with_byte hash i λ a. with_byte hash (i + 1) λ b.
      with_byte hash (i + 2)
        λ c. with_byte hash (i + 3) λ d. some (a % 128 * 2 ^ 24 + b * 2 ^ 16 + c * 2 ^ 8 + d)

unfoldable pub hotp : (List ℕ → List ℕ) → List ℕ → List ℕ → Option ℕ
unfolding hmac_sha1 truncate
hotp sha1 k c = truncate (hmac_sha1 sha1 k c)

-- The loop that fills `c_bytes`, with so many rounds left.
unfoldable pub counter_bytes : ℕ → ℕ → List ℕ
counter_bytes zero count = []
counter_bytes (suc left) count = (count / 2 ^ (8 * left) % 256) ∷ counter_bytes left count

unfoldable pub hotp_n : (List ℕ → List ℕ) → List ℕ → ℕ → ℕ → Option ℕ
unfolding counter_bytes hotp
hotp_n sha1 k count bytes = hotp sha1 k (counter_bytes bytes count)

unfoldable pub hotp64 : (List ℕ → List ℕ) → List ℕ → ℕ → Option ℕ
unfolding hotp_n
hotp64 sha1 k count = hotp_n sha1 k count 8
