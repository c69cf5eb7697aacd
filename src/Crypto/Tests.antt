-- ===== src/Crypto/Tests.antt =====
-- Runs of the codings, and the theorems about them at concrete inputs.
use fw.Base.{ℕ, ◌≡◌, refl, none, some, List, [], ◌∷◌, length, leb, if◌then◌else◌, arith}
use fw.Base.{◌%◌, ◌^◌, take, drop}
use fw.Crypto.Hotp.{hmac_sha1, truncate, with_byte, hotp64}
use fw.Crypto.Hotp.Truncation.{be_value, offset, hotp64-truncated}
use fw.Crypto.Base32.{base32_encode, base32_decode}
use fw.Crypto.Base32.RoundTrip.{base32_decode-encode}

abbrev hell : List ℕ
hell = 104 ∷ 101 ∷ 108 ∷ 108 ∷ []

-- "NBSWY3A="
abbrev nbswy3a : List ℕ
nbswy3a = 78 ∷ 66 ∷ 83 ∷ 87 ∷ 89 ∷ 51 ∷ 65 ∷ 61 ∷ []

encode_hell : base32_encode 9 hell ≡ some nbswy3a
unfolding base32_encode
encode_hell = refl

encode_too_small : base32_encode 8 hell ≡ none
unfolding base32_encode
encode_too_small = refl

decode_bits_left : base32_decode (some 9) (78 ∷ 67 ∷ []) ≡ none
unfolding base32_decode
decode_bits_left = refl

base32_decode-encode_example :
    base32_decode (some 4) nbswy3a ≡ (if leb (length hell) 4 then some hell else none)
base32_decode-encode_example = base32_decode-encode 9 4 hell nbswy3a (omega arith) encode_hell

-- The hash of RFC 4226, section 5.4: its last byte is 0x5a, and the four bytes at 10 are 50 ef 7f 19.
abbrev rfc_hash : List ℕ
rfc_hash =
    0x1f ∷ 0x86 ∷ 0x98 ∷ 0x69 ∷ 0x0e ∷ 0x02 ∷ 0xca ∷ 0x16 ∷ 0x61 ∷ 0x85 ∷ 0x50 ∷ 0xef ∷ 0x7f ∷ 0x19
    ∷ 0xda ∷ 0x8e ∷ 0x94 ∷ 0x5b ∷ 0x55 ∷ 0x5a ∷ []

rfc_code : truncate rfc_hash ≡ some 0x50ef7f19
unfolding truncate with_byte
rfc_code = refl

hotp64-truncated_example :
    (text : List ℕ) × (length text ≡ 8)
    × (be_value 0 text ≡ 258)
    × (hotp64 (λ t. rfc_hash) (1 ∷ 2 ∷ []) 258
        ≡ some (
            be_value 0 (
              take 4 (
                drop
                  (offset (hmac_sha1 (λ t. rfc_hash) (1 ∷ 2 ∷ []) text))
                  (hmac_sha1 (λ t. rfc_hash) (1 ∷ 2 ∷ []) text)))
            % 2 ^ 31))
hotp64-truncated_example =
    hotp64-truncated (λ t. rfc_hash) (1 ∷ 2 ∷ []) 258 (λ t. (refl, omega arith)) (omega arith)
