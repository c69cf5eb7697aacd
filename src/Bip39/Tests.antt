-- ===== src/Bip39/Tests.antt =====
-- A table of two words, of which the keys of both begin alike, and words of 16 bytes.
use fw.Base.{ℕ, ◌≡◌, refl, none, some, List, [], ◌∷◌}
use fw.Base.{◌≢◌, length, replicate, arith}
use fw.Bip39.Codec.{bip39_encode, bip39_next_word, all_words, decoded, bip39_decode}
use fw.Bip39.Codec.RoundTrip.{bip39_decode-encode}
use fw.Bip39.Codec.Total.{bip39_decode-ne-none}
use fw.Bip39.{has_char, find_set, bip39_match, bip39_word_to_sets}
use fw.Bip39.Match.{Among, bip39_match-word_to_sets}

-- "bad" and "add"
abbrev words : List (List ℕ)
words = (98 ∷ 97 ∷ 100 ∷ []) ∷ (97 ∷ 100 ∷ 100 ∷ []) ∷ []

add_keys : bip39_word_to_sets (97 ∷ 100 ∷ 100 ∷ []) 2 ≡ some (48 ∷ 49 ∷ [])
unfolding bip39_word_to_sets find_set has_char
add_keys = refl

bip39_match-word_to_sets_example :
    (matches : List ℕ) × (next : List ℕ) × (bip39_match words (48 ∷ 49 ∷ []) (some 11)
      ≡ some (matches, next))
    × Among 1 matches
bip39_match-word_to_sets_example =
    bip39_match-word_to_sets words 1 2 (some 11) (97 ∷ 100 ∷ 100 ∷ []) (48 ∷ 49 ∷ []) refl add_keys
      (omega arith)

-- The first byte of the hash of 16 zeros is 0x37.
abbrev sha256 : List ℕ → List ℕ
sha256 bytes = 0x37 ∷ []

abbrev zeros : List ℕ
zeros = replicate 16 0

-- "abandon" eleven times, and "about"
zeros_words :
    all_words 13 (bip39_encode sha256 zeros)
    ≡ some (0 ∷ 0 ∷ 0 ∷ 0 ∷ 0 ∷ 0 ∷ 0 ∷ 0 ∷ 0 ∷ 0 ∷ 0 ∷ 3 ∷ [])
unfolding all_words bip39_encode bip39_next_word
zeros_words = refl

bip39_decode-encode_example :
    (words : List ℕ) × (all_words 13 (bip39_encode sha256 zeros) ≡ some words)
    × (length words ≡ 12)
    × (bip39_decode sha256 32 words ≡ some (decoded zeros))
bip39_decode-encode_example =
    bip39_decode-encode sha256 4 32 zeros (omega arith) (omega arith) (omega arith) (omega arith)
      refl (omega arith) (omega arith)

bip39_decode-ne-none_example : bip39_decode sha256 32 (replicate 24 2047) ≢ none
bip39_decode-ne-none_example = bip39_decode-ne-none sha256 32 (replicate 24 2047)
