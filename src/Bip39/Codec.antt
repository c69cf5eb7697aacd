-- ===== src/Bip39/Codec.antt =====
-- Mnemonic words from bytes, and back (lib/bip39/bip39enc.c, lib/bip39/bip39dec.c).
--
-- A word is its number in the table, which the build generates and the encoder asserts the size of.
-- SHA-256 is an argument. What is shifted in by `<<` and `|` goes to
-- places that are 0: where less than a byte is taken, `buf` is 0 or the part is cut to its bits, and
-- words are below 2 ^ 11; so `|` is a sum. The outer `none` is a failed assertion, or a shift by a
-- negative number.
pub mod Steps
pub mod Bytes
pub mod RoundTrip
pub mod Total
use fw.Base.{ℕ, zero, suc, ◌+◌, ◌-◌, ◌*◌, ◌/◌, ◌%◌, ◌^◌, Bool, not, ◌&&◌, ◌||◌, Option, none, some}
use fw.Base.{List, [], ◌∷◌, ◌++◌, ◌==◌, leb, ltb, length, get_or, if◌then◌else◌}

-- `BIP39_WORD_BITS`
abbrev pub bip39_word_bits : ℕ
bip39_word_bits = 11

-- `struct bip39enc`; `p` is what lies from there to `end`.
pub record Bip39Enc : Type 0 where
  pub pos : ℕ
  pub p : List ℕ
  pub bytes : ℕ
  pub sha : ℕ

unfoldable pub bip39_encode : (List ℕ → List ℕ) → List ℕ → Bip39Enc
bip39_encode sha256 bytes = record {
  pos = 0;
  p = bytes;
  bytes = length bytes;
  sha = get_or (sha256 bytes) 0 0;
}

-- The value of `buf` and the state behind the loop.
abbrev pub Taken : Type 0
Taken = ℕ × Bip39Enc

-- The loop that collects the bits of a word. Each round takes a bit at least, so that 12 are enough.
unfoldable pub take_bits : ℕ → ℕ → ℕ → Bip39Enc → List ℕ → Option Taken
take_bits zero buf got b p = none
take_bits (suc fuel) buf got b [] =
    let want = bip39_word_bits - got in
    if leb bip39_word_bits got
    then some (buf, record b { p = [] })
    else if leb want 8
    then some ((buf * 2 ^ want + b.sha / 2 ^ (8 - want)) % 2 ^ 16, record b { p = [] })
    else none
take_bits (suc fuel) buf got b (byte ∷ p) =
    let left = 8 - b.pos % 8 in
    let want = bip39_word_bits - got in
    let rest =
      take_bits fuel ((buf * 2 ^ left + byte % 2 ^ want) % 2 ^ 16) (got + left)
        (record b { pos = (b.pos + left) % 2 ^ 32 }) p in
    if leb bip39_word_bits got
    then some (buf, record b { p = byte ∷ p })
    else if ltb want left
    then some (
      (buf * 2 ^ want + byte / 2 ^ (left - want) % 2 ^ want) % 2 ^ 16,
      record b { pos = (b.pos + want) % 2 ^ 32; p = byte ∷ p },
    )
    else rest

abbrev pub as_word : Option Taken → Option (Option (ℕ × Bip39Enc))
as_word none = none
as_word (some (buf, b)) = some (some (buf % 2 ^ bip39_word_bits, b))

-- The next word and the state behind it; `some none` is -1.
abbrev pub word_from : Bip39Enc → List ℕ → Option (Option (ℕ × Bip39Enc))
word_from b [] = some none
word_from b (byte ∷ p) = as_word (take_bits 12 0 0 b (byte ∷ p))

unfoldable pub bip39_next_word : Bip39Enc → Option (Option (ℕ × Bip39Enc))
unfolding take_bits
bip39_next_word b = word_from b b.p

-- What the callers do: take words up to the first -1.
unfoldable pub all_words : ℕ → Bip39Enc → Option (List ℕ)
all_words zero b = none
all_words (suc fuel) b = elim (bip39_next_word b) [
  | none ↦ none
  | some none ↦ some []
  | some (some (w, b')) ↦ elim (all_words fuel b') [ none ↦ none | some ws ↦ some (w ∷ ws) ]
]

-- What `bip39_decode` returns: an error, or the bytes that it wrote.
pub data Decoded : Type 0 where
  unrecognized overflow checksum : Decoded
  decoded : List ℕ → Decoded

-- The bytes that were written, and what is left: `pending`, `bits`, and the room in the buffer, which
-- is `ent / 8` less the number of bytes written before.
pub record Fed : Type 0 where
  pub out : List ℕ
  pub pending : ℕ
  pub bits : ℕ
  pub room : ℕ

-- The inner loop, which takes 8 bits in each round.
unfoldable pub put_bytes : ℕ → ℕ → ℕ → ℕ → Fed
put_bytes zero pending bits room = record { out = []; pending = pending; bits = bits; room = room }
put_bytes (suc fuel) pending bits room =
    let f = put_bytes fuel pending (bits - 8) (room - 1) in
    if leb 8 bits && not (room == 0)
    then record f { out = (pending / 2 ^ (bits - 8) % 256) ∷ f.out }
    else record { out = []; pending = pending; bits = bits; room = room }

-- The loop over the words.
unfoldable pub feed : List ℕ → ℕ → ℕ → ℕ → Fed
unfolding put_bytes
feed [] pending bits room = record { out = []; pending = pending; bits = bits; room = room }
feed (w ∷ words) pending bits room =
    let f =
      put_bytes (bits + bip39_word_bits) ((pending * 2 ^ bip39_word_bits + w) % 2 ^ 32)
        (bits + bip39_word_bits) room in
    let g = feed words f.pending f.bits f.room in record g { out = f.out ++ g.out }

-- What follows the loop, with its two assertions; `cs` is the number of bits of the checksum.
unfoldable pub check_sum : (List ℕ → List ℕ) → ℕ → Fed → Option Decoded
check_sum sha256 cs f =
    if (f.room == 0) && (f.bits == cs)
    then some (
        if f.pending % 2 ^ cs == get_or (sha256 f.out) 0 0 / 2 ^ (8 - cs)
        then decoded f.out
        else checksum)
    else none

abbrev pub is_size : ℕ → Bool
is_size n = (n == 12) || ((n == 15) || ((n == 18) || ((n == 21) || (n == 24))))

unfoldable pub bip39_decode : (List ℕ → List ℕ) → ℕ → List ℕ → Option Decoded
unfolding feed check_sum
bip39_decode sha256 bytes words =
    let cs = length words / 3 in
    let ent = 10 * length words + 2 * cs in
    if is_size (length words)
    then (if ltb (bytes * 8 % 2 ^ 32) ent
        then some overflow
        else check_sum sha256 cs (feed words 0 0 (ent / 8)))
    else some unrecognized
