-- ===== src/Bip39/Codec/Steps.antt =====
-- One word: what bip39_next_word makes of the bytes that it takes bits from.
use fw.Base.{lt→ltb, le→leb, leb-eq_false, ltb-eq_false}
use fw.Base.{
  ℕ, zero, suc, ◌+◌, ◌-◌, ◌*◌, ◌/◌, ◌%◌, ◌^◌, ◌≤◌, ◌<◌, ◌≡◌, ap, ◌∙◌, some, arith, List, [], ◌∷◌,
}
use fw.Bip39.Codec.{Bip39Enc, take_bits, as_word, word_from, bip39_next_word}

abbrev pub advance : Bip39Enc → ℕ → Bip39Enc
advance b n = record b { pos = (b.pos + n) % 2 ^ 32 }

module _ (fuel buf got left : ℕ) (b : Bip39Enc) (byte : ℕ) (p : List ℕ)
    (here : 8 - b.pos % 8 ≡ left) where
  -- A byte of which all the bits that are left are taken.
  take_bits_whole :
      got < 11
      → left ≤ 11 - got
      → take_bits (suc fuel) buf got b (byte ∷ p)
        ≡ take_bits fuel
            ((buf * 2 ^ left + byte % 2 ^ (11 - got)) % 2 ^ 16)
            (got + left)
            (advance b left)
            p
  unfolding take_bits
  take_bits_whole g h = rw (here, leb-eq_false 11 got g, ltb-eq_false (11 - got) left h)

  -- A byte of which only the upper bits of those that are left are taken.
  take_bits_part :
      got < 11
      → 11 - got < left
      → take_bits (suc fuel) buf got b (byte ∷ p)
        ≡ some (
          (buf * 2 ^ (11 - got) + byte / 2 ^ (left - (11 - got)) % 2 ^ (11 - got)) % 2 ^ 16,
          record b { pos = (b.pos + (11 - got)) % 2 ^ 32; p = byte ∷ p },
        )
  unfolding take_bits
  take_bits_part g h = rw (here, leb-eq_false 11 got g, lt→ltb (11 - got) left h)

  take_bits_full :
      11 ≤ got → take_bits (suc fuel) buf got b (byte ∷ p) ≡ some (buf, record b { p = byte ∷ p })
  unfolding take_bits
  take_bits_full g = rw (le→leb 11 got g)

-- At the end of the data the bits of the checksum follow.
take_bits_sha :
    (fuel buf got : ℕ) (b : Bip39Enc)
    → got < 11
    → 11 - got ≤ 8
    → take_bits (suc fuel) buf got b []
      ≡ some ((buf * 2 ^ (11 - got) + b.sha / 2 ^ (8 - (11 - got))) % 2 ^ 16, record b { p = [] })
unfolding take_bits
take_bits_sha fuel buf got b g h = rw (leb-eq_false 11 got g, le→leb (11 - got) 8 h)

-- What is in `buf` behind the first byte, of which `left` bits are taken, and behind the second.
abbrev one : ℕ → ℕ → ℕ
one left b0 = (0 * 2 ^ left + b0 % 2 ^ 11) % 2 ^ 16

abbrev both : ℕ → ℕ → ℕ → ℕ
both left b0 b1 = (one left b0 * 2 ^ 8 + b1 % 2 ^ (11 - (0 + left))) % 2 ^ 16

-- The words that end in the second byte, at its end, in the third byte, and in the checksum.
abbrev pub two : ℕ → ℕ → ℕ → ℕ
two left b0 b1 =
    (one left b0 * 2 ^ (11 - (0 + left)) + b1 / 2 ^ (8 - (11 - (0 + left))) % 2 ^ (11 - (0 + left)))
    % 2 ^ 16
    % 2 ^ 11

abbrev pub full : ℕ → ℕ → ℕ → ℕ
full left b0 b1 = both left b0 b1 % 2 ^ 11

abbrev pub three : ℕ → ℕ → ℕ → ℕ → ℕ
three left b0 b1 b2 =
    (both left b0 b1 * 2 ^ (11 - (0 + left + 8))
      + b2 / 2 ^ (8 - (11 - (0 + left + 8))) % 2 ^ (11 - (0 + left + 8)))
    % 2 ^ 16
    % 2 ^ 11

abbrev pub last : ℕ → ℕ → ℕ → ℕ
last left b0 sha =
    (one left b0 * 2 ^ (11 - (0 + left)) + sha / 2 ^ (8 - (11 - (0 + left)))) % 2 ^ 16 % 2 ^ 11

-- The state behind a byte of which `left` bits were taken is at the start of a byte.
aligned : (b : Bip39Enc) (left : ℕ) → 8 - b.pos % 8 ≡ left → 8 - (advance b left).pos % 8 ≡ 8
aligned b left h = omega arith

module _ (left : ℕ) (b : Bip39Enc) (b0 : ℕ) (here : 8 - b.pos % 8 ≡ left) where
  next_word_of :
      (p : List ℕ) {r : _}
      → b.p ≡ b0 ∷ p
      → take_bits 11 (one left b0) (0 + left) (advance b left) p ≡ some r
      → bip39_next_word b ≡ some (some (r.0 % 2 ^ 11, r.1))
  unfolding bip39_next_word
  next_word_of p {r} e t =
      ap (word_from b) e
      ∙ ap as_word (take_bits_whole 11 0 0 left b b0 p here (omega arith) (omega arith) ∙ t)

  pub next_word-two :
      (b1 : ℕ) (p : List ℕ)
      → b.p ≡ b0 ∷ b1 ∷ p
      → 3 < left
      → bip39_next_word b
        ≡ some (
            some (
              two left b0 b1,
              record b { pos = ((b.pos + left) % 2 ^ 32 + (11 - (0 + left))) % 2 ^ 32; p = b1 ∷ p },
            ))
  next_word-two b1 p e l = next_word_of (b1 ∷ p) e (
      take_bits_part 10 (one left b0) (0 + left) 8 (advance b left) b1 p (aligned b left here)
        (omega arith) (omega arith))

  pub next_word-full :
      (b1 b2 : ℕ) (p : List ℕ)
      → b.p ≡ b0 ∷ b1 ∷ b2 ∷ p
      → left ≡ 3
      → bip39_next_word b
        ≡ some (
            some (
              full left b0 b1,
              record b { pos = ((b.pos + left) % 2 ^ 32 + 8) % 2 ^ 32; p = b2 ∷ p },
            ))
  next_word-full b1 b2 p e l = next_word_of (b1 ∷ b2 ∷ p) e (
      take_bits_whole 10 (one left b0) (0 + left) 8 (advance b left) b1 (b2 ∷ p)
        (aligned b left here) (omega arith) (omega arith)
      ∙ take_bits_full 9 (both left b0 b1) (0 + left + 8) 8 (advance (advance b left) 8) b2 p
          (aligned (advance b left) 8 (aligned b left here)) (omega arith))

  pub next_word-three :
      (b1 b2 : ℕ) (p : List ℕ)
      → b.p ≡ b0 ∷ b1 ∷ b2 ∷ p
      → left < 3
      → bip39_next_word b
        ≡ some (
            some (
              three left b0 b1 b2,
              record b {
                pos = (((b.pos + left) % 2 ^ 32 + 8) % 2 ^ 32 + (11 - (0 + left + 8))) % 2 ^ 32;
                p = b2 ∷ p;
              },
            ))
  next_word-three b1 b2 p e l = next_word_of (b1 ∷ b2 ∷ p) e (
      take_bits_whole 10 (one left b0) (0 + left) 8 (advance b left) b1 (b2 ∷ p)
        (aligned b left here) (omega arith) (omega arith)
      ∙ take_bits_part 9 (both left b0 b1) (0 + left + 8) 8 (advance (advance b left) 8) b2 p
          (aligned (advance b left) 8 (aligned b left here)) (omega arith) (omega arith))

  pub next_word-last :
      b.p ≡ b0 ∷ []
      → 3 ≤ left
      → bip39_next_word b ≡ some (some (last left b0 b.sha, record (advance b left) { p = [] }))
  next_word-last e l =
      next_word_of [] e
        (take_bits_sha 10 (one left b0) (0 + left) (advance b left) (omega arith) (omega arith))

-- The bits of a word, of which the first 8 - `s` are the lower ones of `b0`, where `s` bits of `b0`
-- were taken before; the other `s` + 3 are of `b1`, or of `b1` and `b2`.
pub two_bits :
    (s b0 b1 : ℕ)
    → s < 5
    → b0 < 256
    → b1 < 256
    → (two (8 - s) b0 b1 / 2 ^ (s + 3) ≡ b0 % 2 ^ (8 - s))
      × (two (8 - s) b0 b1 % 2 ^ (s + 3) ≡ b1 / 2 ^ (8 - (s + 3)))
two_bits zero b0 b1 h p q = (omega arith, omega arith)
two_bits (suc zero) b0 b1 h p q = (omega arith, omega arith)
two_bits (suc (suc zero)) b0 b1 h p q = (omega arith, omega arith)
two_bits (suc (suc (suc zero))) b0 b1 h p q = (omega arith, omega arith)
two_bits (suc (suc (suc (suc zero)))) b0 b1 h p q = (omega arith, omega arith)
two_bits (suc (suc (suc (suc (suc s))))) b0 b1 h p q = absurd (omega arith)

pub full_bits :
    (b0 b1 : ℕ)
    → b0 < 256
    → b1 < 256
    → (full 3 b0 b1 / 2 ^ 8 ≡ b0 % 2 ^ 3) × (full 3 b0 b1 % 2 ^ 8 ≡ b1)
full_bits b0 b1 p q = (omega arith, omega arith)

pub three_bits :
    (s b0 b1 b2 : ℕ)
    → s < 2
    → b0 < 256
    → b1 < 256
    → b2 < 256
    → (three (2 - s) b0 b1 b2 / 2 ^ (s + 9) ≡ b0 % 2 ^ (2 - s))
      × (three (2 - s) b0 b1 b2 % 2 ^ (s + 9) ≡ b1 * 2 ^ (s + 1) + b2 / 2 ^ (7 - s))
three_bits zero b0 b1 b2 h p q r = (omega arith, omega arith)
three_bits (suc zero) b0 b1 b2 h p q r = (omega arith, omega arith)
three_bits (suc (suc s)) b0 b1 b2 h p q r = absurd (omega arith)

-- The bits of the last word, with `cs` bits of the checksum.
pub last_bits :
    (cs b0 sha : ℕ)
    → 3 < cs
    → cs < 9
    → b0 < 256
    → sha < 256
    → (last (11 - cs) b0 sha / 2 ^ cs ≡ b0 % 2 ^ (11 - cs))
      × (last (11 - cs) b0 sha % 2 ^ cs ≡ sha / 2 ^ (8 - cs))
last_bits zero b0 sha l h p q = absurd (omega arith)
last_bits (suc zero) b0 sha l h p q = absurd (omega arith)
last_bits (suc (suc zero)) b0 sha l h p q = absurd (omega arith)
last_bits (suc (suc (suc zero))) b0 sha l h p q = absurd (omega arith)
last_bits (suc (suc (suc (suc zero)))) b0 sha l h p q = (omega arith, omega arith)
last_bits (suc (suc (suc (suc (suc zero))))) b0 sha l h p q = (omega arith, omega arith)
last_bits (suc (suc (suc (suc (suc (suc zero)))))) b0 sha l h p q = (omega arith, omega arith)
last_bits (suc (suc (suc (suc (suc (suc (suc zero))))))) b0 sha l h p q = (omega arith, omega arith)
last_bits (suc (suc (suc (suc (suc (suc (suc (suc zero)))))))) b0 sha l h p q =
    (omega arith, omega arith)
last_bits (suc (suc (suc (suc (suc (suc (suc (suc (suc n))))))))) b0 sha l h p q =
    absurd (omega arith)
