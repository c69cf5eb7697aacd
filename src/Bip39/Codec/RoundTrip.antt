-- ===== src/Bip39/Codec/RoundTrip.antt =====
-- The words of some bytes give these bytes.
use fw.Base.{ltb-eq_false}
use fw.Base.{
  ℕ, zero, suc, ◌+◌, ◌-◌, ◌*◌, ◌/◌, ◌%◌, ◌^◌, ◌≤◌, ◌<◌, ◌≡◌, refl, sym, ap, ◌∙◌, true, false, some,
  arith, List, [], ◌∷◌, length, get_or, ◌==◌, ltb,
}
use native.Mathlib.Decide.{dec_lt}
use fw.Bip39.Codec.{
  Bip39Enc, bip39_encode, bip39_next_word, all_words, decoded, feed, bip39_decode, is_size,
}
use fw.Bip39.Codec.Steps.{
  two, full, three, last, next_word-two, next_word-full, next_word-three, next_word-last, two_bits,
  full_bits, three_bits, last_bits,
}
use fw.Bip39.Codec.Bytes.{Feeds, Feeds-two, Feeds-three, Feeds-last}

abbrev pub AllBytes : List ℕ → Type 0
AllBytes [] = Unit
AllBytes (b ∷ bs) = (b < 256) × AllBytes bs

-- Encoder and decoder, from a place in the data on, of which `s` bits of the byte `b0` are taken: the
-- encoder makes `k` words, and the decoder makes the bytes of them.
record Locked (b : Bip39Enc) (k s b0 : ℕ) (p : List ℕ) (cs : ℕ) : Type 0 where
  words : List ℕ
  taken : all_words (suc k) b ≡ some words
  long : length words ≡ k
  fed : Feeds words s b0 p cs b.sha

all_words-cons :
    (fuel w : ℕ) (b b' : Bip39Enc) (ws : List ℕ)
    → bip39_next_word b ≡ some (some (w, b'))
    → all_words fuel b' ≡ some ws
    → all_words (suc fuel) b ≡ some (w ∷ ws)
unfolding all_words
all_words-cons fuel w b b' ws e h = rw (e, h, all_words)

all_words-nil : (fuel : ℕ) (b : Bip39Enc) → b.p ≡ [] → all_words (suc fuel) b ≡ some []
unfolding all_words bip39_next_word
all_words-nil fuel b e = rw e

-- The state of the encoder with `s` bits of `b0` taken.
record At (b : Bip39Enc) (s b0 : ℕ) (p : List ℕ) : Type 0 where
  phase : b.pos % 8 ≡ s
  rest : b.p ≡ b0 ∷ p
  bytes : AllBytes (b0 ∷ p)

-- The bits that are left are those of so many words.
abbrev Fits : ℕ → ℕ → List ℕ → ℕ → Type 0
Fits k s p cs = 8 * suc (length p) + cs ≡ s + 11 * k

module _ (b : Bip39Enc) (b0 : ℕ) where
  Locked-last :
      (cs : ℕ) → 3 < cs → cs < 9 → At b (cs - 3) b0 [] → b.sha < 256 → Locked b 1 (cs - 3) b0 [] cs
  Locked-last cs l h at q =
      let left = 11 - cs in
      let here : 8 - b.pos % 8 ≡ left = omega (arith, at.phase) in
      let bits = last_bits cs b0 b.sha l h at.bytes.0 q in
      let n : cs - 3 + 3 ≡ cs = omega arith in
      let m : 8 - (cs - 3) ≡ 11 - cs = omega arith in
      let fed =
        Feeds-last (last left b0 b.sha) (cs - 3) b0 b.sha (omega arith) (omega arith) at.bytes.0
          (rw (n, m) bits.0) (rw n bits.1) in
      record {
        words = last left b0 b.sha ∷ [];
        taken =
            all_words-cons 1 (last left b0 b.sha) b _ []
              (next_word-last left b b0 here at.rest (omega arith)) (all_words-nil 0 _ refl);
        long = refl;
        fed = rw n at fed;
      }

  Locked-two :
      (k s b1 cs : ℕ) (p : List ℕ)
      → s < 5
      → At b s b0 (b1 ∷ p)
      → ((b' : Bip39Enc) → At b' (s + 3) b1 p → b'.sha ≡ b.sha → Locked b' k (s + 3) b1 p cs)
      → Locked b (suc k) s b0 (b1 ∷ p) cs
  Locked-two k s b1 cs p h at next =
      let left = 8 - s in
      let here : 8 - b.pos % 8 ≡ left = omega (arith, at.phase) in
      let bits = two_bits s b0 b1 h at.bytes.0 at.bytes.1.0 in
      let b' : Bip39Enc = record b {
        pos = ((b.pos + left) % 2 ^ 32 + (11 - (0 + left))) % 2 ^ 32;
        p = b1 ∷ p;
      } in
      let l =
        next b' (record { phase = omega (arith, at.phase); rest = refl; bytes = at.bytes.1 })
          refl in
      record {
        words = two left b0 b1 ∷ l.words;
        taken =
            all_words-cons (suc k) (two left b0 b1) b b' l.words
              (next_word-two left b b0 here b1 p at.rest (omega arith)) l.taken;
        long = ap suc l.long;
        fed =
            Feeds-two (two left b0 b1) s b0 b1 cs b.sha l.words p h at.bytes.0 bits.0 bits.1 l.fed;
      }

  Locked-full :
      (k b1 b2 cs : ℕ) (p : List ℕ)
      → At b 5 b0 (b1 ∷ b2 ∷ p)
      → ((b' : Bip39Enc) → At b' 0 b2 p → b'.sha ≡ b.sha → Locked b' k 0 b2 p cs)
      → Locked b (suc k) 5 b0 (b1 ∷ b2 ∷ p) cs
  Locked-full k b1 b2 cs p at next =
      let here : 8 - b.pos % 8 ≡ 3 = omega (arith, at.phase) in
      let bits = full_bits b0 b1 at.bytes.0 at.bytes.1.0 in
      let b' : Bip39Enc = record b { pos = ((b.pos + 3) % 2 ^ 32 + 8) % 2 ^ 32; p = b2 ∷ p } in
      let l =
        next b' (record { phase = omega (arith, at.phase); rest = refl; bytes = at.bytes.1.1 })
          refl in
      record {
        words = full 3 b0 b1 ∷ l.words;
        taken =
            all_words-cons (suc k) (full 3 b0 b1) b b' l.words
              (next_word-full 3 b b0 here b1 b2 p at.rest refl) l.taken;
        long = ap suc l.long;
        fed =
            Feeds-three (full 3 b0 b1) 0 b0 b1 b2 cs b.sha l.words p (omega arith) at.bytes.0
              at.bytes.1.0 at.bytes.1.1.0 bits.0 (omega (arith, bits.1, at.bytes.1.1.0)) l.fed;
      }

  Locked-three :
      (k t b1 b2 cs : ℕ) (p : List ℕ)
      → t < 2
      → At b (t + 6) b0 (b1 ∷ b2 ∷ p)
      → ((b' : Bip39Enc) → At b' (t + 1) b2 p → b'.sha ≡ b.sha → Locked b' k (t + 1) b2 p cs)
      → Locked b (suc k) (t + 6) b0 (b1 ∷ b2 ∷ p) cs
  Locked-three k t b1 b2 cs p h at next =
      let left = 2 - t in
      let here : 8 - b.pos % 8 ≡ left = omega (arith, at.phase) in
      let bits = three_bits t b0 b1 b2 h at.bytes.0 at.bytes.1.0 at.bytes.1.1.0 in
      let b' : Bip39Enc = record b {
        pos = (((b.pos + left) % 2 ^ 32 + 8) % 2 ^ 32 + (11 - (0 + left + 8))) % 2 ^ 32;
        p = b2 ∷ p;
      } in
      let l =
        next b' (record { phase = omega (arith, at.phase); rest = refl; bytes = at.bytes.1.1 })
          refl in
      let n : t + 9 ≡ t + 1 + 8 = omega arith in
      let m : 7 - t ≡ 8 - (t + 1) = omega arith in
      let i : 2 - t ≡ 3 - (t + 1) = omega arith in
      let s : t + 1 + 5 ≡ t + 6 = omega arith in
      let fed =
        Feeds-three (three left b0 b1 b2) (t + 1) b0 b1 b2 cs b.sha l.words p (omega arith)
          at.bytes.0 at.bytes.1.0 at.bytes.1.1.0 ((rw n at bits.0) ∙ ap (λ j. b0 % 2 ^ j) i)
          ((rw n at bits.1) ∙ ap (λ j. b1 * 2 ^ (t + 1) + b2 / 2 ^ j) m) l.fed in
      record {
        words = three left b0 b1 b2 ∷ l.words;
        taken =
            all_words-cons (suc k) (three left b0 b1 b2) b b' l.words
              (next_word-three left b b0 here b1 b2 p at.rest (omega arith)) l.taken;
        long = ap suc l.long;
        fed = rw s at fed;
      }

-- What is to be shown of the places that come later.
abbrev Later : ℕ → ℕ → ℕ → Type 0
Later k cs sha =
    (s c : ℕ) (p : List ℕ) (b : Bip39Enc)
    → s < 8
    → Fits k s p cs
    → At b s c p
    → b.sha ≡ sha
    → Locked b k s c p cs

-- By the number of bits that are taken, a word ends in the byte after the next, or in the next.
Locked-high :
    (k t cs b0 b1 : ℕ) (p : List ℕ) (b : Bip39Enc)
    → cs < 9
    → t < 3
    → Fits (suc (suc k)) (t + 5) (b1 ∷ p) cs
    → At b (t + 5) b0 (b1 ∷ p)
    → Later (suc k) cs b.sha
    → Locked b (suc (suc k)) (t + 5) b0 (b1 ∷ p) cs
Locked-high k t cs b0 b1 [] b h r fits at next = absurd (omega arith)
Locked-high k zero cs b0 b1 (b2 ∷ p) b h r fits at next =
    Locked-full b b0 (suc k) b1 b2 cs p at
      (λ b' at'. next 0 b2 p b' (omega arith) (omega arith) at')
Locked-high k (suc t) cs b0 b1 (b2 ∷ p) b h r fits at next =
    let n : suc t + 5 ≡ t + 6 = omega arith in
    rw n (
      Locked-three b b0 (suc k) t b1 b2 cs p (omega arith) (rw n at at)
        (λ b' at'. next (t + 1) b2 p b' (omega arith) (omega arith) at'))

Locked-more :
    (k s cs b0 b1 : ℕ) (p : List ℕ) (b : Bip39Enc)
    → cs < 9
    → s < 8
    → Fits (suc (suc k)) s (b1 ∷ p) cs
    → At b s b0 (b1 ∷ p)
    → Later (suc k) cs b.sha
    → Locked b (suc (suc k)) s b0 (b1 ∷ p) cs
Locked-more k s cs b0 b1 p b h r fits at next = elim (dec_lt s 5) [
  | yes low ↦
      Locked-two b b0 (suc k) s b1 cs p low at
        (λ b' at'. next (s + 3) b1 p b' (omega arith) (omega arith) at')
  | no high ↦
      let n : s ≡ s - 5 + 5 = omega arith in
      rw n (Locked-high k (s - 5) cs b0 b1 p b h (omega arith) (omega arith) (rw n at at) next)
]

lock :
    (k s cs b0 : ℕ) (p : List ℕ) (b : Bip39Enc)
    → 3 < cs
    → cs < 9
    → s < 8
    → b.sha < 256
    → Fits (suc k) s p cs
    → At b s b0 p
    → Locked b (suc k) s b0 p cs
lock zero s cs b0 [] b l h r q fits at =
    let n : s ≡ cs - 3 = omega arith in rw n (Locked-last b b0 cs l h (rw n at at) q)
lock zero s cs b0 (b1 ∷ p) b l h r q fits at = absurd (omega arith)
lock (suc k) s cs b0 [] b l h r q fits at = absurd (omega arith)
lock (suc k) s cs b0 (b1 ∷ p) b l h r q fits at =
    Locked-more k s cs b0 b1 p b h r fits at
      (λ s' c p' b' r' fits' at' same. lock k s' cs c p' b' l h r' (omega arith) fits' at')

is_size_of : (cs n : ℕ) → 3 < cs → cs < 9 → n ≡ 3 * cs → is_size n ≡ true
is_size_of cs n l h e = ground arith

-- What `bip39_decode` makes of words whose bits are those of the bytes and of the checksum.
bip39_decode-fed :
    (sha256 : List ℕ → List ℕ) (cs size x : ℕ) (bytes words : List ℕ)
    → 3 < cs
    → cs < 9
    → length words ≡ 3 * cs
    → length bytes ≡ 4 * cs
    → length bytes ≤ size
    → size < 2 ^ 29
    → feed words 0 0 (length bytes) ≡ record { out = bytes; pending = x; bits = cs; room = 0 }
    → x % 2 ^ cs ≡ get_or (sha256 bytes) 0 0 / 2 ^ (8 - cs)
    → bip39_decode sha256 size words ≡ some (decoded bytes)
unfolding bip39_decode
bip39_decode-fed sha256 cs size x bytes words l h n m r w fed sum =
    let third : length words / 3 ≡ cs = omega arith in
    let room : (10 * length words + 2 * cs) / 8 ≡ length bytes = omega arith in
    let fits : ltb (size * 8 % 2 ^ 32) (10 * length words + 2 * cs) ≡ false =
      ltb-eq_false (size * 8 % 2 ^ 32) (10 * length words + 2 * cs) (omega (arith, n, m, r, w)) in
    let all : (cs == cs) ≡ true = ground arith in
    let same : (get_or (sha256 bytes) 0 0 / 2 ^ (8 - cs)
          == get_or (sha256 bytes) 0 0 / 2 ^ (8 - cs))
        ≡ true =
      ground arith in
    rw (is_size_of cs (length words) l h n, third, fits, room, fed, all, sum, same)

-- Of 16, 20, 24, 28 or 32 bytes, with any hash function whose first byte is one, bip39_encode and
-- bip39_next_word make three words for each four bytes, and bip39_decode makes the same bytes of these
-- words, in every buffer that has room for them and is smaller than 2 ^ 29 bytes.
pub bip39_decode-encode :
    (sha256 : List ℕ → List ℕ) (cs size : ℕ) (bytes : List ℕ)
    → 3 < cs
    → cs < 9
    → AllBytes bytes
    → get_or (sha256 bytes) 0 0 < 256
    → length bytes ≡ 4 * cs
    → length bytes ≤ size
    → size < 2 ^ 29
    → (words : List ℕ) × (all_words (suc (3 * cs)) (bip39_encode sha256 bytes) ≡ some words)
      × (length words ≡ 3 * cs)
      × (bip39_decode sha256 size words ≡ some (decoded bytes))
unfolding bip39_encode
bip39_decode-encode sha256 cs size [] l h a q e f u = absurd (omega arith)
bip39_decode-encode sha256 cs size (b0 ∷ p) l h a q e f u =
    let n : suc (3 * cs - 1) ≡ 3 * cs = omega arith in
    let b = bip39_encode sha256 (b0 ∷ p) in
    let at : At b 0 b0 p = record { phase = refl; rest = refl; bytes = a } in
    let k = lock (3 * cs - 1) 0 cs b0 p b l h (omega arith) q (omega arith) at in
    let (x, fed, sum) = k.fed 0 (omega (arith, a.0)) in
    (
      k.words,
      ap (λ j. all_words (suc j) b) (sym n) ∙ k.taken,
      k.long ∙ n,
      bip39_decode-fed sha256 cs size x (b0 ∷ p) k.words l h (k.long ∙ n) e f u fed sum,
    )
