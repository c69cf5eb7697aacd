-- ===== src/Bip39/Codec/Bytes.antt =====
-- What bip39_decode takes from the bits that are pending.
use fw.Base.{
  ℕ, zero, suc, ◌+◌, ◌-◌, ◌*◌, ◌/◌, ◌%◌, ◌^◌, ◌≤◌, ◌<◌, ◌≡◌, refl, ap, ◌∙◌, true, false, arith,
  List, [], ◌∷◌, leb, ◌==◌,
}
use fw.Base.{length}
use fw.Bip39.Codec.{put_bytes, feed}

put_bytes_stop :
    (fuel pending bits room : ℕ)
    → bits < 8
    → put_bytes fuel pending bits room
      ≡ record { out = []; pending = pending; bits = bits; room = room }
unfolding put_bytes
put_bytes_stop zero pending bits room h = refl
put_bytes_stop (suc fuel) pending bits room h = let e : leb 8 bits ≡ false = ground arith in rw e

put_bytes_filled :
    (fuel pending bits : ℕ)
    → put_bytes fuel pending bits 0 ≡ record { out = []; pending = pending; bits = bits; room = 0 }
unfolding put_bytes
put_bytes_filled zero pending bits = refl
put_bytes_filled (suc fuel) pending bits = ground arith

put_bytes_step :
    (fuel pending bits room : ℕ)
    → 8 ≤ bits
    → 0 < room
    → put_bytes (suc fuel) pending bits room
      ≡ record (put_bytes fuel pending (bits - 8) (room - 1)) {
        out = (pending / 2 ^ (bits - 8) % 256) ∷ (put_bytes fuel pending (bits - 8) (room - 1)).out;
      }
unfolding put_bytes
put_bytes_step fuel pending bits room h r =
    let e : leb 8 bits ≡ true = ground arith in
    let f : (room == 0) ≡ false = ground arith in rw (e, f)

-- The bits that are pending behind a word.
abbrev pub with_word : ℕ → ℕ → ℕ
with_word pending w = (pending * 2 ^ 11 + w) % 2 ^ 32

first_byte :
    (s pending w b0 : ℕ)
    → s < 8
    → pending % 2 ^ s ≡ b0 / 2 ^ (8 - s)
    → w / 2 ^ (s + 3) ≡ b0 % 2 ^ (8 - s)
    → b0 < 256
    → (with_word pending w / 2 ^ (s + 3) % 256 ≡ b0)
      × (with_word pending w % 2 ^ (s + 3) ≡ w % 2 ^ (s + 3))
first_byte zero pending w b0 h e f p = (omega arith, omega arith)
first_byte (suc zero) pending w b0 h e f p = (omega arith, omega arith)
first_byte (suc (suc zero)) pending w b0 h e f p = (omega arith, omega arith)
first_byte (suc (suc (suc zero))) pending w b0 h e f p = (omega arith, omega arith)
first_byte (suc (suc (suc (suc zero)))) pending w b0 h e f p = (omega arith, omega arith)
first_byte (suc (suc (suc (suc (suc zero))))) pending w b0 h e f p = (omega arith, omega arith)
first_byte (suc (suc (suc (suc (suc (suc zero)))))) pending w b0 h e f p =
    (omega arith, omega arith)
first_byte (suc (suc (suc (suc (suc (suc (suc zero))))))) pending w b0 h e f p =
    (omega arith, omega arith)
first_byte (suc (suc (suc (suc (suc (suc (suc (suc s)))))))) pending w b0 h e f p =
    absurd (omega arith)

second_byte :
    (t word b1 b2 : ℕ)
    → t < 3
    → word % 2 ^ (t + 8) ≡ b1 * 2 ^ t + b2 / 2 ^ (8 - t)
    → b1 < 256
    → b2 < 256
    → (word / 2 ^ t % 256 ≡ b1) × (word % 2 ^ t ≡ b2 / 2 ^ (8 - t))
second_byte zero word b1 b2 h e p q = (omega arith, omega arith)
second_byte (suc zero) word b1 b2 h e p q = (omega arith, omega arith)
second_byte (suc (suc zero)) word b1 b2 h e p q = (omega arith, omega arith)
second_byte (suc (suc (suc t))) word b1 b2 h e p q = absurd (omega arith)

put_one :
    (s word room : ℕ)
    → s < 5
    → put_bytes (s + 11) word (s + 11) (suc room)
      ≡ record { out = (word / 2 ^ (s + 3) % 256) ∷ []; pending = word; bits = s + 3; room = room }
put_one s word room h =
    let fuel : s + 11 ≡ suc (s + 10) = omega arith in
    let bits : s + 11 - 8 ≡ s + 3 = omega arith in
    let less : suc room - 1 ≡ room = omega arith in
    ap (λ n. put_bytes n word (s + 11) (suc room)) fuel
    ∙ put_bytes_step (s + 10) word (s + 11) (suc room) (omega arith) (omega arith)
    ∙ rw (bits, less, put_bytes_stop (s + 10) word (s + 3) room (omega arith)) refl

put_two :
    (t word room : ℕ)
    → t < 3
    → put_bytes (t + 5 + 11) word (t + 5 + 11) (suc (suc room)) ≡ record {
      out = (word / 2 ^ (t + 8) % 256) ∷ (word / 2 ^ t % 256) ∷ [];
      pending = word;
      bits = t;
      room = room;
    }
put_two t word room h =
    let fuel : t + 5 + 11 ≡ suc (suc (t + 14)) = omega arith in
    let bits : t + 5 + 11 - 8 ≡ t + 8 = omega arith in
    let bits' : t + 8 - 8 ≡ t = omega arith in
    let less : suc (suc room) - 1 ≡ suc room = omega arith in
    let less' : suc room - 1 ≡ room = omega arith in
    ap (λ n. put_bytes n word (t + 5 + 11) (suc (suc room))) fuel
    ∙ put_bytes_step (suc (t + 14)) word (t + 5 + 11) (suc (suc room)) (omega arith) (omega arith)
    ∙ rw
        (
          bits,
          less,
          put_bytes_step (t + 14) word (t + 8) (suc room) (omega arith) (omega arith),
          bits',
          less',
          put_bytes_stop (t + 14) word t room (omega arith),
        )
        refl

put_last :
    (s word : ℕ)
    → put_bytes (s + 11) word (s + 11) 1
      ≡ record { out = (word / 2 ^ (s + 3) % 256) ∷ []; pending = word; bits = s + 3; room = 0 }
put_last s word =
    let fuel : s + 11 ≡ suc (s + 10) = omega arith in
    let bits : s + 11 - 8 ≡ s + 3 = omega arith in
    ap (λ n. put_bytes n word (s + 11) 1) fuel
    ∙ put_bytes_step (s + 10) word (s + 11) 1 (omega arith) (omega arith)
    ∙ rw (bits, put_bytes_filled (s + 10) word (s + 3)) refl

-- The words make of the bits that are pending, the first `s` of `b0`, the bytes `b0` and `p`, and leave
-- the first `cs` bits of `sha`.
abbrev pub Feeds : List ℕ → ℕ → ℕ → List ℕ → ℕ → ℕ → Type 0
Feeds ws s b0 p cs sha =
    (pending : ℕ)
    → pending % 2 ^ s ≡ b0 / 2 ^ (8 - s)
    → (x : ℕ) × (feed ws pending s (suc (length p))
        ≡ record { out = b0 ∷ p; pending = x; bits = cs; room = 0 })
      × (x % 2 ^ cs ≡ sha / 2 ^ (8 - cs))

pub Feeds-two :
    (w s b0 b1 cs sha : ℕ) (ws p : List ℕ)
    → s < 5
    → b0 < 256
    → w / 2 ^ (s + 3) ≡ b0 % 2 ^ (8 - s)
    → w % 2 ^ (s + 3) ≡ b1 / 2 ^ (8 - (s + 3))
    → Feeds ws (s + 3) b1 p cs sha
    → Feeds (w ∷ ws) s b0 (b1 ∷ p) cs sha
unfolding feed
Feeds-two w s b0 b1 cs sha ws p h q hi lo fed pending e =
    let word = with_word pending w in
    let (b, low) = first_byte s pending w b0 (omega arith) e hi q in
    let (x, out, sum) = fed word (low ∙ lo) in
    (x, rw (put_one s word (suc (length p)) h, out, b) refl, sum)

pub Feeds-three :
    (w t b0 b1 b2 cs sha : ℕ) (ws p : List ℕ)
    → t < 3
    → b0 < 256
    → b1 < 256
    → b2 < 256
    → w / 2 ^ (t + 8) ≡ b0 % 2 ^ (3 - t)
    → w % 2 ^ (t + 8) ≡ b1 * 2 ^ t + b2 / 2 ^ (8 - t)
    → Feeds ws t b2 p cs sha
    → Feeds (w ∷ ws) (t + 5) b0 (b1 ∷ b2 ∷ p) cs sha
unfolding feed
Feeds-three w t b0 b1 b2 cs sha ws p h q0 q1 q2 hi lo fed pending e =
    let word = with_word pending w in
    let n : t + 5 + 3 ≡ t + 8 = omega arith in
    let m : 8 - (t + 5) ≡ 3 - t = omega arith in
    let (b, low) = first_byte (t + 5) pending w b0 (omega arith) e (rw (n, m) hi) q0 in
    let (c, low') = second_byte t word b1 b2 h (rw (← n) (low ∙ rw n lo)) q1 q2 in
    let (x, out, sum) = fed word low' in
    (x, rw (put_two t word (suc (length p)) h, out, c) (rw (← n) (rw b refl)), sum)

pub Feeds-last :
    (w s b0 sha : ℕ)
    → 0 < s
    → s < 6
    → b0 < 256
    → w / 2 ^ (s + 3) ≡ b0 % 2 ^ (8 - s)
    → w % 2 ^ (s + 3) ≡ sha / 2 ^ (8 - (s + 3))
    → Feeds (w ∷ []) s b0 [] (s + 3) sha
unfolding feed
Feeds-last w s b0 sha g h q hi lo pending e =
    let word = with_word pending w in
    let (b, low) = first_byte s pending w b0 (omega arith) e hi q in
    (word, rw (put_last s word, b) refl, low ∙ lo)
