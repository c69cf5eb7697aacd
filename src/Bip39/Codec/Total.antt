-- ===== src/Bip39/Codec/Total.antt =====
-- The assertions of bip39_decode never fail.
use fw.Base.{
  ℕ, zero, suc, ◌+◌, ◌-◌, ◌*◌, ◌/◌, ◌%◌, ◌^◌, ◌≤◌, ◌<◌, ◌≡◌, ◌≢◌, ◌⊎◌, inl, inr, refl, true, none,
  arith, List, [], ◌∷◌, length, ◌==◌, leb, ltb, not, ◌&&◌, Bool-cases, some-ne-none,
}
use fw.Bip39.Codec.{Fed, put_bytes, feed, check_sum, bip39_decode, is_size}

-- Of `bits` bits, whole bytes were written, until fewer than 8 are left or the room is used up.
abbrev Balanced : ℕ → ℕ → Fed → Type 0
Balanced bits room f = (f.bits + 8 * room ≡ bits + 8 * f.room) × ((f.bits < 8) ⊎ (f.room ≡ 0))

put_bytes-Balanced :
    (fuel pending bits room : ℕ)
    → bits ≤ fuel
    → Balanced bits room (put_bytes fuel pending bits room)
unfolding put_bytes
put_bytes-Balanced zero pending bits room h = (omega arith, inl (omega arith))
put_bytes-Balanced (suc fuel) pending bits room h =
    elim (Bool-cases (leb 8 bits && not (room == 0))) [
      | inl e ↦
          let low : 8 ≤ bits = ground arith in
          let more : 0 < room = ground arith in
          let ih = put_bytes-Balanced fuel pending (bits - 8) (room - 1) (omega arith) in
          rw e (omega (arith, ih.0), ih.1)
      | inr e ↦ rw e (refl, ground arith)
    ]

feed-Balanced :
    (words : List ℕ) (pending bits room : ℕ)
    → (bits < 8) ⊎ (room ≡ 0)
    → Balanced (bits + 11 * length words) room (feed words pending bits room)
unfolding feed
feed-Balanced [] pending bits room h = (omega arith, h)
feed-Balanced (w ∷ words) pending bits room h =
    let f = put_bytes (bits + 11) ((pending * 2 ^ 11 + w) % 2 ^ 32) (bits + 11) room in
    let b =
      put_bytes-Balanced (bits + 11) ((pending * 2 ^ 11 + w) % 2 ^ 32) (bits + 11) room
        (omega arith) in
    let ih = feed-Balanced words f.pending f.bits f.room b.1 in (omega (arith, b.0, ih.0), ih.1)

check_sum-ne-none :
    (sha256 : List ℕ → List ℕ) (cs : ℕ) (f : Fed)
    → f.room ≡ 0
    → f.bits ≡ cs
    → check_sum sha256 cs f ≢ none
unfolding check_sum
check_sum-ne-none sha256 cs f h e k =
    let r : (f.room == 0) ≡ true = ground arith in
    let b : (f.bits == cs) ≡ true = ground arith in absurd (some-ne-none (rw (r, b) at k) refl)

is_size-thirds : (n : ℕ) → is_size n ≡ true → (n ≡ 3 * (n / 3)) × (3 < n / 3) × (n / 3 < 9)
is_size-thirds n h = ground arith

-- Whatever the words are, `bip39_decode` returns.
pub bip39_decode-ne-none :
    (sha256 : List ℕ → List ℕ) (bytes : ℕ) (words : List ℕ) → bip39_decode sha256 bytes words ≢ none
unfolding bip39_decode
bip39_decode-ne-none sha256 bytes words h = elim (Bool-cases (is_size (length words))) [
  | inr other ↦ some-ne-none (rw other at h) refl
  | inl size ↦
      elim (Bool-cases (ltb (bytes * 8 % 2 ^ 32) (10 * length words + 2 * (length words / 3)))) [
        | inl over ↦ some-ne-none (rw (size, over) at h) refl
        | inr fits ↦
            let n = is_size-thirds (length words) size in
            let b =
              feed-Balanced words 0 0 ((10 * length words + 2 * (length words / 3)) / 8)
                (inl (omega arith)) in
            let f = feed words 0 0 ((10 * length words + 2 * (length words / 3)) / 8) in
            let room : f.room ≡ 0 = omega (arith, n, b) in
            check_sum-ne-none sha256 (length words / 3) f room (omega (arith, n, b.0, room))
              (rw (size, fits) at h)
      ]
]
