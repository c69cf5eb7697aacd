-- ===== src/Crypto/Base32/Decode.antt =====
-- `base32_decode`, character by character, and what the size of its buffer decides.
use fw.Base.{ℕ, zero, suc, ◌+◌, ◌-◌, ◌*◌, ◌/◌, ◌%◌, ◌^◌, ◌<◌, ◌≡◌, refl, Bool, true, false, arith}
use fw.Base.{Option, none, some, List, [], ◌∷◌, ◌==◌, ltb, leb, length, if◌then◌else◌, get_or}
use fw.Base.{Bool-cases, Option-cases, inl, inr, ap}
use mathlib.Core.Option
use fw.Crypto.Base32.{alphabet, ignore, strchr, symbol}
use fw.Crypto.Base32.{store, decode_loop}

-- The symbols, and no other characters, have an index.
passes : (ℕ → Bool) → ℕ → Bool
passes test zero = true
passes test (suc last) = if test last then passes test last else false

passes-below :
    (test : ℕ → Bool) (bound v : ℕ) → v < bound → passes test bound ≡ true → test v ≡ true
unfolding passes
passes-below test zero v lt all = absurd (omega arith)
passes-below test (suc last) v lt all = ground (arith, passes-below test last v)

abbrev decodes_to : ℕ → Bool
decodes_to x = elim (strchr ignore (symbol x)) [
  | some i ↦ false
  | none ↦ elim (strchr alphabet (symbol x)) [ none ↦ false | some i ↦ i == x ]
]

symbol_table : passes decodes_to 32 ≡ true
unfolding passes strchr symbol
symbol_table = refl

symbol-mod : (x : ℕ) → symbol x ≡ symbol (x % 32)
unfolding symbol
symbol-mod x = ap (λ i. get_or alphabet i 0) {x = x % 32} {y = x % 32 % 32} (omega arith)

pub symbol_index :
    (x : ℕ) → (strchr ignore (symbol x) ≡ none) × (strchr alphabet (symbol x) ≡ some (x % 32))
symbol_index x =
    let h = passes-below decodes_to 32 (x % 32) (omega arith) symbol_table in
    rw (symbol-mod x) (ground (arith, h))

-- One symbol of the string, while the decoder counts bytes only.
pub decode_symbol :
    (x buf got : ℕ) (s : List ℕ)
    → decode_loop (symbol x ∷ s) buf got none ≡ (
        if ltb 7 (got + 5)
        then Option.map
            (◌∷◌ ((buf * 32 + x % 32) % 2 ^ 16 / 2 ^ (got - 3) % 256))
            (decode_loop s ((buf * 32 + x % 32) % 2 ^ 16) (got - 3) none)
        else decode_loop s ((buf * 32 + x % 32) % 2 ^ 16) (got + 5) none)
unfolding decode_loop
decode_symbol x buf got s = rw ((symbol_index x).0, (symbol_index x).1, decode_loop)

-- The loop of the decoder, by what the character is.
decode_loop_ignored :
    (ch : ℕ) (s : List ℕ) (buf got : ℕ) (room : Option ℕ) (i : ℕ)
    → strchr ignore ch ≡ some i
    → decode_loop (ch ∷ s) buf got room ≡ decode_loop s buf got room
unfolding decode_loop
decode_loop_ignored ch s buf got room i e = rw (e, decode_loop)

decode_loop_bad :
    (ch : ℕ) (s : List ℕ) (buf got : ℕ) (room : Option ℕ)
    → strchr ignore ch ≡ none
    → strchr alphabet ch ≡ none
    → decode_loop (ch ∷ s) buf got room ≡ none
unfolding decode_loop
decode_loop_bad ch s buf got room e f = rw (e, f, decode_loop)

abbrev shifted : ℕ → ℕ → ℕ
shifted buf i = (buf * 32 + i) % 2 ^ 16

decode_loop_symbol :
    (ch : ℕ) (s : List ℕ) (buf got : ℕ) (room : Option ℕ) (i : ℕ)
    → strchr ignore ch ≡ none
    → strchr alphabet ch ≡ some i
    → decode_loop (ch ∷ s) buf got room ≡ (
        if ltb 7 (got + 5)
        then store room
            (shifted buf i / 2 ^ (got - 3) % 256)
            (decode_loop s (shifted buf i) (got - 3))
        else decode_loop s (shifted buf i) (got + 5) room)
unfolding decode_loop
decode_loop_symbol ch s buf got room i e f = rw (e, f, decode_loop)

-- The result into a buffer of `cap` bytes: -1 for one that does not fit.
abbrev pub cut : ℕ → Option (List ℕ) → Option (List ℕ)
cut cap none = none
cut cap (some l) = if leb (length l) cap then some l else none

store-cut :
    (b cap : ℕ) (rest : Option ℕ → Option (List ℕ))
    → ((c : ℕ) → rest (some c) ≡ cut c (rest none))
    → store (some cap) b rest ≡ cut cap (store none b rest)
store-cut b zero rest h = ground arith
store-cut b (suc cap) rest h = ground (arith, h cap)

pub decode_loop-cut :
    (s : List ℕ) (buf got cap : ℕ)
    → decode_loop s buf got (some cap) ≡ cut cap (decode_loop s buf got none)
decode_loop-cut [] buf got cap = unfold decode_loop in ground arith
decode_loop-cut (ch ∷ s) buf got cap = elim (Option-cases (strchr ignore ch)) [
  | inr (i, e) ↦
      rw
        (decode_loop_ignored ch s buf got (some cap) i e, decode_loop_ignored ch s buf got none i e)
        (decode_loop-cut s buf got cap)
  | inl e ↦ elim (Option-cases (strchr alphabet ch)) [
    | inl f ↦
        rw (decode_loop_bad ch s buf got (some cap) e f, decode_loop_bad ch s buf got none e f)
    | inr (i, f) ↦
        rw
          (
            decode_loop_symbol ch s buf got (some cap) i e f,
            decode_loop_symbol ch s buf got none i e f,
          )
          (elim (Bool-cases (ltb 7 (got + 5))) [
            | inl g ↦ rw g (
                store-cut _ cap (decode_loop s (shifted buf i) (got - 3))
                  (decode_loop-cut s (shifted buf i) (got - 3)))
            | inr g ↦ rw g (decode_loop-cut s (shifted buf i) (got + 5) cap)
          ])
  ]
]
