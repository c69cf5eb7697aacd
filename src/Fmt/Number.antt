-- ===== src/Fmt/Number.antt =====
-- What print_number prints, in digits and as a number.
use fw.Base.{
  ℕ, zero, suc, ◌+◌, ◌-◌, ◌*◌, ◌%◌, ◌^◌, ◌≤◌, ◌<◌, ◌≡◌, refl, sym, ap, ◌∙◌, arith, List, [], ◌∷◌,
  ◌++◌, map, length, get_or, replicate, length-append, length-replicate, ltb, ltb-eq_false, ◌==◌,
  Bool-cases, inl, inr, ◌⊎◌, dec_lt, if◌then◌else◌,
}
use mathlib.Core.List.{map-append}
use fw.Fmt.{count_digits, put_digits, do_print_number}
use fw.Fmt.Digits.{
  value, AllBelow, digits_of, put_digits-map, length-digits_of, AllBelow-append, digits_of-AllBelow,
  value-digits_of, Leads, digits_of-Leads,
}

value-zeros : (k base : ℕ) (ds : List ℕ) → value base 0 (replicate k 0 ++ ds) ≡ value base 0 ds
value-zeros zero base ds = refl
value-zeros (suc k) base ds =
    let z : 0 * base + 0 ≡ 0 = omega arith in
    ap (λ n. value base n (replicate k 0 ++ ds)) z ∙ value-zeros k base ds

map-replicate : (f : ℕ → ℕ) (k : ℕ) {c : ℕ} → f 0 ≡ c → map f (replicate k 0) ≡ replicate k c
map-replicate f zero h = refl
map-replicate f (suc k) {c} h = rw (h, map-replicate f k h)

-- The digits that are printed: `n` of the number, behind zeros up to `len` digits.
printed : ℕ → ℕ → ℕ → ℕ → List ℕ
printed len n v base = replicate (len - n) 0 ++ digits_of n v base

length-printed : (len n v base : ℕ) → length (printed len n v base) ≡ (if ltb len n then n else len)
unfolding printed
length-printed len n v base = ground (
  arith,
  length-append (replicate (len - n) 0) (digits_of n v base),
  length-replicate {A = ℕ} (len - n) 0,
  length-digits_of n v base,
)

AllBelow-zeros : (n k : ℕ) → 0 < n → AllBelow n (replicate k 0)
AllBelow-zeros n zero h = tt
AllBelow-zeros n (suc k) h = (h, AllBelow-zeros n k h)

-- Where the number is longer than `len`, there are no zeros before it.
printed_short : (len n v base : ℕ) → len < n → printed len n v base ≡ digits_of n v base
unfolding printed
printed_short len n v base h = let z : len - n ≡ 0 = omega arith in rw z refl

printed-AllBelow : (len n v base : ℕ) → 0 < base → AllBelow base (printed len n v base)
unfolding printed
printed-AllBelow len n v base h =
    AllBelow-append base (replicate (len - n) 0) (digits_of n v base)
      (AllBelow-zeros base (len - n) h) (digits_of-AllBelow n v base h)

value-printed :
    (len n v base : ℕ) → value base 0 (printed len n v base) ≡ value base 0 (digits_of n v base)
unfolding printed
value-printed len n v base = value-zeros (len - n) base (digits_of n v base)

written-map :
    (symbols : List ℕ) (len n v base : ℕ)
    → get_or symbols 0 0 ≡ 48
    → replicate (len - n) 48 ++ put_digits symbols n v base
      ≡ map (λ d. get_or symbols d 0) (printed len n v base)
unfolding printed
written-map symbols len n v base z = rw (
  map-append,
  map-replicate (λ d. get_or symbols d 0) (len - n) z,
  put_digits-map symbols n v base,
)

-- What the number of digits has to be.
abbrev Counts : ℕ → ℕ → ℕ → Type 0
Counts n v base =
    (value base 0 (digits_of n v base) ≡ v)
    × ((digits_of n v base ≡ 0 ∷ []) ⊎ Leads (digits_of n v base))

zero_digit-Counts : (base : ℕ) → 1 < base → Counts 1 0 base
unfolding digits_of
zero_digit-Counts base h =
    let z : 0 % base ≡ 0 = omega arith in
    let m : 0 * base + 0 ≡ 0 = omega arith in (rw z m, inl (ap (λ d. d ∷ []) z))

-- With that number of digits, what is printed is shown to be right.
printed-Counts :
    (len n v base : ℕ)
    → Counts n v base
    → (length (printed len n v base) ≡ len)
      ⊎ ((printed len n v base ≡ 0 ∷ []) ⊎ Leads (printed len n v base))
printed-Counts len n v base c = elim (dec_lt len n) [
  | no long ↦ inl (length-printed len n v base ∙ rw (ltb-eq_false len n (omega arith)) refl)
  | yes short ↦ inr (rw (printed_short len n v base short) c.1)
]

digit_number : ℕ → ℕ → ℕ
digit_number v base = if v == 0 then 1 else count_digits 64 v base

digit_number-Counts : (v base : ℕ) → 1 < base → v < 2 ^ 64 → Counts (digit_number v base) v base
unfolding digit_number
digit_number-Counts v base h p = elim (Bool-cases (v == 0)) [
  | inl e ↦ let z : v ≡ 0 = ground arith in rw z (zero_digit-Counts base h)
  | inr e ↦
      let more : 0 < v = ground arith in
      rw e (value-digits_of 64 v base h p, inr (digits_of-Leads 64 v base h p more))
]

do_print_number-parts :
    (v len base : ℕ) (symbols : List ℕ)
    → do_print_number v len base symbols ≡ (
      replicate (len - digit_number v base) 48 ++ put_digits symbols (digit_number v base) v base,
      if ltb len (digit_number v base) then digit_number v base else len,
    )
unfolding do_print_number digit_number
do_print_number-parts v len base symbols = refl

-- What the call writes are the symbols of digits that stand for the number, with zeros before it up to
-- `len` digits and none beyond that; the result is their number.
pub do_print_number-digits :
    (v len base : ℕ) (symbols : List ℕ)
    → v < 2 ^ 64
    → 1 < base
    → base ≤ length symbols
    → get_or symbols 0 0 ≡ 48
    → (digits : List ℕ) × ((do_print_number v len base symbols).0
        ≡ map (λ d. get_or symbols d 0) digits)
      × AllBelow base digits
      × (value base 0 digits ≡ v)
      × (length digits ≡ (do_print_number v len base symbols).1)
      × ((length digits ≡ len) ⊎ ((digits ≡ 0 ∷ []) ⊎ Leads digits))
do_print_number-digits v len base symbols p h s z =
    let n = digit_number v base in
    let parts = do_print_number-parts v len base symbols in
    let c = digit_number-Counts v base h p in
    (
      printed len n v base,
      ap (λ r. r.0) parts ∙ written-map symbols len n v base z,
      printed-AllBelow len n v base (omega arith),
      value-printed len n v base ∙ c.0,
      length-printed len n v base ∙ ap (λ r. r.1) (sym parts),
      printed-Counts len n v base c,
    )
