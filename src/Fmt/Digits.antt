-- ===== src/Fmt/Digits.antt =====
-- Digits, and the numbers that they stand for.
use fw.Base.{
  ℕ, zero, suc, ◌+◌, ◌*◌, ◌/◌, ◌%◌, ◌^◌, ◌<◌, ◌≡◌, ◌≢◌, refl, ap, ◌∙◌, arith, List, [], ◌∷◌, ◌++◌,
  map, length, get_or, length-append, ◌==◌, Bool-cases, inl, inr, false, dec_lt,
}
use mathlib.Core.List.{map-append}
use native.Mathlib.Nat.{div-add-mod', div-lt_iff_lt-mul}
use fw.Fmt.{count_digits, put_digits}

-- The number that digits stand for, behind those that stand for `acc`.
abbrev pub value : ℕ → ℕ → List ℕ → ℕ
value base acc [] = acc
value base acc (d ∷ ds) = value base (acc * base + d) ds

abbrev pub AllBelow : ℕ → List ℕ → Type 0
AllBelow n [] = Unit
AllBelow n (d ∷ ds) = (d < n) × AllBelow n ds

-- The digits of a number, so many of them, from the first one on.
unfoldable pub digits_of : ℕ → ℕ → ℕ → List ℕ
digits_of zero v base = []
digits_of (suc n) v base = digits_of n (v / base) base ++ ((v % base) ∷ [])

div_half : (v b f : ℕ) → 1 < b → v < 2 * f → v / b < f
div_half v b f h p = (div-lt_iff_lt-mul (omega arith)).1 (grind arith)

mod_lt : (v b : ℕ) → 0 < b → v % b < b
mod_lt v b h = omega arith

pub put_digits-map :
    (symbols : List ℕ) (n v base : ℕ)
    → put_digits symbols n v base ≡ map (λ d. get_or symbols d 0) (digits_of n v base)
unfolding put_digits digits_of
put_digits-map symbols zero v base = refl
put_digits-map symbols (suc n) v base = rw (map-append, put_digits-map symbols n (v / base) base)

value-append :
    (base acc d : ℕ) (ds : List ℕ) → value base acc (ds ++ (d ∷ [])) ≡ value base acc ds * base + d
value-append base acc d [] = refl
value-append base acc d (e ∷ ds) = value-append base (acc * base + e) d ds

pub length-digits_of : (n v base : ℕ) → length (digits_of n v base) ≡ n
unfolding digits_of
length-digits_of zero v base = refl
length-digits_of (suc n) v base = omega (
  arith,
  length-append (digits_of n (v / base) base) ((v % base) ∷ []),
  length-digits_of n (v / base) base,
)

pub AllBelow-append :
    (n : ℕ) (xs ys : List ℕ) → AllBelow n xs → AllBelow n ys → AllBelow n (xs ++ ys)
AllBelow-append n [] ys a b = b
AllBelow-append n (x ∷ xs) ys a b = (a.0, AllBelow-append n xs ys a.1 b)

pub digits_of-AllBelow : (n v base : ℕ) → 0 < base → AllBelow base (digits_of n v base)
unfolding digits_of
digits_of-AllBelow zero v base h = tt
digits_of-AllBelow (suc n) v base h =
    AllBelow-append base (digits_of n (v / base) base) ((v % base) ∷ [])
      (digits_of-AllBelow n (v / base) base h) (mod_lt v base h, tt)

-- The digits that are counted are those of the number.
pub value-digits_of :
    (fuel v base : ℕ)
    → 1 < base
    → v < 2 ^ fuel
    → value base 0 (digits_of (count_digits fuel v base) v base) ≡ v
unfolding count_digits digits_of
value-digits_of zero v base h p = omega arith
value-digits_of (suc fuel) v base h p = elim (Bool-cases (v == 0)) [
  | inl e ↦ let z : v ≡ 0 = ground arith in rw z refl
  | inr e ↦ rw e (
      value-append base 0 (v % base) (digits_of (count_digits fuel (v / base) base) (v / base) base)
      ∙ ap (λ n. n * base + v % base)
          (value-digits_of fuel (v / base) base h (div_half v base (2 ^ fuel) h (omega arith)))
      ∙ div-add-mod' v base)
]

-- The first digit is not 0.
abbrev pub Leads : List ℕ → Type 0
Leads [] = ⊥
Leads (d ∷ ds) = d ≢ 0

Leads-append : (xs ys : List ℕ) → Leads xs → Leads (xs ++ ys)
Leads-append [] ys h = absurd h
Leads-append (x ∷ xs) ys h = h

count_digits-zero : (fuel v base : ℕ) → v ≡ 0 → count_digits fuel v base ≡ 0
unfolding count_digits
count_digits-zero zero v base h = refl
count_digits-zero (suc fuel) v base h = rw h refl

pub digits_of-Leads :
    (fuel v base : ℕ)
    → 1 < base
    → v < 2 ^ fuel
    → 0 < v
    → Leads (digits_of (count_digits fuel v base) v base)
unfolding count_digits digits_of
digits_of-Leads zero v base h p q = absurd (omega arith)
digits_of-Leads (suc fuel) v base h p q =
    let e : (v == 0) ≡ false = ground arith in
    elim (dec_lt 0 (v / base)) [
      | yes more ↦ rw e (
          Leads-append (digits_of (count_digits fuel (v / base) base) (v / base) base)
            ((v % base) ∷ [])
            (digits_of-Leads fuel (v / base) base h (div_half v base (2 ^ fuel) h (omega arith))
              more))
      | no last ↦
          let z : v / base ≡ 0 = omega arith in
          let d : v % base ≢ 0 =
            λ m. absurd (omega (arith, div-add-mod' v base, ap (λ n. n * base) z, m)) in
          rw (e, count_digits-zero fuel (v / base) base z) d
    ]
