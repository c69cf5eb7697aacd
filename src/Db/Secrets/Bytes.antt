-- ===== src/Db/Secrets/Bytes.antt =====
-- Bytes that are XOR-ed twice, and parts of lists of bytes.
use fw.Base.{ℕ, zero, suc, ◌+◌, ◌*◌, ◌/◌, ◌%◌, ◌≡◌, ◌<◌, ◌≤◌, refl, true, false, arith, ap, ◌∙◌}
use fw.Base.{List, [], ◌∷◌, ◌++◌, ltb, length, take, drop}
use Prim.Native.Nat.{bit_xor, bit_xor-bitwise, digits, differ}
use fw.Db.Entry.{bytes_eq}
use fw.Db.Secrets.{xor_bytes}

abbrev xor_digits : ℕ → ℕ → ℕ → ℕ
xor_digits n a b = digits (λ b. b) differ n a b

differ_twice : (x y : ℕ) → x < 2 → y < 2 → (differ x (differ x y) ≡ y) × (differ x y < 2)
differ_twice zero zero p q = (refl, omega arith)
differ_twice zero (suc zero) p q = (refl, omega arith)
differ_twice (suc zero) zero p q = (refl, omega arith)
differ_twice (suc zero) (suc zero) p q = (refl, omega arith)
differ_twice x (suc (suc y)) p q = absurd (omega arith)
differ_twice (suc (suc x)) y p q = absurd (omega arith)

xor_digits_twice : (n a b : ℕ) → xor_digits n a (xor_digits n a b) ≡ b
xor_digits_twice zero a b = refl
xor_digits_twice (suc n) zero b = refl
xor_digits_twice (suc n) (suc a) b =
    let h = xor_digits n (suc a / 2) (b / 2) in
    let l = differ (suc a % 2) (b % 2) in
    let d = differ_twice (suc a % 2) (b % 2) (omega arith) (omega arith) in
    let hi : (h * 2 + l) / 2 ≡ h = omega (arith, d.1) in
    let lo : (h * 2 + l) % 2 ≡ l = omega (arith, d.1) in
    rw (hi, lo) (omega (arith, d.0, xor_digits_twice n (suc a / 2) (b / 2)))

bit_xor_twice : (a b : ℕ) → bit_xor a (bit_xor a b) ≡ b
bit_xor_twice a b =
    bit_xor-bitwise a (bit_xor a b)
    ∙ (ap (xor_digits a a) (bit_xor-bitwise a b) ∙ xor_digits_twice a a b)

pub xor_bytes_twice : (xs ys : List ℕ) → length ys ≤ length xs → xor_bytes xs (xor_bytes xs ys) ≡ ys
unfolding xor_bytes
xor_bytes_twice [] [] h = refl
xor_bytes_twice [] (y ∷ ys) h = absurd (omega arith)
xor_bytes_twice (x ∷ xs) [] h = refl
xor_bytes_twice (x ∷ xs) (y ∷ ys) h =
    rw (bit_xor_twice x y, xor_bytes_twice xs ys (omega arith)) refl

pub length-xor_bytes :
    (xs ys : List ℕ) → length xs ≡ length ys → length (xor_bytes xs ys) ≡ length ys
unfolding xor_bytes
length-xor_bytes [] [] h = refl
length-xor_bytes [] (y ∷ ys) h = absurd (omega arith)
length-xor_bytes (x ∷ xs) [] h = absurd (omega arith)
length-xor_bytes (x ∷ xs) (y ∷ ys) h = omega (arith, length-xor_bytes xs ys (omega arith))

pub bytes_eq_self : (xs : List ℕ) → bytes_eq xs xs ≡ true
unfolding bytes_eq
bytes_eq_self [] = refl
bytes_eq_self (x ∷ xs) = ground (arith, bytes_eq_self xs)

pub take_at : (n : ℕ) (xs ys : List ℕ) → length xs ≡ n → take n (xs ++ ys) ≡ xs
take_at zero [] ys h = refl
take_at zero (x ∷ xs) ys h = absurd (omega arith)
take_at (suc n) [] ys h = absurd (omega arith)
take_at (suc n) (x ∷ xs) ys h = ap (◌∷◌ x) (take_at n xs ys (omega arith))

pub drop_at : (n : ℕ) (xs ys : List ℕ) → length xs ≡ n → drop n (xs ++ ys) ≡ ys
drop_at zero [] ys h = refl
drop_at zero (x ∷ xs) ys h = absurd (omega arith)
drop_at (suc n) [] ys h = absurd (omega arith)
drop_at (suc n) (x ∷ xs) ys h = drop_at n xs ys (omega arith)

pub take_front : (n : ℕ) (xs ys : List ℕ) → n ≤ length xs → take n (xs ++ ys) ≡ take n xs
take_front zero xs ys q = refl
take_front (suc n) [] ys q = absurd (omega arith)
take_front (suc n) (x ∷ xs) ys q = ap (◌∷◌ x) (take_front n xs ys (omega arith))

pub take-take : (n m : ℕ) (xs : List ℕ) → n ≤ m → take n (take m xs) ≡ take n xs
take-take zero m xs p = refl
take-take (suc n) zero xs p = absurd (omega arith)
take-take (suc n) (suc m) [] p = refl
take-take (suc n) (suc m) (x ∷ xs) p = ap (◌∷◌ x) (take-take n m xs (omega arith))

pub ltb_le : (m n : ℕ) → n ≤ m → ltb m n ≡ false
ltb_le m n h = ground arith

pub ltb_ge : (m n : ℕ) → ltb m n ≡ false → n ≤ m
ltb_ge m n h = ground arith
