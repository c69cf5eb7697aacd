-- ===== src/Fmt/Tests.antt =====
-- A number printed in base 16.
use fw.Base.{ℕ, ◌≡◌, ◌⊎◌, refl, arith, List, [], ◌∷◌, map, length, get_or}
use fw.Fmt.{alphabet, do_print_number, print_number}
use fw.Fmt.Digits.{value, AllBelow, Leads}
use fw.Fmt.Number.{do_print_number-digits}

-- "00ff"
printed_255 : print_number 255 4 16 ≡ (48 ∷ 48 ∷ 102 ∷ 102 ∷ [], 4)
unfolding print_number
printed_255 = refl

do_print_number-digits_example :
    (digits : List ℕ) × ((do_print_number 255 4 16 alphabet).0
      ≡ map (λ d. get_or alphabet d 0) digits)
    × AllBelow 16 digits
    × (value 16 0 digits ≡ 255)
    × (length digits ≡ (do_print_number 255 4 16 alphabet).1)
    × ((length digits ≡ 4) ⊎ ((digits ≡ 0 ∷ []) ⊎ Leads digits))
do_print_number-digits_example =
    do_print_number-digits 255 4 16 alphabet (omega arith) (omega arith) (omega arith) refl
