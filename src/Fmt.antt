-- ===== src/Fmt.antt =====
-- The printing of numbers (lib/fmt.c).
--
-- Characters are their codes. No number that is printed has more than 64 digits, so that the counters,
-- which are `uint8_t`, do not wrap. The final NUL is left out.
pub mod Digits
pub mod Number
mod Tests
use fw.Base.{ℕ, zero, suc, ◌-◌, ◌/◌, ◌%◌, Option, List, [], ◌∷◌, ◌++◌, ◌==◌, ltb, get_or, replicate}
use fw.Base.{if◌then◌else◌}

-- "0123456789abcdef"
abbrev pub alphabet : List ℕ
alphabet = 48 ∷ 49 ∷ 50 ∷ 51 ∷ 52 ∷ 53 ∷ 54 ∷ 55 ∷ 56 ∷ 57 ∷ 97 ∷ 98 ∷ 99 ∷ 100 ∷ 101 ∷ 102 ∷ []

-- The loop that counts the digits; a number below 2 ^ 64 has 64 rounds at most.
unfoldable pub count_digits : ℕ → ℕ → ℕ → ℕ
count_digits zero tmp base = 0
count_digits (suc fuel) tmp base =
    let rest = count_digits fuel (tmp / base) base in if tmp == 0 then 0 else suc rest

-- The loop that writes the digits, from the last one on.
unfoldable pub put_digits : List ℕ → ℕ → ℕ → ℕ → List ℕ
put_digits symbols zero v base = []
put_digits symbols (suc digits) v base =
    put_digits symbols digits (v / base) base ++ (get_or symbols (v % base) 0 ∷ [])

-- What is written, and the length that is returned.
unfoldable pub do_print_number : ℕ → ℕ → ℕ → List ℕ → List ℕ × ℕ
unfolding count_digits put_digits
do_print_number v len base symbols =
    let digits = if v == 0 then 1 else count_digits 64 v base in
    (
      replicate (len - digits) 48 ++ put_digits symbols digits v base,
      if ltb len digits then digits else len,
    )

unfoldable pub print_number : ℕ → ℕ → ℕ → List ℕ × ℕ
unfolding do_print_number
print_number v len base = do_print_number v len base alphabet
