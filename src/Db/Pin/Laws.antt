-- ===== src/Db/Pin/Laws.antt =====
-- The time to wait after a failed attempt, and the digits on the shuffled pad.
use fw.Base.{ℕ, zero, suc, ◌+◌, ◌-◌, ◌*◌, ◌%◌, ◌^◌, ◌≤◌, ◌<◌, ◌≡◌, ◌∙◌, refl, true, arith}
use fw.Base.{List, [], ◌∷◌, length, get_or, set, length-set, leb, ◌==◌, if◌then◌else◌}
use mathlib.Core.Path.{subst, sym, ap}
use fw.Base.Order.{pow_le}
use fw.Db.Pin.{pin_wait_s, Attempts, pin_fail, pin_cooldown_ms, swap, shuffle_from, pin_shuffle_pad}

pub pin_wait_le : (a : ℕ) → pin_wait_s a ≤ 3840
unfolding pin_wait_s
pin_wait_le a = ground (arith, pow_le (a - 3) 6)

pin_fail_eq :
    (now : ℕ) (s : Attempts)
    → s.pin_attempts + 1 < 2 ^ 32
    → 3 ≤ s.pin_attempts + 1
    → pin_fail now s ≡ record {
      pin_attempts = s.pin_attempts + 1;
      pin_cooldown = (now + pin_wait_s (s.pin_attempts + 1) * 1000) % 2 ^ 32;
    }
unfolding pin_fail
pin_fail_eq now s h k =
    let e : (s.pin_attempts + 1) % 2 ^ 32 ≡ s.pin_attempts + 1 = omega arith in
    let t : leb 3 (s.pin_attempts + 1) ≡ true = ground arith in rw (e, t) refl

cooldown_left :
    (attempts now elapsed wait : ℕ)
    → wait ≤ 3840
    → now + 3840000 < 2 ^ 32
    → pin_cooldown_ms
        (now + elapsed)
        (record { pin_attempts = attempts; pin_cooldown = (now + wait * 1000) % 2 ^ 32 })
      ≡ wait * 1000 - elapsed
unfolding pin_cooldown_ms
cooldown_left attempts now elapsed wait h l =
    let e : (now + wait * 1000) % 2 ^ 32 ≡ now + wait * 1000 = omega arith in rw e (ground arith)

-- While neither the number of attempts nor the clock wraps, the failed attempts from the third on
-- make the user wait exactly the time that is set for their number, which runs down with the clock
-- and is never more than 3840 seconds.
pub pin_cooldown_ms-fail :
    (s : Attempts) (now elapsed : ℕ)
    → s.pin_attempts + 1 < 2 ^ 32
    → 3 ≤ s.pin_attempts + 1
    → now + 3840000 < 2 ^ 32
    → (pin_cooldown_ms (now + elapsed) (pin_fail now s)
        ≡ pin_wait_s (s.pin_attempts + 1) * 1000 - elapsed)
      × (pin_wait_s (s.pin_attempts + 1) ≤ 3840)
pin_cooldown_ms-fail s now elapsed h k l =
    let le = pin_wait_le (s.pin_attempts + 1) in
    (
      ap (pin_cooldown_ms (now + elapsed)) (pin_fail_eq now s h k)
          ∙ cooldown_left (s.pin_attempts + 1) now elapsed (pin_wait_s (s.pin_attempts + 1)) le l,
      le,
    )

-- How often a digit stands on the pad.
abbrev pub copies : ℕ → List ℕ → ℕ
copies v [] = 0
copies v (x ∷ xs) = (if x == v then 1 else 0) + copies v xs

copies-set :
    (v : ℕ) (xs : List ℕ) (i x : ℕ)
    → i < length xs
    → copies v (set xs i x) + (if get_or xs i 0 == v then 1 else 0)
      ≡ copies v xs + (if x == v then 1 else 0)
copies-set v [] i x h = elim h [ ]
copies-set v (y ∷ xs) zero x h = omega arith
copies-set v (y ∷ xs) (suc i) x h = omega (arith, copies-set v xs i x (omega arith))

get_or-set :
    (xs : List ℕ) (i j x : ℕ)
    → i < length xs
    → get_or (set xs i x) j 0 ≡ (if i == j then x else get_or xs j 0)
get_or-set [] i j x h = elim h [ ]
get_or-set (y ∷ xs) zero zero x h = refl
get_or-set (y ∷ xs) zero (suc j) x h = ground arith
get_or-set (y ∷ xs) (suc i) zero x h = ground arith
get_or-set (y ∷ xs) (suc i) (suc j) x h = ground (arith, get_or-set xs i j x)

copies-swap :
    (v : ℕ) (pad : List ℕ) (a b : ℕ)
    → a < length pad
    → b < length pad
    → copies v (swap pad a b) ≡ copies v pad
unfolding swap
copies-swap v pad a b h k =
    let l : b < length (set pad a (get_or pad b 0)) =
      omega (arith, length-set pad a (get_or pad b 0)) in
    ground (
      arith,
      copies-set v pad a (get_or pad b 0) h,
      copies-set v (set pad a (get_or pad b 0)) b (get_or pad a 0) l,
      get_or-set pad a b (get_or pad b 0) h,
    )

abbrev pub AllBelow : ℕ → List ℕ → Type 0
AllBelow n [] = Unit
AllBelow n (x ∷ xs) = (x < n) × AllBelow n xs

length-swap : (pad : List ℕ) (a b : ℕ) → length (swap pad a b) ≡ length pad
unfolding swap
length-swap pad a b = length-set (set pad a _) b _ ∙ length-set pad a _

copies-shuffle_from :
    (v i : ℕ) (draws pad : List ℕ)
    → i + length draws ≤ length pad
    → AllBelow (length pad) draws
    → copies v (shuffle_from i draws pad) ≡ copies v pad
unfolding shuffle_from
copies-shuffle_from v i [] pad h d = refl
copies-shuffle_from v i (r ∷ draws) pad h d =
    let same : length (swap pad i r) ≡ length pad = length-swap pad i r in
    copies-shuffle_from v (suc i) draws (swap pad i r) (omega (arith, same))
      (subst (λ n. AllBelow n draws) (sym same) d.1)
    ∙ copies-swap v pad i r (omega arith) d.0

-- With draws that are below the length of the pad, and no more of them than it is long, the shuffled
-- pad has every digit as often as before.
pub copies-pin_shuffle_pad :
    (v : ℕ) (draws pad : List ℕ)
    → length draws ≤ length pad
    → AllBelow (length pad) draws
    → copies v (pin_shuffle_pad draws pad) ≡ copies v pad
unfolding pin_shuffle_pad
copies-pin_shuffle_pad v draws pad h d = copies-shuffle_from v 0 draws pad (omega arith) d
