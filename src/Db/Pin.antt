-- ===== src/Db/Pin.antt =====
-- db/pin.c: failed attempts and the time to wait after them, and the shuffled number pad.
--
-- The time `now` of sys/timer.c is an argument, and so are the numbers that `rnd (10)` gives. The
-- child Check has what a PIN is for: pin_encode, pin_revalidate, pin_change and pin_set.
pub mod Laws
pub mod Check
use fw.Base.{ℕ, zero, suc, ◌+◌, ◌-◌, ◌*◌, ◌%◌, ◌^◌, ltb, leb, if◌then◌else◌}
use fw.Base.{List, [], ◌∷◌, get_or, set}

abbrev pub pin_free_attempts : ℕ
pin_free_attempts = 3

abbrev pub pin_wait_log2 : ℕ
pin_wait_log2 = 6

-- `PIN_WAIT_S`, in seconds.
unfoldable pub pin_wait_s : ℕ → ℕ
pin_wait_s attempts =
    if ltb attempts pin_free_attempts
    then 0
    else if ltb (pin_free_attempts + pin_wait_log2) attempts
    then 3600
    else 60 * 2 ^ (attempts - pin_free_attempts)

-- The static variables `pin_cooldown` and `pin_attempts`.
pub record Attempts : Type 0 where
  pub pin_cooldown : ℕ
  pub pin_attempts : ℕ

unfoldable pub pin_success : Attempts → Attempts
pin_success s = record { pin_cooldown = 0; pin_attempts = 0 }

unfoldable pub pin_fail : ℕ → Attempts → Attempts
unfolding pin_wait_s
pin_fail now s =
    let attempts = (s.pin_attempts + 1) % 2 ^ 32 in
    record {
      pin_attempts = attempts;
      pin_cooldown =
          if leb pin_free_attempts attempts
          then (now + pin_wait_s attempts * 1000) % 2 ^ 32
          else s.pin_cooldown;
    }

unfoldable pub pin_cooldown_ms : ℕ → Attempts → ℕ
pin_cooldown_ms now s = if leb s.pin_cooldown now then 0 else s.pin_cooldown - now

-- `swap` of two places of the array.
unfoldable pub swap : List ℕ → ℕ → ℕ → List ℕ
swap pad a b = set (set pad a (get_or pad b 0)) b (get_or pad a 0)

-- The loop of `pin_shuffle_pad` from `i` on, with the numbers drawn.
unfoldable pub shuffle_from : ℕ → List ℕ → List ℕ → List ℕ
unfolding swap
shuffle_from i [] pad = pad
shuffle_from i (r ∷ draws) pad = shuffle_from (suc i) draws (swap pad i r)

-- The loop runs as often as there are draws, ten times in the code.
unfoldable pub pin_shuffle_pad : List ℕ → List ℕ → List ℕ
unfolding shuffle_from
pin_shuffle_pad draws pad = shuffle_from 0 draws pad
