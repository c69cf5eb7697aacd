-- ===== src/Crypto/Base32/Text.antt =====
-- What `base32_encode` writes, with no regard to the buffer, and how long it is.
use fw.Base.{ℕ, zero, suc, ◌+◌, ◌-◌, ◌*◌, ◌/◌, ◌%◌, ◌^◌, ◌<◌, ◌≡◌, arith}
use fw.Base.{Option, none, some, List, [], ◌∷◌, ◌==◌, ltb, length, if◌then◌else◌}
use fw.Base.{replicate, length-replicate}
use fw.Crypto.Base32.{symbol, put, pad, rounds_to_pad, finish, drain}
use fw.Crypto.Base32.{encode_loop}

-- The characters for the bits that are left at the end.
abbrev pub tail : ℕ → ℕ → ℕ → List ℕ
tail buf got count =
    if got == 0
    then replicate (rounds_to_pad count) b'='
    else symbol (buf * 2 ^ (5 - got)) ∷ replicate (rounds_to_pad (count + 1)) b'='

-- The characters of `n` rounds of `drain`, before the others.
unfoldable pub drained : ℕ → ℕ → ℕ → List ℕ → List ℕ
drained zero buf got s = s
drained (suc n) buf got s = symbol (buf / 2 ^ (got - 5)) ∷ drained n buf (got - 5) s

-- The string that `base32_encode` writes, with no regard to the buffer's size.
unfoldable pub text_from : List ℕ → ℕ → ℕ → ℕ → List ℕ
unfolding drained
text_from [] buf got count = tail buf got count
text_from (b ∷ p) buf got count =
    let buf' = (buf * 256 + b) % 2 ^ 16 in
    let n = (got + 8) / 5 in
    drained n buf' (got + 8) (text_from p buf' (got + 8 - n * 5) (count + n))

-- A string and its NUL fit, or the result is -1.
abbrev pub fitted : List ℕ → ℕ → Option (List ℕ)
fitted s room = if ltb (length s) room then some s else none

put-fitted :
    (c room : ℕ) (s : List ℕ) (rest : ℕ → Option (List ℕ))
    → ((r : ℕ) → rest r ≡ fitted s r)
    → put room c rest ≡ fitted (c ∷ s) room
put-fitted c zero s rest h = ground arith
put-fitted c (suc room) s rest h = ground (arith, h room)

pad-fitted : (k room : ℕ) → pad k room ≡ fitted (replicate k b'=') room
unfolding pad
pad-fitted zero zero = ground arith
pad-fitted zero (suc room) = ground arith
pad-fitted (suc k) room = put-fitted b'=' room _ (pad k) (pad-fitted k)

finish-fitted :
    (buf got count room : ℕ) → finish buf got count room ≡ fitted (tail buf got count) room
unfolding finish
finish-fitted buf got count zero = ground arith
finish-fitted buf got count (suc room) = ground (
  arith,
  pad-fitted (rounds_to_pad count) (suc room),
  pad-fitted (rounds_to_pad (count + 1)) room,
)

drain-fitted :
    (n buf got room : ℕ) (s : List ℕ) (next : ℕ → Option (List ℕ))
    → ((r : ℕ) → next r ≡ fitted s r)
    → drain n buf got room next ≡ fitted (drained n buf got s) room
unfolding drain drained
drain-fitted zero buf got room s next h = h room
drain-fitted (suc n) buf got room s next h =
    put-fitted _ room _ _ (λ r. drain-fitted n buf (got - 5) r s next h)

pub encode_loop-fitted :
    (p : List ℕ) (buf got count room : ℕ)
    → encode_loop p buf got count room ≡ fitted (text_from p buf got count) room
unfolding encode_loop text_from
encode_loop-fitted [] buf got count room = finish-fitted buf got count room
encode_loop-fitted (b ∷ p) buf got count room =
    drain-fitted ((got + 8) / 5) _ (got + 8) room _ _ (λ r. encode_loop-fitted p _ _ _ r)

abbrev pub AllBytes : List ℕ → Type 0
AllBytes [] = Unit
AllBytes (b ∷ p) = (b < 256) × AllBytes p

-- The number of bits that the encoder holds while it goes round, and for each the number that the
-- decoder holds: together they make up the byte in flight, if there is one.
pub data Phase : Type 0 where
  even three one four two : Phase

abbrev pub held_back : Phase → ℕ
held_back even = 0
held_back three = 3
held_back one = 1
held_back four = 4
held_back two = 2

abbrev pub arrived : Phase → ℕ
arrived even = 0
arrived three = 5
arrived one = 7
arrived four = 4
arrived two = 6

abbrev pub with_flight : Phase → ℕ → List ℕ → List ℕ
with_flight even b p = p
with_flight _ b p = b ∷ p

-- The characters, modulo eight, and the bytes, modulo five, that went before a phase.
abbrev sent : Phase → ℕ
sent even = 0
sent three = 1
sent one = 3
sent four = 4
sent two = 6

abbrev taken : Phase → ℕ
taken even = 0
taken three = 1
taken one = 2
taken four = 3
taken two = 4

pub length-text_from :
    (q : Phase) (p : List ℕ) (buf count : ℕ)
    → count % 8 ≡ sent q
    → length (text_from p buf (held_back q) count) + sent q ≡ (length p + taken q + 4) / 5 * 8
unfolding text_from
length-text_from even [] buf count h =
    omega (arith, length-replicate {A = ℕ} (rounds_to_pad count) b'=')
length-text_from three [] buf count h =
    omega (arith, length-replicate {A = ℕ} (rounds_to_pad (count + 1)) b'=')
length-text_from one [] buf count h =
    omega (arith, length-replicate {A = ℕ} (rounds_to_pad (count + 1)) b'=')
length-text_from four [] buf count h =
    omega (arith, length-replicate {A = ℕ} (rounds_to_pad (count + 1)) b'=')
length-text_from two [] buf count h =
    omega (arith, length-replicate {A = ℕ} (rounds_to_pad (count + 1)) b'=')
length-text_from even (b ∷ p) buf count h =
    omega (arith, length-text_from three p _ (count + 1) (omega arith))
length-text_from three (b ∷ p) buf count h =
    omega (arith, length-text_from one p _ (count + 2) (omega arith))
length-text_from one (b ∷ p) buf count h =
    omega (arith, length-text_from four p _ (count + 1) (omega arith))
length-text_from four (b ∷ p) buf count h =
    omega (arith, length-text_from two p _ (count + 2) (omega arith))
length-text_from two (b ∷ p) buf count h =
    omega (arith, length-text_from even p _ (count + 2) (omega arith))
