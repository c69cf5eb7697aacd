-- ===== src/Crypto/Base32.antt =====
-- crypto/base32.c: the Base32 coding of RFC 4648.
--
-- Characters are their ASCII codes, and a string ends where its list ends. `buf` is a `uint16_t`.
-- As bytes are below 256 and indices below 32, `buf << 8 | b` and `buf << 5 | i` are sums.
pub mod Text
pub mod Decode
pub mod RoundTrip
use fw.Base.{ℕ, zero, suc, ◌+◌, ◌-◌, ◌*◌, ◌/◌, ◌%◌, ◌^◌, Bool, false, Option, none, some}
use fw.Base.{List, [], ◌∷◌, ◌++◌, ◌==◌, ltb, ◌&&◌, ◌||◌, not, get_or, length, if◌then◌else◌, map}
use mathlib.Core.Option
use Prim.Native.Char.{code}
use Prim.Native.String
use Prim.Native.String.{String}

abbrev codes : String → List ℕ
codes String.[] = []
codes (String.◌∷◌ c s) = code c ∷ codes s

abbrev pub alphabet : List ℕ
alphabet = codes "ABCDEFGHIJKLMNOPQRSTUVWXYZ234567"

-- "\r\n="
abbrev pub ignore : List ℕ
ignore = 13 ∷ 10 ∷ b'=' ∷ []

-- `strchr` for a character that is not NUL: the position of its first occurrence.
pub strchr : List ℕ → ℕ → Option ℕ
strchr [] ch = none
strchr (c ∷ cs) ch = if c == ch then some 0 else Option.map suc (strchr cs ch)

-- `alphabet[x & 31]`
pub symbol : ℕ → ℕ
symbol x = get_or alphabet (x % 32) 0

-- A character is stored if the buffer has room for it, and the rest goes on with one place less.
-- The position `q` is given by `room`, the places from it to the buffer's end, and by `count`, those
-- before it.
abbrev pub put : ℕ → ℕ → (ℕ → Option (List ℕ)) → Option (List ℕ)
put zero c rest = none
put (suc room) c rest = Option.map (◌∷◌ c) (rest room)

-- The loop `while ((q - res) & 7)`, in the rounds that are left, with the final NUL.
pub pad : ℕ → ℕ → Option (List ℕ)
pad zero zero = none
pad zero (suc room) = some []
pad (suc k) room = put room b'=' (pad k)

abbrev pub rounds_to_pad : ℕ → ℕ
rounds_to_pad count = (8 - count % 8) % 8

-- What follows the loop over the data.
pub finish : ℕ → ℕ → ℕ → ℕ → Option (List ℕ)
unfolding pad symbol
finish buf got count zero = none
finish buf got count (suc room) =
    if got == 0
    then pad (rounds_to_pad count) (suc room)
    else Option.map (◌∷◌ (symbol (buf * 2 ^ (5 - got)))) (pad (rounds_to_pad (count + 1)) room)

-- The inner `while (got >= 5)`, over the `got / 5` rounds that it makes, and what follows it.
pub drain : ℕ → ℕ → ℕ → ℕ → (ℕ → Option (List ℕ)) → Option (List ℕ)
unfolding symbol
drain zero buf got room next = next room
drain (suc n) buf got room next =
    put room (symbol (buf / 2 ^ (got - 5))) (λ left. drain n buf (got - 5) left next)

-- The loop over the data. `drain` leaves fewer than five bits, so that the test `got < 5` holds
-- whenever the loop comes round, and each round takes a byte.
pub encode_loop : List ℕ → ℕ → ℕ → ℕ → ℕ → Option (List ℕ)
unfolding finish drain
encode_loop [] buf got count room = finish buf got count room
encode_loop (b ∷ p) buf got count room =
    let buf' = (buf * 256 + b) % 2 ^ 16 in
    let n = (got + 8) / 5 in
    drain n buf' (got + 8) room (λ left. encode_loop p buf' (got + 8 - n * 5) (count + n) left)

-- `base32_encode` into a buffer of `res_size` characters: the string, or -1.
unfoldable pub base32_encode : ℕ → List ℕ → Option (List ℕ)
unfolding encode_loop
base32_encode res_size bytes = encode_loop bytes 0 0 0 res_size

unfoldable pub base32_encode_size : ℕ → ℕ
base32_encode_size size = (size + 4) / 5 * 8 + 1

-- The store of a decoded byte: into a buffer with `room` bytes left, or nowhere if `res` is NULL.
abbrev pub store : Option ℕ → ℕ → (Option ℕ → Option (List ℕ)) → Option (List ℕ)
store none b rest = Option.map (◌∷◌ b) (rest none)
store (some zero) b rest = none
store (some (suc room)) b rest = Option.map (◌∷◌ b) (rest (some room))

-- `buf & ((1 << got) - 1)`
abbrev pub low_bits : ℕ → ℕ → ℕ
low_bits buf got = buf % 2 ^ got

-- The loop over the string, and the test for bits that are left over.
pub decode_loop : List ℕ → ℕ → ℕ → Option ℕ → Option (List ℕ)
unfolding strchr
decode_loop [] buf got room =
    if not (got == 0) && not (low_bits buf got == 0) then none else some []
decode_loop (ch ∷ s) buf got room = elim (strchr ignore ch) [
  | some i ↦ decode_loop s buf got room
  | none ↦ elim (strchr alphabet ch) [
    | none ↦ none
    | some i ↦
        let buf' = (buf * 32 + i) % 2 ^ 16 in
        let fill = decode_loop s buf' (got + 5) room in
        let next = store room (buf' / 2 ^ (got - 3) % 256) (decode_loop s buf' (got - 3)) in
        if ltb 7 (got + 5) then next else fill
  ]
]

-- `base32_decode`: the bytes, or -1. With `res` NULL, `room` is `none`, and the code returns only
-- their number.
unfoldable pub base32_decode : Option ℕ → List ℕ → Option (List ℕ)
unfolding decode_loop
base32_decode room s = decode_loop s 0 0 room
