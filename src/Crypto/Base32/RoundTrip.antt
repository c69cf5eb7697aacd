-- ===== src/Crypto/Base32/RoundTrip.antt =====
-- Decoding takes back what encoding wrote, and the size that is asked for is enough.
use fw.Base.{ℕ, zero, suc, ◌+◌, ◌/◌, ◌%◌, ◌^◌, ◌<◌, ◌≡◌, refl, arith}
use fw.Base.{Option, none, some, List, [], ◌∷◌, leb, length, if◌then◌else◌}
use fw.Base.{replicate}
use mathlib.Core.Option
use fw.Crypto.Base32.{strchr}
use fw.Crypto.Base32.{base32_encode, base32_encode_size, low_bits, decode_loop}
use fw.Crypto.Base32.{base32_decode}
use fw.Crypto.Base32.Text.{
  drained, text_from, encode_loop-fitted, AllBytes, Phase, even, three, one, four, two, held_back,
  arrived, with_flight, length-text_from,
}
use fw.Crypto.Base32.Decode.{decode_symbol, decode_loop-cut}

decode_padding :
    (k buf got : ℕ) → decode_loop (replicate k b'=') buf got none ≡ decode_loop [] buf got none
unfolding decode_loop strchr
decode_padding zero buf got = refl
decode_padding (suc k) buf got = decode_padding k buf got

put_back :
    (b b' : ℕ) (r : Option (List ℕ)) (p : List ℕ)
    → b ≡ b'
    → r ≡ some p
    → Option.map (◌∷◌ b) r ≡ some (b' ∷ p)
put_back b b' r p h e = rw (h, e)

decode_end : (buf got : ℕ) → low_bits buf got ≡ 0 → decode_loop [] buf got none ≡ some []
unfolding decode_loop
decode_end buf got h = ground arith

decode-text_from :
    (q : Phase) (p : List ℕ) (b be bd count : ℕ)
    → AllBytes p
    → b < 256
    → be % 2 ^ held_back q ≡ b % 2 ^ held_back q
    → bd % 2 ^ arrived q ≡ b / 2 ^ held_back q
    → decode_loop (text_from p be (held_back q) count) bd (arrived q) none
      ≡ some (with_flight q b p)
unfolding text_from drained
decode-text_from even [] b be bd count a h he hd = rw decode_padding (unfold decode_loop in refl)
decode-text_from even (c ∷ p) b be bd count a h he hd =
    rw decode_symbol (decode-text_from three p c _ _ _ a.1 a.0 (omega arith) (omega arith))
decode-text_from three [] b be bd count a h he hd =
    rw (decode_symbol, decode_padding)
      (put_back _ _ _ [] (omega arith) (decode_end _ _ (omega arith)))
decode-text_from three (c ∷ p) b be bd count a h he hd =
    rw (decode_symbol, decode_symbol)
      (put_back _ _ _ _ (omega arith)
        (decode-text_from one p c _ _ _ a.1 a.0 (omega arith) (omega arith)))
decode-text_from one [] b be bd count a h he hd =
    rw (decode_symbol, decode_padding)
      (put_back _ _ _ [] (omega arith) (decode_end _ _ (omega arith)))
decode-text_from one (c ∷ p) b be bd count a h he hd = rw decode_symbol (
    put_back _ _ _ _ (omega arith)
      (decode-text_from four p c _ _ _ a.1 a.0 (omega arith) (omega arith)))
decode-text_from four [] b be bd count a h he hd =
    rw (decode_symbol, decode_padding)
      (put_back _ _ _ [] (omega arith) (decode_end _ _ (omega arith)))
decode-text_from four (c ∷ p) b be bd count a h he hd =
    rw (decode_symbol, decode_symbol)
      (put_back _ _ _ _ (omega arith)
        (decode-text_from two p c _ _ _ a.1 a.0 (omega arith) (omega arith)))
decode-text_from two [] b be bd count a h he hd =
    rw (decode_symbol, decode_padding)
      (put_back _ _ _ [] (omega arith) (decode_end _ _ (omega arith)))
decode-text_from two (c ∷ p) b be bd count a h he hd =
    rw (decode_symbol, decode_symbol)
      (put_back _ _ _ _ (omega arith) (
        put_back _ _ _ _ (omega arith)
          (decode-text_from even p 0 _ _ _ a.1 (omega arith) (omega arith) (omega arith))))

-- `base32_encode` succeeds exactly on the buffers that hold `base32_encode_size` characters, and the
-- string and its NUL then fill that size.
pub base32_encode-size :
    (res_size : ℕ) (bytes : List ℕ)
    → (s : List ℕ) × (base32_encode res_size bytes
        ≡ (if leb (base32_encode_size (length bytes)) res_size then some s else none))
      × (length s + 1 ≡ base32_encode_size (length bytes))
unfolding base32_encode base32_encode_size
base32_encode-size res_size bytes =
    let s = text_from bytes 0 0 0 in
    let n = length-text_from even bytes 0 0 (omega arith) in
    (s, ground (arith, n, encode_loop-fitted bytes 0 0 0 res_size), omega (arith, n))

-- What `base32_encode` wrote, `base32_decode` turns into the bytes again, in any buffer that holds
-- them, and reports -1 in a smaller one.
pub base32_decode-encode :
    (res_size cap : ℕ) (bytes s : List ℕ)
    → AllBytes bytes
    → base32_encode res_size bytes ≡ some s
    → base32_decode (some cap) s ≡ (if leb (length bytes) cap then some bytes else none)
unfolding base32_encode base32_decode
base32_decode-encode res_size cap bytes s a e =
    let t : s ≡ text_from bytes 0 0 0 = ground (arith, encode_loop-fitted bytes 0 0 0 res_size) in
    let d = decode-text_from even bytes 0 0 0 0 a (omega arith) (omega arith) (omega arith) in
    rw (t, decode_loop-cut, d)
