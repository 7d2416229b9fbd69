-- ===== src/Decode/Base64.antt =====
-- decode.c, base64: `ci_base64_decode` and `ci_base64_encode`. Bytes are numbers; a shifted byte and
-- one shifted the other way have no bit in common, so `|` is a sum, and `& 0x3F` is `% 64`.
pub mod Encoding
pub mod RoundTrip
pub mod Reference
use c_icap_server.Common.{
  ℕ, zero, suc, ◌+◌, ◌-◌, ◌*◌, ◌/◌, ◌%◌, ◌^◌, Bool, ◌&&◌, ◌||◌, Option, none, some, List, [], ◌∷◌,
  ◌++◌, ltb, if◌then◌else◌, length, get_elem?, get_or, Bytes, codes, ◌>>=◌,
}

abbrev pub base64_table : Bytes
base64_table =
    255 ∷ 255 ∷ 255 ∷ 255 ∷ 255 ∷ 255 ∷ 255 ∷ 255 ∷ 255 ∷ 255 ∷ 255 ∷ 255 ∷ 255 ∷ 255 ∷ 255 ∷ 255
    ∷ 255 ∷ 255 ∷ 255 ∷ 255 ∷ 255 ∷ 255 ∷ 255 ∷ 255 ∷ 255 ∷ 255 ∷ 255 ∷ 255 ∷ 255 ∷ 255 ∷ 255 ∷ 255
    ∷ 255 ∷ 255 ∷ 255 ∷ 255 ∷ 255 ∷ 255 ∷ 255 ∷ 255 ∷ 255 ∷ 255 ∷ 255 ∷ 62 ∷ 255 ∷ 255 ∷ 255 ∷ 63
    ∷ 52 ∷ 53 ∷ 54 ∷ 55 ∷ 56 ∷ 57 ∷ 58 ∷ 59 ∷ 60 ∷ 61 ∷ 255 ∷ 255 ∷ 255 ∷ 0 ∷ 255 ∷ 255 ∷ 255 ∷ 0
    ∷ 1 ∷ 2 ∷ 3 ∷ 4 ∷ 5 ∷ 6 ∷ 7 ∷ 8 ∷ 9 ∷ 10 ∷ 11 ∷ 12 ∷ 13 ∷ 14 ∷ 15 ∷ 16 ∷ 17 ∷ 18 ∷ 19 ∷ 20 ∷ 21
    ∷ 22 ∷ 23 ∷ 24 ∷ 25 ∷ 255 ∷ 255 ∷ 255 ∷ 255 ∷ 255 ∷ 255 ∷ 26 ∷ 27 ∷ 28 ∷ 29 ∷ 30 ∷ 31 ∷ 32 ∷ 33
    ∷ 34 ∷ 35 ∷ 36 ∷ 37 ∷ 38 ∷ 39 ∷ 40 ∷ 41 ∷ 42 ∷ 43 ∷ 44 ∷ 45 ∷ 46 ∷ 47 ∷ 48 ∷ 49 ∷ 50 ∷ 51 ∷ 255
    ∷ 255 ∷ 255 ∷ 255 ∷ 255 ∷ 255 ∷ 255 ∷ 255 ∷ 255 ∷ 255 ∷ 255 ∷ 255 ∷ 255 ∷ 255 ∷ 255 ∷ 255 ∷ 255
    ∷ 255 ∷ 255 ∷ 255 ∷ 255 ∷ 255 ∷ 255 ∷ 255 ∷ 255 ∷ 255 ∷ 255 ∷ 255 ∷ 255 ∷ 255 ∷ 255 ∷ 255 ∷ 255
    ∷ 255 ∷ 255 ∷ 255 ∷ 255 ∷ 255 ∷ 255 ∷ 255 ∷ 255 ∷ 255 ∷ 255 ∷ 255 ∷ 255 ∷ 255 ∷ 255 ∷ 255 ∷ 255
    ∷ 255 ∷ 255 ∷ 255 ∷ 255 ∷ 255 ∷ 255 ∷ 255 ∷ 255 ∷ 255 ∷ 255 ∷ 255 ∷ 255 ∷ 255 ∷ 255 ∷ 255 ∷ 255
    ∷ 255 ∷ 255 ∷ 255 ∷ 255 ∷ 255 ∷ 255 ∷ 255 ∷ 255 ∷ 255 ∷ 255 ∷ 255 ∷ 255 ∷ 255 ∷ 255 ∷ 255 ∷ 255
    ∷ 255 ∷ 255 ∷ 255 ∷ 255 ∷ 255 ∷ 255 ∷ 255 ∷ 255 ∷ 255 ∷ 255 ∷ 255 ∷ 255 ∷ 255 ∷ 255 ∷ 255 ∷ 255
    ∷ 255 ∷ 255 ∷ 255 ∷ 255 ∷ 255 ∷ 255 ∷ 255 ∷ 255 ∷ 255 ∷ 255 ∷ 255 ∷ 255 ∷ 255 ∷ 255 ∷ 255 ∷ 255
    ∷ 255 ∷ 255 ∷ 255 ∷ 255 ∷ 255 ∷ 255 ∷ 255 ∷ 255 ∷ 255 ∷ 255 ∷ 255 ∷ 255 ∷ 255 ∷ 255 ∷ 255 ∷ 255
    ∷ 255 ∷ 255 ∷ 255 ∷ 255 ∷ []

-- The value of a character; the table has 256 entries, and a `char` is below 256.
unfoldable pub lookup_char : ℕ → ℕ
lookup_char c = get_or base64_table c 255

-- The three bytes that four characters stand for.
unfoldable pub bytes_of : ℕ → ℕ → ℕ → ℕ → Bytes
bytes_of a b c d = ((a * 4 + b / 16) % 256) ∷ ((b * 16 + c / 4) % 256) ∷ ((c * 64 + d) % 256) ∷ []

-- The loop of `ci_base64_decode`, with the counter `i` and the bytes stored so far. The text ends
-- by its NUL, whose value is 255, so that a shorter rest stops the loop as a bad character does.
unfoldable pub decode_loop : Bytes → ℕ → Bytes → Bytes
decode_loop (a ∷ b ∷ c ∷ d ∷ str) i out =
    let rest =
      decode_loop str (i - 3)
        (out ++ bytes_of (lookup_char a) (lookup_char b) (lookup_char c) (lookup_char d)) in
    if ltb 3 i
    then if ltb 63 (lookup_char a)
        || (ltb 63 (lookup_char b) || (ltb 63 (lookup_char c) || ltb 63 (lookup_char d)))
      then out
      else rest
    else out
decode_loop str i out = out

-- `ci_base64_decode` stores these bytes, then a NUL, and returns their number.
unfoldable pub base64_decode : Bytes → ℕ → Bytes
unfolding decode_loop bytes_of lookup_char
base64_decode encoded len = decode_loop encoded len []

abbrev pub base64_set : Bytes
base64_set = codes "ABCDEFGHIJKLMNOPQRSTUVWXYZabcdefghijklmnopqrstuvwxyz0123456789+/"

-- `dobase64`
unfoldable pub quad : ℕ → ℕ → ℕ → Bytes
quad b0 b1 b2 =
    get_or base64_set (b0 / 4 % 64) 0
    ∷ get_or base64_set ((b0 * 16 + b1 / 16) % 64) 0
    ∷ get_or base64_set ((b1 * 4 + b2 / 64) % 64) 0
    ∷ get_or base64_set (b2 % 64) 0
    ∷ []

-- The text that was stored; an access outside `data` or `out`; or the fuel ran out.
pub data Encoded : Type 0 where
  encoded : Bytes → Encoded
  fault : Encoded
  out_of_fuel : Encoded

-- `len - 3` and `outlen - 4`, as `size_t`.
abbrev pub below_by : ℕ → ℕ → ℕ
below_by n k = (n + 2 ^ 64 - k) % 2 ^ 64

-- The `k` characters of `out` and what `dobase64` stores behind them, in a buffer of `outlen`.
unfoldable pub put_quad : ℕ → Bytes → ℕ → ℕ → ℕ → Option Bytes
unfolding quad
put_quad outlen out b0 b1 b2 =
    if ltb outlen (length out + 4) then none else some (out ++ quad b0 b1 b2)

-- The NUL that is stored at `out[k]`.
unfoldable pub put_nul : ℕ → Bytes → Encoded
put_nul outlen out = if ltb (length out) outlen then encoded out else fault

-- What follows the loop; `k` is the length of `out`.
unfoldable pub encode_rest : Bytes → ℕ → ℕ → Bytes → Encoded
unfolding put_quad put_nul
encode_rest bytes outlen i out =
    if ltb (length out) (below_by outlen 4) && ltb i (length bytes)
    then elim (put_quad outlen out (get_or bytes i 0) (get_or bytes (i + 1) 0)
        (get_or bytes (i + 2) 0)) [ none ↦ fault | some out' ↦ put_nul outlen out' ]
    else put_nul outlen out

-- The body of the loop.
unfoldable pub encode_step : Bytes → ℕ → ℕ → Bytes → Option Bytes
unfolding put_quad
encode_step bytes outlen i out = do
  b0 ← get_elem? bytes i
  b1 ← get_elem? bytes (i + 1)
  b2 ← get_elem? bytes (i + 2)
  put_quad outlen out b0 b1 b2

unfoldable pub encode_loop : ℕ → Bytes → ℕ → ℕ → Bytes → Encoded
unfolding encode_rest encode_step
encode_loop zero bytes outlen i out = out_of_fuel
encode_loop (suc fuel) bytes outlen i out =
    let go : Encoded = elim (encode_step bytes outlen i out) [
      | none ↦ fault
      | some out' ↦ encode_loop fuel bytes outlen (i + 3) out'
    ] in
    if ltb i (below_by (length bytes) 3) && ltb (length out) (below_by outlen 4)
    then go
    else encode_rest bytes outlen i out

-- `ci_base64_encode` stores this text, then a NUL, and returns its length. Each round reads one
-- byte at least, so that a round more than there are bytes is enough fuel.
unfoldable pub base64_encode : Bytes → ℕ → Encoded
unfolding encode_loop
base64_encode bytes outlen = encode_loop (suc (length bytes)) bytes outlen 0 []
