-- ===== src/Decode/Base64/RoundTrip.antt =====
-- `ci_base64_decode` reads back what `ci_base64_encode` writes.
use c_icap_server.Common.{
  ℕ, zero, suc, ◌+◌, ◌-◌, ◌*◌, ◌/◌, ◌%◌, ◌^◌, ◌≤◌, ◌<◌, ◌≡◌, refl, sym, ap, ◌∙◌, [], ◌∷◌, ◌++◌,
  length, get_or, map, suc, List, zero, ◌-◌, Bytes, All, append_assoc, append-nil, arith,
}
use c_icap_server.Decode.Base64.{
  base64_set, lookup_char, bytes_of, decode_loop, base64_decode, quad, encoded, base64_encode,
}
use c_icap_server.Decode.Base64.Encoding.{text_of, base64_encode-text_of}

-- The bytes, filled up with zeros to a multiple of three.
unfoldable pub padded : Bytes → Bytes
padded [] = []
padded (a ∷ []) = a ∷ 0 ∷ 0 ∷ []
padded (a ∷ b ∷ []) = a ∷ b ∷ 0 ∷ []
padded (a ∷ b ∷ c ∷ xs) = a ∷ b ∷ c ∷ padded xs

abbrev pub IsByte : ℕ → Type 0
IsByte c = c < 256

-- `n` numbers from `start` on.
unfoldable pub count_from : ℕ → ℕ → List ℕ
count_from start zero = []
count_from start (suc n) = start ∷ count_from (start + 1) n

pub get_or-count_from : (start n v d : ℕ) → v < n → get_or (count_from start n) v d ≡ start + v
unfolding count_from
get_or-count_from start zero v d h = absurd (omega arith)
get_or-count_from start (suc n) zero d h = omega arith
get_or-count_from start (suc n) (suc v) d h =
    omega (arith, get_or-count_from (start + 1) n v d (omega arith))

pub get_or-map :
    (f : ℕ → ℕ) (xs : List ℕ) (v d e : ℕ)
    → v < length xs
    → get_or (map f xs) v e ≡ f (get_or xs v d)
get_or-map f [] v d e h = absurd (omega arith)
get_or-map f (x ∷ xs) zero d e h = refl
get_or-map f (x ∷ xs) (suc v) d e h = get_or-map f xs v d e (omega arith)

-- The two tables are inverse to one another.
map-lookup_char-base64_set : map lookup_char base64_set ≡ count_from 0 64
unfolding count_from lookup_char
map-lookup_char-base64_set = refl

lookup_char-set : (v : ℕ) → v < 64 → lookup_char (get_or base64_set v 0) ≡ v
lookup_char-set v h =
    sym (get_or-map lookup_char base64_set v 0 0 h)
    ∙ ap (λ xs. get_or xs v 0) map-lookup_char-base64_set
    ∙ get_or-count_from 0 64 v 0 h
    ∙ omega arith

bytes_of-digits :
    (a b c : ℕ)
    → a < 256
    → b < 256
    → c < 256
    → bytes_of (a / 4 % 64) ((a * 16 + b / 16) % 64) ((b * 4 + c / 64) % 64) (c % 64)
      ≡ a ∷ b ∷ c ∷ []
unfolding bytes_of
bytes_of-digits a b c ha hb hc =
    let first : (a / 4 % 64 * 4 + (a * 16 + b / 16) % 64 / 16) % 256 ≡ a = omega arith in
    let second : ((a * 16 + b / 16) % 64 * 16 + (b * 4 + c / 64) % 64 / 4) % 256 ≡ b =
      omega arith in
    let third : ((b * 4 + c / 64) % 64 * 64 + c % 64) % 256 ≡ c = omega arith in cc

-- A group of four characters gives its three bytes back.
decode_loop-quad :
    (a b c : ℕ) (str : Bytes) (i : ℕ) (out : Bytes)
    → a < 256
    → b < 256
    → c < 256
    → 3 < i
    → decode_loop (quad a b c ++ str) i out ≡ decode_loop str (i - 3) (out ++ a ∷ b ∷ c ∷ [])
unfolding decode_loop quad
decode_loop-quad a b c str i out ha hb hc hi =
    rw
      (
        lookup_char-set (a / 4 % 64) (omega arith),
        lookup_char-set ((a * 16 + b / 16) % 64) (omega arith),
        lookup_char-set ((b * 4 + c / 64) % 64) (omega arith),
        lookup_char-set (c % 64) (omega arith),
        bytes_of-digits a b c ha hb hc,
      )
      (ground arith)

nothing_left : (i : ℕ) (out : Bytes) → decode_loop [] i out ≡ out
unfolding decode_loop
nothing_left i out = refl

last :
    (a b c i : ℕ) (out : Bytes)
    → a < 256
    → b < 256
    → c < 256
    → 3 < i
    → decode_loop (quad a b c) i out ≡ out ++ a ∷ b ∷ c ∷ []
last a b c i out ha hb hc hi =
    ap (λ str. decode_loop str i out) (sym (append-nil (quad a b c)))
    ∙ decode_loop-quad a b c [] i out ha hb hc hi
    ∙ nothing_left (i - 3) (out ++ a ∷ b ∷ c ∷ [])

decode_loop-text_of :
    (bytes : Bytes) (i : ℕ) (out : Bytes)
    → All IsByte bytes
    → length (padded bytes) < i
    → decode_loop (text_of bytes) i out ≡ out ++ padded bytes
unfolding text_of padded
decode_loop-text_of [] i out h lt = nothing_left i out ∙ sym (append-nil out)
decode_loop-text_of (a ∷ []) i out (ha, _) lt = last a 0 0 i out ha (omega arith) (omega arith) lt
decode_loop-text_of (a ∷ b ∷ []) i out (ha, (hb, _)) lt = last a b 0 i out ha hb (omega arith) lt
decode_loop-text_of (a ∷ b ∷ c ∷ xs) i out (ha, (hb, (hc, h))) lt =
    decode_loop-quad a b c (text_of xs) i out ha hb hc (omega arith)
    ∙ decode_loop-text_of xs (i - 3) (out ++ a ∷ b ∷ c ∷ []) h (omega arith)
    ∙ append_assoc out (a ∷ b ∷ c ∷ []) (padded xs)

base64_decode-text_of :
    (bytes : Bytes) (len : ℕ)
    → All IsByte bytes
    → length (padded bytes) < len
    → base64_decode (text_of bytes) len ≡ padded bytes
unfolding base64_decode
base64_decode-text_of bytes len h room = decode_loop-text_of bytes len [] h room

-- `ci_base64_encode` of three bytes or more, into a buffer with the room, stores a text which
-- `ci_base64_decode`, given room for the result and its NUL, turns back into the bytes, filled up
-- with zeros to a multiple of three.
pub base64_decode-base64_encode :
    (bytes : Bytes) (outlen len : ℕ)
    → All IsByte bytes
    → 3 ≤ length bytes
    → length bytes < 2 ^ 64
    → length (text_of bytes) < outlen
    → outlen < 2 ^ 64
    → length (padded bytes) < len
    → (text : Bytes) × (base64_encode bytes outlen ≡ encoded text)
      × (base64_decode text len ≡ padded bytes)
base64_decode-base64_encode bytes outlen len h long small room small' room' = (
  text_of bytes,
  base64_encode-text_of bytes outlen long small room small',
  base64_decode-text_of bytes len h room',
)
