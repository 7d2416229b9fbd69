-- ===== src/Decode/Base64/Reference.antt =====
-- The text of `ci_base64_encode` is the base64 text of RFC 4648, but for the padding.
use c_icap_server.Common.{
  ℕ, ◌+◌, ◌-◌, ◌*◌, ◌/◌, ◌%◌, ◌^◌, ◌≤◌, ◌<◌, ◌≡◌, refl, sym, ap, ◌∙◌, [], ◌∷◌, ◌++◌, ltb, ◌==◌,
  if◌then◌else◌, length, get_or, map, Bytes, All, arith,
}
use c_icap_server.Decode.Base64.{base64_set, quad, encoded, base64_encode}
use c_icap_server.Decode.Base64.Encoding.{text_of, base64_encode-text_of}
use c_icap_server.Decode.Base64.RoundTrip.{IsByte, count_from, get_or-count_from, get_or-map}

-- The character of a number below 64: a capital letter, a small letter, a digit, `+` or `/`.
abbrev pub letter : ℕ → ℕ
letter v =
    if ltb v 26
    then b'A' + v
    else if ltb v 52
    then b'a' + (v - 26)
    else if ltb v 62
    then b'0' + (v - 52)
    else if v == 62
    then b'+'
    else b'/'

-- The four characters of 24 bits, the first bits first.
abbrev pub group : ℕ → Bytes
group v =
    letter (v / 2 ^ 18 % 64)
    ∷ letter (v / 2 ^ 12 % 64)
    ∷ letter (v / 2 ^ 6 % 64)
    ∷ letter (v % 64)
    ∷ []

-- The text of bytes, three of which are 24 bits; the ones that are missing are 0.
unfoldable pub base64_text : Bytes → Bytes
base64_text [] = []
base64_text (a ∷ []) = group (a * 2 ^ 16)
base64_text (a ∷ b ∷ []) = group (a * 2 ^ 16 + b * 2 ^ 8)
base64_text (a ∷ b ∷ c ∷ xs) = group (a * 2 ^ 16 + b * 2 ^ 8 + c) ++ base64_text xs

map-letter : map letter (count_from 0 64) ≡ base64_set
unfolding count_from
map-letter = refl

set-letter : (v : ℕ) → v < 64 → get_or base64_set v 0 ≡ letter v
unfolding count_from
set-letter v h =
    let index : get_or (count_from 0 64) v 0 ≡ v = get_or-count_from 0 64 v 0 h ∙ omega arith in
    ap (λ xs. get_or xs v 0) (sym map-letter)
    ∙ get_or-map letter (count_from 0 64) v 0 0 h
    ∙ ap letter index

quad-group :
    (a b c v : ℕ)
    → a < 256
    → b < 256
    → c < 256
    → v ≡ a * 2 ^ 16 + b * 2 ^ 8 + c
    → quad a b c ≡ group v
unfolding quad
quad-group a b c v ha hb hc e =
    let first : a / 4 % 64 ≡ v / 2 ^ 18 % 64 = omega arith in
    let second : (a * 16 + b / 16) % 64 ≡ v / 2 ^ 12 % 64 = omega arith in
    let third : (b * 4 + c / 64) % 64 ≡ v / 2 ^ 6 % 64 = omega arith in
    let fourth : c % 64 ≡ v % 64 = omega arith in
    rw
      (
        set-letter (a / 4 % 64) (omega arith),
        set-letter ((a * 16 + b / 16) % 64) (omega arith),
        set-letter ((b * 4 + c / 64) % 64) (omega arith),
        set-letter (c % 64) (omega arith),
        first,
        second,
        third,
        fourth,
      )
      refl

text_of-base64_text : (bytes : Bytes) → All IsByte bytes → text_of bytes ≡ base64_text bytes
unfolding text_of base64_text
text_of-base64_text [] small = refl
text_of-base64_text (a ∷ []) (ha, small) =
    quad-group a 0 0 (a * 2 ^ 16) ha (omega arith) (omega arith) (omega arith)
text_of-base64_text (a ∷ b ∷ []) (ha, (hb, small)) =
    quad-group a b 0 (a * 2 ^ 16 + b * 2 ^ 8) ha hb (omega arith) (omega arith)
text_of-base64_text (a ∷ b ∷ c ∷ xs) (ha, (hb, (hc, small))) =
    ap (λ ys. ys ++ text_of xs) (quad-group a b c (a * 2 ^ 16 + b * 2 ^ 8 + c) ha hb hc refl)
    ∙ ap (λ ys. group (a * 2 ^ 16 + b * 2 ^ 8 + c) ++ ys) (text_of-base64_text xs small)

-- `ci_base64_encode` of three bytes or more, into a buffer that holds the text and its NUL, ends
-- without an access out of bounds and stores the base64 text of RFC 4648: each six bits of the
-- bytes, in their order, as a letter, a digit, `+` or `/`. A last group of fewer than three bytes is
-- filled up with zero bytes, where the RFC has `=`.
pub base64_encode-base64_text :
    (bytes : Bytes) (outlen : ℕ)
    → 3 ≤ length bytes
    → length bytes < 2 ^ 64
    → All IsByte bytes
    → length (base64_text bytes) < outlen
    → outlen < 2 ^ 64
    → base64_encode bytes outlen ≡ encoded (base64_text bytes)
base64_encode-base64_text bytes outlen long small are room small' =
    let same = text_of-base64_text bytes are in
    let long_text = ap length same in
    base64_encode-text_of bytes outlen long small (omega arith) small' ∙ ap encoded same
