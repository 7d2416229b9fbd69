-- ===== src/Decode/Base64/Encoding.antt =====
-- What `ci_base64_encode` writes.
use c_icap_server.Common.{
  ℕ, zero, suc, ◌+◌, ◌^◌, ◌≤◌, ◌<◌, ◌≡◌, refl, sym, ap, ◌∙◌, true, false, ◌&&◌, some, [], ◌∷◌, ◌++◌,
  ltb, length, get_elem?, get_or, get_or-append_add, get_elem?-append_add, Bytes, ◌>>=◌,
  length-append, append_assoc, append-nil, arith,
}
use c_icap_server.Decode.Base64.{
  quad, encoded, fault, below_by, put_quad, put_nul, encode_rest, encode_step, encode_loop,
  base64_encode,
}

-- base64 as a function of the bytes alone: a last group is filled up with zero bytes.
unfoldable pub text_of : Bytes → Bytes
text_of [] = []
text_of (a ∷ []) = quad a 0 0
text_of (a ∷ b ∷ []) = quad a b 0
text_of (a ∷ b ∷ c ∷ xs) = quad a b c ++ text_of xs

-- `put_quad` and `put_nul` in a buffer that has the place.
put_quad_fits :
    (outlen : ℕ) (out : Bytes) (a b c : ℕ)
    → length out + 4 ≤ outlen
    → put_quad outlen out a b c ≡ some (out ++ quad a b c)
unfolding put_quad
put_quad_fits outlen out a b c h = ground arith

put_nul_fits : (outlen : ℕ) (out : Bytes) → length out < outlen → put_nul outlen out ≡ encoded out
unfolding put_nul
put_nul_fits outlen out h = ground arith

length-quad : (out : Bytes) (a b c : ℕ) → length (out ++ quad a b c) ≡ length out + 4
unfolding quad
length-quad out a b c = length-append out (quad a b c)

-- The group behind the loop.
encode_rest-group :
    (bytes out : Bytes) (outlen i a b c : ℕ)
    → outlen < 2 ^ 64
    → i < length bytes
    → length out + 4 < outlen
    → get_or bytes i 0 ≡ a
    → get_or bytes (i + 1) 0 ≡ b
    → get_or bytes (i + 2) 0 ≡ c
    → encode_rest bytes outlen i out ≡ encoded (out ++ quad a b c)
unfolding encode_rest
encode_rest-group bytes out outlen i a b c small inside room ea eb ec =
    let lt : length out < below_by outlen 4 = omega arith in
    rw (ea, eb, ec, put_quad_fits outlen out a b c (omega arith))
      (ground (arith, put_nul_fits outlen (out ++ quad a b c), length-quad out a b c))

encode_loop_end :
    (fuel : ℕ) (bytes out : Bytes) (outlen i : ℕ)
    → 3 ≤ length bytes
    → length bytes < 2 ^ 64
    → length bytes ≤ i + 3
    → encode_loop (suc fuel) bytes outlen i out ≡ encode_rest bytes outlen i out
unfolding encode_loop
encode_loop_end fuel bytes out outlen i three_ small late =
    let no_more : ltb i (below_by (length bytes) 3) ≡ false = ground arith in rw no_more

encode_loop_next :
    (fuel : ℕ) (bytes out : Bytes) (outlen i a b c : ℕ)
    → length bytes < 2 ^ 64
    → outlen < 2 ^ 64
    → i + 3 < length bytes
    → length out + 4 < outlen
    → get_elem? bytes i ≡ some a
    → get_elem? bytes (i + 1) ≡ some b
    → get_elem? bytes (i + 2) ≡ some c
    → encode_loop (suc fuel) bytes outlen i out
      ≡ encode_loop fuel bytes outlen (i + 3) (out ++ quad a b c)
unfolding encode_loop encode_step
encode_loop_next fuel bytes out outlen i a b c small small' early room ea eb ec =
    let go : (ltb i (below_by (length bytes) 3) && ltb (length out) (below_by outlen 4)) ≡ true =
      ground arith in
    let h = put_quad_fits outlen out a b c (omega arith) in rw (go, ea, eb, ec, ◌>>=◌, h)

-- The last one, two or three bytes are the group behind the loop.
encode_loop_group :
    (f : ℕ) (pre t out : Bytes) (outlen i : ℕ)
    → i ≡ length pre
    → 3 ≤ length (pre ++ t)
    → length (pre ++ t) < 2 ^ 64
    → outlen < 2 ^ 64
    → 0 < length t
    → length t ≤ 3
    → length out + 4 < outlen
    → encode_loop (suc f) (pre ++ t) outlen i out
      ≡ encoded (out ++ quad (get_or t 0 0) (get_or t 1 0) (get_or t 2 0))
encode_loop_group f pre t out outlen i e long small small' pos short room =
    let len = length-append pre t in
    encode_loop_end f (pre ++ t) out outlen i long small (omega (arith, len))
    ∙ encode_rest-group (pre ++ t) out outlen i (get_or t 0 0) (get_or t 1 0) (get_or t 2 0) small'
        (omega (arith, len)) room (get_or-append_add pre t 0 i 0 (omega arith))
        (get_or-append_add pre t 1 (i + 1) 0 (omega arith))
        (get_or-append_add pre t 2 (i + 2) 0 (omega arith))

encode_loop_done :
    (f : ℕ) (pre out : Bytes) (outlen i : ℕ)
    → i ≡ length pre
    → 3 ≤ length pre
    → length pre < 2 ^ 64
    → length out < outlen
    → encode_loop (suc f) pre outlen i out ≡ encoded out
unfolding encode_rest
encode_loop_done f pre out outlen i e long small room =
    encode_loop_end f pre out outlen i long small (omega arith)
    ∙ ground (arith, put_nul_fits outlen out room)

quad_four : (a b c : ℕ) → length (quad a b c) ≡ 4
unfolding quad
quad_four a b c = refl

quad_four_more : (a b c : ℕ) (ys : Bytes) → length (quad a b c ++ ys) ≡ length ys + 4
unfolding quad
quad_four_more a b c ys = omega arith

encode_loop-text_of :
    (fuel : ℕ) (pre xs out : Bytes) (outlen i : ℕ)
    → i ≡ length pre
    → 3 ≤ length (pre ++ xs)
    → length (pre ++ xs) < 2 ^ 64
    → outlen < 2 ^ 64
    → length xs < fuel
    → length out + length (text_of xs) < outlen
    → encode_loop fuel (pre ++ xs) outlen i out ≡ encoded (out ++ text_of xs)
unfolding text_of
encode_loop-text_of zero pre xs out outlen i e long small small' fuel room = absurd (omega arith)
encode_loop-text_of (suc f) pre [] out outlen i e long small small' fuel room =
    let same = append-nil pre in
    rw (same, append-nil out)
      (encode_loop_done f pre out outlen i e (rw same at long) (rw same at small) (omega arith))
encode_loop-text_of (suc f) pre (a ∷ []) out outlen i e long small small' fuel room =
    encode_loop_group f pre (a ∷ []) out outlen i e long small small' (omega arith) (omega arith)
      (omega (arith, quad_four a 0 0))
encode_loop-text_of (suc f) pre (a ∷ b ∷ []) out outlen i e long small small' fuel room =
    encode_loop_group f pre (a ∷ b ∷ []) out outlen i e long small small' (omega arith)
      (omega arith) (omega (arith, quad_four a b 0))
encode_loop-text_of (suc f) pre (a ∷ b ∷ c ∷ []) out outlen i e long small small' fuel room =
    encode_loop_group f pre (a ∷ b ∷ c ∷ []) out outlen i e long small small' (omega arith)
      (omega arith) (omega (arith, quad_four_more a b c []))
    ∙ ap (λ ys. encoded (out ++ ys)) (sym (append-nil (quad a b c)))
encode_loop-text_of (suc f) pre (a ∷ b ∷ c ∷ d ∷ xs) out outlen i e long small small' fuel room =
    let t = a ∷ b ∷ c ∷ d ∷ xs in
    let len = length-append pre t in
    let shift : (pre ++ a ∷ b ∷ c ∷ []) ++ d ∷ xs ≡ pre ++ t =
      append_assoc pre (a ∷ b ∷ c ∷ []) (d ∷ xs) in
    encode_loop_next f (pre ++ t) out outlen i a b c small small' (omega (arith, len))
      (omega (arith, quad_four_more a b c (text_of (d ∷ xs))))
      (get_elem?-append_add pre t 0 i (omega arith))
      (get_elem?-append_add pre t 1 (i + 1) (omega arith))
      (get_elem?-append_add pre t 2 (i + 2) (omega arith))
    ∙ ap (λ ys. encode_loop f ys outlen (i + 3) (out ++ quad a b c)) (sym shift)
    ∙ encode_loop-text_of f (pre ++ a ∷ b ∷ c ∷ []) (d ∷ xs) (out ++ quad a b c) outlen (i + 3)
        (omega (arith, length-append pre (a ∷ b ∷ c ∷ []))) (rw shift long) (rw shift small) small'
        (omega arith)
        (omega (arith, length-quad out a b c, quad_four_more a b c (text_of (d ∷ xs))))
    ∙ ap encoded (append_assoc out (quad a b c) (text_of (d ∷ xs)))

-- `ci_base64_encode` of three bytes or more, into a buffer that holds the text and its NUL, ends
-- without an access out of bounds and stores the base64 text, with zero bytes in the place of
-- missing ones.
pub base64_encode-text_of :
    (bytes : Bytes) (outlen : ℕ)
    → 3 ≤ length bytes
    → length bytes < 2 ^ 64
    → length (text_of bytes) < outlen
    → outlen < 2 ^ 64
    → base64_encode bytes outlen ≡ encoded (text_of bytes)
unfolding base64_encode
base64_encode-text_of bytes outlen long small room small' =
    encode_loop-text_of (suc (length bytes)) [] bytes [] outlen 0 refl long small small'
      (omega arith) (omega arith)

-- With one or two bytes, or none, and room for a group, `ci_base64_encode` reads behind its data:
-- `len - 3` wraps around, and the loop does not stop.
pub base64_encode_short :
    (bytes : Bytes) (outlen : ℕ)
    → length bytes < 3
    → 4 < outlen
    → outlen < 2 ^ 64
    → base64_encode bytes outlen ≡ fault
unfolding base64_encode encode_loop encode_step
base64_encode_short [] outlen short room small =
    let go : ltb 0 (below_by outlen 4) ≡ true = ground arith in rw go
base64_encode_short (a ∷ []) outlen short room small =
    let go : ltb 0 (below_by outlen 4) ≡ true = ground arith in rw go
base64_encode_short (a ∷ b ∷ []) outlen short room small =
    let go : ltb 0 (below_by outlen 4) ≡ true = ground arith in rw go
base64_encode_short (a ∷ b ∷ c ∷ xs) outlen short room small = absurd (omega arith)
