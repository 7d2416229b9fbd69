-- ===== src/Decode/Url/Decoding.antt =====
-- What the URL decoders compute: bounds, the round trip of percent-encoding, and the fault.
use c_icap_server.Common.{
  ℕ, zero, suc, ◌+◌, ◌-◌, ◌/◌, ◌%◌, ◌≤◌, ◌<◌, ◌≡◌, ◌≢◌, refl, ap, Bool, true, false, [], ◌∷◌, ◌++◌,
  ltb, ◌==◌, if◌then◌else◌, hex_value, length, Bytes, All, arith, subst,
}
use c_icap_server.Decode.Url.{strtol16, Decoded, decoded, fault, push, plain, url_loop, url_decoder}

-- A byte as `%XX`.
abbrev pub hex_digit : ℕ → ℕ
hex_digit v = if ltb v 10 then v + b'0' else v - 10 + b'A'

unfoldable pub escape : Bytes → Bytes
escape [] = []
escape (c ∷ s) = b'%' ∷ hex_digit (c / 16) ∷ hex_digit (c % 16) ∷ escape s

strtol16-hex_digit : (c : ℕ) → c < 256 → strtol16 (hex_digit (c / 16)) (hex_digit (c % 16)) ≡ c
unfolding strtol16 hex_value
strtol16-hex_digit c h = ground arith

url_loop-escape :
    (s rest : Bytes) (n : ℕ)
    → All (λ c. c < 256) s
    → length s < n
    → url_loop (escape s ++ 0 ∷ rest) n ≡ decoded s false
unfolding url_loop escape
url_loop-escape s rest zero h room = absurd (omega arith)
url_loop-escape [] [] (suc n) h room = refl
url_loop-escape [] (r ∷ []) (suc n) h room = refl
url_loop-escape [] (r ∷ q ∷ rest) (suc n) h room = refl
url_loop-escape (c ∷ s) rest (suc n) (hc, h) room =
    rw (strtol16-hex_digit c hc, url_loop-escape s rest n h (omega arith))

-- `url_decoder` turns percent-encoded bytes, ended by a NUL, back into the bytes, if the output has
-- the room.
pub url_decoder-escape :
    (s rest : Bytes) (output_len : ℕ)
    → All (λ c. c < 256) s
    → length s + 1 < output_len
    → url_decoder (escape s ++ 0 ∷ rest) output_len ≡ decoded s false
unfolding url_decoder
url_decoder-escape s rest zero h room = absurd (omega arith)
url_decoder-escape s rest (suc n) h room = url_loop-escape s rest n h (omega arith)

-- The characters stored, and that the flag means a full output.
abbrev Fits : Decoded → ℕ → Type 0
Fits (decoded out full) n = (length out ≤ n) × (full ≡ true → length out ≡ n)
Fits fault n = Unit

push-Fits : (c n : ℕ) (d : Decoded) → Fits d n → Fits (push c d) (suc n)
push-Fits c n (decoded out full) (le, at_end) = (omega arith, λ h. ap suc (at_end h))
push-Fits c n fault h = tt

if-Fits : (b : Bool) (n : ℕ) (d e : Decoded) → Fits d n → Fits e n → Fits (if b then d else e) n
if-Fits true n d e h k = h
if-Fits false n d e h k = k

empty-Fits : (n : ℕ) → Fits (decoded [] false) (suc n)
empty-Fits n = (omega arith, λ h. cc)

url_loop-Fits : (input : Bytes) (n : ℕ) → Fits (url_loop input n) n
unfolding url_loop
url_loop-Fits [] n = tt
url_loop-Fits (c ∷ []) zero = (omega arith, λ _. refl)
url_loop-Fits (c ∷ a ∷ input) zero = (omega arith, λ _. refl)
url_loop-Fits (c ∷ []) (suc n) = if-Fits (c == 0) (suc n) (decoded [] false) fault (empty-Fits n) tt
url_loop-Fits (c ∷ a ∷ []) (suc n) =
    let copied = push (plain c) (url_loop (a ∷ []) n) in
    if-Fits (c == 0) (suc n) (decoded [] false) (if c == b'%' then fault else copied) (empty-Fits n)
      (if-Fits (c == b'%') (suc n) fault copied tt
        (push-Fits (plain c) n (url_loop (a ∷ []) n) (url_loop-Fits (a ∷ []) n)))
url_loop-Fits (c ∷ a ∷ b ∷ input) (suc n) =
    let escaped = push (strtol16 a b) (url_loop input n) in
    let copied = push (plain c) (url_loop (a ∷ b ∷ input) n) in
    if-Fits (c == 0) (suc n) (decoded [] false) (if c == b'%' then escaped else copied)
      (empty-Fits n)
      (if-Fits (c == b'%') (suc n) escaped copied
        (push-Fits (strtol16 a b) n (url_loop input n) (url_loop-Fits input n))
        (push-Fits (plain c) n (url_loop (a ∷ b ∷ input) n) (url_loop-Fits (a ∷ b ∷ input) n)))

-- `url_decoder` stores fewer characters than `output_len`, and its result -1 means that it stored
-- as many as fit.
pub url_decoder-bound :
    (input out : Bytes) (output_len : ℕ) (full : Bool)
    → url_decoder input output_len ≡ decoded out full
    → (length out < output_len) × (full ≡ true → length out + 1 ≡ output_len)
unfolding url_decoder
url_decoder-bound input out zero full h = cc
url_decoder-bound input out (suc n) full h =
    let (le, at_end) = subst (λ d. Fits d n) h (url_loop-Fits input n) in
    (omega arith, λ e. omega (arith, at_end e))

url_loop_overrun :
    (s : Bytes) (n : ℕ)
    → All (λ c. (c ≢ 0) × (c ≢ b'%')) s
    → length s < n
    → url_loop (s ++ b'%' ∷ 0 ∷ []) n ≡ fault
unfolding url_loop
url_loop_overrun s zero h room = absurd (omega arith)
url_loop_overrun [] (suc n) h room = refl
url_loop_overrun (c ∷ []) (suc n) h room = ground (arith, url_loop_overrun [] n)
url_loop_overrun (c ∷ d ∷ []) (suc n) (h, hs) room = ground (arith, url_loop_overrun (d ∷ []) n hs)
url_loop_overrun (c ∷ d ∷ e ∷ s) (suc n) (h, hs) room =
    ground (arith, url_loop_overrun (d ∷ e ∷ s) n hs)

-- A `%` that ends the text makes `url_decoder` skip the NUL and read behind the buffer.
pub url_decoder_overrun :
    (s : Bytes) (output_len : ℕ)
    → All (λ c. (c ≢ 0) × (c ≢ b'%')) s
    → length s + 1 < output_len
    → url_decoder (s ++ b'%' ∷ 0 ∷ []) output_len ≡ fault
unfolding url_decoder
url_decoder_overrun s zero h room = absurd (omega arith)
url_decoder_overrun s (suc n) h room = url_loop_overrun s n h (omega arith)
