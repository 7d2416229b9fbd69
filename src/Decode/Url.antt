-- ===== src/Decode/Url.antt =====
-- decode.c, `url_decoder` and `url_decoder2`. A C string is the list of its cells, the NUL
-- included; a read behind the last cell is a fault.
pub mod Decoding
use c_icap_server.Common.{
  ℕ, zero, suc, ◌+◌, ◌-◌, ◌*◌, ◌%◌, Bool, true, false, ◌&&◌, ◌||◌, Option, none, some, List, [],
  ◌∷◌, ◌++◌, ltb, leb, ◌==◌, if◌then◌else◌, length, Bytes, get_elem?, hex_value, is_space, set,
  ◌>>=◌,
}

-- The digit that `strtol` finds in a text of one character, or 0.
unfoldable pub one_digit : ℕ → ℕ
unfolding hex_value
one_digit c = elim (hex_value c) [ none ↦ 0 | some v ↦ v ]

-- `(char) strtol(str, NULL, 16)` at a text of two characters, as a byte: a space and a sign are
-- skipped, and the first character that is no digit ends the number.
unfoldable pub strtol16 : ℕ → ℕ → ℕ
unfolding hex_value is_space one_digit
strtol16 a b = elim (hex_value a) [
  | some v ↦ elim (hex_value b) [ none ↦ v | some w ↦ v * 16 + w ]
  | none ↦
      if is_space a || (a == b'+')
      then one_digit b
      else if a == b'-'
      then (256 - one_digit b) % 256
      else 0
]

-- What a decoder stores in `output` before its NUL, and whether it stopped because of the length.
pub data Decoded : Type 0 where
  decoded : Bytes → Bool → Decoded
  fault : Decoded

abbrev pub push : ℕ → Decoded → Decoded
push c (decoded out full) = decoded (c ∷ out) full
push c fault = fault

abbrev pub plain : ℕ → ℕ
plain c = if c == b'+' then b' ' else c

-- The loop of `url_decoder` from a position on, with `room` for more characters: `output_len - 1`
-- less those stored. An escape reads two cells and skips them, whatever they hold.
unfoldable pub url_loop : Bytes → ℕ → Decoded
url_loop [] room = fault
url_loop (c ∷ input) zero = decoded [] true
url_loop (c ∷ []) (suc room) = if c == 0 then decoded [] false else fault
url_loop (c ∷ a ∷ []) (suc room) =
    if c == 0
    then decoded [] false
    else if c == b'%'
    then fault
    else push (plain c) (url_loop (a ∷ []) room)
url_loop (c ∷ a ∷ b ∷ input) (suc room) =
    let escaped = push (strtol16 a b) (url_loop input room) in
    let copied = push (plain c) (url_loop (a ∷ b ∷ input) room) in
    if c == 0 then decoded [] false else if c == b'%' then escaped else copied

-- `url_decoder`: the result -1 is the flag of `decoded`, and the other result its length.
unfoldable pub url_decoder : Bytes → ℕ → Decoded
unfolding url_loop strtol16
url_decoder input zero = fault
url_decoder input (suc room) = url_loop input room

-- `url_decoder2` overwrites its input. The buffer, the place of its NUL, which is the result, or a
-- fault; `none` means that the fuel ran out.
pub data Overwritten : Type 0 where
  overwritten : Bytes → ℕ → Overwritten
  fault : Overwritten

-- The character that an escape at `i` stands for.
unfoldable pub escape_at : Bytes → ℕ → Option ℕ
escape_at buf i = do a ← get_elem? buf (i + 1); b ← get_elem? buf (i + 2); some (strtol16 a b)

-- What a round stores for the character `c` at `i`, and where the next round reads.
unfoldable pub decode_at : Bytes → ℕ → ℕ → Option (ℕ × ℕ)
unfolding escape_at
decode_at buf i c =
    if c == b'%' then (escape_at buf i >>= λ v. some (v, i + 3)) else some (plain c, i + 1)

unfoldable pub decoder2_loop : ℕ → Bytes → ℕ → ℕ → Option Overwritten
unfolding decode_at
decoder2_loop zero buf i k = none
decoder2_loop (suc fuel) buf i k = elim (get_elem? buf i) [
  | none ↦ some Overwritten.fault
  | some zero ↦ some (overwritten (set buf k 0) k)
  | some (suc c) ↦ elim (decode_at buf i (suc c)) [
    | none ↦ some Overwritten.fault
    | some (v, next) ↦ decoder2_loop fuel (set buf k v) next (k + 1)
  ]
]

unfoldable pub url_decoder2 : Bytes → Option Overwritten
unfolding decoder2_loop strtol16
url_decoder2 buf = decoder2_loop (suc (length buf)) buf 0 0
