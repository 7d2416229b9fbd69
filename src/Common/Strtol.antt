-- ===== src/Common/Strtol.antt =====
-- The functions of the C library that the parsers call: `isspace` and `strtol`. A text is the list
-- of the bytes that follow; its end stops a number as a NUL does, and `strtol_open` says whether a
-- text without a NUL ends too early.
use Prim.Native.Nat.{ℕ, ◌+◌, ◌-◌, ◌*◌, ◌%◌, ◌^◌}
use mathlib.Core.Path.{◌≡◌, refl, ap, ◌∙◌}
use mathlib.Core.Bool.{Bool, true, false, ◌&&◌, ◌||◌}
use mathlib.Core.List.{[], ◌∷◌}
use mathlib.Core.Option.{Option, none, some}
use c_icap_server.Common.Tests.{ltb, leb, ◌==◌, if◌then◌else◌, Bytes}

-- The value of a hexadecimal digit.
unfoldable pub hex_value : ℕ → Option ℕ
hex_value c =
    if leb b'0' c && leb c b'9'
    then some (c - b'0')
    else if leb b'A' c && leb c b'F'
    then some (c - b'A' + 10)
    else if leb b'a' c && leb c b'f'
    then some (c - b'a' + 10)
    else none

unfoldable pub is_space : ℕ → Bool
is_space c = (c == b' ') || (leb 9 c && leb c 13)

unfoldable pub skip_spaces : Bytes → Bytes
unfolding is_space
skip_spaces [] = []
skip_spaces (c ∷ s) = if is_space c then skip_spaces s else c ∷ s

-- The digit of a character in a base.
unfoldable pub digit_in : ℕ → ℕ → Option ℕ
unfolding hex_value
digit_in base c = elim (hex_value c) [ none ↦ none | some v ↦ if ltb v base then some v else none ]

-- A number that digits spell behind `acc`, and the text behind it.
unfoldable pub digits : ℕ → ℕ → Bytes → ℕ × Bytes
unfolding digit_in
digits base acc [] = (acc, [])
digits base acc (c ∷ s) = elim (digit_in base c) [
  | none ↦ (acc, c ∷ s)
  | some v ↦ digits base (acc * base + v) s
]

-- A `long` as its bit pattern; what does not fit becomes the largest or the least one.
unfoldable pub to_word : Bool → ℕ → ℕ
to_word true m = (2 ^ 64 - (if ltb (2 ^ 63) m then 2 ^ 63 else m)) % 2 ^ 64
to_word false m = if ltb m (2 ^ 63) then m else 2 ^ 63 - 1

unfoldable pub unsigned_number : ℕ → Bool → Bytes → Option (ℕ × Bytes)
unfolding digits digit_in to_word
unsigned_number base neg [] = none
unsigned_number base neg (c ∷ s) = elim (digit_in base c) [
  | none ↦ none
  | some v ↦ let (m, rest) = digits base v s in some (to_word neg m, rest)
]

-- `0x` in front of a hexadecimal digit is skipped.
unfoldable pub skip_prefix : ℕ → Bytes → Bytes
unfolding hex_value
skip_prefix base (z ∷ x ∷ d ∷ s) =
    if (base == 16)
      && ((z == b'0')
          && (((x == b'x') || (x == b'X')) && elim (hex_value d) [ none ↦ false | some v ↦ true ]))
    then d ∷ s
    else z ∷ x ∷ d ∷ s
skip_prefix base s = s

unfoldable pub signed_number : ℕ → Bytes → Option (ℕ × Bytes)
unfolding unsigned_number skip_prefix
signed_number base [] = none
signed_number base (c ∷ s) =
    if c == b'-'
    then unsigned_number base true (skip_prefix base s)
    else if c == b'+'
    then unsigned_number base false (skip_prefix base s)
    else unsigned_number base false (skip_prefix base (c ∷ s))

-- `strtol`: the bit pattern of its result, and the text behind the number; `none` if there is no
-- number, when the result is 0 and nothing is passed over.
unfoldable pub strtol : ℕ → Bytes → Option (ℕ × Bytes)
unfolding signed_number skip_spaces
strtol base s = signed_number base (skip_spaces s)

abbrev skip_sign : Bytes → Bytes
skip_sign [] = []
skip_sign (c ∷ s) = if (c == b'-') || (c == b'+') then s else c ∷ s

-- `0x` and nothing behind it.
abbrev bare_prefix : ℕ → Bytes → Bool
bare_prefix base (z ∷ x ∷ []) = (base == 16) && ((z == b'0') && ((x == b'x') || (x == b'X')))
bare_prefix base _ = false

-- Whether the text in front of a rest ends before the number does.
abbrev open_number : ℕ → Bytes → Option (ℕ × Bytes) → Bool
open_number base [] none = true
open_number base (c ∷ s) none = false
open_number base s (some (v, [])) = true
open_number base s (some (v, x ∷ [])) = bare_prefix base s
open_number base s (some (v, c ∷ d ∷ rest)) = false

-- Whether `strtol` reads on behind the end of a text that no NUL follows: the text ends in the
-- spaces, the sign, the prefix or the digits.
unfoldable pub strtol_open : ℕ → Bytes → Bool
unfolding strtol skip_spaces
strtol_open base s = open_number base (skip_sign (skip_spaces s)) (strtol base s)

-- A number with two characters behind it ends.
pub strtol_open-some :
    (base : ℕ) (s : Bytes) (v c d : ℕ) (rest : Bytes)
    → strtol base s ≡ some (v, c ∷ d ∷ rest)
    → strtol_open base s ≡ false
unfolding strtol_open
strtol_open-some base s v c d rest e =
    ap (open_number base (skip_sign (skip_spaces s))) e ∙ ends (skip_sign (skip_spaces s))
  where
    ends : (t : Bytes) → open_number base t (some (v, c ∷ d ∷ rest)) ≡ false
    ends [] = refl
    ends (x ∷ t) = refl
