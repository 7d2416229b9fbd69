-- ===== src/Response/Hex.antt =====
-- The texts that `snprintf` makes of the conversions `%x` and `%d`, and how `strtol` reads the
-- first.
use native.Mathlib.Nat.{pow-succ'}
use c_icap_server.Common.{
  ℕ, zero, suc, ◌+◌, ◌*◌, ◌/◌, ◌%◌, ◌^◌, ◌<◌, ◌≡◌, inl, inr, refl, sym, ap, ◌∙◌, true, false, none,
  some, [], ◌∷◌, ◌++◌, ltb, ◌==◌, if◌then◌else◌, Bytes, Bool-cases, arith, strtol, hex_value,
  is_space, digit_in, digits, to_word, unsigned_number, signed_number, skip_prefix, skip_spaces,
}

abbrev pub hex_digit : ℕ → ℕ
hex_digit d = if ltb d 10 then 48 + d else 87 + d

-- The digits of `n` in front of `s`, for a number of up to `fuel` digits.
unfoldable pub hex_loop : ℕ → ℕ → Bytes → Bytes
hex_loop zero n s = s
hex_loop (suc fuel) n s =
    let more = hex_loop fuel (n / 16) (hex_digit (n % 16) ∷ s) in
    if ltb n 16 then hex_digit n ∷ s else more

-- `%x` of an `int`
unfoldable pub hex_text : ℕ → Bytes
unfolding hex_loop
hex_text n = hex_loop 8 n []

unfoldable pub decimal_loop : ℕ → ℕ → Bytes → Bytes
decimal_loop zero n s = s
decimal_loop (suc fuel) n s =
    let more = decimal_loop fuel (n / 10) ((48 + n % 10) ∷ s) in
    if ltb n 10 then (48 + n) ∷ s else more

-- `PRId64` of a number that is not negative
unfoldable pub decimal_text : ℕ → Bytes
unfolding decimal_loop
decimal_text n = decimal_loop 19 n []

hex_loop-append : (fuel n : ℕ) (s t : Bytes) → hex_loop fuel n s ++ t ≡ hex_loop fuel n (s ++ t)
unfolding hex_loop
hex_loop-append zero n s t = refl
hex_loop-append (suc fuel) n s t = elim (Bool-cases (ltb n 16)) [
  | inl e ↦ rw (hex_loop, e) refl
  | inr e ↦ rw (hex_loop, e) (hex_loop-append fuel (n / 16) (hex_digit (n % 16) ∷ s) t)
]

digit_in-hex_digit : (d : ℕ) → d < 16 → digit_in 16 (hex_digit d) ≡ some d
unfolding digit_in hex_value
digit_in-hex_digit d lt = elim (Bool-cases (ltb d 10)) [
  | inl e ↦ ground arith
  | inr e ↦ ground arith
]

digits-hex_digit :
    (acc d m : ℕ) (s : Bytes)
    → d < 16
    → m ≡ acc * 16 + d
    → digits 16 acc (hex_digit d ∷ s) ≡ digits 16 m s
unfolding digits
digits-hex_digit acc d m s lt e =
    rw (digits, digit_in-hex_digit d lt) (ap (λ k. digits 16 k s) (sym e))

-- Reading the digits of `n` comes to the number `n`.
digits-hex_loop :
    (fuel n : ℕ) (s : Bytes) → n < 16 ^ fuel → digits 16 0 (hex_loop fuel n s) ≡ digits 16 n s
unfolding hex_loop
digits-hex_loop zero n s lt = ap (λ k. digits 16 k s) (omega arith)
digits-hex_loop (suc fuel) n s lt = elim (Bool-cases (ltb n 16)) [
  | inl e ↦ rw (hex_loop, e) (digits-hex_digit 0 n n s (ground arith) (omega arith))
  | inr e ↦
      rw (hex_loop, e)
        (digits-hex_loop fuel (n / 16) (hex_digit (n % 16) ∷ s) (omega (arith, pow-succ' 16 fuel))
          ∙ digits-hex_digit (n / 16) (n % 16) n s (omega arith) (omega arith))
]

-- The text of a positive number starts with a digit other than 0.
hex_loop-starts :
    (fuel n : ℕ) (s : Bytes)
    → n < 16 ^ fuel
    → 0 < n
    → (d : ℕ) × (0 < d) × (d < 16) × (s' : Bytes) × (hex_loop fuel n s ≡ hex_digit d ∷ s')
unfolding hex_loop
hex_loop-starts zero n s lt pos = absurd (omega arith)
hex_loop-starts (suc fuel) n s lt pos = elim (Bool-cases (ltb n 16)) [
  | inl e ↦ (n, pos, ground arith, s, rw (hex_loop, e) refl)
  | inr e ↦
      let (d, low, high, s', same) =
        hex_loop-starts fuel (n / 16) (hex_digit (n % 16) ∷ s) (omega (arith, pow-succ' 16 fuel))
          (ground arith) in
      (d, low, high, s', rw (hex_loop, e) same)
]

hex_digit-gt : (d : ℕ) → 0 < d → d < 16 → 48 < hex_digit d
hex_digit-gt d pos lt = elim (Bool-cases (ltb d 10)) [ inl e ↦ ground arith | inr e ↦ ground arith ]

is_space-hex_digit : (c : ℕ) → 48 < c → is_space c ≡ false
unfolding is_space
is_space-hex_digit c lt = ground arith

skip_prefix-hex_digit :
    (d : ℕ) (s : Bytes) → 0 < d → d < 16 → skip_prefix 16 (hex_digit d ∷ s) ≡ hex_digit d ∷ s
unfolding skip_prefix
skip_prefix-hex_digit d [] pos lt = refl
skip_prefix-hex_digit d (x ∷ []) pos lt = refl
skip_prefix-hex_digit d (x ∷ y ∷ s) pos lt =
    let other : (hex_digit d == 48) ≡ false = ground (arith, hex_digit-gt d pos lt) in
    rw (skip_prefix, other) refl

strtol-digit :
    (d : ℕ) (s : Bytes)
    → 0 < d
    → d < 16
    → strtol 16 (hex_digit d ∷ s) ≡ some (to_word false (digits 16 d s).0, (digits 16 d s).1)
unfolding strtol skip_spaces is_space signed_number unsigned_number
strtol-digit d s pos lt =
    let above : 48 < hex_digit d = hex_digit-gt d pos lt in
    let dash : (hex_digit d == b'-') ≡ false = ground arith in
    let plus : (hex_digit d == b'+') ≡ false = ground arith in
    rw
      (
        strtol,
        skip_spaces,
        is_space-hex_digit (hex_digit d) above,
        signed_number,
        dash,
        plus,
        skip_prefix-hex_digit d s pos lt,
        unsigned_number,
        digit_in-hex_digit d lt,
      )
      refl

-- `strtol` reads back the number whose text `%x` has made, up to a character that is no digit.
pub strtol-hex_text :
    (n c : ℕ) (s : Bytes)
    → 0 < n
    → n < 16 ^ 8
    → digit_in 16 c ≡ none
    → strtol 16 (hex_text n ++ (c ∷ s)) ≡ some (n, c ∷ s)
unfolding hex_text digits to_word
strtol-hex_text n c s pos lt stop =
    let (d, low, high, s', same) = hex_loop-starts 8 n (c ∷ s) lt pos in
    let read : digits 16 d s' ≡ (n, c ∷ s) =
      sym (digits-hex_digit 0 d d s' high (omega arith))
      ∙ ap (digits 16 0) (sym same)
      ∙ digits-hex_loop 8 n (c ∷ s) lt
      ∙ rw (digits, stop) refl in
    let small : ltb n (2 ^ 63) ≡ true = ground arith in
    rw
      (
        hex_text,
        hex_loop-append 8 n [] (c ∷ s),
        same,
        strtol-digit d s' low high,
        read,
        to_word,
        small,
      )
      refl
