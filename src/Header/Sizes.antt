-- ===== src/Header/Sizes.antt =====
-- The size of a value, once the ends of lines behind it are passed over.
use c_icap_server.Common.{
  ℕ, zero, suc, ◌+◌, ◌-◌, ◌≤◌, ◌<◌, ◌≡◌, max, sym, ap, ◌∙◌, Bool, true, false, ◌&&◌, [], ◌∷◌, ◌++◌,
  append_assoc, ltb, length, get_or, get_or-append_add, take, drop, drop-append_add, take-append_le,
  take_all, Bytes, slice, length-append, arith,
}
use c_icap_server.Header.Scanning.{all_plain, and_true}
use c_icap_server.Header.Values.{is_terminator, value_end}
use c_icap_server.Header.Trimming.{value_end-terminators, value_end-stop, plain-last}

abbrev pub all_ends : Bytes → Bool
all_ends [] = true
all_ends (c ∷ l) = is_terminator c && all_ends l

all_ends-get :
    (es r : Bytes) (j : ℕ)
    → all_ends es ≡ true
    → j < length es
    → is_terminator (get_or (es ++ r) j 0) ≡ true
all_ends-get [] r j e less = absurd (omega arith)
all_ends-get (c ∷ es) r zero e less = (and_true (is_terminator c) (all_ends es) e).0
all_ends-get (c ∷ es) r (suc j) e less =
    all_ends-get es r j (and_true (is_terminator c) (all_ends es) e).1 (omega arith)

lt_irrefl : (n : ℕ) → ltb n n ≡ false
lt_irrefl n = ground arith

-- The size of a value `v` behind `pre`, with the ends of lines `es` behind it.
pub value_end-size :
    (buf pre v es r : Bytes) (start end : ℕ)
    → buf ≡ pre ++ (v ++ (es ++ r))
    → start ≡ length pre
    → suc end ≡ start + length v + length es
    → 1 ≤ length es
    → all_ends es ≡ true
    → all_plain v ≡ true
    → value_end buf start end - start + 1 ≡ max 1 (length v)
value_end-size buf pre v es r start end text at at_end some_ ends plain =
    let regroup : buf ≡ (pre ++ v) ++ (es ++ r) = text ∙ sym (append_assoc pre v (es ++ r)) in
    let front = length-append pre v in
    let behind = λ (i : ℕ) (above : start + length v ≤ i) (below : i ≤ end).
      ap (λ xs. is_terminator (get_or xs i 0)) regroup
      ∙ ap is_terminator
          (get_or-append_add (pre ++ v) (es ++ r) (i - length (pre ++ v)) i 0 (omega arith))
      ∙ all_ends-get es r (i - length (pre ++ v)) ends (omega arith) in
    trimmed v text plain front behind at_end
  where
    trimmed :
        (w : Bytes)
        → buf ≡ pre ++ (w ++ (es ++ r))
        → all_plain w ≡ true
        → length (pre ++ w) ≡ length pre + length w
        → ((i : ℕ) → start + length w ≤ i → i ≤ end → is_terminator (get_or buf i 0) ≡ true)
        → suc end ≡ start + length w + length es
        → value_end buf start end - start + 1 ≡ max 1 (length w)
    trimmed [] text' plain' front behind at_end' =
        let stop : (ltb start start && is_terminator (get_or buf start 0)) ≡ false =
          ap (λ b. b && is_terminator (get_or buf start 0)) (lt_irrefl start) in
        let same =
          value_end-terminators (end - start) buf start start end (omega arith) (omega arith)
            (λ i above below. behind i (omega arith) below)
          ∙ value_end-stop buf start start stop in
        omega (arith, same)
    trimmed (c ∷ w) text' plain' front behind at_end' =
        let (f, d, e, n) = plain-last c w plain' in
        let a = start + length w in
        let len : length (c ∷ w) ≡ length f + 1 = ap length e ∙ length-append f (d ∷ []) in
        let last : is_terminator (get_or buf a 0) ≡ false =
          ap (λ xs. is_terminator (get_or xs a 0))
            (text'
              ∙ ap (λ xs. pre ++ (xs ++ (es ++ r))) e
              ∙ ap (λ xs. pre ++ xs) (append_assoc f (d ∷ []) (es ++ r))
              ∙ sym (append_assoc pre f (d ∷ (es ++ r))))
          ∙ ap is_terminator (
              get_or-append_add (pre ++ f) (d ∷ (es ++ r)) 0 a 0
                (omega (arith, length-append pre f)))
          ∙ n in
        let stop : (ltb start a && is_terminator (get_or buf a 0)) ≡ false =
          rw last (ground arith) in
        let same =
          value_end-terminators (end - a) buf start a end (omega arith) (omega arith)
            (λ i above below. behind i (omega arith) below)
          ∙ value_end-stop buf start a stop in
        omega (arith, same)

pub slice_value :
    (buf : Bytes) (s : ℕ) (w front r : Bytes)
    → buf ≡ front ++ (w ++ r)
    → s ≡ length front
    → slice buf s (length w) ≡ w
unfolding slice
slice_value buf s w front r text at =
    ap (λ ys. take (length w) (drop s ys)) text
    ∙ ap (take (length w)) (drop-append_add front (w ++ r) s 0 (omega arith))
    ∙ take-append_le (length w) w r (omega arith)
    ∙ take_all (length w) w (omega arith)
