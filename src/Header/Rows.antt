-- ===== src/Header/Rows.antt =====
-- The loop that `ci_headers_pack` and `ci_headers_pack_to_buffer` share.
use c_icap_server.Common.{
  ℕ, ◌+◌, ◌-◌, ◌<◌, ◌≡◌, refl, sym, ap, ◌∙◌, true, ◌&&◌, List, [], ◌∷◌, ◌++◌, append_assoc, ltb,
  leb, length, get_or-append_add, set-append_add, Bytes, length-append, arith,
}
use c_icap_server.Header.{done, ◌>>=◌, line_end, empty_line}
use c_icap_server.Header.Lines.{body, text_of, offsets}
use c_icap_server.Header.Packing.{
  pack_before, pack_lines, pack_end, pack_text, wire, rows, rows-wire,
}

pack_before-append :
    (pre ys : Bytes) (p : ℕ)
    → p ≡ length pre + 2
    → pack_before (pre ++ (0 ∷ 10 ∷ ys)) p ≡ pre ++ (13 ∷ 10 ∷ ys)
unfolding pack_before
pack_before-append pre ys p e =
    let zs = 0 ∷ 10 ∷ ys in
    let two : leb 2 p ≡ true = ground arith in
    rw
      (
        get_or-append_add pre zs 1 (p - 1) 0 (omega arith),
        get_or-append_add pre zs 0 (p - 2) 0 (omega arith),
        two,
      )
      (set-append_add pre zs 0 (p - 2) 13 (omega arith))

pack_lines-rows :
    (used : ℕ) (pre : Bytes) (ls : List Bytes) (r : Bytes) (p : ℕ)
    → p ≡ length pre + 2
    → p + length (body ls) < used
    → pack_lines used (pre ++ (0 ∷ 10 ∷ (body ls ++ r))) (offsets p ls) ≡ done (pre ++ rows ls 0 r)
unfolding pack_lines
pack_lines-rows used pre [] r p e le = refl
pack_lines-rows used pre (l ∷ ls) r p e le =
    let pre₁ = pre ++ (13 ∷ 10 ∷ l) in
    let inside : (ltb p used && leb 1 p) ≡ true = ground arith in
    let split_ : pre ++ (13 ∷ 10 ∷ (body (l ∷ ls) ++ r)) ≡ pre₁ ++ (0 ∷ 10 ∷ (body ls ++ r)) =
      ap (λ xs. pre ++ (13 ∷ 10 ∷ xs)) (append_assoc l (line_end ++ body ls) r)
      ∙ sym (append_assoc pre (13 ∷ 10 ∷ l) (0 ∷ 10 ∷ (body ls ++ r))) in
    rw (inside, pack_before-append pre (body (l ∷ ls) ++ r) p e)
      (ap (λ xs. pack_lines used xs (offsets (p + length l + 2) ls)) split_
        ∙ pack_lines-rows used pre₁ ls r (p + length l + 2)
            (omega (arith, length-append pre (13 ∷ 10 ∷ l)))
            (omega (arith, length-append l (line_end ++ body ls)))
        ∙ ap done (append_assoc pre (13 ∷ 10 ∷ l) (rows ls 0 r)))

-- The end of the rows, whose first byte is set.
pub rows-end :
    (ls : List Bytes) (c : ℕ) (r : Bytes)
    → (f : Bytes) × (rows ls c r ≡ f ++ (c ∷ 10 ∷ r))
      × (rows ls 13 r ≡ f ++ (13 ∷ 10 ∷ r))
      × (length f ≡ length (body ls))
rows-end [] c r = ([], refl, refl, refl)
rows-end (l ∷ ls) c r =
    let (f, e, g, k) = rows-end ls c r in
    let front = 13 ∷ 10 ∷ l in
    (
      front ++ f,
      ap (λ xs. front ++ xs) e ∙ sym (append_assoc front f (c ∷ 10 ∷ r)),
      ap (λ xs. front ++ xs) g ∙ sym (append_assoc front f (13 ∷ 10 ∷ r)),
      omega (arith, length-append l f, k, length-append l (line_end ++ body ls)),
    )

pack_end-rows :
    (used : ℕ) (pre : Bytes) (ls : List Bytes) (r : Bytes)
    → used ≡ length pre + length (body ls) + 4
    → pack_end used (pre ++ rows ls 0 (13 ∷ 10 ∷ r)) ≡ done (pre ++ rows ls 13 (13 ∷ 10 ∷ r))
unfolding pack_end
pack_end-rows used pre ls r e =
    let (f, g, k, n) = rows-end ls 0 (13 ∷ 10 ∷ r) in
    let zs = 0 ∷ 10 ∷ 13 ∷ 10 ∷ r in
    let regroup : pre ++ rows ls 0 (13 ∷ 10 ∷ r) ≡ (pre ++ f) ++ zs =
      ap (λ xs. pre ++ xs) g ∙ sym (append_assoc pre f zs) in
    let len = length-append pre f in
    let four : leb 4 used ≡ true = ground arith in
    rw
      (
        regroup,
        four,
        get_or-append_add (pre ++ f) zs 3 (used - 1) 0 (omega (arith, len, n)),
        get_or-append_add (pre ++ f) zs 2 (used - 2) 0 (omega (arith, len, n)),
        get_or-append_add (pre ++ f) zs 1 (used - 3) 0 (omega (arith, len, n)),
      )
      (ap done (
        set-append_add (pre ++ f) zs 0 (used - 4) 13 (omega (arith, len, n))
        ∙ append_assoc pre f (13 ∷ 10 ∷ 13 ∷ 10 ∷ r)
        ∙ ap (λ xs. pre ++ xs) (sym k)))

pub pack_text-wire :
    (used : ℕ) (l : Bytes) (ls : List Bytes) (r : Bytes)
    → used ≡ length (text_of (l ∷ ls))
    → pack_text used (text_of (l ∷ ls) ++ r) (offsets 0 (l ∷ ls))
      ≡ done ((wire (l ∷ ls) ++ empty_line) ++ r)
unfolding pack_text
pack_text-wire used l ls r e =
    let ends = 13 ∷ 10 ∷ r in
    let regroup : text_of (l ∷ ls) ++ r ≡ l ++ (0 ∷ 10 ∷ (body ls ++ ends)) =
      append_assoc (body (l ∷ ls)) empty_line r ∙ append_assoc l (line_end ++ body ls) ends in
    let used_ : used ≡ length l + length (body ls) + 4 =
      e
      ∙ omega (
        arith,
        length-append (body (l ∷ ls)) empty_line,
        length-append l (line_end ++ body ls),
      ) in
    ap (λ xs. pack_lines used xs (offsets (0 + length l + 2) ls) >>= pack_end used) regroup
    ∙ ap (λ c. c >>= pack_end used)
        (pack_lines-rows used l ls ends (0 + length l + 2) (omega arith) (omega arith))
    ∙ pack_end-rows used l ls r used_
    ∙ ap done (rows-wire l ls ends ∙ sym (append_assoc (wire (l ∷ ls)) empty_line r))
