-- ===== src/Header/Ends.antt =====
-- The end of the text that `ci_headers_unpack` finds.
use c_icap_server.Common.{
  ℕ, zero, suc, ◌+◌, ◌≡◌, refl, sym, ap, ◌∙◌, Bool, true, false, not, ◌&&◌, List, [], ◌∷◌, ◌++◌,
  append_assoc, ◌==◌, length, get_or, get_or-append_add, Bytes, length-append, arith,
}
use c_icap_server.Header.{line_end}
use c_icap_server.Header.Lines.{body}
use c_icap_server.Header.Packing.{rows}
use c_icap_server.Header.Parsing.{is_end, is_blank, end_of_text}
use c_icap_server.Header.Scanning.{all_plain, is_line, are_lines, and_true}

plain_end : (c : ℕ) (b : Bool) → ((not (c == 0) && not (is_end c)) && b) ≡ true → is_end c ≡ false
plain_end c b e = let (q, _) = and_true (not (c == 0) && not (is_end c)) b e in ground arith

-- The last byte of a line.
line-last :
    (c : ℕ) (l : Bytes)
    → all_plain (c ∷ l) ≡ true
    → (f : Bytes) × (d : ℕ) × (c ∷ l ≡ f ++ (d ∷ [])) × (is_end d ≡ false)
line-last c [] p = ([], c, refl, plain_end c true p)
line-last c (b ∷ l) p =
    let (_, q) = and_true (not (c == 0) && not (is_end c)) (all_plain (b ∷ l)) p in
    let (f, d, e, n) = line-last b l q in (c ∷ f, d, ap (◌∷◌ c) e, n)

-- The text before its last line end.
pub rows-last :
    (l : Bytes) (ms : List Bytes) (r : Bytes)
    → is_line l ≡ true
    → are_lines ms ≡ true
    → (f : Bytes) × (c : ℕ) × (l ++ rows ms 13 r ≡ f ++ (c ∷ 13 ∷ 10 ∷ r))
      × (is_end c ≡ false)
      × (length f + 1 ≡ length l + length (body ms))
rows-last [] ms r p q = absurd (cc p)
rows-last (b ∷ l) [] r p q =
    let (_, p₁) = and_true (not (is_blank b)) (all_plain (b ∷ l)) p in
    let (f, c, e, n) = line-last b l p₁ in
    (
      f,
      c,
      ap (λ xs. xs ++ (13 ∷ 10 ∷ r)) e ∙ append_assoc f (c ∷ []) (13 ∷ 10 ∷ r),
      n,
      omega (arith, ap length e, length-append f (c ∷ [])),
    )
rows-last (b ∷ l) (m ∷ ms) r p q =
    let (q₁, q₂) = and_true (is_line m) (are_lines ms) q in
    let (f, c, e, n, k) = rows-last m ms r q₁ q₂ in
    let front = b ∷ l in
    (
      front ++ (13 ∷ 10 ∷ f),
      c,
      ap (λ xs. front ++ (13 ∷ 10 ∷ xs)) e
          ∙ sym (append_assoc front (13 ∷ 10 ∷ f) (c ∷ 13 ∷ 10 ∷ r)),
      n,
      omega (arith, length-append front (13 ∷ 10 ∷ f), k, length-append m (line_end ++ body ms)),
    )

end_of_text-stop :
    (buf : Bytes) (c n : ℕ)
    → get_or buf n 0 ≡ c
    → is_end c ≡ false
    → end_of_text buf (suc n) ≡ suc n
unfolding end_of_text
end_of_text-stop buf c zero e p = refl
end_of_text-stop buf c (suc n) e p = rw (e, p) refl

pub end_of_text-last :
    (buf f : Bytes) (c : ℕ) (r : Bytes) (n : ℕ)
    → buf ≡ f ++ (c ∷ 13 ∷ 10 ∷ r)
    → is_end c ≡ false
    → n ≡ length f + 3
    → end_of_text buf n ≡ length f + 1
unfolding end_of_text
end_of_text-last buf f c r zero e p k = absurd (omega arith)
end_of_text-last buf f c r (suc zero) e p k = absurd (omega arith)
end_of_text-last buf f c r (suc (suc zero)) e p k = absurd (omega arith)
end_of_text-last buf f c r (suc (suc (suc n))) e p k =
    let get = λ (j i : ℕ) (at : i ≡ length f + j).
      ap (λ xs. get_or xs i 0) e ∙ get_or-append_add f (c ∷ 13 ∷ 10 ∷ r) j i 0 at in
    rw (get 2 (suc (suc n)) (omega arith), get 1 (suc n) (omega arith))
      (end_of_text-stop buf c n (get 0 n (omega arith)) p ∙ omega arith)
