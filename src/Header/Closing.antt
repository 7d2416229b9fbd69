-- ===== src/Header/Closing.antt =====
-- The removal of a header at its place.
use c_icap_server.Common.{
  ℕ, zero, suc, ◌+◌, ◌-◌, ◌≤◌, ◌≡◌, refl, sym, ap, ◌∙◌, true, List, [], ◌∷◌, ◌++◌, append_assoc,
  map, leb, length, set, take, drop, take-append_le, take_all, Bytes, length-append, length-set,
  arith,
}
use c_icap_server.Header.{
  Headers, Checked, done, assertion, fault, ◌>>=◌, line_end, empty_line, headers_terminate,
  remove_at,
}
use c_icap_server.Header.Lines.{
  body, text_of, offsets, IsHeaders, body-append, length-body, offsets-append, length-offsets,
}
use c_icap_server.Header.Appending.{headers_terminate-IsHeaders}

set_two :
    (xs ys : Bytes) (p q a b : ℕ)
    → p ≡ length xs
    → q ≡ suc p
    → 2 ≤ length ys
    → set (set (xs ++ ys) p a) q b ≡ xs ++ (a ∷ b ∷ drop 2 ys)
set_two [] (y ∷ z ∷ ys) p q a b e f h =
    let (e₁, f₁) : (p ≡ 0) × (q ≡ 1) = (omega arith, omega arith) in rw (e₁, f₁) refl
set_two [] [] p q a b e f h = absurd (omega arith)
set_two [] (y ∷ []) p q a b e f h = absurd (omega arith)
set_two (x ∷ xs) ys zero q a b e f h = absurd (omega arith)
set_two (x ∷ xs) ys (suc p) zero a b e f h = absurd (omega arith)
set_two (x ∷ xs) ys (suc p) (suc q) a b e f h =
    ap (◌∷◌ x) (set_two xs ys p q a b (omega arith) (omega arith) h)

pub map-offsets : (d p : ℕ) (ls : List Bytes) → map (λ x. x - d) (offsets (p + d) ls) ≡ offsets p ls
map-offsets d p [] = refl
map-offsets d p (l ∷ ls) =
    ap (λ q. q ∷ map (λ x. x - d) (offsets (p + d + length l + 2) ls)) (omega arith)
    ∙ ap (λ q. p ∷ map (λ x. x - d) (offsets q ls)) (omega arith)
    ∙ ap (◌∷◌ p) (map-offsets d (p + length l + 2) ls)

pub text_of-mid :
    (bs : List Bytes) (l : Bytes) (cs : List Bytes)
    → text_of (bs ++ (l ∷ cs)) ≡ body bs ++ (l ++ (line_end ++ body cs)) ++ empty_line
text_of-mid [] l cs = refl
text_of-mid (b ∷ bs) l cs = ap (λ xs. xs ++ empty_line) (body-append (b ∷ bs) (l ∷ cs))

pub length-text_of_mid :
    (bs : List Bytes) (l : Bytes) (cs : List Bytes)
    → length (text_of (bs ++ (l ∷ cs))) ≡ length (body bs) + length l + 2 + length (body cs) + 2
length-text_of_mid bs l cs =
    ap length (text_of-mid bs l cs)
    ∙ omega (
      arith,
      length-append (body bs ++ body (l ∷ cs)) empty_line,
      length-append (body bs) (body (l ∷ cs)),
      length-body l cs,
    )

-- A list with lines, and one between them.
module _ (h : Headers) (bs : List Bytes) (l : Bytes) (cs : List Bytes) (p q : ℕ)
    (v : IsHeaders h (bs ++ (l ∷ cs))) (at : p ≡ length (body bs))
    (at_next : q ≡ p + length l + 2) where
  -- The buffer from the line on.
  pub around : h.buf ≡ body bs ++ (l ++ (line_end ++ (body cs ++ (empty_line ++ v.rest))))
  around =
      v.text
      ∙ ap (λ xs. xs ++ v.rest) (text_of-mid bs l cs)
      ∙ append_assoc (body bs ++ body (l ∷ cs)) empty_line v.rest
      ∙ append_assoc (body bs) (body (l ∷ cs)) (empty_line ++ v.rest)
      ∙ ap (λ xs. body bs ++ xs) (append_assoc l (line_end ++ body cs) (empty_line ++ v.rest))

  pub used_all : h.bufused ≡ length (body bs) + length l + 2 + length (body cs) + 2
  used_all = v.used ∙ length-text_of_mid bs l cs

  pub fits_all : h.bufused ≤ h.bufsize
  fits_all =
      omega
        (arith, v.used, v.cells, ap length v.text, length-append (text_of (bs ++ (l ∷ cs))) v.rest)

  pub index_before : take (length bs) h.headers ≡ offsets 0 bs
  index_before =
      ap (take (length bs)) (v.index ∙ offsets-append 0 bs (l ∷ cs))
      ∙ take-append_le (length bs) (offsets 0 bs) (offsets (0 + length (body bs)) (l ∷ cs))
          (omega (arith, length-offsets 0 bs))
      ∙ take_all (length bs) (offsets 0 bs) (omega (arith, length-offsets 0 bs))

  pub index_length : length h.headers ≡ length bs + suc (length cs)
  index_length = ap length v.index ∙ length-offsets 0 (bs ++ (l ∷ cs)) ∙ length-append bs (l ∷ cs)

-- A result that is a list with these lines.
abbrev pub Comes : List Bytes → Checked Headers → Type 0
Comes ls (done h) = IsHeaders h ls
Comes ls assertion = ⊥
Comes ls fault = ⊥

-- The list after its last line went, before it is terminated.
cut : Headers → ℕ → ℕ → Headers
cut h i p = record h {
  buf = set (set h.buf p 13) (p + 1) 10;
  bufused = p + 2;
  headers = take i h.headers;
}

cut-Comes :
    (h : Headers) (bs : List Bytes) (l : Bytes) (p : ℕ)
    → IsHeaders h (bs ++ (l ∷ []))
    → p ≡ length (body bs)
    → Comes bs (headers_terminate (cut h (length bs) p))
unfolding cut
cut-Comes h [] l p v at =
    unfold headers_terminate in
    record {
      rest = set (set h.buf p 13) (p + 1) 10;
      text = refl;
      used = refl;
      index = refl;
      cells = length-set (set h.buf p 13) (p + 1) 10 ∙ length-set h.buf p 13 ∙ v.cells;
      room = omega arith;
      spare = omega (arith, v.spare, v.used, length-text_of_mid [] l []);
      edit = v.edit;
    }
cut-Comes h (b ∷ bs) l p v at =
    let ls = b ∷ bs in
    let behind = l ++ (line_end ++ (empty_line ++ v.rest)) in
    let ok : IsHeaders (cut h (length ls) p) ls = record {
      rest = drop 2 behind;
      text =
          ap (λ xs. set (set xs p 13) (p + 1) 10) (around h ls l [] p (p + length l + 2) v at refl)
          ∙ set_two (body ls) behind p (p + 1) 13 10 at (omega arith)
              (omega (arith, length-append l (line_end ++ (empty_line ++ v.rest))))
          ∙ sym (append_assoc (body ls) empty_line (drop 2 behind));
      used = omega (arith, length-append (body ls) empty_line);
      index = index_before h ls l [] p (p + length l + 2) v at refl;
      cells = length-set (set h.buf p 13) (p + 1) 10 ∙ length-set h.buf p 13 ∙ v.cells;
      room = omega (
        arith,
        v.room,
        index_length h ls l [] p (p + length l + 2) v at refl,
        ap length (index_before h ls l [] p (p + length l + 2) v at refl),
        length-offsets 0 ls,
      );
      spare = omega (arith, v.spare, used_all h ls l [] p (p + length l + 2) v at refl);
      edit = v.edit;
    } in
    rw (headers_terminate-IsHeaders (cut h (length ls) p) ls ok) ok

pub remove_last-Comes :
    (h : Headers) (bs : List Bytes) (l : Bytes) (p : ℕ)
    → IsHeaders h (bs ++ (l ∷ []))
    → p ≡ length (body bs)
    → Comes bs (remove_at h (length bs) p [] >>= headers_terminate)
unfolding remove_at
remove_last-Comes h bs l p v at =
    let fits : leb (p + 2) h.bufsize ≡ true = ground (
      arith,
      used_all h bs l [] p (p + length l + 2) v at refl,
      fits_all h bs l [] p (p + length l + 2) v at refl,
    ) in
    rw fits (unfold cut in cut-Comes h bs l p v at)
