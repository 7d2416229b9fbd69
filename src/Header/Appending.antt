-- ===== src/Header/Appending.antt =====
-- `headers_terminate`, `ci_headers_add` and `ci_headers_addheaders` on a list in edit mode.
use c_icap_server.Common.{
  ℕ, ◌+◌, ◌-◌, ◌≤◌, ◌≡◌, inl, inr, refl, sym, ap, ◌∙◌, Bool, true, false, Option, none, some, List,
  [], ◌∷◌, ◌++◌, append_assoc, leb, ◌==◌, length, get_or, drop, Bytes, memcpy, length-append,
  length-memcpy, get_or-append_add, Allocator, Bool-cases, arith,
}
use c_icap_server.Header.{
  Headers, Checked, done, assertion, fault, line_end, empty_line, headers_check_space, back,
  ends_well, headers_terminate, append_place, put_line, headers_add,
}
use c_icap_server.Header.Lines.{
  body, text_of, offsets, IsHeaders, memcpy-append, body-append, length-body, offsets-append,
  text_of-cons, body-end, length-text_of,
}
use c_icap_server.Header.Editing.{Spaced, headers_check_space-Checks}
use c_icap_server.Header.Shortage.{NoSpace, headers_check_space-NoSpace}

back-get :
    (h : Headers) (f ys : Bytes) (k j : ℕ)
    → h.buf ≡ f ++ ys
    → h.bufused - k ≡ length f + j
    → back h k ≡ get_or ys j 0
back-get h f ys k j e le =
    ap (λ xs. get_or xs (h.bufused - k) 0) e ∙ get_or-append_add f ys j (h.bufused - k) 0 le

-- The last bytes that are used.
pub back-IsHeaders :
    (h : Headers) (l : Bytes) (ls : List Bytes)
    → IsHeaders h (l ∷ ls)
    → (4 ≤ h.bufused) × (back h 1 ≡ 10) × (back h 2 ≡ 13) × (back h 3 ≡ 10) × (back h 4 ≡ 0)
back-IsHeaders h l ls v =
    let (f, e) = body-end l ls in
    let ys = 0 ∷ 10 ∷ 13 ∷ 10 ∷ v.rest in
    let text : h.buf ≡ f ++ ys =
      v.text
      ∙ ap (λ xs. (xs ++ empty_line) ++ v.rest) e
      ∙ append_assoc (f ++ line_end) empty_line v.rest
      ∙ append_assoc f line_end (empty_line ++ v.rest) in
    let used : h.bufused ≡ length f + 4 =
      v.used
      ∙ ap (λ xs. length (xs ++ empty_line)) e
      ∙ omega (arith, length-append (f ++ line_end) empty_line, length-append f line_end) in
    (
      omega arith,
      back-get h f ys 1 3 text (omega arith),
      back-get h f ys 2 2 text (omega arith),
      back-get h f ys 3 1 text (omega arith),
      back-get h f ys 4 0 text (omega arith),
    )

ends_well-IsHeaders :
    (h : Headers) (l : Bytes) (ls : List Bytes) → IsHeaders h (l ∷ ls) → ends_well h ≡ true
unfolding ends_well
ends_well-IsHeaders h l ls v =
    let (more, one, two, three, four) = back-IsHeaders h l ls v in ground arith

-- There is nothing to do for `headers_terminate`.
pub headers_terminate-IsHeaders :
    (h : Headers) (ls : List Bytes) → IsHeaders h ls → headers_terminate h ≡ done h
unfolding headers_terminate
headers_terminate-IsHeaders h [] v =
    let e : (length h.headers == 0) ≡ true = ap (λ ps. length ps == 0) v.index in
    rw e (ap (λ n. done (record h { bufused = n })) (sym v.used))
headers_terminate-IsHeaders h (l ∷ ls) v =
    let e : (length h.headers == 0) ≡ false = ap (λ ps. length ps == 0) v.index ∙ ground arith in
    rw (e, ends_well-IsHeaders h l ls v) refl

-- The place of a new header is the end of the lines.
pub append_place-IsHeaders :
    (h : Headers) (ls : List Bytes) → IsHeaders h ls → append_place h ≡ done (length (body ls))
unfolding append_place
append_place-IsHeaders h [] v =
    let e : (length h.headers == 0) ≡ true = ap (λ ps. length ps == 0) v.index in
    rw (e, v.used) refl
append_place-IsHeaders h (l ∷ ls) v =
    let e : (length h.headers == 0) ≡ false = ap (λ ps. length ps == 0) v.index ∙ ground arith in
    let used : h.bufused ≡ length (body (l ∷ ls)) + 2 =
      v.used ∙ length-append (body (l ∷ ls)) empty_line in
    let more : leb 4 h.bufused ≡ true = ground (arith, length-body l ls) in
    rw (e, more) (ap done (omega arith))

-- The buffer holds the lines, and something behind them.
pub body-buf :
    (h : Headers) (ls : List Bytes) → IsHeaders h ls → (r : Bytes) × (h.buf ≡ body ls ++ r)
body-buf h [] v = (v.rest, v.text)
body-buf h (l ∷ ls) v =
    (empty_line ++ v.rest, v.text ∙ append_assoc (body (l ∷ ls)) empty_line v.rest)

-- What an addition of a line comes to; without one there is the reason `Why`.
abbrev pub Added : Type 0 → List Bytes → Bytes → Checked (Headers × Option ℕ) → Type 0
Added Why ls line (done (h, none)) = IsHeaders h ls × Why
Added Why ls line (done (h, some p)) = IsHeaders h (ls ++ (line ∷ [])) × (p ≡ length (body ls))
Added Why ls line assertion = ⊥
Added Why ls line fault = ⊥

text_of-add :
    (ls : List Bytes) (line : Bytes)
    → text_of (ls ++ (line ∷ [])) ≡ (body ls ++ line) ++ (line_end ++ empty_line)
text_of-add ls line =
    text_of-cons ls line
    ∙ ap (λ xs. xs ++ empty_line) (body-append ls (line ∷ []))
    ∙ append_assoc (body ls) (line ++ line_end) empty_line
    ∙ ap (λ xs. body ls ++ xs) (append_assoc line line_end empty_line)
    ∙ sym (append_assoc (body ls) line (line_end ++ empty_line))

-- The buffer after the two writes.
written :
    (ls : List Bytes) (line buf r : Bytes)
    → buf ≡ body ls ++ r
    → memcpy
        (memcpy buf (length (body ls)) line)
        (length (body ls) + length line)
        (line_end ++ empty_line)
      ≡ text_of (ls ++ (line ∷ [])) ++ drop 4 (drop (length line) r)
written ls line buf r e =
    let n = length (body ls) in
    let tail_ = drop (length line) r in
    let ends = line_end ++ empty_line in
    ap (λ xs. memcpy (memcpy xs n line) (n + length line) ends) e
    ∙ ap (λ xs. memcpy xs (n + length line) ends)
        (memcpy-append (body ls) r line n refl ∙ sym (append_assoc (body ls) line tail_))
    ∙ memcpy-append (body ls ++ line) tail_ ends (n + length line)
        (sym (length-append (body ls) line))
    ∙ sym (append_assoc (body ls ++ line) ends (drop 4 tail_))
    ∙ ap (λ xs. xs ++ drop 4 tail_) (sym (text_of-add ls line))

cells_kept :
    (buf : Bytes) (n : ℕ) (line : Bytes)
    → n + length line + 4 ≤ length buf
    → length (memcpy (memcpy buf n line) (n + length line) (line_end ++ empty_line)) ≡ length buf
cells_kept buf n line h =
    length-memcpy (memcpy buf n line) (n + length line) (line_end ++ empty_line)
      (omega (arith, length-memcpy buf n line (omega arith)))
    ∙ length-memcpy buf n line (omega arith)

put_line-Added :
    (Why : Type 0) (h : Headers) (ls : List Bytes) (line : Bytes)
    → Spaced h ls 1 (length line + 2)
    → Added Why ls line (put_line h line (length (body ls)))
unfolding put_line
put_line-Added Why h ls line s =
    let v = s.valid in
    let (r, text) = body-buf h ls v in
    let n = length (body ls) in
    let fits : n + length line + 4 ≤ h.bufsize = omega (arith, s.fits, v.used, length-text_of ls) in
    let ok : leb (n + length line + 4) h.bufsize ≡ true = ground arith in
    rw ok (
      record {
        rest = drop 4 (drop (length line) r);
        text = written ls line h.buf r text;
        used = omega (
          arith,
          ap length (text_of-cons ls line),
          length-append (body (ls ++ (line ∷ []))) empty_line,
          ap length (body-append ls (line ∷ [])),
          length-append (body ls) (body (line ∷ [])),
          length-body line [],
        );
        index =
            ap (λ ps. ps ++ (n ∷ [])) v.index
            ∙ sym (
                offsets-append 0 ls (line ∷ []) ∙ ap (λ p. offsets 0 ls ++ (p ∷ [])) (omega arith));
        cells = cells_kept h.buf n line (omega (arith, v.cells)) ∙ v.cells;
        room = omega (arith, length-append h.headers (n ∷ []), s.index_fits);
        spare = omega (arith, s.fits, v.used, length-text_of ls);
        edit = v.edit;
      },
      refl,
    )

-- `ci_headers_add` puts the line behind the others and returns its place. It returns NULL, and
-- leaves the lines, only when there is no space: the index or the buffer has to grow and is not
-- allocated, or the index comes to its limit.
pub headers_add-Added :
    (a : Allocator) (room : Bool) (h : Headers) (ls : List Bytes) (line : Bytes)
    → IsHeaders h ls
    → Added (NoSpace a room h 1 (length line + 2)) ls line (headers_add a room h line)
unfolding headers_add
headers_add-Added a room h ls line v =
    let k = length line + 2 in
    let c = headers_check_space-Checks a room h ls 1 k v in
    let h₁ = (headers_check_space a room h 1 k).0 in
    elim (Bool-cases (headers_check_space a room h 1 k).1) [
      | inl e ↦
          let s = c.1 e in
          rw
            (
              v.edit,
              e,
              headers_terminate-IsHeaders h₁ ls s.valid,
              append_place-IsHeaders h₁ ls s.valid,
            )
            (put_line-Added (NoSpace a room h 1 k) h₁ ls line s)
      | inr e ↦ rw (v.edit, e) (c.0, headers_check_space-NoSpace a room h ls 1 k v e)
    ]
