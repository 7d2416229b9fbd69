-- ===== src/Header/Valued.antt =====
-- `ci_headers_value2` gives the value of the first header with the name.
use c_icap_server.Common.{
  ℕ, suc, inl, inr, ◌+◌, ◌-◌, ◌≤◌, ◌≡◌, max, refl, sym, ap, ◌∙◌, subst, Bool, true, false, ◌&&◌,
  Option, none, some, List, [], ◌∷◌, ◌++◌, append_assoc, ltb, ◌==◌, if◌then◌else◌, length, drop,
  Bytes, slice, length-append, Bool-cases, arith,
}
use c_icap_server.Header.{Headers, Checked, done, fault, empty_line}
use c_icap_server.Header.Lines.{body, offsets, IsHeaders}
use c_icap_server.Header.Search.{IsName, has_name, find_header-IsHeaders}
use c_icap_server.Header.Removal.{any_name, first_named, found-Split, found-none}
use c_icap_server.Header.Closing.{around, used_all}
use c_icap_server.Header.Scanning.{all_plain, and_true}
use c_icap_server.Header.Values.{value_start, value_end, header_end, value_at, headers_value2}
use c_icap_server.Header.Trimming.{
  drop_spaces, drop_spaces-split, drop_spaces-head, value_start-spaces, all_plain-drop,
  all_plain-drop_spaces, has_name-split,
}
use c_icap_server.Header.Sizes.{all_ends, value_end-size, slice_value}

-- What is found of a value: its place and its size, which is 1 for an empty one.
abbrev pub Value : Headers → Option Bytes → Checked (Option (ℕ × ℕ)) → Type 0
Value h none r = r ≡ done none
Value h (some v) r =
    (p : ℕ) × (r ≡ done (some (p, max 1 (length v)))) × (slice h.buf p (length v) ≡ v)

-- The value of a line with the name.
abbrev pub value_of : Bytes → Bytes → Bytes
value_of name l = drop_spaces (drop (suc (length name)) l)

-- A line with the name between others, in a list.
module _ (h : Headers) (name : Bytes) (bs : List Bytes) (l : Bytes) (cs : List Bytes) (p q : ℕ)
    (v : IsHeaders h (bs ++ (l ∷ cs))) (at : p ≡ length (body bs)) (at_next : q ≡ p + length l + 2)
    (named : has_name name l ≡ true) (plain : all_plain l ≡ true) where
  -- The ends of lines behind the value, up to the end of the header.
  ends : List Bytes → Bytes
  ends [] = 0 ∷ 10 ∷ 13 ∷ 10 ∷ []
  ends (m ∷ ms) = 0 ∷ 10 ∷ []

  behind : List Bytes → Bytes
  behind [] = v.rest
  behind (m ∷ ms) = body (m ∷ ms) ++ (empty_line ++ v.rest)

  ends-behind :
      (ms : List Bytes) → 0 ∷ 10 ∷ (body ms ++ (empty_line ++ v.rest)) ≡ ends ms ++ behind ms
  unfolding ends behind
  ends-behind [] = refl
  ends-behind (m ∷ ms) = refl

  all_ends-ends : (ms : List Bytes) → (all_ends (ends ms) ≡ true) × (2 ≤ length (ends ms))
  unfolding ends
  all_ends-ends [] = (refl, omega arith)
  all_ends-ends (m ∷ ms) = (refl, omega arith)

  header_end-ends :
      (ms : List Bytes)
      → h.bufused ≡ p + length l + 2 + length (body ms) + 2
      → suc (header_end h (offsets q ms)) ≡ p + length l + length (ends ms)
  unfolding ends header_end
  header_end-ends [] used = omega arith
  header_end-ends (m ∷ ms) used = omega arith

  value_at-Value :
      Value h (some (value_of name l)) (value_at h (p + length name + 1) (offsets q cs))
  unfolding value_at
  value_at-Value =
      let n = length name in
      let t = drop (suc n) l in
      let (k, e, lk) = has_name-split name l named in
      let (sp, f, spaces) = drop_spaces-split t in
      let w = drop_spaces t in
      let zs = 10 ∷ (body cs ++ (empty_line ++ v.rest)) in
      let (c, xs, g, solid) = drop_spaces-head t zs in
      let pre = body bs ++ (k ++ (b':' ∷ [])) in
      let start = p + n + 1 + length sp in
      let end = header_end h (offsets q cs) in
      let len_pre : length pre ≡ p + n + 1 =
        omega (arith, length-append (body bs) (k ++ (b':' ∷ [])), length-append k (b':' ∷ [])) in
      let len_l : length l ≡ n + 1 + length sp + length w =
        ap length e ∙ length-append k (b':' ∷ t) ∙ omega (arith, ap length f, length-append sp w) in
      let text : h.buf ≡ pre ++ (sp ++ (w ++ (0 ∷ zs))) =
        around h bs l cs p q v at at_next
        ∙ ap (λ ys. body bs ++ (ys ++ (0 ∷ zs))) (e ∙ sym (append_assoc k (b':' ∷ []) t))
        ∙ ap (λ ys. body bs ++ ys) (append_assoc (k ++ (b':' ∷ [])) t (0 ∷ zs))
        ∙ sym (append_assoc (body bs) (k ++ (b':' ∷ [])) (t ++ (0 ∷ zs)))
        ∙ ap (λ ys. pre ++ ys) (ap (λ ys. ys ++ (0 ∷ zs)) f ∙ append_assoc sp w (0 ∷ zs)) in
      let used : h.bufused ≡ p + length l + 2 + length (body cs) + 2 =
        used_all h bs l cs p q v at at_next ∙ omega arith in
      let starts : value_start (suc h.bufused) h (p + n + 1) ≡ some start =
        value_start-spaces sp (suc h.bufused) h pre c xs (p + n + 1)
          (text ∙ ap (λ ys. pre ++ (sp ++ ys)) g) (sym len_pre) spaces solid (omega arith)
          (omega arith) in
      let (all_, some_) = all_ends-ends cs in
      let text' : h.buf ≡ (pre ++ sp) ++ (w ++ (ends cs ++ behind cs)) =
        text
        ∙ ap (λ ys. pre ++ (sp ++ (w ++ ys))) (ends-behind cs)
        ∙ sym (append_assoc pre sp (w ++ (ends cs ++ behind cs))) in
      let at_start : start ≡ length (pre ++ sp) = omega (arith, length-append pre sp) in
      let at_end = header_end-ends cs used in
      let size : value_end h.buf start end - start + 1 ≡ max 1 (length w) =
        value_end-size h.buf (pre ++ sp) w (ends cs) (behind cs) start end text' at_start
          (omega arith) (omega arith) all_
          (all_plain-drop_spaces t (all_plain-drop (suc n) l plain)) in
      let before : ltb end start ≡ false = ground arith in
      (
        start,
        ap
              (λ o. elim o [
                | none ↦ fault
                | some s ↦
                    if ltb (header_end h (offsets q cs)) s
                    then done none
                    else done (some (s, value_end h.buf s (header_end h (offsets q cs)) - s + 1))
              ])
              starts
            ∙ ap
                (λ b.
                  if b
                  then done none
                  else done (some (start, value_end h.buf start end - start + 1)))
                before
            ∙ ap (λ i. done (some (start, i))) size,
        slice_value h.buf start w (pre ++ sp) (ends cs ++ behind cs) text' at_start,
      )

abbrev pub plain_lines : List Bytes → Bool
plain_lines [] = true
plain_lines (l ∷ ls) = all_plain l && plain_lines ls

plain_lines-mid :
    (bs : List Bytes) (l : Bytes) (cs : List Bytes)
    → plain_lines (bs ++ (l ∷ cs)) ≡ true
    → all_plain l ≡ true
plain_lines-mid [] l cs e = (and_true (all_plain l) (plain_lines cs) e).0
plain_lines-mid (b ∷ bs) l cs e =
    plain_lines-mid bs l cs (and_true (all_plain b) (plain_lines (bs ++ (l ∷ cs))) e).1

abbrev pub some_value : Bytes → Option Bytes → Option Bytes
some_value name none = none
some_value name (some l) = some (value_of name l)

-- `ci_headers_value2`, on a list of headers in edit mode whose lines hold no NUL, carriage return
-- or line feed, with a name that is not empty and holds no NUL, reads inside the buffer and
-- returns the place of the value of the first line that has the name: of what stands behind the
-- colon and the spaces and tabs after it. The size is the value's, or 1 for an empty value. If no
-- line has the name, it returns NULL.
pub headers_value2-Value :
    (h : Headers) (ls : List Bytes) (name : Bytes)
    → IsHeaders h ls
    → IsName name
    → 1 ≤ length name
    → plain_lines ls ≡ true
    → Value h (some_value name (first_named name ls)) (headers_value2 h name)
unfolding headers_value2
headers_value2-Value h ls name v valid some_ plain =
    let test : (length name == 0) ≡ false = ground arith in
    let search_ = find_header-IsHeaders h name ls v valid in
    elim (Bool-cases (any_name name ls)) [
      | inl e ↦
          let s = found-Split name 0 0 ls e in
          let w = subst (IsHeaders h) s.all v in
          let line_plain =
            plain_lines-mid s.before s.line s.behind (ap plain_lines (sym s.all) ∙ plain) in
          rw (test, search_, s.found_, s.first)
            (value_at-Value h name s.before s.line s.behind s.place s.next w
              (omega (arith, s.at_place)) s.at_next s.named line_plain)
      | inr e ↦ let (f, _, g) = found-none name 0 0 ls e in rw (test, search_, f, g) refl
    ]
