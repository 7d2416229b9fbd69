-- ===== src/Header/Search.antt =====
-- The search for a header by its name, and the line that it finds.
use c_icap_server.Common.{
  ℕ, suc, ◌+◌, ◌≤◌, ◌<◌, ◌≡◌, inl, inr, refl, sym, ap, ◌∙◌, Bool, true, false, ◌&&◌, Option, none,
  some, List, [], ◌∷◌, ◌++◌, append_assoc, All, ltb, ◌==◌, if◌then◌else◌, length, get_elem?,
  get_elem?-some, get_elem?-append_add, take, drop, drop-append_add, Bytes, slice, length-append,
  Bool-cases, arith,
}
use c_icap_server.Header.{
  Headers, done, line_end, empty_line, lower, same_name, find_header, headers_search,
}
use c_icap_server.Header.Lines.{body, offsets, IsHeaders, length-body}

-- A name: bytes without a NUL.
abbrev pub IsName : Bytes → Type 0
IsName = All (λ c. 1 ≤ c)

-- Whether a line has the name, without regard to case, and a colon behind it.
unfoldable pub has_name : Bytes → Bytes → Bool
has_name name [] = false
has_name [] (c ∷ l) = c == b':'
has_name (n ∷ name) (c ∷ l) = (lower c == lower n) && has_name name l

-- The first line with the name: its index and place, and the places behind it.
unfoldable pub found : Bytes → ℕ → ℕ → List Bytes → Option (ℕ × ℕ × List ℕ)
unfolding has_name
found name i pos [] = none
found name i pos (l ∷ ls) =
    let next = pos + length l + 2 in
    if has_name name l then some (i, pos, offsets next ls) else found name (suc i) next ls

and_swap : (a b c : Bool) → (a && (b && c)) ≡ (b && (a && c))
and_swap true b c = refl
and_swap false true c = refl
and_swap false false c = refl

lower-pos : (c : ℕ) → 1 ≤ c → 1 ≤ lower c
unfolding lower
lower-pos c h = ground arith

-- The test on the buffer is the test on the line, since the line ends with a NUL.
test-has_name :
    (name l zs : Bytes) (c : ℕ)
    → IsName name
    → get_elem? (l ++ (0 ∷ zs)) (length name) ≡ some c
    → ((c == b':') && same_name (take (length name) (l ++ (0 ∷ zs))) name) ≡ has_name name l
unfolding same_name has_name
test-has_name [] [] zs c h e = let f : 0 ≡ c = cc e in rw⁻¹ f refl
test-has_name [] (x ∷ l) zs c h e = let f : x ≡ c = cc e in rw f (ground arith)
test-has_name (n ∷ name) [] zs c (h, hs) e =
    let f : (lower 0 == lower n) ≡ false = ground (arith, lower-pos n h) in rw f (ground arith)
test-has_name (n ∷ name) (x ∷ l) zs c (h, hs) e =
    and_swap (c == b':') (lower x == lower n) (same_name (take (length name) (l ++ (0 ∷ zs))) name)
    ∙ ap (◌&&◌ (lower x == lower n)) (test-has_name name l zs c hs e)

has_name-short : (name l : Bytes) → length l ≤ length name → has_name name l ≡ false
unfolding has_name
has_name-short name [] h = refl
has_name-short [] (c ∷ l) h = absurd (omega arith)
has_name-short (n ∷ name) (c ∷ l) h = rw (has_name-short name l (omega arith)) (ground arith)

-- No line has a name that is longer than all of them.
found-short :
    (name : Bytes) (i pos : ℕ) (ls : List Bytes)
    → length (body ls) ≤ length name
    → found name i pos ls ≡ none
unfolding found
found-short name i pos [] h = refl
found-short name i pos (l ∷ ls) h =
    rw (has_name-short name l (omega (arith, length-body l ls)))
      (found-short name (suc i) (pos + length l + 2) ls (omega (arith, length-body l ls)))

-- The line that starts at the end of `pre`.
line_at :
    (buf pre l : Bytes) (ls : List Bytes) (r : Bytes)
    → buf ≡ pre ++ (body (l ∷ ls) ++ r)
    → buf ≡ pre ++ (l ++ (0 ∷ 10 ∷ (body ls ++ r)))
line_at buf pre l ls r e = e ∙ ap (λ xs. pre ++ xs) (append_assoc l (line_end ++ body ls) r)

next_line :
    (buf pre l : Bytes) (ls : List Bytes) (r : Bytes)
    → buf ≡ pre ++ (body (l ∷ ls) ++ r)
    → buf ≡ (pre ++ (l ++ line_end)) ++ (body ls ++ r)
next_line buf pre l ls r e =
    line_at buf pre l ls r e
    ∙ ap (λ xs. pre ++ xs) (sym (append_assoc l line_end (body ls ++ r)))
    ∙ sym (append_assoc pre (l ++ line_end) (body ls ++ r))

done_if {ℓ} :
    {A : Type ℓ} (b : Bool) (x y : A) → (if b then done x else done y) ≡ done (if b then x else y)
done_if true x y = refl
done_if false x y = refl

module _ (h : Headers) (name r : Bytes) (valid : IsName name)
    (more : h.bufused < length h.buf) where
  -- The loop, from the line on that starts at the end of `pre`.
  pub find_header-found :
      (i : ℕ) (pre : Bytes) (ls : List Bytes) (p : ℕ)
      → p ≡ length pre
      → h.buf ≡ pre ++ (body ls ++ r)
      → h.bufused ≡ length pre + length (body ls) + 2
      → find_header h name i (offsets p ls) ≡ done (found name i p ls)
  unfolding find_header found slice
  find_header-found i pre [] p at text used = refl
  find_header-found i pre (l ∷ ls) p at text used =
      let n = length name in
      let next = p + length l + 2 in
      let zs = 10 ∷ (body ls ++ r) in
      let front : length (pre ++ (l ++ line_end)) ≡ next =
        omega (arith, length-append pre (l ++ line_end), length-append l line_end) in
      let rest_ok =
        find_header-found (suc i) (pre ++ (l ++ line_end)) ls next (sym front)
          (next_line h.buf pre l ls r text) (omega (arith, length-body l ls)) in
      let here = line_at h.buf pre l ls r text in
      elim (Bool-cases (ltb h.bufused (p + n))) [
        | inl far ↦
            let none_ = found-short name i p (l ∷ ls) (ground arith) in rw far (ap done (sym none_))
        | inr near ↦
            let (c, e) = get_elem?-some h.buf (p + n) (ground arith) in
            let cell : get_elem? (l ++ (0 ∷ zs)) n ≡ some c =
              sym (get_elem?-append_add pre (l ++ (0 ∷ zs)) n (p + n) (omega arith))
              ∙ ap (λ xs. get_elem? xs (p + n)) (sym here)
              ∙ e in
            let piece : take n (drop p h.buf) ≡ take n (l ++ (0 ∷ zs)) =
              ap (λ xs. take n (drop p xs)) here
              ∙ ap (take n) (drop-append_add pre (l ++ (0 ∷ zs)) p 0 (omega arith)) in
            rw (near, e, piece, test-has_name name l zs c valid cell, rest_ok)
              (done_if (has_name name l) _ _)
      ]

-- The search on a list with these lines.
pub find_header-IsHeaders :
    (h : Headers) (name : Bytes) (ls : List Bytes)
    → IsHeaders h ls
    → IsName name
    → find_header h name 0 h.headers ≡ done (found name 0 0 ls)
unfolding find_header found
find_header-IsHeaders h name [] v valid = ap (find_header h name 0) v.index
find_header-IsHeaders h name (l ∷ ls) v valid =
    ap (find_header h name 0) v.index
    ∙ find_header-found h name (empty_line ++ v.rest) valid (omega (arith, v.spare, v.cells)) 0 []
        (l ∷ ls) 0 refl (v.text ∙ append_assoc (body (l ∷ ls)) empty_line v.rest)
        (omega (arith, v.used, length-append (body (l ∷ ls)) empty_line))

-- The place of the first line with the name.
unfoldable pub line_place : Bytes → ℕ → List Bytes → Option ℕ
unfolding has_name
line_place name pos [] = none
line_place name pos (l ∷ ls) =
    if has_name name l then some pos else line_place name (pos + length l + 2) ls

found-place :
    (name : Bytes) (i pos : ℕ) (ls : List Bytes)
    → (elim (found name i pos ls) [ none ↦ none | some (j, p, ps) ↦ some p ])
      ≡ line_place name pos ls
unfolding found line_place
found-place name i pos [] = refl
found-place name i pos (l ∷ ls) = elim (Bool-cases (has_name name l)) [
  | inl e ↦ rw e refl
  | inr e ↦ rw e (found-place name (suc i) (pos + length l + 2) ls)
]

-- `ci_headers_search` finds the first line with the name, wherever it is.
pub headers_search-line_place :
    (h : Headers) (ls : List Bytes) (name : Bytes)
    → IsHeaders h ls
    → IsName name
    → 1 ≤ length name
    → headers_search h name ≡ done (line_place name 0 ls)
unfolding headers_search
headers_search-line_place h ls name v valid some_ =
    let e : (length name == 0) ≡ false = ground arith in
    rw (e, find_header-IsHeaders h name ls v valid) (ap done (found-place name 0 0 ls))
