-- ===== src/Header/Lines.antt =====
-- What a list of headers in edit mode holds: its lines, one after the other.
use c_icap_server.Common.{
  ℕ, suc, ◌+◌, ◌≤◌, ◌<◌, ◌≡◌, refl, sym, ap, ◌∙◌, false, List, [], ◌∷◌, ◌++◌, append_assoc,
  append-nil, length, take, drop, Bytes, memcpy, length-append, take-append_add, drop-append_add,
  arith,
}
use c_icap_server.Header.{Headers, line_end, empty_line}

-- The lines, each with its end.
abbrev pub body : List Bytes → Bytes
body [] = []
body (l ∷ ls) = l ++ (line_end ++ body ls)

-- The used bytes.
abbrev pub text_of : List Bytes → Bytes
text_of [] = []
text_of (l ∷ ls) = body (l ∷ ls) ++ empty_line

-- Where the lines start, if the first one starts at `pos`.
abbrev pub offsets : ℕ → List Bytes → List ℕ
offsets pos [] = []
offsets pos (l ∷ ls) = pos ∷ offsets (pos + length l + 2) ls

-- A list of headers in edit mode with these lines.
pub record IsHeaders (h : Headers) (ls : List Bytes) : Type 0 where
  pub rest : Bytes
  pub text : h.buf ≡ text_of ls ++ rest
  pub used : h.bufused ≡ length (text_of ls)
  pub index : h.headers ≡ offsets 0 ls
  pub cells : length h.buf ≡ h.bufsize
  pub room : length h.headers ≤ h.size
  pub spare : h.bufused < h.bufsize
  pub edit : h.packed ≡ false

pub memcpy-append :
    (xs ys bytes : Bytes) (pos : ℕ)
    → pos ≡ length xs
    → memcpy (xs ++ ys) pos bytes ≡ xs ++ (bytes ++ drop (length bytes) ys)
unfolding memcpy
memcpy-append xs ys bytes pos e =
    let front : take pos (xs ++ ys) ≡ xs =
      take-append_add xs ys pos 0 (omega arith) ∙ append-nil xs in
    let behind : drop (pos + length bytes) (xs ++ ys) ≡ drop (length bytes) ys =
      drop-append_add xs ys (pos + length bytes) (length bytes) (omega arith) in
    ap (λ zs. zs ++ (bytes ++ drop (pos + length bytes) (xs ++ ys))) front
    ∙ ap (λ zs. xs ++ (bytes ++ zs)) behind

pub body-append : (ls ms : List Bytes) → body (ls ++ ms) ≡ body ls ++ body ms
body-append [] ms = refl
body-append (l ∷ ls) ms =
    ap (λ xs. l ++ (line_end ++ xs)) (body-append ls ms)
    ∙ sym (append_assoc l (line_end ++ body ls) (body ms))

pub length-body :
    (l : Bytes) (ls : List Bytes) → length (body (l ∷ ls)) ≡ length l + 2 + length (body ls)
length-body l ls = omega (arith, length-append l (line_end ++ body ls))

pub offsets-append :
    (pos : ℕ) (ls ms : List Bytes)
    → offsets pos (ls ++ ms) ≡ offsets pos ls ++ offsets (pos + length (body ls)) ms
offsets-append pos [] ms = ap (λ p. offsets p ms) (omega arith)
offsets-append pos (l ∷ ls) ms = ap (◌∷◌ pos) (
    offsets-append (pos + length l + 2) ls ms
    ∙ ap (λ p. offsets (pos + length l + 2) ls ++ offsets p ms) (omega (arith, length-body l ls)))

pub length-offsets : (pos : ℕ) (ls : List Bytes) → length (offsets pos ls) ≡ length ls
length-offsets pos [] = refl
length-offsets pos (l ∷ ls) = ap suc (length-offsets (pos + length l + 2) ls)

pub text_of-cons :
    (ls : List Bytes) (l : Bytes) → text_of (ls ++ (l ∷ [])) ≡ body (ls ++ (l ∷ [])) ++ empty_line
text_of-cons [] l = refl
text_of-cons (m ∷ ls) l = refl

-- The lines end with the end of a header.
pub body-end : (l : Bytes) (ls : List Bytes) → (f : Bytes) × (body (l ∷ ls) ≡ f ++ line_end)
body-end l [] = (l, refl)
body-end l (m ∷ ls) =
    let (f, e) = body-end m ls in
    (
      l ++ (line_end ++ f),
      ap (λ xs. l ++ (line_end ++ xs)) e ∙ sym (append_assoc l (line_end ++ f) line_end),
    )

pub length-text_of : (ls : List Bytes) → length (body ls) ≤ length (text_of ls)
length-text_of [] = omega arith
length-text_of (l ∷ ls) = omega (arith, length-append (body (l ∷ ls)) empty_line)
