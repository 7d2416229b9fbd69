-- ===== src/Header/Joining.antt =====
-- `ci_headers_addheaders`: the headers of a list behind those of another.
use c_icap_server.Common.{
  ℕ, suc, ◌+◌, ◌≤◌, ◌≡◌, inl, inr, refl, sym, ap, ◌∙◌, subst, Bool, true, false, ◌||◌, List, [],
  ◌∷◌, ◌++◌, append_assoc, map, leb, if◌then◌else◌, length, take, drop, Bytes, memcpy,
  length-append, length-memcpy, Allocator, Bool-cases, arith,
}
use c_icap_server.Header.{
  Headers, Checked, done, assertion, fault, ◌>>=◌, empty_line, headers_check_space,
  headers_terminate, append_place,
}
use c_icap_server.Header.Lines.{
  body, text_of, offsets, offsets-append, IsHeaders, memcpy-append, body-append, length-text_of,
}
use c_icap_server.Header.Editing.{Spaced, headers_check_space-Checks}
use c_icap_server.Header.Shortage.{NoSpace, headers_check_space-NoSpace}
use c_icap_server.Header.Appending.{headers_terminate-IsHeaders, append_place-IsHeaders, body-buf}
use c_icap_server.Header.Copying.{used_text, Copies}

-- The used bytes of the list `g` are written at a place, and its places are moved behind it.
unfoldable pub put_lines : Headers → Headers → ℕ → Checked Headers
put_lines h g pos =
    if leb (pos + g.bufused) h.bufsize
    then done (record h {
      buf = memcpy h.buf pos (take g.bufused g.buf);
      bufused = pos + g.bufused;
      headers = h.headers ++ map (λ p. pos + p) g.headers;
    })
    else fault

-- `ci_headers_addheaders`: the list, and whether the headers of `g` were added.
unfoldable pub headers_add_all : Allocator → Bool → Headers → Headers → Checked (Headers × Bool)
unfolding headers_check_space headers_terminate append_place put_lines
headers_add_all a room h g =
    if h.packed || g.packed
    then done (h, false)
    else let (h₁, there) = headers_check_space a room h (length g.headers) g.bufused in
      elim there [
        | false ↦ done (h₁, false)
        | true ↦ headers_terminate h₁ >>= λ h₂. append_place h₂ >>= λ pos.
            put_lines h₂ g pos >>= λ h₃. headers_terminate h₃ >>= λ h₄. done (h₄, true)
      ]

map-offsets_add :
    (q p s : ℕ) (ls : List Bytes) → s ≡ q + p → map (λ x. q + x) (offsets p ls) ≡ offsets s ls
map-offsets_add q p s [] e = refl
map-offsets_add q p s (l ∷ ls) e =
    ap (λ x. x ∷ map (λ y. q + y) (offsets (p + length l + 2) ls)) (sym e)
    ∙ ap (◌∷◌ s) (map-offsets_add q (p + length l + 2) (s + length l + 2) ls (omega arith))

length-map : (f : ℕ → ℕ) (xs : List ℕ) → length (map f xs) ≡ length xs
length-map f [] = refl
length-map f (x ∷ xs) = ap suc (length-map f xs)

text_of-append :
    (ls : List Bytes) (m : Bytes) (ms : List Bytes)
    → text_of (ls ++ (m ∷ ms)) ≡ body ls ++ text_of (m ∷ ms)
text_of-append [] m ms = refl
text_of-append (l ∷ ls) m ms =
    ap (λ xs. xs ++ empty_line) (body-append (l ∷ ls) (m ∷ ms))
    ∙ append_assoc (body (l ∷ ls)) (body (m ∷ ms)) empty_line

put_lines-Copies :
    (h g : Headers) (ls : List Bytes) (m : Bytes) (ms : List Bytes)
    → Spaced h ls (length g.headers) g.bufused
    → IsHeaders g (m ∷ ms)
    → Copies (ls ++ (m ∷ ms)) (put_lines h g (length (body ls)))
unfolding put_lines
put_lines-Copies h g ls m ms s w =
    let v = s.valid in
    let gs = m ∷ ms in
    let n = length (body ls) in
    let (r, text) = body-buf h ls v in
    let len = length-append (body ls) (text_of gs) in
    let test : leb (n + g.bufused) h.bufsize ≡ true =
      ground (arith, s.fits, v.used, length-text_of ls) in
    let fits : n + length (text_of gs) ≤ length h.buf =
      omega (arith, s.fits, v.used, v.cells, w.used, length-text_of ls) in
    let written : memcpy h.buf n (take g.bufused g.buf)
        ≡ text_of (ls ++ gs) ++ drop (length (text_of gs)) r =
      ap (memcpy h.buf n) (used_text g gs w)
      ∙ ap (λ xs. memcpy xs n (text_of gs)) text
      ∙ memcpy-append (body ls) r (text_of gs) n refl
      ∙ sym (append_assoc (body ls) (text_of gs) (drop (length (text_of gs)) r))
      ∙ ap (λ xs. xs ++ drop (length (text_of gs)) r) (sym (text_of-append ls m ms)) in
    rw test (record {
      rest = drop (length (text_of gs)) r;
      text = written;
      used = omega (arith, ap length (text_of-append ls m ms), len, w.used);
      index =
          ap (λ ps. ps ++ map (λ p. n + p) g.headers) v.index
          ∙ ap (λ ps. offsets 0 ls ++ map (λ p. n + p) ps) w.index
          ∙ ap (λ ps. offsets 0 ls ++ ps) (map-offsets_add n 0 (0 + n) gs (omega arith))
          ∙ sym (offsets-append 0 ls gs);
      cells =
          ap (λ xs. length (memcpy h.buf n xs)) (used_text g gs w)
          ∙ length-memcpy h.buf n (text_of gs) fits
          ∙ v.cells;
      room = omega (
        arith,
        s.index_fits,
        length-append h.headers (map (λ p. n + p) g.headers),
        length-map (λ p. n + p) g.headers,
      );
      spare = omega (arith, s.fits, v.used, length-text_of ls);
      edit = v.edit;
    })

-- What `ci_headers_addheaders` comes to; a result 0 has the reason `Why`.
abbrev pub AllAdded : Type 0 → List Bytes → List Bytes → Checked (Headers × Bool) → Type 0
AllAdded Why ls ms (done (h, false)) = IsHeaders h ls × Why
AllAdded Why ls ms (done (h, true)) = IsHeaders h (ls ++ ms)
AllAdded Why ls ms assertion = ⊥
AllAdded Why ls ms fault = ⊥

put_all-AllAdded :
    (Why : Type 0) (ls ms : List Bytes) (r : Checked Headers)
    → Copies (ls ++ ms) r
    → AllAdded Why ls ms (r >>= λ h. headers_terminate h >>= λ h'. done (h', true))
put_all-AllAdded Why ls ms (done h) v =
    subst (λ r. AllAdded Why ls ms (r >>= λ h'. done (h', true)))
      (sym (headers_terminate-IsHeaders h (ls ++ ms) v)) v
put_all-AllAdded Why ls ms assertion v = v
put_all-AllAdded Why ls ms fault v = v

-- `ci_headers_addheaders` puts the lines behind the others. It returns 0, and leaves the lines, only
-- when there is no space: the index or the buffer has to grow and is not allocated, or the index
-- comes to its limit.
pub headers_add_all-AllAdded :
    (a : Allocator) (room : Bool) (h g : Headers) (ls : List Bytes) (m : Bytes) (ms : List Bytes)
    → IsHeaders h ls
    → IsHeaders g (m ∷ ms)
    → AllAdded
        (NoSpace a room h (length g.headers) g.bufused)
        ls
        (m ∷ ms)
        (headers_add_all a room h g)
unfolding headers_add_all
headers_add_all-AllAdded a room h g ls m ms v w =
    let n = length g.headers in
    let c = headers_check_space-Checks a room h ls n g.bufused v in
    let h₁ = (headers_check_space a room h n g.bufused).0 in
    elim (Bool-cases (headers_check_space a room h n g.bufused).1) [
      | inl e ↦
          let s = c.1 e in
          rw
            (
              v.edit,
              w.edit,
              e,
              headers_terminate-IsHeaders h₁ ls s.valid,
              append_place-IsHeaders h₁ ls s.valid,
            )
            (put_all-AllAdded (NoSpace a room h n g.bufused) ls (m ∷ ms)
              (put_lines h₁ g (length (body ls))) (put_lines-Copies h₁ g ls m ms s w))
      | inr e ↦
          rw (v.edit, w.edit, e) (c.0, headers_check_space-NoSpace a room h ls n g.bufused v e)
    ]
