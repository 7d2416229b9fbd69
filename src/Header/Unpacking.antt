-- ===== src/Header/Unpacking.antt =====
-- `ci_headers_unpack` takes the text of lines apart, and undoes `ci_headers_pack`.
use c_icap_server.Common.{
  ℕ, ◌+◌, ◌-◌, ◌≡◌, refl, sym, ap, ◌∙◌, subst, Bool, true, false, not, ◌&&◌, ◌||◌, List, [], ◌∷◌,
  ◌++◌, append_assoc, ltb, ◌==◌, if◌then◌else◌, length, get_or, get_or-append_add, set,
  set-append_add, Bytes, length-append, Allocator, arith,
}
use c_icap_server.Header.{
  Headers, Checked, done, assertion, fault, ◌>>=◌, line_end, empty_line, headers_check_space,
}
use c_icap_server.Header.Lines.{body, text_of, offsets, length-offsets, IsHeaders}
use c_icap_server.Header.Editing.{headers_check_space-Checks}
use c_icap_server.Header.Appending.{headers_terminate-IsHeaders}
use c_icap_server.Header.Packing.{wire, rows, rows-wire, headers_pack}
use c_icap_server.Header.Wire.{IsWire, Packs, headers_pack-Packs, length-wire}
use c_icap_server.Header.Rows.{rows-end}
use c_icap_server.Header.Parsing.{
  Status, ec_100, is_end, is_blank, end_of_text, scan, finish_index, build_index, headers_unpack,
}
use c_icap_server.Header.Scanning.{all_plain, is_line, are_lines, and_true, scan-all_plain}
use c_icap_server.Header.Walking.{scan-rows}
use c_icap_server.Header.Ends.{rows-last, end_of_text-last}

-- What `ci_headers_unpack` comes to on lines.
abbrev pub Unpacks : List Bytes → Checked (Headers × Status) → Type 0
Unpacks ls (done (h, s)) = IsHeaders h ls × (s ≡ ec_100)
Unpacks ls assertion = ⊥
Unpacks ls fault = ⊥

plain_line : (l : Bytes) → is_line l ≡ true → all_plain l ≡ true
plain_line [] p = absurd (cc p)
plain_line (c ∷ l) p = (and_true (not (is_blank c)) (all_plain (c ∷ l)) p).1

third_branch {ℓ} :
    {A : Type ℓ} (b₁ b₂ b₃ : Bool) (x y z w : A)
    → b₁ ≡ false
    → b₂ ≡ false
    → b₃ ≡ false
    → (if b₁ then x else if b₂ then y else if b₃ then z else w) ≡ w
third_branch b₁ b₂ b₃ x y z w e f g = rw (e, f, g) refl

is_received : (p u n : Bool) → (p || n) ≡ true → u ≡ true → (not p && not (u && n)) ≡ false
is_received true u n e f = refl
is_received false u n e f = rw (f, e) refl

-- A list with the text of a line and of those behind it.
module _ (h : Headers) (l : Bytes) (ms : List Bytes) (w : IsWire h (l ∷ ms))
    (plain : are_lines (l ∷ ms) ≡ true) where
  ends : Bytes
  ends = 13 ∷ 10 ∷ w.rest

  in_rows : h.buf ≡ l ++ rows ms 13 ends
  unfolding ends
  in_rows = w.text ∙ append_assoc (wire (l ∷ ms)) empty_line w.rest ∙ sym (rows-wire l ms ends)

  ebuf : ℕ
  ebuf = length l + length (body ms)

  bufused_ebuf : h.bufused ≡ ebuf + 4
  unfolding ebuf
  bufused_ebuf =
      w.used
      ∙ omega (
        arith,
        length-append (wire (l ∷ ms)) empty_line,
        length-wire (l ∷ ms),
        length-append l (line_end ++ body ms),
      )

  end_of_text-ebuf : end_of_text h.buf (h.bufused - 2) ≡ ebuf
  unfolding ebuf
  end_of_text-ebuf =
      let (p, q) = and_true (is_line l) (are_lines ms) plain in
      let (f, c, e, n, k) = rows-last l ms ends p q in
      end_of_text-last h.buf f c ends (h.bufused - 2) (in_rows ∙ e) n
        (omega (arith, bufused_ebuf, k))
      ∙ k

  cut_text : set h.buf ebuf 0 ≡ l ++ rows ms 0 ends
  unfolding ebuf
  cut_text =
      let (f, e, g, k) = rows-end ms 0 ends in
      ap (λ xs. set xs (length l + length (body ms)) 0) (in_rows ∙ ap (λ xs. l ++ xs) g)
      ∙ set-append_add l (f ++ (13 ∷ 10 ∷ ends)) (length f) (length l + length (body ms)) 0
          (omega arith)
      ∙ ap (λ xs. l ++ xs) (set-append_add f (13 ∷ 10 ∷ ends) 0 (length f) 0 (omega arith) ∙ sym e)

  -- The list that the loop ends with.
  found_lines : Headers
  unfolding ends
  found_lines = record h {
    buf = l ++ (line_end ++ (body ms ++ ends));
    headers = 0 ∷ offsets (length l + 2) ms;
  }

  scan-found :
      (room : Bool)
      → scan ebuf room (record h { buf = set h.buf ebuf 0; headers = 0 ∷ [] }) ebuf 0
        ≡ (found_lines, true)
  unfolding found_lines ebuf
  scan-found room =
      let (p, q) = and_true (is_line l) (are_lines ms) plain in
      let n = length l + length (body ms) in
      let h₀ = record h { buf = l ++ rows ms 0 ends; headers = 0 ∷ [] } in
      ap (λ b. scan n room (record h { buf = b; headers = 0 ∷ [] }) n 0) cut_text
      ∙ scan-all_plain l n room h₀ n 0 [] (rows ms 0 ends) (plain_line l p) refl refl (omega arith)
          (omega arith)
      ∙ scan-rows ms (n - length l) room h₀ n (0 + length l) l ends q refl (omega arith)
          (omega arith) (omega arith) (omega (arith, w.room))
      ∙ ap
          (λ i. (
            record h { buf = l ++ (line_end ++ (body ms ++ ends)); headers = 0 ∷ offsets i ms },
            true,
          ))
          (omega arith)

  found_lines-IsHeaders : IsHeaders (record found_lines { packed = false }) (l ∷ ms)
  unfolding found_lines ends ebuf
  found_lines-IsHeaders =
      let n = length-append (body (l ∷ ms)) empty_line in
      let text_ : l ++ (line_end ++ (body ms ++ ends)) ≡ text_of (l ∷ ms) ++ w.rest = sym (
        append_assoc (body (l ∷ ms)) empty_line w.rest
        ∙ append_assoc l (line_end ++ body ms) ends) in
      record {
        rest = w.rest;
        text = text_;
        used = bufused_ebuf ∙ omega (arith, n, length-append l (line_end ++ body ms));
        index = ap (λ i. 0 ∷ offsets i ms) (omega arith);
        cells =
            ap length text_
            ∙ omega (
              arith,
              length-append (text_of (l ∷ ms)) w.rest,
              n,
              w.cells,
              ap length w.text,
              length-append (wire (l ∷ ms) ++ empty_line) w.rest,
              length-append (wire (l ∷ ms)) empty_line,
              length-wire (l ∷ ms),
            );
        room = omega (arith, w.room, length-offsets (length l + 2) ms);
        spare = w.spare;
        edit = refl;
      }

  finish_index-Unpacks :
      (a : Allocator) (room : Bool) → Unpacks (l ∷ ms) (finish_index a room (found_lines, true))
  unfolding finish_index
  finish_index-Unpacks a room =
      let h₁ = record found_lines { packed = false } in
      let h₂ = (headers_check_space a room h₁ 0 0).0 in
      let v₂ = (headers_check_space-Checks a room h₁ (l ∷ ms) 0 0 found_lines-IsHeaders).0 in
      subst (λ c. Unpacks (l ∷ ms) (c >>= λ h₃. done (h₃, ec_100)))
        (sym (headers_terminate-IsHeaders h₂ (l ∷ ms) v₂)) (v₂, refl)

  build_index-Unpacks :
      (a : Allocator) (room : Bool)
      → Unpacks (l ∷ ms) (build_index a room h (end_of_text h.buf (h.bufused - 2)))
  unfolding build_index
  build_index-Unpacks a room =
      subst (λ e. Unpacks (l ∷ ms) (build_index a room h e)) (sym end_of_text-ebuf)
        (subst (λ s. Unpacks (l ∷ ms) (finish_index a room s)) (sym (scan-found room))
          (finish_index-Unpacks a room))

  end_byte : is_end (get_or h.buf (h.bufused - 2) 0) ≡ true
  end_byte =
      let n = length-append (wire (l ∷ ms)) empty_line in
      ap is_end (
        ap (λ xs. get_or xs (h.bufused - 2) 0)
          (w.text ∙ append_assoc (wire (l ∷ ms)) empty_line w.rest)
        ∙ get_or-append_add (wire (l ∷ ms)) (empty_line ++ w.rest) 0 (h.bufused - 2) 0
            (omega (arith, w.used, n)))

  -- `ci_headers_unpack` finds the lines of a text that was not parsed, or of a packed list.
  pub headers_unpack-Unpacks :
      (a : Allocator) (room : Bool)
      → (h.packed || (length h.headers == 0)) ≡ true
      → Unpacks (l ∷ ms) (headers_unpack a room h)
  unfolding headers_unpack
  headers_unpack-Unpacks a room received =
      let some_ : ltb 0 h.bufused ≡ true = ground (arith, bufused_ebuf) in
      let more : ltb h.bufused 2 ≡ false = ground (arith, bufused_ebuf) in
      subst (Unpacks (l ∷ ms))
        (sym (
          third_branch _ _ (not (is_end (get_or h.buf (h.bufused - 2) 0))) _ _ _ _
            (is_received h.packed _ _ received some_) more (ap not end_byte)))
        (build_index-Unpacks a room)

-- `ci_headers_unpack` undoes `ci_headers_pack`.
pub unpack-pack :
    (a : Allocator) (room : Bool) (h : Headers) (l : Bytes) (ms : List Bytes)
    → IsHeaders h (l ∷ ms)
    → are_lines (l ∷ ms) ≡ true
    → Unpacks (l ∷ ms) (headers_pack a room h >>= headers_unpack a room)
unpack-pack a room h l ms v plain =
    packed_back (headers_pack a room h) (headers_pack-Packs a room h l ms v)
  where
    packed_back :
        (r : Checked Headers) → Packs (l ∷ ms) r → Unpacks (l ∷ ms) (r >>= headers_unpack a room)
    packed_back (done h') p =
        headers_unpack-Unpacks h' l ms p.whole plain a room
          (ap (λ b. b || (length h'.headers == 0)) p.flag)
    packed_back assertion p = p
    packed_back fault p = p
