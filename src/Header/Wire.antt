-- ===== src/Header/Wire.antt =====
-- `ci_headers_pack` and `ci_headers_pack_to_buffer` give the lines with a CR LF behind each.
use c_icap_server.Common.{
  ℕ, ◌≤◌, ◌<◌, ◌≡◌, refl, sym, ap, ◌∙◌, subst, Bool, true, false, ◌||◌, List, [], ◌∷◌, ◌++◌, ltb,
  ◌==◌, not, length, take, take-append_le, take_all, drop, Bytes, memcpy, length-append, Allocator,
  arith,
}
use c_icap_server.Header.{
  Headers, Checked, done, assertion, fault, ◌>>=◌, line_end, empty_line, headers_check_space,
}
use c_icap_server.Header.Lines.{body, text_of, offsets, length-offsets, IsHeaders}
use c_icap_server.Header.Editing.{headers_check_space-Checks}
use c_icap_server.Header.Appending.{headers_terminate-IsHeaders, back-IsHeaders}
use c_icap_server.Header.Packing.{
  pack_text, pack_in, headers_pack, headers_terminated, headers_pack_to_buffer, wire,
}
use c_icap_server.Header.Rows.{pack_text-wire}

-- A list whose buffer holds the text of these lines as it is sent.
pub record IsWire (h : Headers) (ls : List Bytes) : Type 0 where
  pub rest : Bytes
  pub text : h.buf ≡ (wire ls ++ empty_line) ++ rest
  pub used : h.bufused ≡ length (wire ls ++ empty_line)
  pub cells : length h.buf ≡ h.bufsize
  pub room : length ls ≤ h.size
  pub spare : h.bufused < h.bufsize

-- A packed list with these lines.
pub record IsPacked (h : Headers) (ls : List Bytes) : Type 0 where
  pub whole : IsWire h ls
  pub index : h.headers ≡ offsets 0 ls
  pub flag : h.packed ≡ true

pub length-wire : (ls : List Bytes) → length (wire ls) ≡ length (body ls)
length-wire [] = refl
length-wire (l ∷ ls) = omega (
  arith,
  length-append l (empty_line ++ wire ls),
  length-append l (line_end ++ body ls),
  length-wire ls,
)

abbrev pub Packs : List Bytes → Checked Headers → Type 0
Packs ls (done h) = IsPacked h ls
Packs ls assertion = ⊥
Packs ls fault = ⊥

pack_in-Packs :
    (h : Headers) (l : Bytes) (ls : List Bytes) → IsHeaders h (l ∷ ls) → Packs (l ∷ ls) (pack_in h)
unfolding pack_in
pack_in-Packs h l ls v =
    let text = (wire (l ∷ ls) ++ empty_line) ++ v.rest in
    let packs : pack_text h.bufused h.buf h.headers ≡ done text =
      ap (pack_text h.bufused h.buf) v.index
      ∙ ap (λ xs. pack_text h.bufused xs (offsets 0 (l ∷ ls))) v.text
      ∙ pack_text-wire h.bufused l ls v.rest v.used in
    let same : length (wire (l ∷ ls) ++ empty_line) ≡ length (text_of (l ∷ ls)) = omega (
      arith,
      length-append (wire (l ∷ ls)) empty_line,
      length-append (body (l ∷ ls)) empty_line,
      length-wire (l ∷ ls),
    ) in
    rw packs (record {
      whole = record {
        rest = v.rest;
        text = refl;
        used = v.used ∙ sym same;
        cells =
            length-append (wire (l ∷ ls) ++ empty_line) v.rest
            ∙ omega
                (arith, same, v.cells, ap length v.text, length-append (text_of (l ∷ ls)) v.rest);
        room = omega (arith, v.room, ap length v.index, length-offsets 0 (l ∷ ls));
        spare = v.spare;
      };
      index = v.index;
      flag = refl;
    })

no_lines-IsHeaders :
    (h : Headers) (l : Bytes) (ls : List Bytes)
    → IsHeaders h (l ∷ ls)
    → ((h.bufused == 0) ≡ false) × ((length h.headers == 0) ≡ false)
no_lines-IsHeaders h l ls v =
    let (more, _, _, _, _) = back-IsHeaders h l ls v in
    (ground arith, ap (λ ps. length ps == 0) v.index ∙ ground arith)

-- `ci_headers_pack` never fails an assertion, and leaves the text of the lines as it is sent.
pub headers_pack-Packs :
    (a : Allocator) (room : Bool) (h : Headers) (l : Bytes) (ls : List Bytes)
    → IsHeaders h (l ∷ ls)
    → Packs (l ∷ ls) (headers_pack a room h)
unfolding headers_pack
headers_pack-Packs a room h l ls v =
    let h₁ = (headers_check_space a room h 0 0).0 in
    let v₁ = (headers_check_space-Checks a room h (l ∷ ls) 0 0 v).0 in
    let (used_, some_) = no_lines-IsHeaders h l ls v in
    let goes : (h.packed || ((h.bufused == 0) || (length h.headers == 0))) ≡ false =
      ap (λ b. b || ((h.bufused == 0) || (length h.headers == 0))) v.edit
      ∙ ap (λ b. b || (length h.headers == 0)) used_
      ∙ some_ in
    simp goes (
      subst (λ r. Packs (l ∷ ls) (r >>= pack_in)) (sym (headers_terminate-IsHeaders h₁ (l ∷ ls) v₁))
        (pack_in-Packs h₁ l ls v₁))

terminated-IsHeaders :
    (h : Headers) (l : Bytes) (ls : List Bytes) → IsHeaders h (l ∷ ls) → headers_terminated h ≡ true
unfolding headers_terminated
terminated-IsHeaders h l ls v =
    let (more, one, two, three, four) = back-IsHeaders h l ls v in let edit = v.edit in ground arith

-- The text in a buffer that has the space for it.
pub headers_pack_to_buffer-wire :
    (h : Headers) (l : Bytes) (ls : List Bytes) (dest : Bytes) (size : ℕ)
    → IsHeaders h (l ∷ ls)
    → size ≤ length dest
    → h.bufused ≤ size
    → headers_pack_to_buffer h dest size
      ≡ done ((wire (l ∷ ls) ++ empty_line) ++ drop h.bufused dest, h.bufused)
unfolding headers_pack_to_buffer memcpy
headers_pack_to_buffer-wire h l ls dest size v fits there =
    let (used_, some_) = no_lines-IsHeaders h l ls v in
    let small : ltb size h.bufused ≡ false = ground arith in
    let used_text : take h.bufused h.buf ≡ text_of (l ∷ ls) =
      ap (take h.bufused) v.text
      ∙ take-append_le h.bufused (text_of (l ∷ ls)) v.rest (omega (arith, v.used))
      ∙ take_all h.bufused (text_of (l ∷ ls)) (omega (arith, v.used)) in
    let copied : memcpy dest 0 (take h.bufused h.buf) ≡ text_of (l ∷ ls) ++ drop h.bufused dest =
      ap (memcpy dest 0) used_text
      ∙ ap (λ n. text_of (l ∷ ls) ++ drop n dest) (omega (arith, v.used)) in
    let packs : pack_text h.bufused (memcpy dest 0 (take h.bufused h.buf)) h.headers
        ≡ done ((wire (l ∷ ls) ++ empty_line) ++ drop h.bufused dest) =
      ap (pack_text h.bufused (memcpy dest 0 (take h.bufused h.buf))) v.index
      ∙ ap (λ xs. pack_text h.bufused xs (offsets 0 (l ∷ ls))) copied
      ∙ pack_text-wire h.bufused l ls (drop h.bufused dest) v.used in
    let stops : ((length h.headers == 0)
          || ((h.bufused == 0) || (not (headers_terminated h) || ltb size h.bufused)))
        ≡ false =
      ap (λ b. b || ((h.bufused == 0) || (not (headers_terminated h) || ltb size h.bufused))) some_
      ∙ ap (λ b. b || (not (headers_terminated h) || ltb size h.bufused)) used_
      ∙ ap (λ b. not b || ltb size h.bufused) (terminated-IsHeaders h l ls v)
      ∙ small in
    simp stops (simp (v.edit, packs) refl)
