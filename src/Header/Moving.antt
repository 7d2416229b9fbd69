-- ===== src/Header/Moving.antt =====
-- The removal of a header that others follow.
use c_icap_server.Common.{
  ℕ, ◌+◌, ◌-◌, ◌≡◌, sym, ap, ◌∙◌, true, List, ◌∷◌, ◌++◌, append_assoc, map, ltb, length, take, drop,
  take-append_le, take_all, drop-append_add, Bytes, memcpy, slice, length-append, length-memcpy,
  arith,
}
use c_icap_server.Header.{Headers, ◌>>=◌, line_end, empty_line, headers_terminate, remove_at}
use c_icap_server.Header.Lines.{
  body, offsets, IsHeaders, memcpy-append, length-body, offsets-append, length-offsets,
}
use c_icap_server.Header.Appending.{headers_terminate-IsHeaders}
use c_icap_server.Header.Closing.{
  Comes, map-offsets, text_of-mid, length-text_of_mid, around, used_all, fits_all, index_before,
  index_length,
}

-- The list after an inner line went: the lines behind it have moved.
module _ (h : Headers) (bs : List Bytes) (l m : Bytes) (cs : List Bytes) (p q : ℕ)
    (v : IsHeaders h (bs ++ (l ∷ m ∷ cs))) (at : p ≡ length (body bs))
    (at_next : q ≡ p + length l + 2) where
  rest_len : ℕ
  rest_len = h.bufused - p - (q - p)

  closed : Headers
  unfolding rest_len
  closed = record h {
    buf = memcpy h.buf p (slice h.buf q rest_len);
    bufused = h.bufused - (q - p);
    headers = take (length bs) h.headers ++ map (λ x. x - (q - p)) (offsets q (m ∷ cs));
  }

  moved : Bytes
  moved = body (m ∷ cs) ++ empty_line

  length-moved : length moved ≡ rest_len
  unfolding rest_len moved
  length-moved =
      omega
        (arith, used_all h bs l (m ∷ cs) p q v at at_next, length-append (body (m ∷ cs)) empty_line)

  slice-moved : slice h.buf q rest_len ≡ moved
  unfolding slice moved
  slice-moved =
      let front = body bs ++ (l ++ line_end) in
      let regroup : h.buf ≡ front ++ (moved ++ v.rest) =
        around h bs l (m ∷ cs) p q v at at_next
        ∙ ap (λ xs. body bs ++ xs)
            (sym (append_assoc l line_end (body (m ∷ cs) ++ (empty_line ++ v.rest))))
        ∙ sym (append_assoc (body bs) (l ++ line_end) (body (m ∷ cs) ++ (empty_line ++ v.rest)))
        ∙ ap (λ xs. front ++ xs) (sym (append_assoc (body (m ∷ cs)) empty_line v.rest)) in
      ap (λ xs. take rest_len (drop q xs)) regroup
      ∙ ap (take rest_len) (
          drop-append_add front (moved ++ v.rest) q 0
            (omega (arith, length-append (body bs) (l ++ line_end), length-append l line_end)))
      ∙ take-append_le rest_len moved v.rest (omega (arith, length-moved))
      ∙ take_all rest_len moved (omega (arith, length-moved))

  closed-IsHeaders : IsHeaders closed (bs ++ (m ∷ cs))
  unfolding closed moved rest_len
  closed-IsHeaders =
      let behind = l ++ (line_end ++ (body (m ∷ cs) ++ (empty_line ++ v.rest))) in
      let used = used_all h bs l (m ∷ cs) p q v at at_next in
      let index_ : take (length bs) h.headers ++ map (λ x. x - (q - p)) (offsets q (m ∷ cs))
          ≡ offsets 0 (bs ++ (m ∷ cs)) =
        ap (λ ps. ps ++ map (λ x. x - (q - p)) (offsets q (m ∷ cs)))
          (index_before h bs l (m ∷ cs) p q v at at_next)
        ∙ ap (λ r. offsets 0 bs ++ map (λ x. x - (q - p)) (offsets r (m ∷ cs))) (omega arith)
        ∙ ap (λ ps. offsets 0 bs ++ ps) (map-offsets (q - p) p (m ∷ cs))
        ∙ ap (λ r. offsets 0 bs ++ offsets r (m ∷ cs)) (omega arith)
        ∙ sym (offsets-append 0 bs (m ∷ cs)) in
      record {
        rest = drop (length moved) behind;
        text =
            ap (memcpy h.buf p) slice-moved
            ∙ ap (λ xs. memcpy xs p moved) (around h bs l (m ∷ cs) p q v at at_next)
            ∙ memcpy-append (body bs) behind moved p at
            ∙ sym (append_assoc (body bs) moved (drop (length moved) behind))
            ∙ ap (λ xs. xs ++ drop (length moved) behind)
                (sym (append_assoc (body bs) (body (m ∷ cs)) empty_line)
                  ∙ sym (text_of-mid bs m cs));
        used = omega (arith, used, length-text_of_mid bs m cs, length-body m cs);
        index = index_;
        cells =
            ap (λ xs. length (memcpy h.buf p xs)) slice-moved
            ∙ length-memcpy h.buf p moved (
                omega
                  (arith, used, length-moved, fits_all h bs l (m ∷ cs) p q v at at_next, v.cells))
            ∙ v.cells;
        room = omega (
          arith,
          v.room,
          index_length h bs l (m ∷ cs) p q v at at_next,
          ap length index_,
          length-offsets 0 (bs ++ (m ∷ cs)),
          length-append bs (m ∷ cs),
        );
        spare = omega (arith, v.spare);
        edit = v.edit;
      }

  pub remove_inner-Comes :
      Comes (bs ++ (m ∷ cs)) (remove_at h (length bs) p (offsets q (m ∷ cs)) >>= headers_terminate)
  unfolding remove_at closed rest_len
  remove_inner-Comes =
      let more : ltb 0 (h.bufused - p - (q - p)) ≡ true =
        ground (arith, used_all h bs l (m ∷ cs) p q v at at_next) in
      rw (more, headers_terminate-IsHeaders closed (bs ++ (m ∷ cs)) closed-IsHeaders)
        closed-IsHeaders
