-- ===== src/Header/Packing.antt =====
-- `ci_headers_pack` and `ci_headers_pack_to_buffer`: a list in edit mode as the text that is sent.
use c_icap_server.Common.{
  ℕ, ◌+◌, ◌-◌, ◌≡◌, sym, ap, ◌∙◌, Bool, true, ◌&&◌, ◌||◌, List, [], ◌∷◌, ◌++◌, append_assoc, ltb,
  leb, ◌==◌, if◌then◌else◌, not, length, get_or, set, take, drop, Bytes, memcpy, length-append,
  Allocator, arith,
}
use c_icap_server.Header.{
  Headers, Checked, done, assertion, ◌>>=◌, line_end, empty_line, back, headers_check_space,
  headers_terminate,
}
use c_icap_server.Header.Lines.{body}

-- The two bytes before the place of a header become a line end.
unfoldable pub pack_before : Bytes → ℕ → Bytes
pack_before buf p =
    let buf₁ = if get_or buf (p - 1) 0 == 0 then set buf (p - 1) 10 else buf in
    if leb 2 p && (get_or buf₁ (p - 2) 0 == 0) then set buf₁ (p - 2) 13 else buf₁

-- The loop, over the places behind the first.
unfoldable pub pack_lines : ℕ → Bytes → List ℕ → Checked Bytes
unfolding pack_before
pack_lines used buf [] = done buf
pack_lines used buf (p ∷ ps) =
    let rest = pack_lines used (pack_before buf p) ps in
    if ltb p used && leb 1 p then rest else assertion

-- The last line end, if the assertions before it hold.
unfoldable pub pack_end : ℕ → Bytes → Checked Bytes
pack_end used buf =
    if leb 4 used
      && ((get_or buf (used - 1) 0 == 10)
          && ((get_or buf (used - 2) 0 == 13) && (get_or buf (used - 3) 0 == 10)))
    then done (set buf (used - 4) 13)
    else assertion

-- The whole text of a list with these places.
unfoldable pub pack_text : ℕ → Bytes → List ℕ → Checked Bytes
unfolding pack_lines pack_end
pack_text used buf ps = pack_lines used buf (drop 1 ps) >>= pack_end used

unfoldable pub pack_in : Headers → Checked Headers
unfolding pack_text
pack_in h =
    pack_text h.bufused h.buf h.headers >>= λ buf. done (record h { buf = buf; packed = true })

-- `ci_headers_pack`
unfoldable pub headers_pack : Allocator → Bool → Headers → Checked Headers
unfolding headers_check_space headers_terminate pack_in
headers_pack a room h =
    if h.packed || ((h.bufused == 0) || (length h.headers == 0))
    then done h
    else headers_terminate (headers_check_space a room h 0 0).0 >>= pack_in

-- `headers_terminated`
unfoldable pub headers_terminated : Headers → Bool
headers_terminated h =
    leb 4 h.bufused
    && ((back h 1 == 10)
        && ((back h 2 == 13) && ((back h 3 == 10) && (back h 4 == (if h.packed then 13 else 0)))))

-- `ci_headers_pack_to_buffer`, into the buffer `dest` of `size` bytes: the buffer, and the length
-- of the text or 0.
unfoldable pub headers_pack_to_buffer : Headers → Bytes → ℕ → Checked (Bytes × ℕ)
unfolding headers_terminated pack_text
headers_pack_to_buffer h dest size =
    if (length h.headers == 0)
      || ((h.bufused == 0) || (not (headers_terminated h) || ltb size h.bufused))
    then done (dest, 0)
    else let copy = memcpy dest 0 (take h.bufused h.buf) in
      (if h.packed then done copy else pack_text h.bufused copy h.headers) >>= λ buf.
      done (buf, h.bufused)

-- The text that is sent.
abbrev pub wire : List Bytes → Bytes
wire [] = []
wire (l ∷ ls) = l ++ (empty_line ++ wire ls)

-- What follows a line in the buffer while its end is written: the first byte of the last line end is
-- `c`, and `r` follows it.
abbrev pub rows : List Bytes → ℕ → Bytes → Bytes
rows [] c r = c ∷ 10 ∷ r
rows (l ∷ ls) c r = 13 ∷ 10 ∷ (l ++ rows ls c r)

pub rows-wire : (l : Bytes) (ls : List Bytes) (r : Bytes) → l ++ rows ls 13 r ≡ wire (l ∷ ls) ++ r
rows-wire l [] r = sym (append_assoc l empty_line r)
rows-wire l (m ∷ ls) r =
    ap (λ xs. l ++ (13 ∷ 10 ∷ xs)) (rows-wire m ls r)
    ∙ sym (append_assoc l (empty_line ++ wire (m ∷ ls)) r)

pub length-rows :
    (ls : List Bytes) (c : ℕ) (r : Bytes) → length (rows ls c r) ≡ length (body ls) + 2 + length r
length-rows [] c r = omega arith
length-rows (l ∷ ls) c r = omega (
  arith,
  length-append l (rows ls c r),
  length-append l (line_end ++ body ls),
  length-rows ls c r,
)
