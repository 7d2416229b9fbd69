-- ===== src/Header/Values.antt =====
-- The values of headers: `do_header_search` with a value and an end, and `ci_headers_value2`.
use c_icap_server.Common.{
  ℕ, zero, suc, ◌+◌, ◌-◌, Bool, ◌&&◌, ◌||◌, Option, none, some, List, [], ◌∷◌, ltb, ◌==◌,
  if◌then◌else◌, length, get_elem?, get_or, Bytes,
}
use c_icap_server.Header.{Headers, Checked, done, fault, ◌>>=◌, find_header}

-- From `lval` on, the first byte that is no space and no tab; the fuel is at least the number of the
-- bytes up to the end. An access outside the buffer is none.
unfoldable pub value_start : ℕ → Headers → ℕ → Option ℕ
value_start zero h lval = some lval
value_start (suc fuel) h lval =
    let rest = value_start fuel h (suc lval) in
    if ltb h.bufused lval then some lval else elim (get_elem? h.buf lval) [
      | none ↦ none
      | some c ↦ if (c == 32) || (c == 9) then rest else some lval
    ]

abbrev pub is_terminator : ℕ → Bool
is_terminator c = (c == 0) || ((c == 13) || (c == 10))

-- From `end` back to `lval`, the last byte that ends no line.
unfoldable pub value_end : Bytes → ℕ → ℕ → ℕ
value_end buf lval zero = zero
value_end buf lval (suc end) =
    let rest = value_end buf lval end in
    if ltb lval (suc end) && is_terminator (get_or buf (suc end) 0) then rest else suc end

-- The last byte of a header, if the headers behind it are at these places.
unfoldable pub header_end : Headers → List ℕ → ℕ
header_end h [] = h.bufused - 1
header_end h (q ∷ ps) = q - 1

-- The place and the size of a value that starts at `lval` or behind.
unfoldable pub value_at : Headers → ℕ → List ℕ → Checked (Option (ℕ × ℕ))
unfolding value_start value_end header_end
value_at h lval ps = elim (value_start (suc h.bufused) h lval) [
  | none ↦ fault
  | some start ↦
      let end = header_end h ps in
      if ltb end start
      then done none
      else done (some (start, value_end h.buf start end - start + 1))
]

-- `ci_headers_value2`: the place of the value and its size.
unfoldable pub headers_value2 : Headers → Bytes → Checked (Option (ℕ × ℕ))
unfolding find_header value_at
headers_value2 h name =
    if length name == 0
    then done none
    else find_header h name 0 h.headers >>= λ r. elim r [
      | none ↦ done none
      | some (i, p, ps) ↦ value_at h (p + length name + 1) ps
    ]
