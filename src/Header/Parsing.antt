-- ===== src/Header/Parsing.antt =====
-- `ci_headers_unpack`: a received text becomes a list in edit mode.
use c_icap_server.Common.{
  ℕ, zero, suc, ◌+◌, ◌-◌, Bool, true, false, not, ◌&&◌, ◌||◌, Option, none, some, [], ◌∷◌, ◌++◌,
  ltb, leb, ◌==◌, if◌then◌else◌, length, get_or, set, Bytes, Allocator,
}
use c_icap_server.Header.{
  Headers, Checked, done, ◌>>=◌, header_start_size, grow_index, headers_check_space,
  headers_terminate,
}

-- The status that `ci_headers_unpack` returns.
pub data Status : Type 0 where
  ec_100 : Status
  ec_400 : Status
  ec_500 : Status

abbrev pub is_end : ℕ → Bool
is_end c = (c == 13) || (c == 10)

abbrev pub is_blank : ℕ → Bool
is_blank c = (c == 9) || (c == 32)

-- The end of the text without the line ends behind it, at `ebuf` or before.
unfoldable pub end_of_text : Bytes → ℕ → ℕ
end_of_text buf zero = 0
end_of_text buf (suc zero) = 1
end_of_text buf (suc (suc n)) =
    let rest = end_of_text buf (suc n) in
    if is_end (get_or buf (suc n) 0) then rest else suc (suc n)

-- Whether a header ends at `str`: a line end that no space or tab follows.
unfoldable pub ends_header : Bytes → ℕ → ℕ → Bool
ends_header buf ebuf str =
    let c₀ = get_or buf str 0 in
    let c₁ = get_or buf (str + 1) 0 in
    let c₂ = get_or buf (str + 2) 0 in
    if (c₀ == 13) && (c₁ == 10)
    then leb ebuf (str + 2) || not (is_blank c₂)
    else (c₀ == 10) && not (is_blank c₁)

-- A NUL that ends no header becomes a space.
unfoldable pub mend : Bytes → ℕ → Bytes
mend buf str = if get_or buf str 0 == 0 then set buf str 32 else buf

-- The index gets space for one more header.
unfoldable pub grow_for_one : Bool → Headers → Option Headers
unfolding grow_index
grow_for_one room h =
    if leb h.size (length h.headers) then grow_index room h (h.size + header_start_size) else some h

-- Where the next header starts, and the list with it.
unfoldable pub next_header : Headers → ℕ → Headers × ℕ
next_header h str =
    let start = if get_or h.buf (str + 1) 0 == 10 then str + 2 else str + 1 in
    (record h { headers = h.headers ++ (start ∷ []) }, start)

-- The end of a header at `str`: the list, and the byte that is looked at next or none if the index
-- does not get its space.
unfoldable pub end_header : Bool → Headers → ℕ → Headers × Option ℕ
unfolding grow_for_one next_header
end_header room h str =
    let ended = record h { buf = set h.buf str 0 } in
    elim (grow_for_one room ended) [
      | none ↦ (ended, none)
      | some h₁ ↦ let (h₂, start) = next_header h₁ str in (h₂, some (start + 1))
    ]

-- The body of the loop at `str`.
unfoldable pub scan_step : Bool → Headers → ℕ → ℕ → Headers × Option ℕ
unfolding ends_header mend end_header
scan_step room h ebuf str =
    if ends_header h.buf ebuf str
    then end_header room h str
    else (record h { buf = mend h.buf str }, some (str + 1))

-- The loop, and whether it comes to its end; the fuel is at least the number of bytes before `ebuf`.
unfoldable pub scan : ℕ → Bool → Headers → ℕ → ℕ → Headers × Bool
unfolding scan_step
scan zero room h ebuf str = (h, true)
scan (suc fuel) room h ebuf str =
    let (h₁, o) = scan_step room h ebuf str in
    if ltb str ebuf
    then elim o [ none ↦ (h₁, false) | some next ↦ scan fuel room h₁ ebuf next ]
    else (h, true)

-- After the loop the list is terminated, if the index was built.
unfoldable pub finish_index : Allocator → Bool → Headers × Bool → Checked (Headers × Status)
unfolding headers_check_space headers_terminate
finish_index a room (h, false) = done (h, ec_500)
finish_index a room (h, true) =
    headers_terminate (headers_check_space a room (record h { packed = false }) 0 0).0 >>= λ h₁.
    done (h₁, ec_100)

unfoldable pub build_index : Allocator → Bool → Headers → ℕ → Checked (Headers × Status)
unfolding scan finish_index
build_index a room h ebuf =
    finish_index a room
      (scan ebuf room (record h { buf = set h.buf ebuf 0; headers = 0 ∷ [] }) ebuf 0)

-- `ci_headers_unpack`
unfoldable pub headers_unpack : Allocator → Bool → Headers → Checked (Headers × Status)
unfolding end_of_text build_index
headers_unpack a room h =
    let unparsed = ltb 0 h.bufused && (length h.headers == 0) in
    if not h.packed && not unparsed
    then done (h, ec_100)
    else if ltb h.bufused 2
    then done (h, ec_400)
    else if not (is_end (get_or h.buf (h.bufused - 2) 0))
    then done (h, ec_400)
    else build_index a room h (end_of_text h.buf (h.bufused - 2))
