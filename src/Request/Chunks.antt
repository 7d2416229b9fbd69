-- ===== src/Request/Chunks.antt =====
-- request_common.c, `parse_chunk_data`: the reader of chunked bodies. `block` is the list of the
-- unread bytes, from `pstrblock_read` on, and so `pstrblock_read_len` its length; `wdata` is the
-- list from the byte on that the caller's pointer shows. `current_chunk_len`, `chunk_bytes_read`
-- and the `int`s that the code takes from them are words of 32 bits.
pub mod Sizes
pub mod Progress
pub mod Counts
pub mod Limits
use c_icap_server.Common.{
  ℕ, zero, suc, ◌+◌, ◌-◌, ◌%◌, ◌^◌, Bool, true, false, not, ◌&&◌, ◌||◌, Option, none, some, List,
  [], ◌∷◌, ◌++◌, ltb, leb, ◌==◌, if◌then◌else◌, length, take, drop, Bytes, codes, strtol,
  strtol_open,
}

-- The fields of `ci_request_t` that the reader uses.
pub record Req : Type 0 where
  pub block : Bytes
  pub current_chunk_len : ℕ
  pub chunk_bytes_read : ℕ
  pub write_to_module_pending : ℕ
  pub eof_received : Bool
  pub i206_use_original_body : Option ℕ
  pub request_bytes_in : ℕ
  pub http_bytes_in : ℕ
  pub body_bytes_in : ℕ

pub data Status : Type 0 where
  ci_ok ci_needs_more ci_error ci_eof : Status

-- `rewinds n`: a negative length moves `pstrblock_read` back by `n` bytes; the model stops there.
-- `fault`: a read behind the block.
pub data Outcome : Type 0 where
  returns : Status → Req → Option Bytes → Outcome
  rewinds : ℕ → Outcome
  fault : Outcome
  out_of_fuel : Outcome

-- `BUFSIZE`
abbrev pub buf_size : ℕ
buf_size = 4096

-- `strnstr(block, "\r\n", len)`, as an offset.
unfoldable pub find_crlf : Bytes → Option ℕ
find_crlf [] = none
find_crlf (c ∷ []) = none
find_crlf (c ∷ d ∷ s) =
    let later = find_crlf (d ∷ s) in
    if (c == 13) && (d == 10) then some 0 else elim later [ none ↦ none | some n ↦ some (suc n) ]

unfoldable pub skip_blanks : Bytes → Bytes
skip_blanks [] = []
skip_blanks (c ∷ s) = if (c == b' ') || (c == 9) then skip_blanks s else c ∷ s

-- `while (*end != '\r') ++end;`
unfoldable pub skip_to_cr : Bytes → Option Bytes
skip_to_cr [] = none
skip_to_cr (c ∷ s) = if c == 13 then some (c ∷ s) else skip_to_cr s

unfoldable pub starts_with : Bytes → Bytes → Bool
starts_with [] s = true
starts_with (p ∷ ps) [] = false
starts_with (p ∷ ps) (c ∷ s) = (p == c) && starts_with ps s

-- A chunk definition was read, or the function returns.
pub data Defined : Type 0 where
  defined : Req → Defined
  stops : Outcome → Defined

-- The last test of a definition, `*end != '\r' || *(end + 1) != '\n'`, and the step behind it.
unfoldable pub end_of_def : Req → Bytes → ℕ → Option Bytes → Defined
end_of_def r [] len w = stops fault
end_of_def r (c ∷ []) len w = stops (if c == 13 then fault else returns ci_error r w)
end_of_def r (c ∷ d ∷ s) len w =
    if (c == 13) && (d == 10)
    then defined (record r { block = drop len r.block })
    else stops (returns ci_error r w)

-- The end of an extension: what stands in front of the next `\r` is ignored.
unfoldable pub end_of_extension : Req → Bytes → ℕ → Option Bytes → Defined
unfolding skip_to_cr end_of_def
end_of_extension r s len w = elim (skip_to_cr s) [
  | none ↦ stops fault
  | some e ↦ end_of_def (record r { eof_received = true }) e len w
]

-- The number of `use-original-body=`, and what follows it.
abbrev pub original_body : Bytes → ℕ
original_body s = elim (strtol 10 s) [ none ↦ 0 | some (v, rest) ↦ v ]

abbrev pub behind_number : Bytes → Bytes
behind_number s = elim (strtol 10 s) [ none ↦ s | some (v, rest) ↦ rest ]

-- The extension of a last chunk, at the text behind its `;`.
unfoldable pub extension : Req → Bytes → ℕ → Option Bytes → Defined
unfolding skip_blanks starts_with end_of_extension
extension r s len w =
    let end = skip_blanks s in
    let number = drop 18 end in
    if leb 18 (length end) && starts_with (codes "use-original-body=") end
    then if strtol_open 10 number
      then stops fault
      else end_of_extension (record r { i206_use_original_body = some (original_body number) })
          (behind_number number) len w
    else if leb 4 (length end) && not (starts_with (codes "ieof") end)
    then stops (returns ci_error r w)
    else end_of_extension r end len w

abbrev pub is_cr : Bytes → Bool
is_cr [] = false
is_cr (c ∷ s) = c == 13

abbrev pub is_lf_next : Bytes → Bool
is_lf_next [] = false
is_lf_next (c ∷ []) = false
is_lf_next (c ∷ d ∷ s) = d == 10

-- A definition of length zero: `eof` is the text behind its line, `len` the length of the line.
unfoldable pub last_chunk : Req → Bytes → Bytes → ℕ → Option Bytes → Defined
unfolding extension end_of_def
last_chunk r end eof len w =
    let r' = record r { request_bytes_in = r.request_bytes_in + 2 } in
    if ltb (length r.block - len) 2
    then stops (returns ci_needs_more r w)
    else if not (is_cr eof) && not (is_lf_next eof)
    then stops (returns ci_error r w)
    else elim end [
      | [] ↦ stops fault
      | c ∷ s ↦ if c == b';' then extension r' s (len + 2) w else end_of_def r' (c ∷ s) (len + 2) w
    ]

-- The part of the loop that reads a chunk definition. The block has no NUL behind it, so that
-- `strtol` reads on where the number does not end in the block.
unfoldable pub read_def : Req → Option Bytes → Defined
unfolding find_crlf skip_blanks last_chunk end_of_def
read_def r w = elim (find_crlf r.block) [
  | none ↦
      stops
        (if leb buf_size (length r.block) then returns ci_error r w else returns ci_needs_more r w)
  | some at ↦
      let len = at + 2 in
      let r₁ = record r { request_bytes_in = r.request_bytes_in + len } in
      let read : Defined = elim (strtol 16 r.block) [
        | none ↦ stops (returns ci_error r₁ w)
        | some (long, rest) ↦
            let tmp = long % 2 ^ 32 in
            let r₂ = record r₁ { current_chunk_len = tmp; chunk_bytes_read = 0 } in
            let r₃ = record r₂ { current_chunk_len = (tmp + 2) % 2 ^ 32 } in
            if tmp == 0
            then last_chunk r₂ (skip_blanks rest) (drop len r.block) len w
            else end_of_def r₃ (skip_blanks rest) len w
      ] in
      if strtol_open 16 r.block then stops fault else read
]

-- Another round of the loop, or its end.
pub data Step : Type 0 where
  again : Req → Option Bytes → Step
  done : Outcome → Step

-- `remains`, as the bit pattern of an `int`.
abbrev pub remains : Req → ℕ
remains r = (r.current_chunk_len + 2 ^ 32 - r.chunk_bytes_read) % 2 ^ 32

-- `k` bytes of the block are passed over, `pending` of them data.
unfoldable pub pass_over : Req → ℕ → ℕ → Req
pass_over r k pending = record r {
  block = drop k r.block;
  chunk_bytes_read = (r.chunk_bytes_read + k) % 2 ^ 32;
  write_to_module_pending = pending;
  http_bytes_in = r.http_bytes_in + pending;
  body_bytes_in = r.body_bytes_in + pending;
  request_bytes_in = r.request_bytes_in + k;
}

abbrev pub continue : Req → Option Bytes → Step
continue r w = if length r.block == 0 then done (returns ci_needs_more r w) else again r w

-- The part of the loop that reads chunk data.
unfoldable pub read_data : Req → Option Bytes → Step
unfolding pass_over
read_data r w =
    let len = length r.block in
    let rest = remains r in
    let missing = rest - len in
    if len == 0
    then done (returns ci_needs_more r w)
    else if leb (2 ^ 31) rest
    then done (rewinds (2 ^ 32 - rest))
    else if leb rest len
    then continue (pass_over r rest (if ltb 2 rest then rest - 2 else 0)) (some r.block)
    else continue (pass_over r len (if ltb missing 2 then len - missing else len)) (some r.block)

-- What follows a definition, or stands in front of data.
unfoldable pub after_def : Req → Option Bytes → Step
unfolding read_data
after_def r w =
    if r.current_chunk_len == 0
    then done (returns ci_eof r w)
    else if not (r.write_to_module_pending == 0)
    then done (returns ci_ok r w)
    else read_data r w

unfoldable pub chunk_step : Req → Option Bytes → Step
unfolding read_def after_def
chunk_step r w =
    if r.current_chunk_len == r.chunk_bytes_read
    then elim (read_def r w) [ stops o ↦ done o | defined r' ↦ after_def r' w ]
    else after_def r w

unfoldable pub chunk_loop : ℕ → Req → Option Bytes → Outcome
chunk_loop zero r w = out_of_fuel
chunk_loop (suc fuel) r w = elim (chunk_step r w) [
  | done o ↦ o
  | again r' w' ↦ chunk_loop fuel r' w'
]

-- Each round that does not end the loop passes over a byte at least.
unfoldable pub parse_chunk_data : Req → Outcome
unfolding chunk_loop chunk_step
parse_chunk_data r =
    if r.write_to_module_pending == 0
    then chunk_loop (suc (length r.block)) r none
    else returns ci_error r none
