-- ===== src/Request/Chunks/Limits.antt =====
-- What `parse_chunk_data` does at a chunk definition: sizes that are negative as an `int`, a last
-- chunk whose end is still missing, and the test of that end.
use c_icap_server.Common.{
  ℕ, suc, ◌+◌, ◌-◌, ◌%◌, ◌^◌, ◌≤◌, ◌<◌, ◌≡◌, ◌≢◌, inl, inr, refl, ap, true, false, ◌||◌, none, some,
  ◌∷◌, ltb, leb, ◌==◌, if◌then◌else◌, length, drop, Bytes, Bool-cases, length-drop, arith, strtol,
  strtol_open, strtol_open-some, [],
}
use c_icap_server.Request.Chunks.{
  Req, ci_needs_more, ci_error, ci_eof, returns, rewinds, find_crlf, end_of_def, last_chunk,
  read_def, read_data, after_def, chunk_step, chunk_loop, parse_chunk_data, skip_blanks,
}

-- The reader stands at a chunk definition, and no data is pending.
abbrev pub IsAtDef : Req → Type 0
IsAtDef r = (r.current_chunk_len ≡ r.chunk_bytes_read) × (r.write_to_module_pending ≡ 0)

-- The block starts with a line that ends at `at`, with the number `long` and blanks alone.
abbrev pub HasLine : Req → ℕ → ℕ → Type 0
HasLine r at long =
    (find_crlf r.block ≡ some at)
    × (rest : Bytes) × (strtol 16 r.block ≡ some (long, rest))
    × (tail : Bytes) × (skip_blanks rest ≡ 13 ∷ 10 ∷ tail)

skip_blanks-le : (s : Bytes) → length (skip_blanks s) ≤ length s
unfolding skip_blanks
skip_blanks-le [] = omega arith
skip_blanks-le (c ∷ s) = ground (arith, skip_blanks-le s)

too_short : (s tail : Bytes) → length s < 2 → skip_blanks s ≡ 13 ∷ 10 ∷ tail → ⊥
too_short s tail short e = let long = ap length e in omega (arith, skip_blanks-le s, long)

-- The number of the line ends in the block.
HasLine-closed : (r : Req) (at long : ℕ) → HasLine r at long → strtol_open 16 r.block ≡ false
HasLine-closed r at long (line, [], number, tail, blanks) =
    absurd (too_short [] tail (omega arith) blanks)
HasLine-closed r at long (line, c ∷ [], number, tail, blanks) =
    absurd (too_short (c ∷ []) tail (omega arith) blanks)
HasLine-closed r at long (line, c ∷ d ∷ rest, number, tail, blanks) =
    strtol_open-some 16 r.block long c d rest number

-- A chunk definition whose size and end characters do not fit an `int`, with bytes behind it, makes
-- `parse_chunk_data` move `pstrblock_read` back, by as much as the size is negative.
pub parse_chunk_data-rewinds :
    (r : Req) (at long : ℕ)
    → IsAtDef r
    → HasLine r at long
    → long % 2 ^ 32 ≢ 0
    → 2 ^ 31 ≤ (long % 2 ^ 32 + 2) % 2 ^ 32
    → at + 2 < length r.block
    → parse_chunk_data r ≡ rewinds (2 ^ 32 - (long % 2 ^ 32 + 2) % 2 ^ 32)
unfolding parse_chunk_data chunk_loop chunk_step read_def end_of_def after_def read_data
parse_chunk_data-rewinds r at long (at_def, pending) (line, rest, number, tail, blanks) ne big
      more =
    let closed = HasLine-closed r at long (line, rest, number, tail, blanks) in
    let idle : (r.write_to_module_pending == 0) ≡ true = ground arith in
    let def_next : (r.current_chunk_len == r.chunk_bytes_read) ≡ true = ground arith in
    let sized : (long % 2 ^ 32 == 0) ≡ false = ground arith in
    let wide = (long % 2 ^ 32 + 2) % 2 ^ 32 in
    let some_ : (wide == 0) ≡ false = ground arith in
    let filled : (length (drop (at + 2) r.block) == 0) ≡ false =
      ground (arith, length-drop (at + 2) r.block) in
    let same : (wide + 2 ^ 32 - 0) % 2 ^ 32 ≡ wide = omega arith in
    let negative : leb (2 ^ 31) wide ≡ true = ground arith in
    rw
      (
        parse_chunk_data, idle, chunk_loop, chunk_step, def_next, read_def, line, closed, number,
        sized, blanks, after_def, some_, idle, read_data, filled, same, negative,
      )
      refl

-- A last chunk whose end is not there yet makes `parse_chunk_data` wait for more bytes with the
-- block as it was, but with the bytes of its line counted in `request_bytes_in`: the next call
-- counts them again.
pub parse_chunk_data-recounts :
    (r : Req) (at long : ℕ)
    → IsAtDef r
    → HasLine r at long
    → long % 2 ^ 32 ≡ 0
    → length r.block < at + 4
    → parse_chunk_data r
      ≡ returns ci_needs_more
          (record r {
            request_bytes_in = r.request_bytes_in + (at + 2);
            current_chunk_len = long % 2 ^ 32;
            chunk_bytes_read = 0;
          })
          none
unfolding parse_chunk_data chunk_loop chunk_step read_def last_chunk
parse_chunk_data-recounts r at long (at_def, pending) (line, rest, number, tail, blanks) last few =
    let closed = HasLine-closed r at long (line, rest, number, tail, blanks) in
    let idle : (r.write_to_module_pending == 0) ≡ true = ground arith in
    let def_next : (r.current_chunk_len == r.chunk_bytes_read) ≡ true = ground arith in
    let sized : (long % 2 ^ 32 == 0) ≡ true = ground arith in
    let missing : ltb (length r.block - (at + 2)) 2 ≡ true = ground arith in
    rw
      (
        parse_chunk_data, idle, chunk_loop, chunk_step, def_next, read_def, line, closed, number,
        sized, last_chunk, missing,
      )
      refl

-- The state behind the line and the two characters of a last chunk.
abbrev pub behind_last : Req → ℕ → Req
behind_last r at = record r {
  block = drop (at + 2 + 2) r.block;
  request_bytes_in = r.request_bytes_in + (at + 2) + 2;
  current_chunk_len = 0;
  chunk_bytes_read = 0;
}

abbrev pub with_line : Req → ℕ → Req
with_line r at = record r {
  request_bytes_in = r.request_bytes_in + (at + 2);
  current_chunk_len = 0;
  chunk_bytes_read = 0;
}

-- Behind the line of a last chunk, `parse_chunk_data` takes two characters for the end of the body
-- if the first is a carriage return or the second a line feed, and refuses all others.
pub parse_chunk_data-end :
    (r : Req) (at long c d : ℕ) (s : Bytes)
    → IsAtDef r
    → HasLine r at long
    → long % 2 ^ 32 ≡ 0
    → drop (at + 2) r.block ≡ c ∷ d ∷ s
    → parse_chunk_data r ≡ (
        if (c == 13) || (d == 10)
        then returns ci_eof (behind_last r at) none
        else returns ci_error (with_line r at) none)
unfolding parse_chunk_data chunk_loop chunk_step read_def last_chunk end_of_def after_def
parse_chunk_data-end r at long c d s (at_def, pending) (line, rest, number, tail, blanks) last eof =
    let closed = HasLine-closed r at long (line, rest, number, tail, blanks) in
    let idle : (r.write_to_module_pending == 0) ≡ true = ground arith in
    let def_next : (r.current_chunk_len == r.chunk_bytes_read) ≡ true = ground arith in
    let size : length (drop (at + 2) r.block) ≡ suc (suc (length s)) = ap length eof in
    let there : ltb (length r.block - (at + 2)) 2 ≡ false =
      ground (arith, length-drop (at + 2) r.block) in
    rw
      (
        parse_chunk_data, idle, chunk_loop, chunk_step, def_next, read_def, line, closed, number,
        last, last_chunk, there, eof, blanks,
      )
      (elim (Bool-cases (c == 13)) [
        | inl e ↦ rw (e, after_def, last) refl
        | inr e ↦ elim (Bool-cases (d == 10)) [
          | inl f ↦ rw (e, f, after_def, last) refl
          | inr f ↦ rw (e, f) refl
        ]
      ])
