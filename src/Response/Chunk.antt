-- ===== src/Response/Chunk.antt =====
-- `format_body_chunk` of request.c: the chunk that it makes, and how `parse_chunk_data` reads it.
use c_icap_server.Common.{
  ℕ, zero, suc, ◌+◌, ◌-◌, ◌/◌, ◌%◌, ◌^◌, ◌≤◌, ◌<◌, ◌≡◌, ◌≢◌, inl, inr, refl, sym, ap, ◌∙◌, true,
  false, ◌&&◌, none, some, [], ◌∷◌, ◌++◌, append_assoc, ltb, leb, ◌==◌, length, drop, Bytes,
  Bool-cases, if_both, arith, memcpy, slice, All, length-append, length-memcpy, slice-append,
  slice-memcpy_self, slice-memcpy_before, slice-memcpy_after, strtol, strtol_open-some, digit_in,
  hex_value, drop-append_add,
}
use c_icap_server.Request.Chunks.{
  Req, defined, find_crlf, skip_blanks, end_of_def, read_def, after_def, chunk_step, pass_over,
  continue,
}
use c_icap_server.Request.Chunks.Counts.{read_data-pass_over, passed, data_among}
use c_icap_server.Response.{
  Sender, sending, ok, extra_chunk_size, max_chunk_size, crlf, chunk_def, put_chunk, format_block,
  format_body_chunk,
}
use c_icap_server.Response.Hex.{hex_text, hex_loop, hex_digit, strtol-hex_text}

-- A chunk, as it is sent.
abbrev pub chunk_text : Bytes → Bytes
chunk_text data_ = chunk_def (length data_) ++ (data_ ++ crlf)

-- The data of a chunk stand in `wbuf`, behind the space for its definition.
abbrev pub HasData : Sender → Bytes → Type 0
HasData r data_ =
    (length r.wbuf ≡ 4096)
    × (r.block ≡ sending data_)
    × (slice r.wbuf extra_chunk_size (length data_) ≡ data_)

length-hex_loop : (fuel n : ℕ) (s : Bytes) → length (hex_loop fuel n s) ≤ fuel + length s
unfolding hex_loop
length-hex_loop zero n s = omega arith
length-hex_loop (suc fuel) n s = elim (Bool-cases (ltb n 16)) [
  | inl e ↦ rw (hex_loop, e) (omega arith)
  | inr e ↦ rw (hex_loop, e) (omega (arith, length-hex_loop fuel (n / 16) (hex_digit (n % 16) ∷ s)))
]

length-chunk_def : (n : ℕ) → length (chunk_def n) ≤ 10
unfolding hex_text
length-chunk_def n = omega (arith, length-append (hex_text n) crlf, length-hex_loop 8 n [])

slice-put_chunk :
    (wbuf data_ def : Bytes) (start n : ℕ)
    → length wbuf ≡ 4096
    → slice wbuf 30 n ≡ data_
    → length data_ ≡ n
    → n ≤ 4064
    → start + length def ≡ 30
    → slice (memcpy (memcpy wbuf (30 + n) crlf) start def) start (n + (length def + 2))
      ≡ def ++ (data_ ++ crlf)
slice-put_chunk wbuf data_ def start n size there len fits at =
    let ended = memcpy wbuf (30 + n) crlf in
    let all = memcpy ended start def in
    let cells : length ended ≡ length wbuf = length-memcpy wbuf (30 + n) crlf (omega arith) in
    let front : slice all start (length def) ≡ def =
      slice-memcpy_self ended start def (length def) (omega arith) refl in
    let middle : slice all 30 n ≡ data_ =
      slice-memcpy_after ended start def 30 n (omega arith) (omega arith)
      ∙ slice-memcpy_before wbuf (30 + n) crlf 30 n (omega arith) (omega arith)
      ∙ there in
    let end : slice all (30 + n) 2 ≡ crlf =
      slice-memcpy_after ended start def (30 + n) 2 (omega arith) (omega arith)
      ∙ slice-memcpy_self wbuf (30 + n) crlf 2 (omega arith) refl in
    sym (
      slice-append all start (length def) 30 (n + 2) (n + (length def + 2)) (omega arith)
        (omega arith))
    ∙ ap (λ xs. xs ++ slice all 30 (n + 2)) front
    ∙ ap (λ xs. def ++ xs)
        (sym (slice-append all 30 n (30 + n) 2 (n + 2) refl refl)
          ∙ ap (λ xs. xs ++ slice all (30 + n) 2) middle
          ∙ ap (λ xs. data_ ++ xs) end)

pub format_body_chunk_lem :
    (r : Sender) (data_ : Bytes)
    → HasData r data_
    → r.responce_hasbody ≡ true
    → 0 < length data_
    → length data_ ≤ max_chunk_size
    → (format_body_chunk r ≡ some (put_chunk r (length data_), ok))
      × ((put_chunk r (length data_)).block ≡ sending (chunk_text data_))
unfolding format_body_chunk format_block put_chunk
format_body_chunk_lem r [] there body pos fits = absurd (omega arith)
format_body_chunk_lem r (c ∷ s) (size, block, there) body pos fits =
    let n = length (c ∷ s) in
    let def = chunk_def n in
    let start = extra_chunk_size - length def in
    let short : length def ≤ 10 = length-chunk_def n in
    let asserts : (leb n max_chunk_size && ltb (length def) extra_chunk_size) ≡ true =
      ground arith in
    (
      ap (λ b. format_block r b r.block) body
          ∙ ap (format_block r true) block
          ∙ rw (format_block, asserts) refl,
      ap sending (slice-put_chunk r.wbuf (c ∷ s) def start n size there refl fits (omega arith)),
    )

-- A chunk in a response with a body, of 1 to 4064 bytes that stand in `wbuf`, is made ready by
-- `format_body_chunk`: no assertion fails, and what is to be sent is the chunk's definition, its
-- data and its end.
pub format_body_chunk-chunk_text :
    (r : Sender) (data_ : Bytes)
    → HasData r data_
    → r.responce_hasbody ≡ true
    → 0 < length data_
    → length data_ ≤ max_chunk_size
    → (r' : Sender) × (format_body_chunk r ≡ some (r', ok))
      × (r'.block ≡ sending (chunk_text data_))
      × (r'.status ≡ r.status)
      × (length r'.wbuf ≡ 4096)
      × (r'.body_bytes_out ≡ r.body_bytes_out + length data_)
unfolding put_chunk
format_body_chunk-chunk_text r data_ (size, block, there) body pos fits =
    let n = length data_ in
    let def = chunk_def n in
    let ended = memcpy r.wbuf (extra_chunk_size + n) crlf in
    let short : length def ≤ 10 = length-chunk_def n in
    let (made, text) = format_body_chunk_lem r data_ (size, block, there) body pos fits in
    let cells : length ended ≡ length r.wbuf =
      length-memcpy r.wbuf (extra_chunk_size + n) crlf (omega arith) in
    (
      put_chunk r n,
      made,
      text,
      refl,
      length-memcpy ended (extra_chunk_size - length def) def (omega arith) ∙ cells ∙ size,
      refl,
    )

-- A line without a carriage return ends where the first one stands.
find_crlf-append :
    (xs s : Bytes) → All (λ c. c ≢ 13) xs → find_crlf (xs ++ (13 ∷ 10 ∷ s)) ≡ some (length xs)
unfolding find_crlf
find_crlf-append [] s none_ = refl
find_crlf-append (c ∷ []) s (ne, none_) =
    let other : (c == 13) ≡ false = ground arith in rw (find_crlf, other) refl
find_crlf-append (c ∷ d ∷ xs) s (ne, none_) =
    let other : (c == 13) ≡ false = ground arith in
    rw (find_crlf, other, find_crlf-append (d ∷ xs) s none_) refl

hex_loop-All :
    (fuel n : ℕ) (s : Bytes) → All (λ c. c ≢ 13) s → All (λ c. c ≢ 13) (hex_loop fuel n s)
unfolding hex_loop
hex_loop-All zero n s none_ = none_
hex_loop-All (suc fuel) n s none_ =
    if_both (All (λ c. c ≢ 13)) (ltb n 16) (hex_digit n ∷ s)
      (hex_loop fuel (n / 16) (hex_digit (n % 16) ∷ s)) (ne n, none_)
      (hex_loop-All fuel (n / 16) (hex_digit (n % 16) ∷ s) (ne (n % 16), none_))
  where
    ne : (d : ℕ) → hex_digit d ≢ 13
    ne d = if_both (λ c. c ≢ 13) (ltb d 10) (48 + d) (87 + d) (λ e. omega arith) (λ e. omega arith)

-- The reader behind the definition of a chunk of `n` bytes.
behind_def : Req → ℕ → ℕ → Req
behind_def r n len = record r {
  block = drop len r.block;
  request_bytes_in = r.request_bytes_in + len;
  current_chunk_len = n + 2;
  chunk_bytes_read = 0;
}

read_def-chunk_def :
    (r : Req) (n : ℕ) (rest : Bytes)
    → r.block ≡ hex_text n ++ (13 ∷ 10 ∷ rest)
    → 0 < n
    → n ≤ max_chunk_size
    → read_def r none ≡ defined (behind_def r n (length (hex_text n) + 2))
unfolding read_def end_of_def skip_blanks behind_def hex_text digit_in hex_value
read_def-chunk_def r n rest text pos fits =
    let line : find_crlf r.block ≡ some (length (hex_text n)) =
      ap find_crlf text ∙ find_crlf-append (hex_text n) rest (hex_loop-All 8 n [] tt) in
    let number : strtol 16 r.block ≡ some (n, 13 ∷ 10 ∷ rest) =
      ap (strtol 16) text ∙ strtol-hex_text n 13 (10 ∷ rest) pos (omega arith) refl in
    let small : n % 2 ^ 32 ≡ n = omega arith in
    let wide : (n + 2) % 2 ^ 32 ≡ n + 2 = omega arith in
    let some_ : (n == 0) ≡ false = ground arith in
    let closed = strtol_open-some 16 r.block n 13 10 rest number in
    rw (read_def, line, closed, number, small, some_, wide) refl

-- A chunk that `format_body_chunk` makes is read back by `parse_chunk_data`: at a chunk definition,
-- with no data pending, one round passes over the chunk, shows its data to the caller as all
-- that is pending, and leaves what follows the chunk.
pub chunk_step-chunk_text :
    (r : Req) (data_ t : Bytes)
    → r.current_chunk_len ≡ r.chunk_bytes_read
    → r.write_to_module_pending ≡ 0
    → r.block ≡ chunk_text data_ ++ t
    → 0 < length data_
    → length data_ ≤ max_chunk_size
    → (r' : Req) × (chunk_step r none ≡ continue r' (some (data_ ++ (crlf ++ t))))
      × (r'.block ≡ t)
      × (r'.write_to_module_pending ≡ length data_)
      × (r'.current_chunk_len ≡ r'.chunk_bytes_read)
unfolding chunk_step after_def behind_def pass_over
chunk_step-chunk_text r data_ t at_def pending text pos fits =
    let n = length data_ in
    let len = length (hex_text n) + 2 in
    let r₃ = behind_def r n len in
    let split : r.block ≡ chunk_def n ++ (data_ ++ (crlf ++ t)) =
      text
      ∙ append_assoc (chunk_def n) (data_ ++ crlf) t
      ∙ ap (λ xs. chunk_def n ++ xs) (append_assoc data_ crlf t) in
    let rest : r₃.block ≡ data_ ++ (crlf ++ t) =
      ap (drop len) split
      ∙ drop-append_add (chunk_def n) (data_ ++ (crlf ++ t)) len 0
          (omega (arith, length-append (hex_text n) crlf)) in
    let size : length r₃.block ≡ n + suc (suc (length t)) =
      ap length rest ∙ length-append data_ (crlf ++ t) in
    let line = split ∙ append_assoc (hex_text n) crlf (data_ ++ (crlf ++ t)) in
    let round = read_data-pass_over r₃ none n refl (omega arith) (omega arith) (omega arith) in
    let def_next : (r.current_chunk_len == r.chunk_bytes_read) ≡ true = ground arith in
    let idle : (r.write_to_module_pending == 0) ≡ true = ground arith in
    let wide : (n + 2 == 0) ≡ false = ground arith in
    let all : passed r₃ ≡ n + 2 = omega arith in
    (
      pass_over r₃ (passed r₃) (data_among n (0 + passed r₃) - data_among n 0),
      rw
          (
            chunk_step,
            def_next,
            read_def-chunk_def r n (data_ ++ (crlf ++ t)) line pos fits,
            after_def,
            wide,
            idle,
          )
          (round
            ∙ ap
                (λ b.
                  continue
                    (pass_over r₃ (passed r₃) (data_among n (0 + passed r₃) - data_among n 0))
                    (some b))
                rest),
      ap (drop (passed r₃)) rest ∙ drop-append_add data_ (crlf ++ t) (passed r₃) 2 (omega arith),
      omega arith,
      omega arith,
    )
