-- ===== src/Request/Chunks/Counts.antt =====
-- How `parse_chunk_data` counts the data of a chunk, however it is cut into blocks.
use c_icap_server.Common.{
  ℕ, ◌+◌, ◌-◌, ◌%◌, ◌^◌, ◌<◌, min, ◌≡◌, inl, inr, ap, ◌∙◌, false, Option, some, ltb, leb, ◌==◌,
  if◌then◌else◌, length, drop, Bytes, Bool-cases, arith,
}
use c_icap_server.Request.Chunks.{
  Req, Step, again, done, returns, ci_needs_more, remains, pass_over, continue, read_data,
}

-- The bytes of a chunk's data among its first `k` bytes: the chunk's end is not data.
abbrev pub data_among : ℕ → ℕ → ℕ
data_among n k = min n k

-- The bytes of the chunk that a round passes over.
abbrev pub passed : Req → ℕ
passed r = min (length r.block) (r.current_chunk_len - r.chunk_bytes_read)

same_round :
    (r : Req) (k k' p p' : ℕ)
    → k ≡ k'
    → p ≡ p'
    → continue (pass_over r k p) (some r.block) ≡ continue (pass_over r k' p') (some r.block)
same_round r k k' p p' e f =
    ap (λ j. continue (pass_over r j p) (some r.block)) e
    ∙ ap (λ q. continue (pass_over r k' q) (some r.block)) f

-- The data among the bytes that a round passes over, in a chunk of `n` bytes of data.
abbrev pub handed : Req → ℕ → ℕ
handed r n = data_among n (r.chunk_bytes_read + passed r) - data_among n r.chunk_bytes_read

-- A round in the middle of a chunk of `n` bytes of data passes over the first bytes of the block;
-- the data among them is pending, and is counted.
abbrev pub after_data : Req → ℕ → Req
after_data r n = record r {
  block = drop (passed r) r.block;
  chunk_bytes_read = r.chunk_bytes_read + passed r;
  write_to_module_pending = handed r n;
  http_bytes_in = r.http_bytes_in + handed r n;
  body_bytes_in = r.body_bytes_in + handed r n;
  request_bytes_in = r.request_bytes_in + passed r;
}

-- With an empty block the reader waits for more bytes.
abbrev pub next_round : Req → Option Bytes → Step
next_round r w = if length r.block == 0 then done (returns ci_needs_more r w) else again r w

pub read_data-pass_over :
    (r : Req) (w : Option Bytes) (n : ℕ)
    → r.current_chunk_len ≡ n + 2
    → n + 2 < 2 ^ 31
    → r.chunk_bytes_read < n + 2
    → 0 < length r.block
    → read_data r w ≡ continue (pass_over r (passed r) (handed r n)) (some r.block)
unfolding read_data
read_data-pass_over r w n size fits lt some_ =
    let rest : remains r ≡ n + 2 - r.chunk_bytes_read = omega arith in
    let filled : (length r.block == 0) ≡ false = ground arith in
    let positive : leb (2 ^ 31) (remains r) ≡ false = ground arith in
    let end = if ltb 2 (remains r) then remains r - 2 else 0 in
    let missing = remains r - length r.block in
    let part = if ltb missing 2 then length r.block - missing else length r.block in
    elim (Bool-cases (leb (remains r) (length r.block))) [
      | inl e ↦
          rw (read_data, filled, positive, e)
            (same_round r (remains r) (passed r) end (handed r n) (ground arith) (ground arith))
      | inr e ↦
          rw (read_data, filled, positive, e)
            (same_round r (length r.block) (passed r) part (handed r n) (ground arith)
              (ground arith))
    ]

pass_over-after_data :
    (r : Req) (n : ℕ)
    → r.current_chunk_len ≡ n + 2
    → n + 2 < 2 ^ 31
    → r.chunk_bytes_read < n + 2
    → pass_over r (passed r) (handed r n) ≡ after_data r n
unfolding pass_over
pass_over-after_data r n size fits lt =
    let exact : (r.chunk_bytes_read + passed r) % 2 ^ 32 ≡ r.chunk_bytes_read + passed r =
      omega arith in
    ap (λ k. record (after_data r n) { chunk_bytes_read = k }) exact

-- In a chunk of `n` bytes of data and its two end characters, shorter than 2 ^ 31 and not passed
-- over to its end, a round of `parse_chunk_data` with bytes in the block passes over as much of the
-- chunk as the block holds, at least a byte, and counts these bytes; it hands on, from the byte where
-- the caller's pointer shows, just the data among them, and counts it as data.
pub read_data_lem :
    (r : Req) (w : Option Bytes) (n : ℕ)
    → r.current_chunk_len ≡ n + 2
    → n + 2 < 2 ^ 31
    → r.chunk_bytes_read < n + 2
    → 0 < length r.block
    → (0 < passed r) × (read_data r w ≡ next_round (after_data r n) (some r.block))
read_data_lem r w n size fits lt some_ = (
  omega arith,
  read_data-pass_over r w n size fits lt some_
      ∙ ap (λ r'. continue r' (some r.block)) (pass_over-after_data r n size fits lt),
)
