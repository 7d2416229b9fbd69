-- ===== src/Request/Chunks/Progress.antt =====
-- `parse_chunk_data` ends.
use c_icap_server.Common.{
  ℕ, zero, suc, ◌-◌, ◌^◌, ◌≤◌, ◌<◌, ◌≡◌, ◌≢◌, inl, inr, not, Option, none, some, ltb, leb, ◌==◌,
  if◌then◌else◌, length, Bytes, Bool-cases, if_both, if_either, false, length-drop, arith,
}
use c_icap_server.Request.Chunks.{
  Req, ci_error, Outcome, Defined, defined, stops, Step, again, done, read_def, remains, pass_over,
  continue, read_data, after_def, chunk_step, chunk_loop, parse_chunk_data,
}
use c_icap_server.Request.Chunks.Sizes.{
  Ends, returned, SmallSizes, drop-SmallSizes, Shorter, shorter, stopped, read_def-Shorter,
}

-- A chunk is below 2 ^ 31 bytes and not passed over by more than its length, and so are those of
-- which a definition may follow.
abbrev pub IsReq : Req → Type 0
IsReq r =
    (r.chunk_bytes_read ≤ r.current_chunk_len) × (r.current_chunk_len < 2 ^ 31) × SmallSizes r.block

-- A round that is followed by another one passes over a byte at least.
data Advances (n : ℕ) : Step → Type 0 where
  advances : {r : Req} {w : Option Bytes} → length r.block < n → IsReq r → Advances n (again r w)
  ended : {o : Outcome} → Ends o → Advances n (done o)

continue-Advances :
    (r : Req) (w : Option Bytes) (n : ℕ) → length r.block < n → IsReq r → Advances n (continue r w)
continue-Advances r w n lt valid =
    if_both (Advances n) (length r.block == 0) _ _ (ended returned) (advances lt valid)

read_data-Advances :
    (r : Req) (w : Option Bytes) (n : ℕ)
    → IsReq r
    → remains r ≢ 0
    → length r.block ≤ n
    → Advances n (read_data r w)
unfolding read_data pass_over
read_data-Advances r w n (within, fits, small) ne le = elim (Bool-cases (length r.block == 0)) [
  | inl e ↦ rw (read_data, e) (ended returned)
  | inr e ↦
      let some_ : 0 < length r.block = ground arith in
      let exact : remains r ≡ r.current_chunk_len - r.chunk_bytes_read = omega arith in
      let forward : leb (2 ^ 31) (remains r) ≡ false = ground arith in
      let taken = if ltb 2 (remains r) then remains r - 2 else 0 in
      let missing = remains r - length r.block in
      let part = if ltb missing 2 then length r.block - missing else length r.block in
      let whole = pass_over r (remains r) taken in
      let most = pass_over r (length r.block) part in
      rw (read_data, e, forward)
        (if_either (Advances n) (leb (remains r) (length r.block)) _ _
          (λ f.
            continue-Advances whole (some r.block) n
              (omega (arith, length-drop (remains r) r.block))
              (omega arith, fits, drop-SmallSizes (remains r) r.block small))
          (λ f.
            continue-Advances most (some r.block) n
              (omega (arith, length-drop (length r.block) r.block))
              (ground arith, fits, drop-SmallSizes (length r.block) r.block small)))
]

after_def-Advances :
    (r : Req) (w : Option Bytes) (n : ℕ)
    → IsReq r
    → (r.current_chunk_len ≢ 0 → remains r ≢ 0)
    → length r.block ≤ n
    → Advances n (after_def r w)
unfolding after_def
after_def-Advances r w n valid ne le = elim (Bool-cases (r.current_chunk_len == 0)) [
  | inl e ↦ rw (after_def, e) (ended returned)
  | inr e ↦
      rw (after_def, e)
        (if_both (Advances n) (not (r.write_to_module_pending == 0)) _ _ (ended returned)
          (read_data-Advances r w n valid (ne (ground arith)) le))
]

after_read :
    (d : Defined) (w : Option Bytes) (n : ℕ)
    → Shorter n d
    → Advances n (elim d as (λ _. Step) [ stops o ↦ done o | defined r ↦ after_def r w ])
after_read (stops o) w n (stopped ends) = ended ends
after_read (defined r) w n (shorter lt fits fresh small) =
    after_def-Advances r w n (omega arith, fits, small) (λ ne. omega arith) (omega arith)

chunk_step-Advances :
    (r : Req) (w : Option Bytes) → IsReq r → Advances (length r.block) (chunk_step r w)
unfolding chunk_step
chunk_step-Advances r w (within, fits, small) =
    elim (Bool-cases (r.current_chunk_len == r.chunk_bytes_read)) [
      | inl e ↦
          rw (chunk_step, e)
            (after_read (read_def r w) w (length r.block) (read_def-Shorter r w small))
      | inr e ↦
          rw (chunk_step, e)
            (after_def-Advances r w (length r.block) (within, fits, small) (λ _. ground arith)
              (omega arith))
    ]

-- A round ends the loop, or all that follows it does.
outcome-Ends :
    (f : Req → Option Bytes → Outcome) (n : ℕ) (s : Step)
    → Advances n s
    → ((r : Req) (w : Option Bytes) → IsReq r → length r.block < n → Ends (f r w))
    → Ends (elim s as (λ _. Outcome) [ done o ↦ o | again r w ↦ f r w ])
outcome-Ends f n (done o) (ended ends) rest = ends
outcome-Ends f n (again r w) (advances lt valid) rest = rest r w valid lt

chunk_loop-Ends :
    (fuel : ℕ) (r : Req) (w : Option Bytes)
    → IsReq r
    → length r.block < fuel
    → Ends (chunk_loop fuel r w)
unfolding chunk_loop
chunk_loop-Ends zero r w valid lt = absurd (omega arith)
chunk_loop-Ends (suc fuel) r w valid lt =
    outcome-Ends (chunk_loop fuel) (length r.block) (chunk_step r w) (chunk_step-Advances r w valid)
      (λ r' w' valid' lt'. chunk_loop-Ends fuel r' w' valid' (omega arith))

-- If the chunk that is read is shorter than 2 ^ 31 with its end and not passed over by more, and at
-- no place of the block stands a hexadecimal number that is not, then `parse_chunk_data` never moves
-- `pstrblock_read` back, and its loop ends after at most a round more than there are bytes: the
-- function returns, or it has read behind the block.
pub parse_chunk_data-Ends : (r : Req) → IsReq r → Ends (parse_chunk_data r)
unfolding parse_chunk_data
parse_chunk_data-Ends r valid =
    if_both Ends (r.write_to_module_pending == 0) _ _
      (chunk_loop-Ends (suc (length r.block)) r none valid (omega arith))
      (returned {s = ci_error} {r = r} {w = none})
