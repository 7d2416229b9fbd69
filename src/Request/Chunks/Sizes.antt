-- ===== src/Request/Chunks/Sizes.antt =====
-- A chunk definition passes over its line, and its size is one that was read in the block.
use c_icap_server.Common.{
  ℕ, zero, suc, ◌+◌, ◌-◌, ◌%◌, ◌^◌, ◌<◌, ◌≡◌, inl, inr, refl, not, ◌&&◌, Option, none, some, [],
  ◌∷◌, ltb, leb, ◌==◌, if◌then◌else◌, length, drop, codes, Bytes, if_both, strtol_open, subst,
  Option-cases, length-drop, arith, strtol,
}
use c_icap_server.Request.Chunks.{
  Req, Status, ci_needs_more, ci_error, Outcome, returns, fault, Defined, defined, stops, find_crlf,
  skip_to_cr, end_of_def, extension, last_chunk, read_def, is_cr, is_lf_next, end_of_extension,
  skip_blanks, starts_with, original_body, behind_number, buf_size,
}

-- The function has returned, or the loop has read behind the block.
pub data Ends : Outcome → Type 0 where
  returned : {s : Status} {r : Req} {w : Option Bytes} → Ends (returns s r w)
  faulted : Ends fault

-- A size that `strtol` has read fits an `int` together with the two end characters of the chunk.
abbrev pub Fits : Option (ℕ × Bytes) → Type 0
Fits none = Unit
Fits (some (long, rest)) = long % 2 ^ 32 + 2 < 2 ^ 31

-- At no place of the text stands a number that does not.
abbrev pub SmallSizes : Bytes → Type 0
SmallSizes [] = Unit
SmallSizes (c ∷ s) = Fits (strtol 16 (c ∷ s)) × SmallSizes s

pub drop-SmallSizes : (k : ℕ) (s : Bytes) → SmallSizes s → SmallSizes (drop k s)
drop-SmallSizes zero s small = small
drop-SmallSizes (suc k) [] small = tt
drop-SmallSizes (suc k) (c ∷ s) (fits, small) = drop-SmallSizes k s small

SmallSizes-Fits :
    (s : Bytes) (long : ℕ) (rest : Bytes)
    → SmallSizes s
    → 0 < length s
    → strtol 16 s ≡ some (long, rest)
    → long % 2 ^ 32 + 2 < 2 ^ 31
SmallSizes-Fits [] long rest small pos e = absurd (omega arith)
SmallSizes-Fits (c ∷ s) long rest (fits, small) pos e = subst Fits e fits

-- A chunk whose data is still to come, with `n` bytes unread.
abbrev IsStart : ℕ → Req → Type 0
IsStart n r =
    (length r.block ≡ n)
    × (0 < n)
    × (r.current_chunk_len < 2 ^ 31)
    × (r.chunk_bytes_read ≡ 0)
    × SmallSizes r.block

-- A definition makes the block shorter than `n`, or ends the loop.
pub data Shorter (n : ℕ) : Defined → Type 0 where
  shorter :
      {r : Req}
      → length r.block < n
      → r.current_chunk_len < 2 ^ 31
      → r.chunk_bytes_read ≡ 0
      → SmallSizes r.block
      → Shorter n (defined r)
  stopped : {o : Outcome} → Ends o → Shorter n (stops o)

find_crlf-lt : (s : Bytes) (at : ℕ) → find_crlf s ≡ some at → 0 < length s
unfolding find_crlf
find_crlf-lt [] at e = ground arith
find_crlf-lt (c ∷ s) at e = omega arith

end_of_def-Shorter :
    (r : Req) (s : Bytes) (len n : ℕ) (w : Option Bytes)
    → 0 < len
    → IsStart n r
    → Shorter n (end_of_def r s len w)
unfolding end_of_def
end_of_def-Shorter r [] len n w pos start = stopped faulted
end_of_def-Shorter r (c ∷ []) len n w pos start =
    stopped (if_both Ends (c == 13) _ _ faulted returned)
end_of_def-Shorter r (c ∷ d ∷ s) len n w pos (size, some_, fits, fresh, small) =
    if_both (Shorter n) ((c == 13) && (d == 10)) _ _
      (shorter (omega (arith, length-drop len r.block)) fits fresh
        (drop-SmallSizes len r.block small))
      (stopped returned)

end_of_extension-Shorter :
    (r : Req) (s : Bytes) (len n : ℕ) (w : Option Bytes)
    → 0 < len
    → IsStart n r
    → Shorter n (end_of_extension r s len w)
unfolding end_of_extension
end_of_extension-Shorter r s len n w pos start = elim (Option-cases (skip_to_cr s)) [
  | inl e ↦ rw (end_of_extension, e) (stopped faulted)
  | inr (s', e) ↦ rw (end_of_extension, e) (end_of_def-Shorter _ s' len n w pos start)
]

extension-Shorter :
    (r : Req) (s : Bytes) (len n : ℕ) (w : Option Bytes)
    → 0 < len
    → IsStart n r
    → Shorter n (extension r s len w)
unfolding extension
extension-Shorter r s len n w pos start =
    let end = skip_blanks s in
    let number = drop 18 end in
    let original = leb 18 (length end) && starts_with (codes "use-original-body=") end in
    let other = leb 4 (length end) && not (starts_with (codes "ieof") end) in
    let r' = record r { i206_use_original_body = some (original_body number) } in
    if_both (Shorter n) original _ _
      (if_both (Shorter n) (strtol_open 10 number) _ _ (stopped faulted)
        (end_of_extension-Shorter r' (behind_number number) len n w pos start))
      (if_both (Shorter n) other _ _ (stopped (returned {s = ci_error} {r = r} {w = w}))
        (end_of_extension-Shorter r end len n w pos start))

at_end :
    (r : Req) (end : Bytes) (len n : ℕ) (w : Option Bytes)
    → IsStart n r
    → Shorter n (elim end as (λ _. Defined) [
      | [] ↦ stops fault
      | c ∷ s ↦ if c == b';' then extension r s (len + 2) w else end_of_def r (c ∷ s) (len + 2) w
    ])
at_end r [] len n w start = stopped faulted
at_end r (c ∷ s) len n w start =
    if_both (Shorter n) (c == b';') _ _ (extension-Shorter r s (len + 2) n w (omega arith) start)
      (end_of_def-Shorter r (c ∷ s) (len + 2) n w (omega arith) start)

last_chunk-Shorter :
    (r : Req) (end eof : Bytes) (len n : ℕ) (w : Option Bytes)
    → IsStart n r
    → Shorter n (last_chunk r end eof len w)
unfolding last_chunk
last_chunk-Shorter r end eof len n w start =
    let r' = record r { request_bytes_in = r.request_bytes_in + 2 } in
    if_both (Shorter n) (ltb (length r.block - len) 2) _ _
      (stopped (returned {s = ci_needs_more} {r = r} {w = w}))
      (if_both (Shorter n) (not (is_cr eof) && not (is_lf_next eof)) _ _
        (stopped (returned {s = ci_error} {r = r} {w = w})) (at_end r' end len n w start))

pub read_def-Shorter :
    (r : Req) (w : Option Bytes) → SmallSizes r.block → Shorter (length r.block) (read_def r w)
unfolding read_def
read_def-Shorter r w small = elim (Option-cases (find_crlf r.block)) [
  | inl e ↦
      rw (read_def, e)
        (stopped (
          if_both Ends (leb buf_size (length r.block)) _ _ (returned {s = ci_error} {r = r} {w = w})
            (returned {s = ci_needs_more} {r = r} {w = w})))
  | inr (at, e) ↦ elim (Option-cases (strtol 16 r.block)) [
    | inl f ↦
        rw (read_def, e, f)
          (if_both (Shorter (length r.block)) (strtol_open 16 r.block) _ _ (stopped faulted)
            (stopped returned))
    | inr ((long, rest), f) ↦
        let some_ : 0 < length r.block = omega (arith, find_crlf-lt r.block at e) in
        let fits = SmallSizes-Fits r.block long rest small some_ f in
        let r₁ = record r {
          request_bytes_in = r.request_bytes_in + (at + 2);
          current_chunk_len = long % 2 ^ 32;
          chunk_bytes_read = 0;
        } in
        let r₂ = record r₁ { current_chunk_len = (long % 2 ^ 32 + 2) % 2 ^ 32 } in
        rw (read_def, e, f)
          (if_both (Shorter (length r.block)) (strtol_open 16 r.block) _ _ (stopped faulted) (
            if_both (Shorter (length r.block)) (long % 2 ^ 32 == 0) _ _
              (last_chunk-Shorter r₁ (skip_blanks rest) (drop (at + 2) r.block) (at + 2)
                (length r.block) w (refl, some_, omega arith, refl, small))
              (end_of_def-Shorter r₂ (skip_blanks rest) (at + 2) (length r.block) w (omega arith)
                (refl, some_, omega arith, refl, small))))
  ]
]
