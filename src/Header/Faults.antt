-- ===== src/Header/Faults.antt =====
-- Where `headers_terminate` runs out of the buffer.
use c_icap_server.Common.{
  ℕ, zero, suc, ◌+◌, ◌-◌, ◌≤◌, ◌≡◌, refl, ap, Bool, true, false, [], ◌∷◌, some, ltb, length, Bytes,
  Allocator, arith,
}
use c_icap_server.Header.{
  Headers, done, fault, ◌>>=◌, index_space, mem_space, grow_index, grow_buffer, headers_check_space,
  headers_terminate,
}
use c_icap_server.Header.Parsing.{
  ec_100, end_of_text, scan, scan_step, finish_index, build_index, headers_unpack,
}

mem_space-same :
    (fuel k used required : ℕ) → used + k + 4 ≤ required → mem_space fuel k used required ≡ required
unfolding mem_space
mem_space-same zero k used required h = refl
mem_space-same (suc fuel) k used required h =
    let test : ltb (required - used) (k + 4) ≡ false = ground arith in rw test refl

index_space-same :
    (fuel n used required : ℕ)
    → used + n ≤ required
    → index_space (suc fuel) n used required ≡ some required
unfolding index_space
index_space-same fuel n used required h =
    let test : ltb (required - used) n ≡ false = ground arith in rw test refl

grow_index-same : (room : Bool) (h : Headers) → grow_index room h h.size ≡ some h
unfolding grow_index
grow_index-same room h = let test : ltb h.size h.size ≡ false = ground arith in rw test refl

grow_buffer-same :
    (a : Allocator) (h : Headers) (n : ℕ) → n ≡ h.bufsize → grow_buffer a h n ≡ some h
unfolding grow_buffer
grow_buffer-same a h n e = let test : ltb h.bufsize n ≡ false = ground arith in rw test refl

-- Where there is space, `headers_check_space` changes nothing.
headers_check_space-same :
    (a : Allocator) (room : Bool) (h : Headers) (n k : ℕ)
    → length h.headers + n ≤ h.size
    → h.bufused + k + 4 ≤ h.bufsize
    → headers_check_space a room h n k ≡ (h, true)
unfolding headers_check_space
headers_check_space-same a room h n k fits space =
    rw
      (
        headers_check_space,
        index_space-same 32 n (length h.headers) h.size fits,
        grow_index-same room h,
        grow_buffer-same a h (mem_space (k + 5) k h.bufused h.bufsize)
            (mem_space-same (k + 5) k h.bufused h.bufsize space),
      )
      refl

-- A text that is only a CR LF: the bytes are taken off one by one until one before the buffer is
-- read.
pub headers_unpack-fault :
    (a : Allocator) (room : Bool) (size bufsize : ℕ) (rest : Bytes)
    → 1 ≤ size
    → 6 ≤ bufsize
    → headers_unpack a room (record {
      size = size;
      headers = [];
      bufsize = bufsize;
      bufused = 2;
      buf = 13 ∷ 10 ∷ rest;
      packed = false;
    })
      ≡ fault
unfolding headers_unpack build_index finish_index end_of_text scan scan_step
headers_unpack-fault a room size bufsize rest fits space =
    let h₁ : Headers = record {
      size = size;
      headers = 0 ∷ [];
      bufsize = bufsize;
      bufused = 2;
      buf = 0 ∷ 10 ∷ rest;
      packed = false;
    } in
    ap (λ p. headers_terminate p.0 >>= λ h₂. done (h₂, ec_100))
      (headers_check_space-same a room h₁ 0 0 (omega arith) (omega arith))
