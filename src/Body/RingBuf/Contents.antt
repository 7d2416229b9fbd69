-- ===== src/Body/RingBuf/Contents.antt =====
-- What a ring buffer holds, and what a single piece written to it or read from it changes.
use c_icap_server.Common.{
  ℕ, zero, suc, ◌+◌, ◌-◌, ◌≤◌, ◌<◌, ◌≡◌, ap, true, ◌||◌, [], ◌∷◌, ◌++◌, append-nil, append_assoc,
  ltb, if◌then◌else◌, length, Bytes, memcpy, slice, length-memcpy, slice-memcpy_extend,
  slice-memcpy_after, slice-append, slice-zero, arith,
}
use c_icap_server.Body.RingBuf.{Ring, write_direct, read_direct, produce, consume}

-- The unread bytes, the oldest first.
unfoldable pub contents : Ring → Bytes
contents r =
    if ltb r.write_pos r.read_pos || r.full
    then slice r.buf r.read_pos (r.size - r.read_pos) ++ slice r.buf 0 r.write_pos
    else slice r.buf r.read_pos (r.write_pos - r.read_pos)

-- Both offsets stand inside the buffer, and a full ring has them at one place.
pub record IsValid (r : Ring) : Type 0 where
  pub cells : length r.buf ≡ r.size
  pub read_in : r.read_pos < r.size
  pub write_in : r.write_pos < r.size
  pub full_meets : r.full ≡ true → r.read_pos ≡ r.write_pos

pub produce-IsValid :
    (r : Ring) (bytes : Bytes)
    → IsValid r
    → 0 < length bytes
    → length bytes ≤ (write_direct r).len
    → IsValid (produce (record r { buf = memcpy r.buf r.write_pos bytes }) (length bytes))
unfolding produce write_direct
produce-IsValid r [] v pos fits = absurd (omega arith)
produce-IsValid r (b ∷ bs) v pos fits =
    ground (arith, length-memcpy r.buf r.write_pos (b ∷ bs), v.full_meets)

pub contents-produce :
    (r : Ring) (bytes : Bytes)
    → IsValid r
    → 0 < length bytes
    → length bytes ≤ (write_direct r).len
    → contents (produce (record r { buf = memcpy r.buf r.write_pos bytes }) (length bytes))
      ≡ contents r ++ bytes
unfolding produce write_direct contents
contents-produce r [] v pos fits = absurd (omega arith)
contents-produce r (b ∷ bs) v pos fits =
    let bytes = b ∷ bs in
    let n = length bytes in
    let rp = r.read_pos in
    let wp = r.write_pos in
    ground (
      arith,
      slice-memcpy_extend r.buf wp bytes rp (wp - rp) (wp + n - rp),
      slice-memcpy_extend r.buf wp bytes rp (wp - rp) (r.size - rp),
      slice-memcpy_extend r.buf wp bytes 0 wp (wp + n),
      slice-memcpy_after r.buf wp bytes rp (r.size - rp),
      slice-zero (memcpy r.buf wp bytes) 0,
      slice-zero r.buf rp,
      append-nil (slice (memcpy r.buf wp bytes) rp (r.size - rp)),
      append_assoc (slice r.buf rp (r.size - rp)) (slice r.buf 0 wp) bytes,
      v.full_meets,
    )

pub consume-IsValid :
    (r : Ring) (n : ℕ) → IsValid r → n ≤ (read_direct r).len → IsValid (consume r n)
unfolding consume read_direct
consume-IsValid r zero v fits = v
consume-IsValid r (suc n) v fits = ground (arith, v.full_meets)

pub contents-consume :
    (r : Ring) (n : ℕ)
    → IsValid r
    → n ≤ (read_direct r).len
    → slice r.buf r.read_pos n ++ contents (consume r n) ≡ contents r
unfolding consume read_direct contents
contents-consume r zero v fits = ap (λ xs. xs ++ contents r) (slice-zero r.buf r.read_pos)
contents-consume r (suc n) v fits =
    let m = suc n in
    let rp = r.read_pos in
    let wp = r.write_pos in
    ground (
      arith,
      slice-append r.buf rp m (rp + m) (wp - (rp + m)) (wp - rp),
      slice-append r.buf rp m (rp + m) (r.size - (rp + m)) (r.size - rp),
      append_assoc (slice r.buf rp m) (slice r.buf (rp + m) (r.size - (rp + m))) (slice r.buf 0 wp),
      slice-zero r.buf 0,
      append-nil (slice r.buf rp m),
      v.full_meets,
    )
