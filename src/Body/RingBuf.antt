-- ===== src/Body/RingBuf.antt =====
-- body.c, `ci_ring_buf_t`: a fixed buffer in memory that is written at one end and read at the
-- other. A pointer into the buffer is its offset from `buf`; `size` is `end_buf - buf + 1`, so
-- that `pos > end_buf` is `size ≤ pos`. A chunk that a caller passes is the list of its bytes.
-- The counters `written` and `data_read` are `int`s: chunks stay below 2 ^ 31 bytes.
pub mod Contents
pub mod Writing
pub mod Reading
use c_icap_server.Common.{
  ℕ, zero, suc, ◌+◌, ◌-◌, min, Bool, true, false, not, ◌&&◌, Option, none, some, [], ◌++◌, ltb, leb,
  ◌==◌, if◌then◌else◌, length, take, drop, Bytes, memcpy, slice,
}

pub record Ring : Type 0 where
  pub buf : Bytes
  pub size : ℕ
  pub read_pos : ℕ
  pub write_pos : ℕ
  pub full : Bool

-- `ci_ring_buf_new`; `alloc` is what the allocator of the buffer returns for the size.
unfoldable pub ring_new : (ℕ → Option Bytes) → ℕ → Option Ring
ring_new alloc n = elim (alloc n) [
  | none ↦ none
  | some cells ↦ some (record { buf = cells; size = n; read_pos = 0; write_pos = 0; full = false })
]

unfoldable pub ring_is_empty : Ring → Bool
ring_is_empty r = (r.read_pos == r.write_pos) && not r.full

-- What the two `_direct` functions return: where the next piece stands, how long it is, and
-- whether another piece follows at the start of the buffer.
pub record Span : Type 0 where
  pub pos : ℕ
  pub len : ℕ
  pub more : Bool

unfoldable pub write_direct : Ring → Span
write_direct r =
    if (r.read_pos == r.write_pos) && not r.full
    then record { pos = r.write_pos; len = r.size - r.write_pos; more = false }
    else if leb r.write_pos r.read_pos
    then record { pos = r.write_pos; len = r.read_pos - r.write_pos; more = false }
    else record { pos = r.write_pos; len = r.size - r.write_pos; more = true }

unfoldable pub read_direct : Ring → Span
read_direct r =
    if (r.read_pos == r.write_pos) && not r.full
    then record { pos = r.read_pos; len = 0; more = false }
    else if leb r.write_pos r.read_pos
    then record { pos = r.read_pos; len = r.size - r.read_pos; more = not (r.read_pos == 0) }
    else record { pos = r.read_pos; len = r.write_pos - r.read_pos; more = false }

unfoldable pub consume : Ring → ℕ → Ring
consume r zero = r
consume r (suc n) =
    let pos = r.read_pos + suc n in
    record r { read_pos = if leb r.size pos then 0 else pos; full = false }

unfoldable pub produce : Ring → ℕ → Ring
produce r zero = r
produce r (suc n) =
    let pos = r.write_pos + suc n in
    let next = if leb r.size pos then 0 else pos in
    record r { write_pos = next; full = if next == r.read_pos then true else r.full }

-- One round of the loop of `ci_ring_buf_write`: the ring and the number of bytes that it took.
unfoldable pub write_round : Ring → Bytes → Ring × ℕ
write_round r bytes =
    let wb = write_direct r in
    let n = min (length bytes) wb.len in
    if wb.len == 0
    then (r, 0)
    else (produce (record r { buf = memcpy r.buf wb.pos (take n bytes) }) n, n)

-- The loop of `ci_ring_buf_write` with fuel for its rounds; `none` means that the fuel ran out.
unfoldable pub write_loop : ℕ → Ring → Bytes → ℕ → Option (Ring × ℕ)
write_loop zero r bytes written = none
write_loop (suc fuel) r bytes written =
    let (r', n) = write_round r bytes in
    let rest = write_loop fuel r' (drop n bytes) (written + n) in
    if (write_direct r).more && ltb n (length bytes) then rest else some (r', written + n)

-- One round of the loop of `ci_ring_buf_read`: the ring, the bytes that it copied out and their
-- number.
unfoldable pub read_round : Ring → ℕ → Ring × Bytes × ℕ
read_round r size =
    let rb = read_direct r in
    let n = min size rb.len in
    if rb.len == 0 then (r, [], 0) else (consume r n, slice r.buf rb.pos n, n)

unfoldable pub read_loop : ℕ → Ring → ℕ → Bytes → Option (Ring × Bytes)
read_loop zero r size out = none
read_loop (suc fuel) r size out =
    let (r', bytes, n) = read_round r size in
    let rest = read_loop fuel r' (size - n) (out ++ bytes) in
    if (read_direct r).more && ltb n size then rest else some (r', out ++ bytes)

-- The loops make at most two rounds, which the modules `Writing` and `Reading` show.
unfoldable pub ring_write : Ring → Bytes → Option (Ring × ℕ)
unfolding write_loop
ring_write r bytes = write_loop 2 r bytes 0

unfoldable pub ring_read : Ring → ℕ → Option (Ring × Bytes)
unfolding read_loop
ring_read r size = read_loop 2 r size []
