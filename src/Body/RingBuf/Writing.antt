-- ===== src/Body/RingBuf/Writing.antt =====
-- The loop of `ci_ring_buf_write`, round by round.
use c_icap_server.Common.{
  ℕ, zero, suc, ◌+◌, ◌-◌, ◌≤◌, ◌<◌, min, ◌≡◌, refl, sym, subst, ap, ◌∙◌, true, false, not, ◌&&◌,
  ◌||◌, ◌++◌, append-nil, append_assoc, ltb, ◌==◌, if◌then◌else◌, length, take, drop, Bytes, memcpy,
  slice, memcpy-nil, some, length-slice, length-append, length-take, length-drop, take_add, arith,
  Bool-cases, inl, inr,
}
use c_icap_server.Body.RingBuf.{Ring, write_direct, produce, write_round, write_loop, ring_write}
use c_icap_server.Body.RingBuf.Contents.{contents, IsValid, produce-IsValid, contents-produce}

pub length-contents :
    (r : Ring)
    → IsValid r
    → length (contents r) ≡ (
        if ltb r.write_pos r.read_pos || r.full
        then r.size - r.read_pos + r.write_pos
        else r.write_pos - r.read_pos)
unfolding contents
length-contents r v = ground (
  arith,
  length-append (slice r.buf r.read_pos (r.size - r.read_pos)) (slice r.buf 0 r.write_pos),
  length-slice r.buf r.read_pos (r.size - r.read_pos),
  length-slice r.buf 0 r.write_pos,
  length-slice r.buf r.read_pos (r.write_pos - r.read_pos),
)

pub length-contents-le : (r : Ring) → IsValid r → length (contents r) ≤ r.size
length-contents-le r v = ground (arith, length-contents r v, v.full_meets)

-- What one call of `ci_ring_buf_write` takes at most: all the free bytes, but from an empty ring
-- only those up to the end of the buffer.
unfoldable pub room : Ring → ℕ
room r =
    if (r.read_pos == r.write_pos) && not r.full
    then r.size - r.write_pos
    else r.size - length (contents r)

write_direct-len :
    (r : Ring) → IsValid r → (write_direct r).more ≡ false → (write_direct r).len ≡ room r
unfolding write_direct room
write_direct-len r v h = ground (arith, length-contents r v, v.full_meets)

write_direct-len-le : (r : Ring) → IsValid r → (write_direct r).len ≤ room r
unfolding write_direct room
write_direct-len-le r v = ground (arith, length-contents r v, v.full_meets)

write_direct-pos : (r : Ring) → (write_direct r).pos ≡ r.write_pos
unfolding write_direct
write_direct-pos r = ground arith

-- What one round of writing does: `n` bytes are appended.
pub record Wrote (r r' : Ring) (bytes : Bytes) (n : ℕ) : Type 0 where
  pub valid : IsValid r'
  pub same_size : r'.size ≡ r.size
  pub appended : contents r' ≡ contents r ++ take n bytes

produce-size : (r : Ring) (n : ℕ) → (produce r n).size ≡ r.size
unfolding produce
produce-size r zero = refl
produce-size r (suc n) = refl

write_none : (r : Ring) (bytes : Bytes) → IsValid r → Wrote r r bytes 0
write_none r bytes v = record { valid = v; same_size = refl; appended = sym (append-nil _) }

write_piece :
    (r : Ring) (bytes : Bytes) (n : ℕ)
    → IsValid r
    → n ≤ (write_direct r).len
    → n ≤ length bytes
    → Wrote r
        (produce (record r { buf = memcpy r.buf (write_direct r).pos (take n bytes) }) n)
        bytes
        n
unfolding produce
write_piece r bytes zero v fits enough = rw memcpy-nil (write_none r bytes v)
write_piece r bytes (suc k) v fits enough =
    let n = suc k in
    let e : length (take n bytes) ≡ n = omega (arith, length-take n bytes) in
    rw (write_direct-pos r) (
      subst
        (λ m.
          Wrote r (produce (record r { buf = memcpy r.buf r.write_pos (take n bytes) }) m) bytes n)
        e
        (record {
          valid = produce-IsValid r (take n bytes) v (omega arith) (omega arith);
          same_size = produce-size _ _;
          appended = contents-produce r (take n bytes) v (omega arith) (omega arith);
        }))

write_count :
    (r : Ring) (bytes : Bytes) → (write_round r bytes).1 ≡ min (length bytes) (write_direct r).len
unfolding write_round
write_count r bytes = ground arith

write_round-Wrote :
    (r : Ring) (bytes : Bytes)
    → IsValid r
    → Wrote r (write_round r bytes).0 bytes (write_round r bytes).1
unfolding write_round
write_round-Wrote r bytes v = elim (Bool-cases ((write_direct r).len == 0)) [
  | inl e ↦ rw e (write_none r bytes v)
  | inr e ↦ rw e (write_piece r bytes _ v (omega arith) (omega arith))
]

write_direct-more :
    (r : Ring)
    → (write_direct r).more ≡ true
    → (r.read_pos < r.write_pos) × ((write_direct r).len ≡ r.size - r.write_pos)
unfolding write_direct
write_direct-more r h = ground arith

-- A piece that reaches the end of the buffer moves the write position to its start.
write_round-wraps :
    (r : Ring) (bytes : Bytes)
    → IsValid r
    → (write_direct r).more ≡ true
    → (write_direct r).len < length bytes
    → ((write_round r bytes).0.write_pos ≡ 0)
      × ((write_round r bytes).0.read_pos ≡ r.read_pos)
      × ((write_round r bytes).0.full ≡ (0 == r.read_pos))
unfolding write_round produce
write_round-wraps r bytes v more rest =
    let (lt, e) = write_direct-more r more in
    let f : (write_direct r).len ≡ suc (r.size - r.write_pos - 1) = omega arith in
    let g : min (length bytes) (write_direct r).len ≡ suc (r.size - r.write_pos - 1) =
      omega arith in
    rw (g, f) (ground (arith, v.full_meets))

-- So the rest of the room stands there in one piece.
write_round-last :
    (r : Ring) (bytes : Bytes)
    → IsValid r
    → (write_direct r).more ≡ true
    → (write_direct r).len < length bytes
    → ((write_direct (write_round r bytes).0).more ≡ false)
      × (room (write_round r bytes).0 + (write_direct r).len ≡ room r)
unfolding write_direct room
write_round-last r bytes v more rest =
    let (lt, e) = write_direct-more r more in
    let (w, p, f) = write_round-wraps r bytes v more rest in
    let t = write_round-Wrote r bytes v in
    let n = (write_round r bytes).1 in
    ground (
      arith,
      write_count r bytes,
      ap length t.appended,
      t.same_size,
      length-append (contents r) (take n bytes),
      length-take n bytes,
      length-contents r v,
      v.full_meets,
    )

Wrote-trans :
    (r r' r'' : Ring) (bytes : Bytes) (n m k : ℕ)
    → Wrote r r' bytes n
    → Wrote r' r'' (drop n bytes) m
    → k ≡ n + m
    → Wrote r r'' bytes k
Wrote-trans r r' r'' bytes n m k t u e = record {
  valid = u.valid;
  same_size = u.same_size ∙ t.same_size;
  appended =
      u.appended
      ∙ ap (λ xs. xs ++ take m (drop n bytes)) t.appended
      ∙ append_assoc (contents r) (take n bytes) (take m (drop n bytes))
      ∙ ap (λ xs. contents r ++ xs) (take_add n m k bytes e);
}

-- With two rounds or more the loop ends, takes what fits and appends it.
pub write_loop_lem :
    (fuel : ℕ) (r : Ring) (bytes : Bytes)
    → IsValid r
    → (r' : Ring) × (write_loop (suc (suc fuel)) r bytes 0 ≡ some (r', min (length bytes) (room r)))
      × Wrote r r' bytes (min (length bytes) (room r))
unfolding write_loop
write_loop_lem fuel r bytes v =
    let (r₁, n) = write_round r bytes in
    let t = write_round-Wrote r bytes v in
    let (r₂, m) = write_round r₁ (drop n bytes) in
    let u = write_round-Wrote r₁ (drop n bytes) t.valid in
    let count = write_count r bytes in
    let le = write_direct-len-le r v in
    elim (Bool-cases ((write_direct r).more && ltb n (length bytes))) [
      | inr stop ↦
          let e : 0 + n ≡ min (length bytes) (room r) = ground (arith, write_direct-len r v) in
          let e' : n ≡ min (length bytes) (room r) = omega arith in
          (r₁, rw stop (ap (λ k. some (r₁, k)) e), subst (Wrote r r₁ bytes) e' t)
      | inl go ↦
          let more : (write_direct r).more ≡ true = ground arith in
          let rest : (write_direct r).len < length bytes = ground arith in
          let (last, left) = write_round-last r bytes v more rest in
          let e : 0 + n + m ≡ min (length bytes) (room r) = omega (
            arith,
            write_count r₁ (drop n bytes),
            write_direct-len r₁ t.valid last,
            length-drop n bytes,
          ) in
          let e' : min (length bytes) (room r) ≡ n + m = omega arith in
          (r₂, rw (go, last) (ap (λ k. some (r₂, k)) e), Wrote-trans r r₁ r₂ bytes n m _ t u e')
    ]

-- `ci_ring_buf_write` ends; it keeps the ring well formed, takes as many bytes as `room` says, no
-- more than it is given, and appends just these to the contents.
pub ring_write_lem :
    (r : Ring) (bytes : Bytes)
    → IsValid r
    → (r' : Ring) × (ring_write r bytes ≡ some (r', min (length bytes) (room r)))
      × IsValid r'
      × (contents r' ≡ contents r ++ take (min (length bytes) (room r)) bytes)
unfolding ring_write
ring_write_lem r bytes v =
    let (r', run, t) = write_loop_lem 0 r bytes v in (r', run, t.valid, t.appended)
