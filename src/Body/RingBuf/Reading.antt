-- ===== src/Body/RingBuf/Reading.antt =====
-- The loop of `ci_ring_buf_read`, round by round, and the ring as a queue.
use c_icap_server.Common.{
  ℕ, suc, ◌+◌, ◌-◌, ◌≤◌, ◌<◌, min, ◌≡◌, refl, sym, ap, ◌∙◌, true, false, ◌&&◌, [], ◌++◌, append-nil,
  append_assoc, ltb, ◌==◌, length, take, Bytes, some, length-slice, nil_of_length, length-append,
  length-take, arith, Bool-cases, inl, inr, ◌>>=◌,
}
use c_icap_server.Body.RingBuf.{
  Ring, read_direct, consume, read_round, read_loop, ring_write, ring_read,
}
use c_icap_server.Body.RingBuf.Contents.{contents, IsValid, consume-IsValid, contents-consume}
use c_icap_server.Body.RingBuf.Writing.{length-contents, room, ring_write_lem}

read_direct-pos : (r : Ring) → (read_direct r).pos ≡ r.read_pos
unfolding read_direct
read_direct-pos r = ground arith

read_direct-len-le : (r : Ring) → IsValid r → (read_direct r).len ≤ length (contents r)
unfolding read_direct
read_direct-len-le r v = ground (arith, length-contents r v, v.full_meets)

read_direct-len :
    (r : Ring)
    → IsValid r
    → (read_direct r).more ≡ false
    → (read_direct r).len ≡ length (contents r)
unfolding read_direct
read_direct-len r v h = ground (arith, length-contents r v, v.full_meets)

read_direct-in : (r : Ring) → IsValid r → r.read_pos + (read_direct r).len ≤ length r.buf
unfolding read_direct
read_direct-in r v = ground (arith, v.full_meets)

-- What a round, or the loop, of reading does: it takes `bytes` from the front.
pub record Took (r r' : Ring) (bytes : Bytes) : Type 0 where
  pub valid : IsValid r'
  pub front : contents r ≡ bytes ++ contents r'

read_round-Took :
    (r : Ring) (size : ℕ)
    → IsValid r
    → Took r (read_round r size).0 (read_round r size).1
      × ((read_round r size).2 ≡ min size (read_direct r).len)
      × (length (read_round r size).1 ≡ min size (read_direct r).len)
unfolding read_round
read_round-Took r size v = elim (Bool-cases ((read_direct r).len == 0)) [
  | inl e ↦ rw e (record { valid = v; front = refl }, ground arith, ground arith)
  | inr e ↦
      let n = min size (read_direct r).len in
      rw (e, read_direct-pos r)
        (
          record {
            valid = consume-IsValid r n v (omega arith);
            front = sym (contents-consume r n v (omega arith));
          },
          refl,
          length-slice r.buf r.read_pos n (omega (arith, read_direct-in r v)),
        )
]

read_direct-more :
    (r : Ring)
    → (read_direct r).more ≡ true
    → (r.write_pos ≤ r.read_pos) × ((read_direct r).len ≡ r.size - r.read_pos)
unfolding read_direct
read_direct-more r h = ground arith

read_round-wraps :
    (r : Ring) (size : ℕ)
    → IsValid r
    → (read_direct r).more ≡ true
    → (read_direct r).len < size
    → (read_round r size).0.read_pos ≡ 0
unfolding read_round consume
read_round-wraps r size v more rest =
    let (le, e) = read_direct-more r more in
    let f : (read_direct r).len ≡ suc (r.size - r.read_pos - 1) = omega arith in
    let g : min size (read_direct r).len ≡ suc (r.size - r.read_pos - 1) = omega arith in
    rw (g, f) (ground arith)

-- A piece that reaches the end of the buffer leaves the rest in one piece at its start.
read_round-last :
    (r : Ring) (size : ℕ)
    → IsValid r
    → (read_direct r).more ≡ true
    → (read_direct r).len < size
    → (read_direct (read_round r size).0).more ≡ false
unfolding read_direct
read_round-last r size v more rest = ground (arith, read_round-wraps r size v more rest)

Took-trans :
    (r r' r'' : Ring) (xs ys : Bytes) → Took r r' xs → Took r' r'' ys → Took r r'' (xs ++ ys)
Took-trans r r' r'' xs ys t u = record {
  valid = u.valid;
  front = t.front ∙ ap (λ zs. xs ++ zs) u.front ∙ sym (append_assoc xs ys (contents r''));
}

pub read_loop_lem :
    (fuel : ℕ) (r : Ring) (size : ℕ)
    → IsValid r
    → (r' : Ring) × (out : Bytes) × (read_loop (suc (suc fuel)) r size [] ≡ some (r', out))
      × (length out ≡ min size (length (contents r)))
      × Took r r' out
unfolding read_loop
read_loop_lem fuel r size v =
    let (r₁, xs, n) = read_round r size in
    let (t, count, len) = read_round-Took r size v in
    let (r₂, ys, m) = read_round r₁ (size - n) in
    let (u, count₂, len₂) = read_round-Took r₁ (size - n) t.valid in
    let le = read_direct-len-le r v in
    elim (Bool-cases ((read_direct r).more && ltb n size)) [
      | inr stop ↦ (r₁, xs, rw stop, ground (arith, read_direct-len r v), t)
      | inl go ↦
          let more : (read_direct r).more ≡ true = ground arith in
          let rest : (read_direct r).len < size = ground arith in
          let last = read_round-last r size v more rest in
          (
            r₂,
            xs ++ ys,
            rw (go, last),
            omega (
              arith,
              length-append xs ys,
              read_direct-len r₁ t.valid last,
              ap length t.front,
              length-append xs (contents r₁),
            ),
            Took-trans r r₁ r₂ xs ys t u,
          )
    ]

-- `ci_ring_buf_read` ends; it keeps the ring well formed and removes bytes from the front of the
-- contents, as many as are asked for and there.
pub ring_read_lem :
    (r : Ring) (size : ℕ)
    → IsValid r
    → (r' : Ring) × (out : Bytes) × (ring_read r size ≡ some (r', out))
      × IsValid r'
      × (length out ≡ min size (length (contents r)))
      × (contents r ≡ out ++ contents r')
unfolding ring_read
ring_read_lem r size v =
    let (r', out, run, len, t) = read_loop_lem 0 r size v in (r', out, run, t.valid, len, t.front)

-- What `ci_ring_buf_write` took is what `ci_ring_buf_read` gives back behind the bytes that were
-- there: a read of them all returns the old contents and then the bytes taken, and leaves the ring
-- empty.
pub ring_read-ring_write :
    (r : Ring) (bytes : Bytes)
    → IsValid r
    → (r' : Ring) × ((ring_write r bytes >>= λ w. ring_read w.0 (length (contents r) + w.1))
        ≡ some (r', contents r ++ take (min (length bytes) (room r)) bytes))
      × (contents r' ≡ [])
ring_read-ring_write r bytes v =
    let (r₁, run, v₁, e) = ring_write_lem r bytes v in
    let n = min (length bytes) (room r) in
    let (r₂, out, run₂, v₂, len, front) = ring_read_lem r₁ (length (contents r) + n) v₁ in
    let len₁ = length-append (contents r) (take n bytes) in
    let all : length out ≡ length (contents r₁) =
      omega (arith, ap length e, length-append (contents r) (take n bytes), length-take n bytes) in
    let none_left : length (contents r₂) ≡ 0 =
      omega (arith, ap length front, length-append out (contents r₂)) in
    let gone : contents r₂ ≡ [] = nil_of_length (contents r₂) none_left in
    let same : out ≡ contents r ++ take n bytes =
      sym (append-nil out) ∙ ap (λ xs. out ++ xs) (sym gone) ∙ sym front ∙ e in
    (r₂, rw run (run₂ ∙ ap (λ xs. some (r₂, xs)) same), gone)
