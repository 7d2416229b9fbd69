-- ===== src/Tests/RingBuf.antt =====
-- `ci_ring_buf_t` at concrete inputs.
use c_icap_server.Common.{
  ◌+◌, min, ◌≡◌, refl, true, false, some, [], ◌++◌, length, take, Bytes, codes, memcpy, slice,
  ◌>>=◌, arith,
}
use c_icap_server.Body.RingBuf.{Ring, ring_write, ring_read, write_round, write_direct, produce}
use c_icap_server.Body.RingBuf.Contents.{contents, IsValid}
use c_icap_server.Body.RingBuf.Writing.{room, ring_write_lem}
use c_icap_server.Body.RingBuf.Reading.{ring_read_lem, ring_read-ring_write}

-- Four of five cells in use, the last byte at the start of the buffer.
abbrev wrapped : Ring
wrapped = record { buf = codes "dxabc"; size = 5; read_pos = 2; write_pos = 1; full = false }

wrapped-IsValid : IsValid wrapped
wrapped-IsValid = record {
  cells = refl;
  read_in = omega arith;
  write_in = omega arith;
  full_meets = λ h. cc;
}

contents_of_wrapped : contents wrapped ≡ codes "abcd"
unfolding contents slice
contents_of_wrapped = refl

wrapped_write :
    ring_write wrapped (codes "yz")
    ≡ some (record wrapped { buf = codes "dyabc"; write_pos = 2; full = true }, 1)
unfolding ring_write write_round write_direct produce memcpy
wrapped_write = refl

ring_write_example :
    (r' : Ring) × (ring_write wrapped (codes "yz") ≡ some (r', min 2 (room wrapped)))
    × IsValid r'
    × (contents r' ≡ contents wrapped ++ take (min 2 (room wrapped)) (codes "yz"))
ring_write_example = ring_write_lem wrapped (codes "yz") wrapped-IsValid

ring_read_example :
    (r' : Ring) × (out : Bytes) × (ring_read wrapped 9 ≡ some (r', out))
    × IsValid r'
    × (length out ≡ min 9 (length (contents wrapped)))
    × (contents wrapped ≡ out ++ contents r')
ring_read_example = ring_read_lem wrapped 9 wrapped-IsValid

ring_read-ring_write_example :
    (r' : Ring) × ((ring_write wrapped (codes "yz") >>= λ w.
    ring_read w.0 (length (contents wrapped) + w.1))
      ≡ some (r', contents wrapped ++ take (min 2 (room wrapped)) (codes "yz")))
    × (contents r' ≡ [])
ring_read-ring_write_example = ring_read-ring_write wrapped (codes "yz") wrapped-IsValid
