-- ===== src/Pack.antt =====
-- mem.c: the pack allocator, which hands out a block from both of its ends. Positions are offsets
-- from `memchunk`, and alignment is to 8 bytes.
pub mod Pieces
use c_icap_server.Common.{
  ℕ, zero, suc, ◌+◌, ◌-◌, ◌*◌, ◌/◌, ◌≤◌, Bool, true, false, Option, none, some, ltb, leb, ◌==◌,
  if◌then◌else◌,
}

pub record Pack : Type 0 where
  pub curpos : ℕ
  pub endpos : ℕ
  pub end : ℕ

-- `_CI_ALIGN`, and `_ALIGNED_OFFSET`
unfoldable pub align : ℕ → ℕ
align n = (n + 7) / 8 * 8

unfoldable pub aligned_offset : ℕ → ℕ
unfolding align
aligned_offset off = if off == align off then off else align (off - 8)

-- `init_pack_allocator`, on a block of `size` bytes
unfoldable pub init_pack_allocator : ℕ → Pack
unfolding aligned_offset
init_pack_allocator size =
    let used = aligned_offset size in record { curpos = 0; endpos = used; end = used }

unfoldable pub alloc_unaligned : Pack → ℕ → Pack × Option ℕ
alloc_unaligned p size =
    if ltb (p.endpos - p.curpos) size
    then (p, none)
    else (record p { curpos = p.curpos + size }, some p.curpos)

unfoldable pub pack_alloc : Pack → ℕ → Pack × Option ℕ
unfolding align alloc_unaligned
pack_alloc p size = alloc_unaligned p (align size)

unfoldable pub alloc_from_rear2 : Pack → ℕ → Bool → Pack × Option ℕ
unfolding align
alloc_from_rear2 p size aligned =
    let space = if aligned then align size else size in
    if ltb (p.endpos - p.curpos) space
    then (p, none)
    else (record p { endpos = p.endpos - space }, some (p.endpos - space))

unfoldable pub pack_reset : Pack → Pack
pack_reset p = record p { curpos = 0; endpos = p.end }

unfoldable pub pack_data_size : Pack → ℕ
pack_data_size p = p.curpos + (p.end - p.endpos)

unfoldable pub set_start_pos : Pack → ℕ → Pack
set_start_pos p pos = record p { curpos = pos }

-- The position none is NULL; the result none is an assertion that fails.
unfoldable pub set_end_pos : Pack → Option ℕ → Option Pack
set_end_pos p none = some (record p { endpos = p.end })
set_end_pos p (some pos) = if leb pos p.end then some (record p { endpos = pos }) else none
