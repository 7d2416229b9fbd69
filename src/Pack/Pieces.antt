-- ===== src/Pack/Pieces.antt =====
-- The pieces that the pack allocator hands out stand in the free space.
use c_icap_server.Common.{
  ℕ, ◌+◌, ◌-◌, ◌≤◌, ◌<◌, ◌≡◌, ◌⊎◌, inl, inr, refl, Bool, true, false, none, some, ltb, Bool-cases,
  arith,
}
use c_icap_server.Pack.{Pack, align, alloc_unaligned, alloc_from_rear2}

pub align-le : (n : ℕ) → n ≤ align n
unfolding align
align-le n = omega arith

-- A piece at the start, or not enough free space.
pub alloc_unaligned-cases :
    (p : Pack) (size : ℕ)
    → p.curpos ≤ p.endpos
    → ((alloc_unaligned p size ≡ (p, none)) × (p.endpos < p.curpos + size))
      ⊎ ((alloc_unaligned p size ≡ (record p { curpos = p.curpos + size }, some p.curpos))
          × (p.curpos + size ≤ p.endpos))
unfolding alloc_unaligned
alloc_unaligned-cases p size le = elim (Bool-cases (ltb (p.endpos - p.curpos) size)) [
  | inl e ↦ inl (rw e refl, ground arith)
  | inr e ↦ inr (rw e refl, ground arith)
]

-- A piece at the end, or not enough free space.
pub alloc_from_rear2-cases :
    (p : Pack) (size : ℕ) (aligned : Bool)
    → p.curpos ≤ p.endpos
    → (alloc_from_rear2 p size aligned ≡ (p, none))
      ⊎ ((t : ℕ) × (alloc_from_rear2 p size aligned ≡ (record p { endpos = t }, some t))
          × (t + size ≤ p.endpos)
          × (p.curpos ≤ t))
unfolding alloc_from_rear2
alloc_from_rear2-cases p size true le = elim (Bool-cases (ltb (p.endpos - p.curpos) (align size))) [
  | inl e ↦ inl (rw e refl)
  | inr e ↦ inr (p.endpos - align size, rw e refl, ground (arith, align-le size), ground arith)
]
alloc_from_rear2-cases p size false le = elim (Bool-cases (ltb (p.endpos - p.curpos) size)) [
  | inl e ↦ inl (rw e refl)
  | inr e ↦ inr (p.endpos - size, rw e refl, ground arith, ground arith)
]
