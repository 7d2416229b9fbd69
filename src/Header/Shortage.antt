-- ===== src/Header/Shortage.antt =====
-- When `headers_check_space` finds no space.
use c_icap_server.Common.{
  ℕ, zero, suc, ◌+◌, ◌*◌, ◌≤◌, ◌<◌, ◌≡◌, ◌⊎◌, inl, inr, refl, sym, ap, ◌∙◌, Bool, true, false, none,
  some, List, length, Bytes, Allocator, Option-cases, arith,
}
use c_icap_server.Header.{
  Headers, index_space, mem_space, grow_index, grow_buffer, headers_check_space,
}
use c_icap_server.Header.Lines.{IsHeaders}

-- Why there is no space for `n` more headers of `k` bytes: the index has to grow, and needs more
-- than 1984 entries, so that the next 64 might pass the limit of 2048; or it has to grow and is
-- not allocated; or the buffer has to grow and is not allocated.
abbrev pub NoSpace : Allocator → Bool → Headers → ℕ → ℕ → Type 0
NoSpace a room h n k =
    ((h.size < length h.headers + n) × (1984 < length h.headers + n))
    ⊎ ((h.size < length h.headers + n) × (room ≡ false))
    ⊎ ((h.bufsize < h.bufused + k + 4) × (size : ℕ) × (a.realloc h.buf size ≡ none))

-- The index is above the limit.
index_space-none :
    (fuel n used required : ℕ)
    → used ≤ required
    → 0 < fuel
    → 2048 < required + fuel * 64
    → index_space fuel n used required ≡ none
    → (required < used + n) × (1984 < used + n)
unfolding index_space
index_space-none zero n used required le pos more e = absurd (omega arith)
index_space-none (suc zero) n used required le pos more e = ground arith
index_space-none (suc (suc fuel)) n used required le pos more e =
    ground (arith, index_space-none (suc fuel) n used (required + 64))

index_space-some :
    (fuel n used required s : ℕ)
    → used ≤ required
    → index_space fuel n used required ≡ some s
    → required < s
    → required < used + n
unfolding index_space
index_space-some zero n used required s le e lt = absurd (cc e)
index_space-some (suc fuel) n used required s le e lt = ground arith

mem_space-lt :
    (fuel n used required : ℕ)
    → used ≤ required
    → required < mem_space fuel n used required
    → required < used + n + 4
unfolding mem_space
mem_space-lt zero n used required le lt = absurd (omega arith)
mem_space-lt (suc fuel) n used required le lt = ground arith

grow_index-none :
    (room : Bool) (h : Headers) (s : ℕ) → grow_index room h s ≡ none → (h.size < s) × (room ≡ false)
unfolding grow_index
grow_index-none room h s e = ground arith

-- The buffer stays as it is when the index grows.
abbrev SameBuffer : Headers → Headers → Type 0
SameBuffer h h' = (h'.buf ≡ h.buf) × (h'.bufsize ≡ h.bufsize) × (h'.bufused ≡ h.bufused)

grow_index-SameBuffer :
    (room : Bool) (h h' : Headers) (s : ℕ) → grow_index room h s ≡ some h' → SameBuffer h h'
unfolding grow_index
grow_index-SameBuffer room h h' s e = ground arith

grow_buffer-none :
    (a : Allocator) (h : Headers) (s : ℕ)
    → grow_buffer a h s ≡ none
    → (h.bufsize < s) × (a.realloc h.buf s ≡ none)
unfolding grow_buffer
grow_buffer-none a h s e = ground arith

headers_check_space-there :
    (a : Allocator) (room : Bool) (h h' h'' : Headers) (n k s : ℕ)
    → index_space 33 n (length h.headers) h.size ≡ some s
    → grow_index room h s ≡ some h'
    → grow_buffer a h' (mem_space (k + 5) k h'.bufused h'.bufsize) ≡ some h''
    → (headers_check_space a room h n k).1 ≡ true
unfolding headers_check_space
headers_check_space-there a room h h' h'' n k s f g m = rw (headers_check_space, f, g, m) refl

pub headers_check_space-NoSpace :
    (a : Allocator) (room : Bool) (h : Headers) (ls : List Bytes) (n k : ℕ)
    → IsHeaders h ls
    → (headers_check_space a room h n k).1 ≡ false
    → NoSpace a room h n k
headers_check_space-NoSpace a room h ls n k v e =
    elim (Option-cases (index_space 33 n (length h.headers) h.size)) [
      | inl f ↦
          inl (index_space-none 33 n (length h.headers) h.size v.room (omega arith) (omega arith) f)
      | inr (s, f) ↦ elim (Option-cases (grow_index room h s)) [
        | inl g ↦
            let (lt, never) = grow_index-none room h s g in
            inr (inl (index_space-some 33 n (length h.headers) h.size s v.room f lt, never))
        | inr (h', g) ↦
            let (buf, bufsize, bufused) = grow_index-SameBuffer room h h' s g in
            let s' = mem_space (k + 5) k h'.bufused h'.bufsize in
            elim (Option-cases (grow_buffer a h' s')) [
              | inl m ↦
                  let (lt, never) = grow_buffer-none a h' s' m in
                  let short =
                    mem_space-lt (k + 5) k h'.bufused h'.bufsize (omega (arith, v.spare)) lt in
                  inr (inr (omega arith, s', ap (λ xs. a.realloc xs s') (sym buf) ∙ never))
              | inr (h'', m) ↦
                  absurd (cc (headers_check_space-there a room h h' h'' n k s f g m, e))
            ]
      ]
    ]
