-- ===== src/Common/Memory.antt =====
-- A C buffer as the list of its cells: `memcpy` into it, and the bytes between two offsets.
use Prim.Native.Nat.{ℕ, zero, suc, ◌+◌, ◌-◌, ◌≤◌}
use mathlib.Core.Path.{◌≡◌, refl, sym, ap, ◌∙◌}
use mathlib.Core.List.{List, [], ◌∷◌, ◌++◌}
use native.Mathlib.Omega.{arith}
use c_icap_server.Common.Lists.{
  length, take, drop, set, length-append, length-take, length-drop, take-append-drop, take_all,
  take-append_le, drop-append_le, drop-append_add, drop-drop, take-take, take_add,
}

-- `memcpy(buf + pos, bytes, length bytes)`
unfoldable pub memcpy : List ℕ → ℕ → List ℕ → List ℕ
memcpy buf pos bytes = take pos buf ++ (bytes ++ drop (pos + length bytes) buf)

-- The `n` bytes from offset `pos` on.
unfoldable pub slice : List ℕ → ℕ → ℕ → List ℕ
slice buf pos n = take n (drop pos buf)

pub length-slice : (buf : List ℕ) (pos n : ℕ) → pos + n ≤ length buf → length (slice buf pos n) ≡ n
unfolding slice
length-slice buf pos n h = omega (arith, length-take n (drop pos buf), length-drop pos buf)

pub length-memcpy :
    (buf : List ℕ) (pos : ℕ) (bytes : List ℕ)
    → pos + length bytes ≤ length buf
    → length (memcpy buf pos bytes) ≡ length buf
unfolding memcpy
length-memcpy buf pos bytes h = omega (
  arith,
  length-append (take pos buf) (bytes ++ drop (pos + length bytes) buf),
  length-append bytes (drop (pos + length bytes) buf),
  length-take pos buf,
  length-drop (pos + length bytes) buf,
)

pub memcpy-nil : (buf : List ℕ) (pos : ℕ) → memcpy buf pos [] ≡ buf
unfolding memcpy
memcpy-nil buf pos = let e : pos + 0 ≡ pos = omega arith in rw e (take-append-drop pos buf)

-- What was written is read back.
pub slice-memcpy_self :
    (buf : List ℕ) (pos : ℕ) (bytes : List ℕ) (n : ℕ)
    → pos ≤ length buf
    → n ≡ length bytes
    → slice (memcpy buf pos bytes) pos n ≡ bytes
unfolding memcpy slice
slice-memcpy_self buf pos bytes n h e =
    rw
      (
        drop-append_add (take pos buf) (bytes ++ drop (pos + length bytes) buf) pos 0
            (omega (arith, length-take pos buf)),
        take-append_le n bytes (drop (pos + length bytes) buf) (omega arith),
      )
      (take_all n bytes (omega arith))

slice-append_left :
    (xs ys : List ℕ) (q n : ℕ) → q + n ≤ length xs → slice (xs ++ ys) q n ≡ slice xs q n
unfolding slice
slice-append_left xs ys q n h =
    ap (take n) (drop-append_le q xs ys (omega arith))
    ∙ take-append_le n (drop q xs) ys (omega (arith, length-drop q xs))

pub slice-take :
    (k : ℕ) (xs : List ℕ) (q n : ℕ)
    → q + n ≤ k
    → k ≤ length xs
    → slice (take k xs) q n ≡ slice xs q n
slice-take k xs q n h le =
    sym (slice-append_left (take k xs) (drop k xs) q n (omega (arith, length-take k xs)))
    ∙ ap (λ ys. slice ys q n) (take-append-drop k xs)

-- The bytes before the written ones stay.
pub slice-memcpy_before :
    (buf : List ℕ) (pos : ℕ) (bytes : List ℕ) (q n : ℕ)
    → pos ≤ length buf
    → q + n ≤ pos
    → slice (memcpy buf pos bytes) q n ≡ slice buf q n
unfolding memcpy
slice-memcpy_before buf pos bytes q n h le =
    let fits : q + n ≤ length (take pos buf) = omega (arith, length-take pos buf) in
    slice-append_left (take pos buf) (bytes ++ drop (pos + length bytes) buf) q n fits
    ∙ sym (slice-append_left (take pos buf) (drop pos buf) q n fits)
    ∙ ap (λ xs. slice xs q n) (take-append-drop pos buf)

-- The bytes behind the written ones stay.
pub slice-memcpy_after :
    (buf : List ℕ) (pos : ℕ) (bytes : List ℕ) (q n : ℕ)
    → pos ≤ length buf
    → pos + length bytes ≤ q
    → slice (memcpy buf pos bytes) q n ≡ slice buf q n
unfolding memcpy slice
slice-memcpy_after buf pos bytes q n h le = ap (take n) (
    drop-append_add (take pos buf) (bytes ++ drop (pos + length bytes) buf) q (q - pos)
      (omega (arith, length-take pos buf))
    ∙ drop-append_add bytes (drop (pos + length bytes) buf) (q - pos) (q - pos - length bytes)
        (omega arith)
    ∙ drop-drop (q - pos - length bytes) (pos + length bytes) q buf (omega arith))

-- Two adjacent pieces are one.
pub slice-append :
    (buf : List ℕ) (pos a mid b n : ℕ)
    → mid ≡ pos + a
    → n ≡ a + b
    → slice buf pos a ++ slice buf mid b ≡ slice buf pos n
unfolding slice
slice-append buf pos a mid b n e f =
    ap (λ xs. take a (drop pos buf) ++ take b xs) (sym (drop-drop a pos mid buf e))
    ∙ take_add a b n (drop pos buf) f

-- Bytes written right behind a piece extend it.
pub slice-memcpy_extend :
    (buf : List ℕ) (pos : ℕ) (bytes : List ℕ) (q a n : ℕ)
    → pos ≤ length buf
    → pos ≡ q + a
    → n ≡ a + length bytes
    → slice (memcpy buf pos bytes) q n ≡ slice buf q a ++ bytes
slice-memcpy_extend buf pos bytes q a n h e f =
    sym (slice-append (memcpy buf pos bytes) q a pos (length bytes) n e f)
    ∙ ap (λ xs. xs ++ slice (memcpy buf pos bytes) pos (length bytes))
        (slice-memcpy_before buf pos bytes q a h (omega arith))
    ∙ ap (λ ys. slice buf q a ++ ys) (slice-memcpy_self buf pos bytes (length bytes) h refl)

pub slice-zero : (buf : List ℕ) (pos : ℕ) → slice buf pos 0 ≡ []
unfolding slice
slice-zero buf pos = refl

-- A write to a single cell behind a piece.
pub slice-set_after :
    (buf : List ℕ) (i v q n : ℕ) → q + n ≤ i → slice (set buf i v) q n ≡ slice buf q n
unfolding slice
slice-set_after [] i v q n h = refl
slice-set_after (x ∷ xs) zero v zero zero h = refl
slice-set_after (x ∷ xs) zero v zero (suc n) h = absurd (omega arith)
slice-set_after (x ∷ xs) zero v (suc q) n h = absurd (omega arith)
slice-set_after (x ∷ xs) (suc i) v zero zero h = refl
slice-set_after (x ∷ xs) (suc i) v zero (suc n) h =
    ap (◌∷◌ x) (slice-set_after xs i v 0 n (omega arith))
slice-set_after (x ∷ xs) (suc i) v (suc q) n h = slice-set_after xs i v q n (omega arith)

pub take-slice : (buf : List ℕ) (q n k : ℕ) → n ≤ k → take n (slice buf q k) ≡ slice buf q n
unfolding slice
take-slice buf q n k h = take-take n k (drop q buf) h
