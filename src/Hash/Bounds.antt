-- ===== src/Hash/Bounds.antt =====
-- The bounds of hash.c: a table's size, and the hashes that index it.
use Prim.Native.Nat.{bit_and, bit_and-bitwise, digits}
use mathlib.Core.Option.{some-injective}
use native.Mathlib.Nat.{two-pow-succ, pow-le-pow_right}
use c_icap_server.Common.{
  ℕ, zero, suc, ◌+◌, ◌*◌, ◌-◌, ◌/◌, ◌^◌, ◌≤◌, ◌<◌, min, ◌≡◌, inl, inr, refl, true, ◌&&◌, Option,
  none, some, [], ltb, ◌==◌, if◌then◌else◌, length, replicate, Bytes, Bool-cases, if_either, arith,
  length-replicate,
}
use c_icap_server.Hash.{
  mask, hash_string, hash_counted, hash_compute, grow, table_size, hash_build, Table,
}

digits-le : (n a b : ℕ) → digits (λ y. 0) min n a b ≤ b
digits-le zero a b = omega arith
digits-le (suc n) zero b = omega arith
digits-le (suc n) (suc a) b = omega (arith, digits-le n (suc a / 2) (b / 2))

bit_and-le : (a b : ℕ) → bit_and a b ≤ b
bit_and-le a b = simp bit_and-bitwise (digits-le a a b)

masked-le :
    (m h : ℕ) (o : Option ℕ)
    → elim o as (λ _. Option ℕ) [ none ↦ none | some hash ↦ some (mask m hash) ] ≡ some h
    → h ≤ m
unfolding mask
masked-le m h none e = absurd (cc e)
masked-le m h (some hash) e =
    omega (arith, some-injective (mask m hash) h e, bit_and-le (if hash == 0 then 1 else hash) m)

-- `ci_hash_compute` returns a number up to `hash_max_value`.
pub hash_compute-le : (m len h : ℕ) (key : Bytes) → hash_compute m key len ≡ some h → h ≤ m
unfolding hash_compute
hash_compute-le m len h key e =
    masked-le m h (if len == 0 then hash_string 5381 key else hash_counted len 5381 key) e

-- The doubled size is again a power of two, less 1.
double_lem : (k n : ℕ) → n + 1 ≡ 2 ^ k → (n + 1) * 2 - 1 + 1 ≡ 2 ^ suc k
double_lem k n e = omega (arith, two-pow-succ k)

-- The loop ends below 2 ^ 24, with a power of two, less 1, that is as large as asked for.
abbrev IsGrown : ℕ → Option ℕ → Type 0
IsGrown hash_size none = ⊥
IsGrown hash_size (some n) = (j : ℕ) × (n + 1 ≡ 2 ^ j) × (j ≤ 24) × (min hash_size 0xffffff ≤ n)

room : (k n : ℕ) → n + 1 ≡ 2 ^ k → n < 0xffffff → k < 24
room k n e lt = elim (Bool-cases (ltb k 24)) [
  | inl f ↦ ground arith
  | inr f ↦
      let large : 24 ≤ k = ground arith in
      absurd (omega (arith, pow-le-pow_right {n = 2} (omega arith) large))
]

grow-IsGrown :
    (fuel hash_size k n : ℕ)
    → n + 1 ≡ 2 ^ k
    → 24 < fuel + k
    → k ≤ 24
    → IsGrown hash_size (grow fuel hash_size n)
unfolding grow
grow-IsGrown zero hash_size k n e enough le = absurd (omega arith)
grow-IsGrown (suc fuel) hash_size k n e enough le =
    elim (Bool-cases (ltb n hash_size && ltb n 0xffffff)) [
      | inl f ↦
          rw (grow, f)
            (grow-IsGrown fuel hash_size (suc k) ((n + 1) * 2 - 1) (double_lem k n e) (omega arith)
              (room k n e (ground arith)))
      | inr f ↦ rw (grow, f) (k, e, le, ground arith)
    ]

table_size-IsGrown : (hash_size : ℕ) → IsGrown hash_size (table_size hash_size)
unfolding table_size
table_size-IsGrown hash_size =
    if_either (IsGrown hash_size) (ltb 63 hash_size) _ _
      (λ _. grow-IsGrown 25 hash_size 6 63 refl (omega arith) (omega arith))
      (λ e. (6, refl, omega arith, ground arith))

-- A table has a chain for each hash up to its size.
abbrev pub IsTable {ℓ κ} : {K : Type ℓ} {V : Type κ} → Table K V → Type 0
IsTable t = length t.hash_table ≡ t.hash_table_size + 1

abbrev pub IsBuilt {ℓ κ} : {K : Type ℓ} {V : Type κ} → ℕ → Option (Table K V) → Type 0
IsBuilt hash_size none = ⊥
IsBuilt hash_size (some t) =
    IsTable t
    × (min hash_size 0xffffff ≤ t.hash_table_size)
    × (j : ℕ) × (t.hash_table_size + 1 ≡ 2 ^ j)
    × (j ≤ 24)

new_table-IsBuilt {ℓ κ} :
    (K : Type ℓ) (V : Type κ) (hash_size : ℕ) (size : Option ℕ)
    → IsGrown hash_size size
    → IsBuilt hash_size (elim size as (λ _. Option (Table K V)) [
      | none ↦ none
      | some n ↦ some (record { hash_table = replicate (n + 1) []; hash_table_size = n })
    ])
new_table-IsBuilt K V hash_size none e = e
new_table-IsBuilt K V hash_size (some n) (j, e, le, enough) =
    (length-replicate (n + 1) [], enough, j, e, le)

-- `ci_hash_build`, when its allocations succeed, ends and makes a table with a chain for each hash
-- up to its size, which is a power of two, less 1, below 2 ^ 24, and as large as asked for if
-- that is below 2 ^ 24.
pub hash_build-IsBuilt {ℓ κ} :
    (K : Type ℓ) (V : Type κ) (hash_size : ℕ)
    → IsBuilt hash_size (hash_build {K = K} {V = V} true true hash_size)
unfolding hash_build
hash_build-IsBuilt K V hash_size =
    new_table-IsBuilt K V hash_size (table_size hash_size) (table_size-IsGrown hash_size)
