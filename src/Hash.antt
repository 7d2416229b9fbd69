-- ===== src/Hash.antt =====
-- hash.c: the hash function and the hash table. A key is the list of its bytes; a bucket's chain of
-- entries is a list. `TypeOps` stands for the `ci_type_ops_t` of a table, which its user passes.
pub mod Bounds
pub mod Lookup
pub mod Sequence
use Prim.Native.Nat.{bit_and}
use c_icap_server.Common.{
  ℕ, zero, suc, ◌+◌, ◌*◌, ◌-◌, ◌%◌, ◌^◌, ◌≡◌, refl, Bool, true, false, ◌&&◌, Option, none, some,
  List, [], ◌∷◌, ltb, leb, ◌==◌, if◌then◌else◌, length, take, get_or, set, replicate, Bytes,
}

-- `hash = ((hash << 5) + hash) + *s`, in 64 bits.
unfoldable pub hash_step : ℕ → ℕ → ℕ
hash_step hash c = ((hash * 2 ^ 5) % 2 ^ 64 + hash + c) % 2 ^ 64

-- The loop over `len` bytes; `none` if it reads behind the key.
unfoldable pub hash_counted : ℕ → ℕ → Bytes → Option ℕ
unfolding hash_step
hash_counted zero hash s = some hash
hash_counted (suc len) hash [] = none
hash_counted (suc len) hash (c ∷ s) = hash_counted len (hash_step hash c) s

-- The loop up to a NUL.
unfoldable pub hash_string : ℕ → Bytes → Option ℕ
unfolding hash_step
hash_string hash [] = none
hash_string hash (c ∷ s) =
    let rest = hash_string (hash_step hash c) s in if c == 0 then some hash else rest

-- A bit pattern of 0 becomes 1, and the mask keeps the bits of `hash_max_value`.
unfoldable pub mask : ℕ → ℕ → ℕ
mask hash_max_value hash = bit_and (if hash == 0 then 1 else hash) hash_max_value

unfoldable pub hash_compute : ℕ → Bytes → ℕ → Option ℕ
unfolding hash_counted hash_string mask
hash_compute hash_max_value key len =
    elim (if len == 0 then hash_string 5381 key else hash_counted len 5381 key) [
      | none ↦ none
      | some hash ↦ some (mask hash_max_value hash)
    ]

pub record TypeOps {ℓ} (K : Type ℓ) : Type ℓ where
  pub bytes : K → Bytes
  pub size : K → ℕ
  -- whether `compare` returns 0
  pub matches : K → K → Bool

pub record Entry {ℓ κ} (K : Type ℓ) (V : Type κ) : Type (ℓ ⊔ κ) where
  pub hash : ℕ
  pub key : K
  pub val : V

pub record Table {ℓ κ} (K : Type ℓ) (V : Type κ) : Type (ℓ ⊔ κ) where
  pub hash_table : List (List (Entry K V))
  pub hash_table_size : ℕ

-- The loop that doubles the size, which stays below 2 ^ 25.
unfoldable pub grow : ℕ → ℕ → ℕ → Option ℕ
grow zero hash_size new_hash_size = none
grow (suc fuel) hash_size new_hash_size =
    let more = grow fuel hash_size ((new_hash_size + 1) * 2 - 1) in
    if ltb new_hash_size hash_size && ltb new_hash_size 0xffffff then more else some new_hash_size

unfoldable pub table_size : ℕ → Option ℕ
unfolding grow
table_size hash_size = if ltb 63 hash_size then grow 25 hash_size 63 else some 63

module _ {ℓ κ} {K : Type ℓ} {V : Type κ} where
  -- `ci_hash_build`, with what the two allocations return.
  unfoldable pub hash_build : Bool → Bool → ℕ → Option (Table K V)
  unfolding table_size
  hash_build false room hash_size = none
  hash_build true false hash_size = none
  hash_build true true hash_size = elim (table_size hash_size) [
    | none ↦ none
    | some n ↦ some (record { hash_table = replicate (n + 1) []; hash_table_size = n })
  ]

  unfoldable pub search_chain : TypeOps K → List (Entry K V) → K → Option V
  search_chain ops [] key = none
  search_chain ops (e ∷ chain) key =
      if ops.matches e.key key then some e.val else search_chain ops chain key

  abbrev pub key_hash : TypeOps K → Table K V → K → Option ℕ
  key_hash ops t key = hash_compute t.hash_table_size (ops.bytes key) (ops.size key)

  -- `none`: a read behind the key.
  unfoldable pub hash_search : TypeOps K → Table K V → K → Option (Option V)
  unfolding search_chain hash_compute
  hash_search ops t key = elim (key_hash ops t key) [
    | none ↦ none
    | some h ↦ some (search_chain ops (get_or t.hash_table h []) key)
  ]

  -- `ci_hash_add`, with whether the entry was allocated; the new entry is the first of its chain.
  unfoldable pub hash_add : TypeOps K → Bool → Table K V → K → V → Option (Table K V)
  unfolding hash_compute
  hash_add ops room t key val = elim (key_hash ops t key) [
    | none ↦ none
    | some h ↦
        let e : Entry K V = record { hash = h; key = key; val = val } in
        if room
        then some (record t { hash_table = set t.hash_table h (e ∷ get_or t.hash_table h []) })
        else some t
  ]
