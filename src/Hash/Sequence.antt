-- ===== src/Hash/Sequence.antt =====
-- A hash table as a map: what `ci_hash_search` finds after several calls of `ci_hash_add`.
use c_icap_server.Common.{
  ℕ, ◌≡◌, refl, ap, ◌∙◌, true, Option, some, List, [], ◌∷◌, ◌>>=◌, if◌then◌else◌,
}
use c_icap_server.Hash.{TypeOps, Table, hash_compute, hash_search, hash_add}
use c_icap_server.Hash.Bounds.{IsTable}
use c_icap_server.Hash.Lookup.{Respects, search-add}

-- The bytes of a key are as many as its size says, or end with a NUL.
abbrev pub Readable {ℓ} : {K : Type ℓ} → TypeOps K → Type ℓ
Readable {K = K} ops =
    (k : K) (m : ℕ) → (h : ℕ) × (hash_compute m (ops.bytes k) (ops.size k) ≡ some h)

module _ {ℓ κ} {K : Type ℓ} {V : Type κ} (ops : TypeOps K) where
  -- The values that are added, the first pair first.
  abbrev pub add_all : Table K V → List (K × V) → Option (Table K V)
  add_all t [] = some t
  add_all t ((k, v) ∷ kvs) = hash_add ops true t k v >>= λ t'. add_all t' kvs

  -- The value of the last pair whose key matches, or else what was found before.
  abbrev pub latest : K → List (K × V) → Option (Option V) → Option (Option V)
  latest key [] before = before
  latest key ((k, v) ∷ kvs) before =
      latest key kvs (if ops.matches k key then some (some v) else before)

  -- If keys that match have the same bytes, and a key's bytes are as many as its size says, then
  -- after adding pairs to a table, `ci_hash_search` finds for each key the value of the last pair
  -- that matches, and otherwise what it found before.
  pub search-add_all :
      (t : Table K V) (kvs : List (K × V))
      → Respects ops
      → Readable ops
      → IsTable t
      → (t' : Table K V) × (add_all t kvs ≡ some t')
        × IsTable t'
        × ((key : K) → hash_search ops t' key ≡ latest key kvs (hash_search ops t key))
  search-add_all t [] respects readable valid = (t, refl, valid, λ key. refl)
  search-add_all t ((k, v) ∷ kvs) respects readable valid =
      let (h, hashed) = readable k t.hash_table_size in
      let (t₁, made, valid₁, found) = search-add ops t k v h respects valid hashed in
      let (t₂, made', valid₂, found') = search-add_all t₁ kvs respects readable valid₁ in
      (t₂, rw made made', valid₂, λ key. found' key ∙ ap (latest key kvs) (found key))
