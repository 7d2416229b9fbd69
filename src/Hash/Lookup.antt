-- ===== src/Hash/Lookup.antt =====
-- What `ci_hash_search` finds after `ci_hash_add`.
use c_icap_server.Common.{
  ℕ, zero, suc, ◌<◌, ◌≡◌, ◌≢◌, inl, inr, refl, sym, ap, ◌∙◌, true, false, some, List, [], ◌∷◌, ◌==◌,
  if◌then◌else◌, length, get_or, set, Bool-cases, Option-cases, arith, length-set,
}
use c_icap_server.Hash.{
  TypeOps, hash_compute, Entry, Table, key_hash, search_chain, hash_search, hash_add,
}
use c_icap_server.Hash.Bounds.{IsTable, hash_compute-le}

module _ {ℓ} {A : Type ℓ} where
  get_or-set_self : (xs : List A) (i : ℕ) (v d : A) → i < length xs → get_or (set xs i v) i d ≡ v
  get_or-set_self [] i v d h = absurd (omega arith)
  get_or-set_self (x ∷ xs) zero v d h = refl
  get_or-set_self (x ∷ xs) (suc i) v d h = get_or-set_self xs i v d (omega arith)

  get_or-set_other :
      (xs : List A) (i j : ℕ) (v d : A) → i ≢ j → get_or (set xs i v) j d ≡ get_or xs j d
  get_or-set_other [] i j v d ne = refl
  get_or-set_other (x ∷ xs) zero zero v d ne = absurd (ne refl)
  get_or-set_other (x ∷ xs) zero (suc j) v d ne = refl
  get_or-set_other (x ∷ xs) (suc i) zero v d ne = refl
  get_or-set_other (x ∷ xs) (suc i) (suc j) v d ne =
      get_or-set_other xs i j v d (λ e. ne (ap suc e))

-- What a table relies on: keys that match have the same bytes, as many as `size` says.
abbrev pub Respects {ℓ} : {K : Type ℓ} → TypeOps K → Type ℓ
Respects {K = K} ops =
    (k k' : K) → ops.matches k k' ≡ true → (ops.bytes k ≡ ops.bytes k') × (ops.size k ≡ ops.size k')

==-eq : (a b : ℕ) → (a == b) ≡ true → a ≡ b
==-eq a b h = ground arith

module _ {ℓ κ} {K : Type ℓ} {V : Type κ} (ops : TypeOps K) (t : Table K V) where
  abbrev entry_of : ℕ → K → V → Entry K V
  entry_of h key val = record { hash = h; key = key; val = val }

  abbrev pub added : ℕ → K → V → Table K V
  added h key val = record t {
    hash_table = set t.hash_table h (entry_of h key val ∷ get_or t.hash_table h []);
  }

  search_self :
      (h : ℕ) (key key' : K) (val : V)
      → h < length t.hash_table
      → key_hash ops t key' ≡ some h
      → ops.matches key key' ≡ true
      → hash_search ops (added h key val) key' ≡ some (some val)
  unfolding hash_search search_chain
  search_self h key key' val fits same found =
      rw
        (
          hash_search,
          same,
          get_or-set_self t.hash_table h (entry_of h key val ∷ get_or t.hash_table h []) [] fits,
          search_chain,
          found,
        )
        refl

  search_other :
      (h : ℕ) (key key' : K) (val : V)
      → h < length t.hash_table
      → ops.matches key key' ≡ false
      → hash_search ops (added h key val) key' ≡ hash_search ops t key'
  unfolding hash_search search_chain
  search_other h key key' val fits different = elim (Option-cases (key_hash ops t key')) [
    | inl e ↦ rw (hash_search, e) refl
    | inr (h', e) ↦ elim (Bool-cases (h == h')) [
      | inl f ↦
          let here : key_hash ops t key' ≡ some h = e ∙ ap some (sym (==-eq h h' f)) in
          rw
            (
              hash_search,
              here,
              get_or-set_self t.hash_table h (entry_of h key val ∷ get_or t.hash_table h []) []
                  fits,
              search_chain,
              different,
            )
            refl
      | inr f ↦
          rw
            (
              hash_search,
              e,
              get_or-set_other t.hash_table h h' (entry_of h key val ∷ get_or t.hash_table h []) []
                  (ground arith),
            )
            refl
    ]
  ]

-- If keys that match have the same bytes, `ci_hash_add` to a table with a chain for each hash, of a
-- key whose hash is computed, makes such a table, in which `ci_hash_search` finds the new
-- value for the keys that match the new key, and for all others what it found before.
pub search-add {ℓ κ} :
    {K : Type ℓ} {V : Type κ} (ops : TypeOps K) (t : Table K V) (key : K) (val : V) (h : ℕ)
    → Respects ops
    → IsTable t
    → key_hash ops t key ≡ some h
    → (t' : Table K V) × (hash_add ops true t key val ≡ some t')
      × IsTable t'
      × ((key' : K)
          → hash_search ops t' key'
            ≡ (if ops.matches key key' then some (some val) else hash_search ops t key'))
unfolding hash_add
search-add ops t key val h respects valid e =
    let fits : h < length t.hash_table =
      omega (arith, valid, hash_compute-le t.hash_table_size (ops.size key) h (ops.bytes key) e) in
    let chain = entry_of ops t h key val ∷ get_or t.hash_table h [] in
    (
      added ops t h key val,
      rw (hash_add, e) refl,
      length-set t.hash_table h chain ∙ valid,
      λ key'. elim (Bool-cases (ops.matches key key')) [
        | inl m ↦
            let (bytes, size) = respects key key' m in
            let same : key_hash ops t key' ≡ some h =
              ap (λ b. hash_compute t.hash_table_size b (ops.size key')) (sym bytes)
              ∙ ap (λ n. hash_compute t.hash_table_size (ops.bytes key) n) (sym size)
              ∙ e in
            rw m (search_self ops t h key key' val fits same m)
        | inr m ↦ rw m (search_other ops t h key key' val fits m)
      ],
    )
