-- ===== src/LinkedList/Sorting/Insertion.antt =====
-- Where an item is put among the sorted ones, and what the writes make of the chains.
use c_icap_server.Common.{
  ℕ, zero, suc, ◌<◌, ◌≡◌, ◌≢◌, refl, sym, ap, ◌∙◌, ◌⊎◌, inl, inr, Bool, Option, none, some, List,
  [], ◌∷◌, length, get_elem?, set, get_elem?-set_self, length-set, if◌then◌else◌, Bool-cases, arith,
}
use c_icap_server.LinkedList.{Item, cell}
use c_icap_server.LinkedList.Chains.{
  Chain, stop, link, Fresh, Distinct, last_of, set-Chain, get_elem?-lt, get_elem?-set_other,
}
use c_icap_server.LinkedList.Sorting.{place_loop, new_tail}

-- The pointer behind which, and the one before which, an object is put.
abbrev pub before {ℓ} : {A : Type ℓ} → (A → A → Bool) → A → List (ℕ × A) → Option ℕ → Option ℕ
before less x [] prev = prev
before less x ((k, y) ∷ ss) prev =
    let rest = before less x ss (some k) in if less x y then prev else rest

abbrev pub after {ℓ} : {A : Type ℓ} → (A → A → Bool) → A → List (ℕ × A) → Option ℕ
after less x [] = none
after less x ((k, y) ∷ ss) = let rest = after less x ss in if less x y then some k else rest

-- The items with one more, before the first that is greater.
abbrev pub insert_item {ℓ} : {A : Type ℓ} → (A → A → Bool) → ℕ → A → List (ℕ × A) → List (ℕ × A)
insert_item less i x [] = (i, x) ∷ []
insert_item less i x ((k, y) ∷ ss) =
    let rest = insert_item less i x ss in if less x y then (i, x) ∷ (k, y) ∷ ss else (k, y) ∷ rest

-- What the heap is once the item `i` is put to its place behind another.
abbrev pub put {ℓ} : {A : Type ℓ} → List (Item A) → ℕ → A → Option ℕ → ℕ → A → List (Item A)
put heap i x p j y = set (set heap i (cell x p)) j (cell y (some i))

-- The item is put before all others, or behind the item `j`.
abbrev pub Placed {ℓ} :
    {A : Type ℓ}
    → (A → A → Bool)
    → List (Item A)
    → ℕ
    → A
    → Option ℕ
    → Option ℕ
    → List (ℕ × A)
    → Type ℓ
Placed {A = A} less heap i x prev p ss =
    ((before less x ss prev ≡ prev)
      × (after less x ss ≡ p)
      × (insert_item less i x ss ≡ (i, x) ∷ ss))
    ⊎ ((j : ℕ) × (y : A) × (before less x ss prev ≡ some j)
        × (get_elem? heap j ≡ some (cell y (after less x ss)))
        × ((k : ℕ) → Fresh k ss → k ≢ j)
        × Chain (put heap i x (after less x ss) j y) p (insert_item less i x ss))

-- The item `i` stands behind the first one.
front-Chain {ℓ} :
    {A : Type ℓ} (heap : List (Item A)) (i : ℕ) (x : A) (q : Option ℕ) (k : ℕ) (y : A)
    (ms : List (ℕ × A))
    → get_elem? heap k ≡ some (cell y q)
    → Chain heap q ms
    → i ≢ k
    → Fresh i ms
    → Fresh k ms
    → i < length heap
    → Chain (put heap i x q k y) (some k) ((k, y) ∷ (i, x) ∷ ms)
front-Chain heap i x q k y ms found rest ne fresh fresh' inside =
    let h = set heap i (cell x q) in
    let c = cell y (some i) in
    let held =
      get_elem?-set_other h k i c (λ s. ne (sym s)) ∙ get_elem?-set_self heap i (cell x q) inside in
    link k y
      (get_elem?-set_self h k c
        (omega (arith, length-set heap i (cell x q), get_elem?-lt heap k (cell y q) found)))
      (link i x held (set-Chain h k c q ms (set-Chain heap i (cell x q) q ms rest fresh) fresh'))

module _ {ℓ} {A : Type ℓ} (less : A → A → Bool) where
  pub place_loop_lem :
      (fuel : ℕ) (heap : List (Item A)) (x : A) (prev p : Option ℕ) (ss : List (ℕ × A))
      → Chain heap p ss
      → length ss < fuel
      → place_loop fuel less heap x prev p ≡ some (before less x ss prev, after less x ss)
  unfolding place_loop
  place_loop_lem zero heap x prev p ss chain lt = absurd (omega arith)
  place_loop_lem (suc fuel) heap x prev p ss stop lt = refl
  place_loop_lem (suc fuel) heap x prev p ss (link {q = q} {ns = ms} k y found rest) lt =
      let ih = place_loop_lem fuel heap x (some k) q ms rest (omega arith) in
      elim (Bool-cases (less x y)) [
        | inl e ↦ rw (place_loop, found, e) refl
        | inr e ↦ rw (place_loop, found, e, ih) refl
      ]

  pub place-Placed :
      (heap : List (Item A)) (i : ℕ) (x : A) (prev p : Option ℕ) (ss : List (ℕ × A))
      → Chain heap p ss
      → Fresh i ss
      → Distinct ss
      → i < length heap
      → Placed less heap i x prev p ss
  place-Placed heap i x prev p ss stop fresh apart inside = inl (refl, refl, refl)
  place-Placed heap i x prev p ss (link {q = q} {ns = ms} k y found rest) (ne, fresh)
        (fresh', apart) inside =
      elim (Bool-cases (less x y)) [
        | inl e ↦ inl (rw e refl, rw e refl, rw e refl)
        | inr e ↦ rw e (
            inr (elim (place-Placed heap i x (some k) q ms rest fresh apart inside) [
              | inl (b, a, s) ↦ (
                k,
                y,
                b,
                found ∙ ap (λ r. some (cell y r)) (sym a),
                (λ m ne. ne.0),
                rw (a, s) (front-Chain heap i x q k y ms found rest ne fresh fresh' inside),
              )
              | inr (j, z, b, held, other, chain) ↦ (
                j,
                z,
                b,
                held,
                (λ m ne. other m ne.1),
                link k y
                    (get_elem?-set_other (set heap i (cell x (after less x ms))) j k
                        (cell z (some i)) (λ same. other k fresh' (sym same))
                      ∙ get_elem?-set_other heap i k (cell x (after less x ms)) ne
                      ∙ found)
                    chain,
              )
            ]))
      ]

  last_of-insert_item :
      (i : ℕ) (x : A) (n : ℕ × A) (ss : List (ℕ × A))
      → last_of (n ∷ insert_item less i x ss) ≡ last_of (insert_item less i x ss)
  last_of-insert_item i x (k, y) [] = refl
  last_of-insert_item i x (k, y) ((k', y') ∷ ss) = elim (Bool-cases (less x y')) [
    | inl e ↦ rw e refl
    | inr e ↦ rw e refl
  ]

  -- `sortedTail` stays the last item.
  pub new_tail-last_of :
      (i : ℕ) (x : A) (ss : List (ℕ × A))
      → last_of (insert_item less i x ss) ≡ new_tail (after less x ss) i (last_of ss)
  new_tail-last_of i x [] = refl
  new_tail-last_of i x ((k, y) ∷ []) = elim (Bool-cases (less x y)) [
    | inl e ↦ rw e refl
    | inr e ↦ rw e refl
  ]
  new_tail-last_of i x ((k, y) ∷ (k', y') ∷ ss) = elim (Bool-cases (less x y)) [
    | inl e ↦ rw e refl
    | inr e ↦
        let ih = new_tail-last_of i x ((k', y') ∷ ss) in
        rw e (last_of-insert_item i x (k, y) ((k', y') ∷ ss) ∙ ih)
  ]
