-- ===== src/LinkedList/PoppingBack/Outcome.antt =====
-- What `ci_list_pop_back` returns, and the list that it leaves.
use c_icap_server.Common.{
  ℕ, ◌≤◌, ◌≡◌, refl, sym, ap, ◌∙◌, ◌⊎◌, inl, inr, subst, Option, none, some, List, [], ◌∷◌, ◌++◌,
  length, length-append, get_elem?-set_self, arith,
}
use c_icap_server.LinkedList.{CiList, Item, cell, discard}
use c_icap_server.LinkedList.Chains.{
  Chain, link, Fresh, Distinct, objects, IsList, Holds, set-Chain, insert-Distinct, last_of-append,
  objects-append, length-objects,
}
use c_icap_server.LinkedList.Removing.{parts, uncons-Chain, nil-Chain, get-last}
use c_icap_server.LinkedList.PoppingBack.{
  Shortened, unlink_last-Shortened, pop_back_at, list_pop_back,
}

-- What is returned for a list with the objects `xs`: the last of them, with the others left.
abbrev pub PoppedBack {ℓ} : {A : Type ℓ} → Option (CiList A × Option A) → List A → Type ℓ
PoppedBack {A = A} r xs =
    ((xs ≡ []) × (m : CiList A) × (r ≡ some (m, none)) × Holds m [])
    ⊎ ((ys : List A) × (x : A) × (xs ≡ ys ++ (x ∷ []))
        × (m : CiList A) × (r ≡ some (m, some x))
        × Holds m ys)

module _ {ℓ} {A : Type ℓ} where
  -- A list of items is empty or has a last one.
  unsnoc_items :
      (ns : List (ℕ × A))
      → (ns ≡ []) ⊎ ((ms : List (ℕ × A)) × (i : ℕ) × (x : A) × (ns ≡ ms ++ ((i, x) ∷ [])))
  unsnoc_items [] = inl refl
  unsnoc_items ((i, x) ∷ ns) = elim (unsnoc_items ns) [
    | inl e ↦ inr ([], i, x, ap (◌∷◌ (i, x)) e)
    | inr (ms, j, y, e) ↦ inr ((i, x) ∷ ms, j, y, ap (◌∷◌ (i, x)) e)
  ]

  discard-IsList :
      (l : CiList A) (i : ℕ) (x : A) (ns ts : List (ℕ × A))
      → Shortened l i ns ts
      → Fresh i ns
      → Fresh i ts
      → Distinct (ns ++ ts)
      → IsList (discard l i x) ns ((i, x) ∷ ts)
  unfolding discard
  discard-IsList l i x ns ts short fresh fresh' apart =
      let c = cell x l.trash in
      record {
        chain = set-Chain l.heap i c l.items ns short.chain fresh;
        unused =
            link i x (get_elem?-set_self l.heap i c short.inside)
              (set-Chain l.heap i c l.trash ts short.unused fresh');
        apart = insert-Distinct i x ns ts fresh fresh' apart;
        ends = short.ends;
      }

  items-append :
      (heap : List (Item A)) (p : Option ℕ) (ns : List (ℕ × A)) (i : ℕ) (x : A)
      → Chain heap p (ns ++ ((i, x) ∷ []))
      → (j : ℕ) × (p ≡ some j)
  items-append heap p [] i x chain = (i, (uncons-Chain heap p i x [] chain).0)
  items-append heap p ((k, z) ∷ ns) i x chain =
      (k, (uncons-Chain heap p k z (ns ++ ((i, x) ∷ [])) chain).0)

  pop_back_last :
      (fuel : ℕ) (l : CiList A) (i : ℕ) (x : A) (ns ts : List (ℕ × A))
      → IsList l (ns ++ ((i, x) ∷ [])) ts
      → length ns ≤ fuel
      → (m : CiList A) × (list_pop_back fuel l ≡ some (m, some x)) × Holds m (objects ns)
  unfolding list_pop_back pop_back_at
  pop_back_last fuel l i x ns ts valid le =
      let (fresh, fresh', apart) = parts l i x ns ts valid in
      let (j, first) = items-append l.heap l.items ns i x valid.chain in
      let last : l.last ≡ some i = valid.ends ∙ last_of-append ns i x in
      let (q, there) = get-last l.heap l.items ns i x valid.chain in
      let (l', cut, short) = unlink_last-Shortened fuel l i x ns ts valid le in
      (
        discard l' i x,
        rw (list_pop_back, first, last, pop_back_at, there, cut) refl,
        (ns, (i, x) ∷ ts, discard-IsList l' i x ns ts short fresh fresh' apart, refl),
      )

  -- `ci_list_pop_back` on a list terminates and returns the last object, and leaves the others in
  -- their order; on an empty list it returns none.
  pub list_pop_back-PoppedBack :
      (fuel : ℕ) (l : CiList A) (xs : List A)
      → Holds l xs
      → length xs ≤ fuel
      → PoppedBack (list_pop_back fuel l) xs
  unfolding list_pop_back
  list_pop_back-PoppedBack fuel l xs (ns, ts, valid, same) le = elim (unsnoc_items ns) [
    | inl e ↦
        let valid' : IsList l [] ts = subst (λ ks. IsList l ks ts) e valid in
        inl (
          sym same ∙ ap objects e,
          l,
          simp (list_pop_back, nil-Chain l.heap l.items valid'.chain),
          ([], ts, valid', refl),
        )
    | inr (ms, i, x, e) ↦
        let valid' = subst (λ ks. IsList l ks ts) e valid in
        let xs_append = sym same ∙ ap objects e ∙ objects-append ms i x in
        let long = ap length xs_append in
        let split = length-append (objects ms) (x ∷ []) in
        let short = length-objects ms in
        let (m, popped, left) = pop_back_last fuel l i x ms ts valid' (omega arith) in
        inr (objects ms, x, xs_append, m, popped, left)
  ]
