-- ===== src/LinkedList/Shrinking.antt =====
-- `ci_list_pop` takes the first object off the list.
use c_icap_server.Common.{
  ℕ, ◌≡◌, ◌≢◌, refl, sym, ap, ◌∙◌, inl, inr, Option-cases, subst, true, false, Option, none, some,
  List, [], ◌∷◌, ◌==◌, get_elem?, set, get_elem?-set_self, arith,
}
use c_icap_server.LinkedList.{CiList, cell, same_pointer, unlink_first, discard, pop_at, list_pop}
use c_icap_server.LinkedList.Chains.{
  Chain, stop, link, Fresh, last_of, objects, IsList, Holds, set-Chain, get_elem?-lt, append-Fresh,
  insert-Distinct, last_of-other, last_of-cons,
}

-- What a pop of a list with the objects `xs` returns.
abbrev pub Popped {ℓ} : {A : Type ℓ} → Option (CiList A × Option A) → List A → Type ℓ
Popped {A = A} r [] = (m : CiList A) × (r ≡ some (m, none)) × Holds m []
Popped {A = A} r (x ∷ xs) = (m : CiList A) × (r ≡ some (m, some x)) × Holds m xs

pub same_index : (i : ℕ) → (i == i) ≡ true
same_index i = ground arith

pub other_index : (i j : ℕ) → i ≢ j → (j == i) ≡ false
other_index i j ne = ground arith

-- The first item, with `q` as its successor, is taken off.
abbrev Unlinked {ℓ} : {A : Type ℓ} → CiList A → CiList A → Option ℕ → List (ℕ × A) → Type ℓ
Unlinked l l' q ns =
    (l'.items ≡ q) × (l'.last ≡ last_of ns) × (l'.heap ≡ l.heap) × (l'.trash ≡ l.trash)

unlink_first_lem {ℓ} :
    {A : Type ℓ} (l : CiList A) (q : Option ℕ) (i : ℕ) (x : A) (ns : List (ℕ × A))
    → Chain l.heap q ns
    → Fresh i ns
    → l.items ≡ some i
    → l.last ≡ last_of ((i, x) ∷ ns)
    → Unlinked l (unlink_first l q) q ns
unfolding unlink_first
unlink_first_lem l q i x ns stop fresh e f =
    let same : same_pointer l.last l.items ≡ true =
      ap (λ p. same_pointer p l.items) f ∙ ap (same_pointer (some i)) e ∙ same_index i in
    rw (unlink_first, same) (refl, refl, refl, refl)
unlink_first_lem l q i x ns (link {q = q'} {ns = ms} k z found rest) fresh e f =
    elim (Option-cases (last_of ((k, z) ∷ ms))) [
      | inl g ↦ absurd (last_of-cons (k, z) ms g)
      | inr (j, g) ↦
          let other : same_pointer l.last l.items ≡ false =
            ap (λ p. same_pointer p l.items) (f ∙ g)
            ∙ ap (same_pointer (some j)) e
            ∙ other_index i j (last_of-other i j ((k, z) ∷ ms) fresh g) in
          rw (unlink_first, other) (refl, f, refl, refl)
    ]

pop_at-Popped {ℓ} :
    {A : Type ℓ} (l : CiList A) (p : Option ℕ) (ns ts : List (ℕ × A))
    → Chain l.heap p ns
    → l.items ≡ p
    → IsList l ns ts
    → Popped (pop_at l p) (objects ns)
unfolding pop_at discard
pop_at-Popped l p ns ts stop e valid = (l, refl, ([], ts, valid, refl))
pop_at-Popped l p ns ts (link {q = q} {ns = ms} i x found rest) e valid =
    let (fresh, apart) = valid.apart in
    let (fresh₁, fresh₂) = append-Fresh i ms ts fresh in
    let l' = unlink_first l q in
    let (items, last, heap, trash) = unlink_first_lem l q i x ms rest fresh₁ e valid.ends in
    let c = cell x l'.trash in
    let rest' = subst (λ h. Chain h q ms) (sym heap) rest in
    let unused =
      subst (λ h. Chain h l'.trash ts) (sym heap)
        (subst (λ t. Chain l.heap t ts) (sym trash) valid.unused) in
    let inside = get_elem?-lt l'.heap i (cell x q) (ap (λ h. get_elem? h i) heap ∙ found) in
    (
      discard l' i x,
      rw (pop_at, found) refl,
      (
        ms,
        (i, x) ∷ ts,
        record {
          chain =
              subst (λ p. Chain (set l'.heap i c) p ms) (sym items)
                (set-Chain l'.heap i c q ms rest' fresh₁);
          unused =
              link i x (get_elem?-set_self l'.heap i c inside)
                (set-Chain l'.heap i c l'.trash ts unused fresh₂);
          apart = insert-Distinct i x ms ts fresh₁ fresh₂ apart;
          ends = last;
        },
        refl,
      ),
    )

-- `ci_list_pop` on a list returns the first object, and leaves the others; on an empty list it
-- returns none.
pub list_pop-Popped {ℓ} :
    {A : Type ℓ} (l : CiList A) (xs : List A) → Holds l xs → Popped (list_pop l) xs
unfolding list_pop
list_pop-Popped l xs (ns, ts, valid, same) =
    subst (Popped (list_pop l)) same (pop_at-Popped l l.items ns ts valid.chain refl valid)
