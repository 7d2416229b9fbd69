-- ===== src/LinkedList/PoppingBack.antt =====
-- array.c: `ci_list_pop_back`, which looks for the item before the last one.
pub mod Outcome
use mathlib.Core.Option.{some-injective}
use c_icap_server.Common.{
  ℕ, zero, suc, ◌≤◌, ◌<◌, ◌≡◌, ◌≢◌, refl, sym, ap, ◌∙◌, ◌⊎◌, inl, inr, subst, Bool, true, false,
  Option, Option-cases, none, some, List, [], ◌∷◌, ◌++◌, ◌>>=◌, ◌==◌, if◌then◌else◌, append_assoc,
  length, get_elem?, set, get_elem?-set_self, length-set, arith,
}
use c_icap_server.LinkedList.{Item, CiList, cell, same_pointer, set_next, discard}
use c_icap_server.LinkedList.Chains.{
  Chain, stop, link, Fresh, Distinct, last_of, objects, IsList, Holds, set-Chain, get_elem?-lt,
  insert-Distinct, last_of-append, last_of-cons, last_of-Fresh, append-Distinct, objects-append,
  get_elem?-set_other, last_of-other,
}
use c_icap_server.LinkedList.Shrinking.{same_index, other_index}
use c_icap_server.LinkedList.Removing.{uncons-Chain, nil-Chain, cut_lem, get-last, parts}

module _ {ℓ} {A : Type ℓ} where
  -- The loop that looks for the item whose successor is `last`.
  unfoldable find_before : ℕ → List (Item A) → Option ℕ → Option ℕ → Option (Option ℕ)
  find_before zero heap p last = none
  find_before (suc fuel) heap none last = some none
  find_before (suc fuel) heap (some i) last = elim (get_elem? heap i) [
    | none ↦ none
    | some c ↦
        let rest = find_before fuel heap c.next last in
        if same_pointer c.next last then some (some i) else rest
  ]

  -- The item that is found becomes the last one; the code asserts that there is one.
  unfoldable cut_at : CiList A → Option ℕ → Option (CiList A)
  unfolding set_next
  cut_at l none = none
  cut_at l (some j) = elim (set_next l.heap j none) [
    | none ↦ none
    | some heap ↦ some (record l { heap = heap; last = some j })
  ]

  unfoldable cut_last : ℕ → CiList A → Option (CiList A)
  unfolding find_before cut_at
  cut_last fuel l =
      let l' = record l { cursor = if same_pointer l.cursor l.last then none else l.cursor } in
      find_before fuel l.heap l.items l.last >>= cut_at l'

  -- The list without the item at `last`.
  unfoldable pub unlink_last : ℕ → CiList A → Option (CiList A)
  unfolding cut_last
  unlink_last fuel l =
      let cut = cut_last fuel l in
      if same_pointer l.last l.items
      then some (record l { last = none; items = none; cursor = none })
      else cut

  unfoldable pub pop_back_at : ℕ → CiList A → Option ℕ → Option (CiList A × Option A)
  unfolding unlink_last discard
  pop_back_at fuel l none = none
  pop_back_at fuel l (some i) = elim (get_elem? l.heap i) [
    | none ↦ none
    | some c ↦ (unlink_last fuel l >>= λ l'. some (discard l' i c.item, some c.item))
  ]

  -- `ci_list_pop_back`, with fuel for the loop: the list, and the object if there is one.
  unfoldable pub list_pop_back : ℕ → CiList A → Option (CiList A × Option A)
  unfolding pop_back_at
  list_pop_back fuel l = elim l.items [ none ↦ some (l, none) | some i ↦ pop_back_at fuel l l.last ]

  -- The loop ends at the item before the last one.
  find_before-last_of :
      (fuel : ℕ) (heap : List (Item A)) (p : Option ℕ) (n : ℕ × A) (ns : List (ℕ × A)) (i : ℕ)
      (x : A)
      → Chain heap p ((n ∷ ns) ++ ((i, x) ∷ []))
      → Fresh i (n ∷ ns)
      → length (n ∷ ns) ≤ fuel
      → find_before fuel heap p (some i) ≡ some (last_of (n ∷ ns))
  unfolding find_before
  find_before-last_of zero heap p n ns i x chain fresh le = absurd (omega arith)
  find_before-last_of (suc fuel) heap p (k, z) [] i x chain fresh le =
      let (e, q, there, rest) = uncons-Chain heap p k z ((i, x) ∷ []) chain in
      let (e', q', there', rest') = uncons-Chain heap q i x [] rest in
      rw (e, find_before, there, e', same_index i) refl
  find_before-last_of (suc fuel) heap p (k, z) ((k', z') ∷ ns) i x chain (ne, (ne', fresh)) le =
      let (e, q, there, rest) = uncons-Chain heap p k z (((k', z') ∷ ns) ++ ((i, x) ∷ [])) chain in
      let (e', q', there', rest') = uncons-Chain heap q k' z' (ns ++ ((i, x) ∷ [])) rest in
      let ih =
        find_before-last_of fuel heap (some k') (k', z') ns i x
          (subst (λ r. Chain heap r (((k', z') ∷ ns) ++ ((i, x) ∷ []))) e' rest) (ne', fresh)
          (omega arith) in
      rw (e, find_before, there, e', other_index i k' ne', ih) refl

  cut_last_lem :
      (fuel : ℕ) (l : CiList A) (j : ℕ) (y : A) (q : Option ℕ)
      → find_before fuel l.heap l.items l.last ≡ some (some j)
      → get_elem? l.heap j ≡ some (cell y q)
      → cut_last fuel l
        ≡ some (record l {
          cursor = if same_pointer l.cursor l.last then none else l.cursor;
          heap = set l.heap j (cell y none);
          last = some j;
        })
  unfolding cut_last cut_at set_next
  cut_last_lem fuel l j y q found held = rw (cut_last, found, cut_at, set_next, held) refl

-- A list that has lost its last item `i`, which is not discarded yet.
pub record Shortened {ℓ} {A : Type ℓ} (l : CiList A) (i : ℕ) (ns ts : List (ℕ × A)) : Type ℓ where
  pub chain : Chain l.heap l.items ns
  pub unused : Chain l.heap l.trash ts
  pub inside : i < length l.heap
  pub ends : l.last ≡ last_of ns

module _ {ℓ} {A : Type ℓ} where
  pub unlink_last-Shortened :
      (fuel : ℕ) (l : CiList A) (i : ℕ) (x : A) (ns ts : List (ℕ × A))
      → IsList l (ns ++ ((i, x) ∷ [])) ts
      → length ns ≤ fuel
      → (l' : CiList A) × (unlink_last fuel l ≡ some l') × Shortened l' i ns ts
  unfolding unlink_last cut_last cut_at set_next
  unlink_last-Shortened fuel l i x [] ts valid le =
      let (e, q, there, rest) = uncons-Chain l.heap l.items i x [] valid.chain in
      let same : same_pointer l.last l.items ≡ true =
        ap (λ p. same_pointer p l.items) valid.ends ∙ ap (same_pointer (some i)) e ∙ same_index i in
      (
        record l { last = none; items = none; cursor = none },
        rw (unlink_last, same) refl,
        record {
          chain = stop;
          unused = valid.unused;
          inside = get_elem?-lt l.heap i (cell x q) there;
          ends = refl;
        },
      )
  unlink_last-Shortened fuel l i x ((k, z) ∷ ns) ts valid le =
      let ((ne, fresh), fresh', apart) = parts l i x ((k, z) ∷ ns) ts valid in
      let last : l.last ≡ some i = valid.ends ∙ last_of-append ((k, z) ∷ ns) i x in
      let (e, q, there, rest) = uncons-Chain l.heap l.items k z (ns ++ ((i, x) ∷ [])) valid.chain in
      let (q', there') = get-last l.heap l.items ((k, z) ∷ ns) i x valid.chain in
      let other : same_pointer l.last l.items ≡ false =
        ap (λ p. same_pointer p l.items) last
        ∙ ap (same_pointer (some i)) e
        ∙ other_index k i (λ s. ne (sym s)) in
      let before =
        find_before-last_of fuel l.heap l.items (k, z) ns i x valid.chain (ne, fresh) le in
      elim (Option-cases (last_of ((k, z) ∷ ns))) [
        | inl g ↦ absurd (last_of-cons (k, z) ns g)
        | inr (j, g) ↦
            let (y, held, chain) =
              cut_lem l.heap i j x l.items ((k, z) ∷ ns) valid.chain
                (append-Distinct ((k, z) ∷ ns) ts apart) g in
            (
              record l {
                cursor = if same_pointer l.cursor l.last then none else l.cursor;
                heap = set l.heap j (cell y none);
                last = some j;
              },
              rw (unlink_last, other)
                  (cut_last_lem fuel l j y (some i)
                    (ap (find_before fuel l.heap l.items) last ∙ before ∙ ap some g) held),
              record {
                chain = chain;
                unused =
                    set-Chain l.heap j (cell y none) l.trash ts valid.unused
                      (last_of-Fresh j ((k, z) ∷ ns) ts apart g);
                inside = omega (
                  arith,
                  length-set l.heap j (cell y none),
                  get_elem?-lt l.heap i (cell x q') there',
                );
                ends = sym g;
              },
            )
      ]
