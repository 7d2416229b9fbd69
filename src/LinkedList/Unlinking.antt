-- ===== src/LinkedList/Unlinking.antt =====
-- `ci_list_remove2` takes the first object that matches off the list, if it is not the last one.
pub mod Unlinked
use c_icap_server.Common.{
  ℕ, zero, suc, ◌<◌, ◌≡◌, refl, sym, ap, ◌∙◌, subst, Bool, true, false, Option, Option-cases, inl,
  inr, none, some, List, [], ◌∷◌, ◌++◌, ◌>>=◌, append_assoc, length, length-append, length-set,
  get_elem?, set, get_elem?-set_self, if◌then◌else◌, arith,
}
use mathlib.Core.Option.{some-injective}
use c_icap_server.LinkedList.{
  Item, CiList, cell, same_pointer, set_next, discard, unlink, remove_item, remove_loop,
  list_remove2,
}
use c_icap_server.LinkedList.Chains.{
  Chain, stop, link, Fresh, Distinct, last_of, objects, IsList, Holds, set-Chain, get_elem?-lt,
  get_elem?-set_other, split-Distinct, insert-Distinct, last_of-other, last_of-cons, append-Fresh,
}
use c_icap_server.LinkedList.Removing.{Unmatched, uncons-Chain, before_end, before_end-last_of}

module _ {ℓ} {A : Type ℓ} where
  -- The item at an end of `hs`, and its successor.
  pub item_behind :
      (heap : List (Item A)) (p : Option ℕ) (hs : List (ℕ × A)) (i : ℕ) (x : A) (bs : List (ℕ × A))
      → Chain heap p (hs ++ ((i, x) ∷ bs))
      → (q : Option ℕ) × (get_elem? heap i ≡ some (cell x q)) × Chain heap q bs
  item_behind heap p [] i x bs chain =
      let (e, q, there, rest) = uncons-Chain heap p i x bs chain in (q, there, rest)
  item_behind heap p ((k, z) ∷ hs) i x bs chain =
      let (e, q, there, rest) = uncons-Chain heap p k z (hs ++ ((i, x) ∷ bs)) chain in
      item_behind heap q hs i x bs rest

  -- The loop comes to the first item that matches, with the item before it.
  pub loop_first :
      (fuel : ℕ) (matches : A → Bool) (l : CiList A) (prev p q : Option ℕ) (hs : List (ℕ × A))
      (i : ℕ) (x : A) (bs : List (ℕ × A))
      → Chain l.heap p (hs ++ ((i, x) ∷ bs))
      → Unmatched matches hs
      → matches x ≡ true
      → get_elem? l.heap i ≡ some (cell x q)
      → length hs < fuel
      → remove_loop fuel matches l prev p
        ≡ (remove_item l (before_end hs prev) i x q >>= λ l'. some (l', true))
  unfolding remove_loop
  loop_first zero matches l prev p q hs i x bs chain none_ found held lt = absurd (omega arith)
  loop_first (suc fuel) matches l prev p q [] i x bs chain none_ found held lt =
      let (e, q', there, rest) = uncons-Chain l.heap p i x bs chain in
      rw (e, remove_loop, held, found) refl
  loop_first (suc fuel) matches l prev p q ((j, y) ∷ hs) i x bs chain (other, none_) found held lt =
      let (e, q', there, rest) = uncons-Chain l.heap p j y (hs ++ ((i, x) ∷ bs)) chain in
      rw (e, remove_loop, there, other)
        (loop_first fuel matches l (some j) q' q hs i x bs rest none_ found held (omega arith))

  -- The item before gets the successor of the one that is removed.
  pub splice_lem :
      (heap : List (Item A)) (i j : ℕ) (x : A) (p q : Option ℕ) (hs bs : List (ℕ × A))
      → Chain heap p (hs ++ ((i, x) ∷ bs))
      → get_elem? heap i ≡ some (cell x q)
      → Distinct (hs ++ bs)
      → Chain heap q bs
      → last_of hs ≡ some j
      → (y : A) × (get_elem? heap j ≡ some (cell y (some i)))
        × Chain (set heap j (cell y q)) p (hs ++ bs)
  splice_lem heap i j x p q [] bs chain held apart left last = absurd (cc last)
  splice_lem heap i j x p q ((k, z) ∷ []) bs chain held (fresh, apart) left last =
      let (e, q', there, rest) = uncons-Chain heap p k z ((i, x) ∷ bs) chain in
      let (e', q'', there', rest') = uncons-Chain heap q' i x bs rest in
      let same : k ≡ j = some-injective k j last in
      let here : get_elem? heap k ≡ some (cell z (some i)) = there ∙ ap (λ r. some (cell z r)) e' in
      let inside = get_elem?-lt heap k (cell z (some i)) here in
      subst
        (λ m.
          (y : A) × (get_elem? heap m ≡ some (cell y (some i)))
          × Chain (set heap m (cell y q)) p ((k, z) ∷ bs))
        same
        (
          z,
          here,
          subst (λ r. Chain (set heap k (cell z q)) r ((k, z) ∷ bs)) (sym e)
              (link k z (get_elem?-set_self heap k (cell z q) inside)
                (set-Chain heap k (cell z q) q bs left fresh)),
        )
  splice_lem heap i j x p q ((k, z) ∷ n ∷ hs) bs chain held (fresh, apart) left last =
      let (e, q', there, rest) = uncons-Chain heap p k z ((n ∷ hs) ++ ((i, x) ∷ bs)) chain in
      let (y, before, chain') = splice_lem heap i j x q' q (n ∷ hs) bs rest held apart left last in
      let fresh' = (append-Fresh k (n ∷ hs) bs fresh).0 in
      (
        y,
        before,
        subst (λ r. Chain (set heap j (cell y q)) r ((k, z) ∷ ((n ∷ hs) ++ bs))) (sym e)
            (link k z
              (get_elem?-set_other heap j k (cell y q)
                  (λ same. last_of-other k j (n ∷ hs) fresh' last (sym same))
                ∙ there)
              chain'),
      )
