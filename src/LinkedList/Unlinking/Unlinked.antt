-- ===== src/LinkedList/Unlinking/Unlinked.antt =====
-- The list that `ci_list_remove2` leaves.
use c_icap_server.Common.{
  ℕ, ◌<◌, ◌≡◌, refl, sym, ◌∙◌, subst, Bool, true, Option, Option-cases, inl, inr, none, some, List,
  [], ◌∷◌, ◌++◌, append_assoc, length, length-set, get_elem?, set, get_elem?-set_self,
  if◌then◌else◌, arith,
}
use c_icap_server.LinkedList.{
  CiList, cell, same_pointer, set_next, discard, unlink, remove_item, list_remove2,
}
use c_icap_server.LinkedList.Chains.{
  Chain, link, Distinct, last_of, IsList, set-Chain, get_elem?-lt, split-Distinct, insert-Distinct,
  last_of-cons, append-Fresh, join-Fresh, last_of-Fresh, append-Distinct,
}
use c_icap_server.LinkedList.Removing.{Unmatched, before_end, before_end-last_of}
use c_icap_server.LinkedList.Unlinking.{item_behind, loop_first, splice_lem}

-- A list without the item `i`, which is not discarded yet.
record Without {ℓ} {A : Type ℓ} (l l' : CiList A) (i : ℕ) (ns ts : List (ℕ × A)) : Type ℓ where
  chain : Chain l'.heap l'.items ns
  unused : Chain l'.heap l'.trash ts
  inside : i < length l'.heap
  same_last : l'.last ≡ l.last

module _ {ℓ} {A : Type ℓ} where
  unlink-Without :
      (l : CiList A) (i : ℕ) (x : A) (q : Option ℕ) (hs bs ts : List (ℕ × A))
      → Chain l.heap l.items (hs ++ ((i, x) ∷ bs))
      → get_elem? l.heap i ≡ some (cell x q)
      → Chain l.heap q bs
      → Distinct (hs ++ (bs ++ ts))
      → Chain l.heap l.trash ts
      → (l' : CiList A) × (unlink l (before_end hs none) q ≡ some l') × Without l l' i (hs ++ bs) ts
  unfolding unlink set_next
  unlink-Without l i x q [] bs ts chain held left apart unused = (
    record l { items = q },
    refl,
    record {
      chain = left;
      unused = unused;
      inside = get_elem?-lt l.heap i (cell x q) held;
      same_last = refl;
    },
  )
  unlink-Without l i x q (n ∷ hs) bs ts chain held left apart unused =
      elim (Option-cases (last_of (n ∷ hs))) [
        | inl g ↦ absurd (last_of-cons n hs g)
        | inr (j, g) ↦
            let apart' =
              append-Distinct ((n ∷ hs) ++ bs) ts
                (subst Distinct (sym (append_assoc (n ∷ hs) bs ts)) apart) in
            let (y, before, chain') =
              splice_lem l.heap i j x l.items q (n ∷ hs) bs chain held apart' left g in
            let fresh = append-Fresh j bs ts (last_of-Fresh j (n ∷ hs) (bs ++ ts) apart g) in
            (
              record l { heap = set l.heap j (cell y q) },
              rw (before_end-last_of (n ∷ hs) j none g, unlink, set_next, before) refl,
              record {
                chain = chain';
                unused = set-Chain l.heap j (cell y q) l.trash ts unused fresh.1;
                inside =
                    omega (
                      arith,
                      length-set l.heap j (cell y q),
                      get_elem?-lt l.heap i (cell x q) held,
                    );
                same_last = refl;
              },
            )
      ]

  -- An item that is not the last one leaves the last pointer.
  last_of-skip :
      (hs : List (ℕ × A)) (n b : ℕ × A) (bs : List (ℕ × A))
      → last_of (hs ++ (n ∷ b ∷ bs)) ≡ last_of (hs ++ (b ∷ bs))
  last_of-skip [] (i, x) b bs = refl
  last_of-skip ((k, z) ∷ []) (i, x) b bs = refl
  last_of-skip ((k, z) ∷ h ∷ hs) n b bs = last_of-skip (h ∷ hs) n b bs

  -- `ci_list_remove2`, whose first match in a list is not the last object, returns 1 and leaves the
  -- other items in their order, with the removed one first among those to be used again.
  pub list_remove2-IsList :
      (fuel : ℕ) (matches : A → Bool) (l : CiList A) (hs : List (ℕ × A)) (i : ℕ) (x : A) (b : ℕ × A)
      (bs ts : List (ℕ × A))
      → IsList l (hs ++ ((i, x) ∷ b ∷ bs)) ts
      → Unmatched matches hs
      → matches x ≡ true
      → length hs < fuel
      → (m : CiList A) × (list_remove2 fuel matches l ≡ some (m, true))
        × IsList m (hs ++ (b ∷ bs)) ((i, x) ∷ ts)
  unfolding list_remove2 remove_item discard
  list_remove2-IsList fuel matches l hs i x b bs ts valid none_ found lt =
      let (q, held, left) = item_behind l.heap l.items hs i x (b ∷ bs) valid.chain in
      let (f₁, f₂, apart) =
        split-Distinct i x hs ((b ∷ bs) ++ ts)
          (subst Distinct (append_assoc hs ((i, x) ∷ b ∷ bs) ts) valid.apart) in
      let (g₁, g₂) = append-Fresh i (b ∷ bs) ts f₂ in
      let fresh = join-Fresh i hs (b ∷ bs) f₁ g₁ in
      let (l₁, cut, kept) =
        unlink-Without l i x q hs (b ∷ bs) ts valid.chain held left apart valid.unused in
      let l₂ = record l₁ { cursor = if same_pointer l₁.cursor (some i) then q else l₁.cursor } in
      let c = cell x l₁.trash in
      (
        discard l₂ i x,
        loop_first fuel matches l none l.items q hs i x (b ∷ bs) valid.chain none_ found held lt
            ∙ rw (remove_item, cut) refl,
        record {
          chain = set-Chain l₁.heap i c l₁.items (hs ++ (b ∷ bs)) kept.chain fresh;
          unused =
              link i x (get_elem?-set_self l₁.heap i c kept.inside)
                (set-Chain l₁.heap i c l₁.trash ts kept.unused g₂);
          apart =
              insert-Distinct i x (hs ++ (b ∷ bs)) ts fresh g₂
                (subst Distinct (sym (append_assoc hs (b ∷ bs) ts)) apart);
          ends = kept.same_last ∙ valid.ends ∙ last_of-skip hs (i, x) b bs;
        },
      )
