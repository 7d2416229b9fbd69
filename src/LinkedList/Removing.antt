-- ===== src/LinkedList/Removing.antt =====
-- `ci_list_remove2` leaves `last` at an item that it removes.
use mathlib.Core.Option.{some-injective}
use c_icap_server.Common.{
  ℕ, zero, suc, ◌<◌, ◌≡◌, refl, sym, ap, ◌∙◌, subst, Bool, true, false, Option-cases, inl, inr,
  length-set, Option, none, some, List, [], ◌∷◌, ◌++◌, ◌>>=◌, append_assoc, length, get_elem?, set,
  get_elem?-set_self, arith, if◌then◌else◌,
}
use c_icap_server.LinkedList.{
  Item, CiList, cell, same_pointer, set_next, discard, unlink, remove_item, remove_loop,
  list_remove2, list_push_back, list_alloc_item, alloc_at, push_back_at,
}
use c_icap_server.LinkedList.Chains.{
  Chain, stop, link, Fresh, Distinct, last_of, IsList, set-Chain, get_elem?-lt, get_elem?-set_other,
  split-Distinct, last_of-append, last_of-other, last_of-cons, last_of-Fresh, append-Distinct,
}

-- No object of the items matches.
abbrev pub Unmatched {ℓ} : {A : Type ℓ} → (A → Bool) → List (ℕ × A) → Type 0
Unmatched matches [] = Unit
Unmatched matches ((i, x) ∷ ns) = (matches x ≡ false) × Unmatched matches ns

pub uncons-Chain {ℓ} :
    {A : Type ℓ} (heap : List (Item A)) (p : Option ℕ) (i : ℕ) (x : A) (ns : List (ℕ × A))
    → Chain heap p ((i, x) ∷ ns)
    → (p ≡ some i) × (q : Option ℕ) × (get_elem? heap i ≡ some (cell x q)) × Chain heap q ns
uncons-Chain heap p i x ns (link {q = q} _ _ there rest) = (refl, q, there, rest)

pub nil-Chain {ℓ} :
    {A : Type ℓ} (heap : List (Item A)) (p : Option ℕ) → Chain {A = A} heap p [] → p ≡ none
nil-Chain heap p stop = refl

-- The pointer to the item before the end of `ns`, behind `prev`.
abbrev pub before_end {ℓ} : {A : Type ℓ} → List (ℕ × A) → Option ℕ → Option ℕ
before_end [] prev = prev
before_end ((i, x) ∷ ns) prev = before_end ns (some i)

-- The loop comes to the last item, the only one that matches, with the item before it.
loop_last {ℓ} :
    {A : Type ℓ} (fuel : ℕ) (matches : A → Bool) (l : CiList A) (prev p : Option ℕ)
    (ns : List (ℕ × A)) (i : ℕ) (x : A)
    → Chain l.heap p (ns ++ ((i, x) ∷ []))
    → Unmatched matches ns
    → matches x ≡ true
    → length ns < fuel
    → remove_loop fuel matches l prev p
      ≡ (remove_item l (before_end ns prev) i x none >>= λ l'. some (l', true))
unfolding remove_loop
loop_last zero matches l prev p ns i x chain none_ found lt = absurd (omega arith)
loop_last (suc fuel) matches l prev p [] i x chain none_ found lt =
    let (e, q, there, rest) = uncons-Chain l.heap p i x [] chain in
    let end = nil-Chain l.heap q rest in rw (e, remove_loop, there, found, end) refl
loop_last (suc fuel) matches l prev p ((j, y) ∷ ns) i x chain (other, none_) found lt =
    let (e, q, there, rest) = uncons-Chain l.heap p j y (ns ++ ((i, x) ∷ [])) chain in
    rw (e, remove_loop, there, other)
      (loop_last fuel matches l (some j) q ns i x rest none_ found (omega arith))

-- The item before the last one gets no successor.
pub cut_lem {ℓ} :
    {A : Type ℓ} (heap : List (Item A)) (i j : ℕ) (x : A) (p : Option ℕ) (ns : List (ℕ × A))
    → Chain heap p (ns ++ ((i, x) ∷ []))
    → Distinct ns
    → last_of ns ≡ some j
    → (y : A) × (get_elem? heap j ≡ some (cell y (some i))) × Chain (set heap j (cell y none)) p ns
cut_lem heap i j x p [] chain apart last = absurd (cc last)
cut_lem {A = A} heap i j x p ((k, z) ∷ []) chain apart last =
    let (e, q, there, rest) = uncons-Chain heap p k z ((i, x) ∷ []) chain in
    let (e', q', there', rest') = uncons-Chain heap q i x [] rest in
    let same : k ≡ j = some-injective k j last in
    let here : get_elem? heap k ≡ some (cell z (some i)) = there ∙ ap (λ r. some (cell z r)) e' in
    let inside = get_elem?-lt heap k (cell z (some i)) here in
    subst
      (λ m.
        (y : A) × (get_elem? heap m ≡ some (cell y (some i)))
        × Chain (set heap m (cell y none)) p ((k, z) ∷ []))
      same
      (
        z,
        here,
        subst (λ r. Chain (set heap k (cell z none)) r ((k, z) ∷ [])) (sym e)
            (link k z (get_elem?-set_self heap k (cell z none) inside) stop),
      )
cut_lem heap i j x p ((k, z) ∷ n ∷ ns) chain (fresh, apart) last =
    let (e, q, there, rest) = uncons-Chain heap p k z ((n ∷ ns) ++ ((i, x) ∷ [])) chain in
    let (y, before, chain') = cut_lem heap i j x q (n ∷ ns) rest apart last in
    (
      y,
      before,
      subst (λ r. Chain (set heap j (cell y none)) r ((k, z) ∷ n ∷ ns)) (sym e)
          (link k z
            (get_elem?-set_other heap j k (cell y none)
                (λ same. last_of-other k j (n ∷ ns) fresh last (sym same))
              ∙ there)
            chain'),
    )

pub before_end-last_of {ℓ} :
    {A : Type ℓ} (ns : List (ℕ × A)) (j : ℕ) (prev : Option ℕ)
    → last_of ns ≡ some j
    → before_end ns prev ≡ some j
before_end-last_of [] j prev e = absurd (cc e)
before_end-last_of ((k, z) ∷ []) j prev e = e
before_end-last_of ((k, z) ∷ n ∷ ns) j prev e = before_end-last_of (n ∷ ns) j (some k) e

pub get-last {ℓ} :
    {A : Type ℓ} (heap : List (Item A)) (p : Option ℕ) (ns : List (ℕ × A)) (i : ℕ) (x : A)
    → Chain heap p (ns ++ ((i, x) ∷ []))
    → (q : Option ℕ) × (get_elem? heap i ≡ some (cell x q))
get-last heap p [] i x chain =
    let (e, q, there, rest) = uncons-Chain heap p i x [] chain in (q, there)
get-last heap p ((k, z) ∷ ns) i x chain =
    let (e, q, there, rest) = uncons-Chain heap p k z (ns ++ ((i, x) ∷ [])) chain in
    get-last heap q ns i x rest

-- What is left of a list that loses its last item.
record Cut {ℓ} {A : Type ℓ} (l l' : CiList A) (i : ℕ) (ns ts : List (ℕ × A)) : Type ℓ where
  chain : Chain l'.heap l'.items ns
  unused : Chain l'.heap l'.trash ts
  inside : i < length l'.heap
  same_last : l'.last ≡ l.last

pub parts {ℓ} :
    {A : Type ℓ} (l : CiList A) (i : ℕ) (x : A) (ns ts : List (ℕ × A))
    → IsList l (ns ++ ((i, x) ∷ [])) ts
    → Fresh i ns × Fresh i ts × Distinct (ns ++ ts)
parts l i x ns ts valid =
    split-Distinct i x ns ts (subst Distinct (append_assoc ns ((i, x) ∷ []) ts) valid.apart)

unlink-Cut {ℓ} :
    {A : Type ℓ} (l : CiList A) (i : ℕ) (x : A) (ns ts : List (ℕ × A))
    → IsList l (ns ++ ((i, x) ∷ [])) ts
    → (l' : CiList A) × (unlink l (before_end ns none) none ≡ some l') × Cut l l' i ns ts
unfolding unlink set_next
unlink-Cut l i x [] ts valid =
    let (q, there) = get-last l.heap l.items [] i x valid.chain in
    (
      record l { items = none },
      refl,
      record {
        chain = stop;
        unused = valid.unused;
        inside = get_elem?-lt l.heap i (cell x q) there;
        same_last = refl;
      },
    )
unlink-Cut l i x (n ∷ ns) ts valid =
    let (fresh, fresh', apart) = parts l i x (n ∷ ns) ts valid in
    let (q, there) = get-last l.heap l.items (n ∷ ns) i x valid.chain in
    elim (Option-cases (last_of (n ∷ ns))) [
      | inl g ↦ absurd (last_of-cons n ns g)
      | inr (j, g) ↦
          let (y, before, chain) =
            cut_lem l.heap i j x l.items (n ∷ ns) valid.chain (append-Distinct (n ∷ ns) ts apart)
              g in
          (
            record l { heap = set l.heap j (cell y none) },
            rw (before_end-last_of (n ∷ ns) j none g, unlink, set_next, before) refl,
            record {
              chain = chain;
              unused =
                  set-Chain l.heap j (cell y none) l.trash ts valid.unused
                    (last_of-Fresh j (n ∷ ns) ts apart g);
              inside = omega (
                arith,
                length-set l.heap j (cell y none),
                get_elem?-lt l.heap i (cell x q) there,
              );
              same_last = refl;
            },
          )
    ]

-- The state after the removal: the other objects are still there, and `last` and `trash` both point
-- to the removed item.
pub record Dangles {ℓ} {A : Type ℓ} (l : CiList A) (i : ℕ) (x : A) (ns ts : List (ℕ × A))
    : Type ℓ where
  pub left : Chain l.heap l.items ns
  pub unused : Chain l.heap l.trash ((i, x) ∷ ts)
  pub last_removed : l.last ≡ some i
  pub trash_removed : l.trash ≡ some i
  pub removed : Fresh i ns

-- `ci_list_remove2`, whose only match in a list is the last object, removes this object, but
-- leaves `last` at its item, which is the first unused one then.
pub list_remove2-Dangles {ℓ} :
    {A : Type ℓ} (fuel : ℕ) (matches : A → Bool) (l : CiList A) (i : ℕ) (x : A)
    (ns ts : List (ℕ × A))
    → IsList l (ns ++ ((i, x) ∷ [])) ts
    → Unmatched matches ns
    → matches x ≡ true
    → length ns < fuel
    → (l' : CiList A) × (list_remove2 fuel matches l ≡ some (l', true)) × Dangles l' i x ns ts
unfolding list_remove2 remove_item discard
list_remove2-Dangles fuel matches l i x ns ts valid none_ found lt =
    let (fresh, fresh', apart) = parts l i x ns ts valid in
    let (l₁, cut, kept) = unlink-Cut l i x ns ts valid in
    let l₂ = record l₁ { cursor = if same_pointer l₁.cursor (some i) then none else l₁.cursor } in
    let c = cell x l₁.trash in
    (
      discard l₂ i x,
      loop_last fuel matches l none l.items ns i x valid.chain none_ found lt
          ∙ rw (remove_item, cut) refl,
      record {
        left = set-Chain l₁.heap i c l₁.items ns kept.chain fresh;
        unused =
            link i x (get_elem?-set_self l₁.heap i c kept.inside)
              (set-Chain l₁.heap i c l₁.trash ts kept.unused fresh');
        last_removed = kept.same_last ∙ valid.ends ∙ last_of-append ns i x;
        trash_removed = refl;
        removed = fresh;
      },
    )

-- A `ci_list_push_back` to a list whose `last` points to the first unused item succeeds, and yet the
-- list has the same objects as
-- before: the new one is lost.
pub list_push_back-Dangles {ℓ} :
    {A : Type ℓ} (l : CiList A) (i : ℕ) (x y : A) (ns ts : List (ℕ × A))
    → Dangles l i x ns ts
    → (m : CiList A) × (list_push_back l y ≡ some m) × Chain m.heap m.items ns
unfolding list_push_back list_alloc_item alloc_at push_back_at set_next
list_push_back-Dangles l i x y ns ts d =
    let (e, q, there, rest) = uncons-Chain l.heap l.trash i x ts d.unused in
    let heap = set l.heap i (cell y none) in
    let inside = get_elem?-lt l.heap i (cell x q) there in
    let l₁ = record l { heap = heap; trash = q } in
    let made : list_alloc_item l y ≡ some (l₁, i) =
      ap (λ p. alloc_at l p y) e ∙ rw (alloc_at, there) refl in
    let pushed : push_back_at (l₁, i) l.last
        ≡ some (record l₁ { heap = set heap i (cell y (some i)); last = some i }) =
      ap (push_back_at (l₁, i)) d.last_removed
      ∙ rw (push_back_at, set_next, get_elem?-set_self l.heap i (cell y none) inside) refl in
    (
      record l₁ { heap = set heap i (cell y (some i)); last = some i },
      rw (list_push_back, made) pushed,
      set-Chain heap i (cell y (some i)) l.items ns
          (set-Chain l.heap i (cell y none) l.items ns d.left d.removed) d.removed,
    )
