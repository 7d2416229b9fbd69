-- ===== src/LinkedList/Growing.antt =====
-- `ci_list_push` and `ci_list_push_back` put an object at an end of the list.
use mathlib.Core.Option.{some-injective}
use c_icap_server.Common.{
  ℕ, ◌≡◌, refl, sym, ap, ◌∙◌, subst, Option, none, some, List, [], ◌∷◌, ◌++◌, append_assoc, length,
  get_elem?, set, get_elem?-set_self, get_elem?-append_add, arith,
}
use c_icap_server.LinkedList.{
  Item, CiList, cell, set_next, alloc_at, list_alloc_item, push_at, list_push, push_back_at,
  list_push_back,
}
use c_icap_server.LinkedList.Chains.{
  Chain, stop, link, Fresh, Distinct, last_of, IsList, Holds, set-Chain, append-Chain, length-Fresh,
  get_elem?-lt, join-Fresh, split-Distinct, insert-Distinct, last_of-other, last_of-Fresh,
  last_of-append, last_of-cons, objects-append, append-Distinct, get_elem?-set_other,
}

-- An item for `x` beside the list's items.
record IsReady {ℓ} {A : Type ℓ} (l l' : CiList A) (i : ℕ) (x : A) (ns ts : List (ℕ × A))
    : Type ℓ where
  kept : Chain l'.heap l.items ns
  unused : Chain l'.heap l'.trash ts
  ready : get_elem? l'.heap i ≡ some (cell x none)
  fresh : Fresh i ns
  fresh_unused : Fresh i ts
  apart : Distinct (ns ++ ts)
  same_items : l'.items ≡ l.items
  same_last : l'.last ≡ l.last

-- The result of an allocation.
abbrev Allocated {ℓ} : {A : Type ℓ} → CiList A → A → List (ℕ × A) → Option (CiList A × ℕ) → Type ℓ
Allocated {A = A} l x ns r =
    (l' : CiList A) × (i : ℕ) × (ts : List (ℕ × A)) × (r ≡ some (l', i)) × IsReady l l' i x ns ts

alloc_at-Allocated {ℓ} :
    {A : Type ℓ} (l : CiList A) (x : A) (p : Option ℕ) (ns ts : List (ℕ × A))
    → Chain l.heap p ts
    → Chain l.heap l.items ns
    → Distinct (ns ++ ts)
    → l.trash ≡ p
    → Allocated l x ns (alloc_at l p x)
unfolding alloc_at
alloc_at-Allocated l x p ns ts stop chain apart e =
    let heap = l.heap ++ (cell x none ∷ []) in
    (
      record l { heap = heap },
      length l.heap,
      [],
      refl,
      record {
        kept = append-Chain l.heap (cell x none) l.items ns chain;
        unused = subst (λ p'. Chain heap p' []) (sym e) stop;
        ready = get_elem?-append_add l.heap (cell x none ∷ []) 0 (length l.heap) (omega arith);
        fresh = length-Fresh l.heap l.items ns chain;
        fresh_unused = tt;
        apart = apart;
        same_items = refl;
        same_last = refl;
      },
    )
alloc_at-Allocated l x p ns ts (link {q = q} {ns = ms} i y found rest) chain apart e =
    let (fresh, fresh', apart') = split-Distinct i y ns ms apart in
    let heap = set l.heap i (cell x none) in
    (
      record l { heap = heap; trash = q },
      i,
      ms,
      rw (alloc_at, found) refl,
      record {
        kept = set-Chain l.heap i (cell x none) l.items ns chain fresh;
        unused = set-Chain l.heap i (cell x none) q ms rest fresh';
        ready = get_elem?-set_self l.heap i (cell x none) (get_elem?-lt l.heap i (cell y q) found);
        fresh = fresh;
        fresh_unused = fresh';
        apart = apart';
        same_items = refl;
        same_last = refl;
      },
    )

-- The result of an operation is a list with these items.
abbrev Becomes {ℓ} : {A : Type ℓ} → Option (CiList A) → List (ℕ × A) → List (ℕ × A) → Type ℓ
Becomes {A = A} r ns ts = (m : CiList A) × (r ≡ some m) × IsList m ns ts

push_at-Becomes {ℓ} :
    {A : Type ℓ} (l l' : CiList A) (i : ℕ) (x : A) (p : Option ℕ) (ns ts : List (ℕ × A))
    → Chain l'.heap p ns
    → IsReady l l' i x ns ts
    → l'.last ≡ last_of ns
    → Becomes (push_at (l', i) p) ((i, x) ∷ ns) ts
unfolding push_at set_next
push_at-Becomes l l' i x p ns ts stop r e = (
  record l' { items = some i; last = some i },
  refl,
  record {
    chain = link i x r.ready stop;
    unused = r.unused;
    apart = (r.fresh_unused, r.apart);
    ends = refl;
  },
)
push_at-Becomes l l' i x p ns ts (link {q = q} {ns = ms} j y found rest) r e =
    let c = cell x (some j) in
    let heap = set l'.heap i c in
    let inside = get_elem?-lt l'.heap i (cell x none) r.ready in
    (
      record l' { heap = heap; items = some i },
      rw (push_at, set_next, r.ready) refl,
      record {
        chain =
            link i x (get_elem?-set_self l'.heap i c inside)
              (set-Chain l'.heap i c (some j) ((j, y) ∷ ms) (link j y found rest) r.fresh);
        unused = set-Chain l'.heap i c l'.trash ts r.unused r.fresh_unused;
        apart = (join-Fresh i ((j, y) ∷ ms) ts r.fresh r.fresh_unused, r.apart);
        ends = e;
      },
    )

-- `ci_list_push` on a list succeeds, if memory is there, and puts the object in front of the
-- others.
pub list_push-Holds {ℓ} :
    {A : Type ℓ} (l : CiList A) (x : A) (xs : List A)
    → Holds l xs
    → (m : CiList A) × (list_push l x ≡ some m) × Holds m (x ∷ xs)
unfolding list_push list_alloc_item
list_push-Holds l x xs (ns, ts, valid, same) =
    let (l', i, ts', made, r) =
      alloc_at-Allocated l x l.trash ns ts valid.unused valid.chain valid.apart refl in
    let (m, pushed, valid') =
      push_at-Becomes l l' i x l.items ns ts' r.kept r (r.same_last ∙ valid.ends) in
    (m, rw (list_push, list_alloc_item, made) pushed, ((i, x) ∷ ns, ts', valid', ap (◌∷◌ x) same))

-- The last item gets a successor.
Extended {ℓ} : {A : Type ℓ} → List (Item A) → Option ℕ → List (ℕ × A) → ℕ → ℕ → A → Type ℓ
Extended {A = A} heap p ns j i x =
    (y : A) × (q : Option ℕ) × (get_elem? heap j ≡ some (cell y q))
    × Chain (set heap j (cell y (some i))) p (ns ++ ((i, x) ∷ []))

extend_lem {ℓ} :
    {A : Type ℓ} (heap : List (Item A)) (i j : ℕ) (x : A) (p : Option ℕ) (ns : List (ℕ × A))
    → Chain heap p ns
    → get_elem? heap i ≡ some (cell x none)
    → Fresh i ns
    → Distinct ns
    → last_of ns ≡ some j
    → Extended heap p ns j i x
unfolding Extended
extend_lem heap i j x p ns stop ready fresh apart last = absurd (cc last)
extend_lem heap i j x p ns (link k z found stop) ready (ne, fresh) apart last =
    let same : k ≡ j = some-injective k j last in
    let heap' = set heap k (cell z (some i)) in
    subst (λ m. Extended heap p ns m i x) same
      (
        z,
        none,
        found,
        link k z
            (get_elem?-set_self heap k (cell z (some i)) (get_elem?-lt heap k (cell z none) found))
            (link i x (get_elem?-set_other heap k i (cell z (some i)) (λ e. ne (sym e)) ∙ ready)
              stop),
      )
extend_lem heap i j x p ns (link {q = q} {ns = ms} k z found (link {q = q'} m u found' rest)) ready
      (ne, fresh) (other, apart) last =
    let (y, q'', there, chain) =
      extend_lem heap i j x q ms (link {q = q'} m u found' rest) ready fresh apart last in
    (
      y,
      q'',
      there,
      link k z
          (get_elem?-set_other heap j k (cell y (some i))
              (λ e. last_of-other k j ms other last (sym e))
            ∙ found)
          chain,
    )

push_back_at-Becomes {ℓ} :
    {A : Type ℓ} (l l' : CiList A) (i : ℕ) (x : A) (p : Option ℕ) (ns ts : List (ℕ × A))
    → IsReady l l' i x ns ts
    → last_of ns ≡ p
    → Becomes (push_back_at (l', i) p) (ns ++ ((i, x) ∷ [])) ts
unfolding push_back_at set_next Extended
push_back_at-Becomes l l' i x none [] ts r e = (
  record l' { items = some i; last = some i },
  refl,
  record {
    chain = link i x r.ready stop;
    unused = r.unused;
    apart = (r.fresh_unused, r.apart);
    ends = refl;
  },
)
push_back_at-Becomes l l' i x none (n ∷ ns) ts r e = absurd (last_of-cons n ns e)
push_back_at-Becomes l l' i x (some j) ns ts r e =
    let (y, q, there, chain) =
      extend_lem l'.heap i j x l.items ns r.kept r.ready r.fresh (append-Distinct ns ts r.apart)
        e in
    let heap = set l'.heap j (cell y (some i)) in
    (
      record l' { heap = heap; last = some i },
      rw (push_back_at, set_next, there) refl,
      record {
        chain = subst (λ p. Chain heap p (ns ++ ((i, x) ∷ []))) (sym r.same_items) chain;
        unused =
            set-Chain l'.heap j (cell y (some i)) l'.trash ts r.unused
              (last_of-Fresh j ns ts r.apart e);
        apart =
            subst Distinct (sym (append_assoc ns ((i, x) ∷ []) ts))
              (insert-Distinct i x ns ts r.fresh r.fresh_unused r.apart);
        ends = sym (last_of-append ns i x);
      },
    )

-- `ci_list_push_back` on a list succeeds, if memory is there, and puts the object behind the
-- others.
pub list_push_back-Holds {ℓ} :
    {A : Type ℓ} (l : CiList A) (x : A) (xs : List A)
    → Holds l xs
    → (m : CiList A) × (list_push_back l x ≡ some m) × Holds m (xs ++ (x ∷ []))
unfolding list_push_back list_alloc_item
list_push_back-Holds l x xs (ns, ts, valid, same) =
    let (l', i, ts', made, r) =
      alloc_at-Allocated l x l.trash ns ts valid.unused valid.chain valid.apart refl in
    let (m, pushed, valid') = push_back_at-Becomes l l' i x l.last ns ts' r (sym valid.ends) in
    (
      m,
      rw (list_push_back, list_alloc_item, made) pushed,
      (ns ++ ((i, x) ∷ []), ts', valid', objects-append ns i x ∙ ap (λ ys. ys ++ (x ∷ [])) same),
    )
