-- ===== src/LinkedList/Sorting/Rounds.antt =====
-- A round of the loop of `ci_list_sort2` moves an item of the list to the sorted ones.
use c_icap_server.Common.{
  ℕ, ◌≡◌, ◌≢◌, refl, sym, ap, ◌∙◌, inl, inr, subst, Bool, Option, none, some, List, [], ◌∷◌, ◌++◌,
  get_elem?, set, get_elem?-set_self, Bool-cases,
}
use c_icap_server.LinkedList.{cell, set_next}
use c_icap_server.LinkedList.Chains.{
  Chain, link, Fresh, Distinct, last_of, set-Chain, get_elem?-lt, get_elem?-set_other,
  split-Distinct, join-Fresh,
}
use c_icap_server.LinkedList.Sorting.{SortState, new_tail, link_at, put_at}
use c_icap_server.LinkedList.Sorting.Insertion.{
  before, after, insert_item, place-Placed, new_tail-last_of,
}

-- The sorted items `ss`, and the others: the ones that are left and the unused ones.
pub record IsSorting {ℓ} {A : Type ℓ} (s : SortState A) (ss rs : List (ℕ × A)) : Type ℓ where
  pub sorted : Chain s.heap s.head ss
  pub ends : s.tail ≡ last_of ss
  pub apart : Distinct (ss ++ rs)

-- A chain of items apart from the sorted ones stays.
abbrev pub Kept {ℓ} : {A : Type ℓ} → SortState A → SortState A → ℕ → List (ℕ × A) → Type ℓ
Kept {A = A} s s' i ss =
    (p : Option ℕ) (rs : List (ℕ × A))
    → Chain s.heap p rs
    → Fresh i rs
    → Distinct (ss ++ rs)
    → Chain s'.heap p rs

module _ {ℓ} {A : Type ℓ} where
  other-Fresh :
      (j : ℕ) (ss rs : List (ℕ × A))
      → ((k : ℕ) → Fresh k ss → k ≢ j)
      → Distinct (ss ++ rs)
      → Fresh j rs
  other-Fresh j ss [] other apart = tt
  other-Fresh j ss ((k, y) ∷ rs) other apart =
      let (fresh, fresh', apart') = split-Distinct k y ss rs apart in
      ((λ e. other k fresh (sym e)), other-Fresh j ss rs other apart')

module _ {ℓ} {A : Type ℓ} (less : A → A → Bool) where
  insert_item-Fresh :
      (k i : ℕ) (x : A) (ss rs : List (ℕ × A))
      → k ≢ i
      → Fresh k (ss ++ rs)
      → Fresh k (insert_item less i x ss ++ rs)
  insert_item-Fresh k i x [] rs ne fresh = (ne, fresh)
  insert_item-Fresh k i x ((m, y) ∷ ss) rs ne (ne', fresh) = elim (Bool-cases (less x y)) [
    | inl e ↦ rw e (ne, (ne', fresh))
    | inr e ↦ rw e (ne', insert_item-Fresh k i x ss rs ne fresh)
  ]

  pub insert_item-Distinct :
      (i : ℕ) (x : A) (ss rs : List (ℕ × A))
      → Fresh i ss
      → Fresh i rs
      → Distinct (ss ++ rs)
      → Distinct (insert_item less i x ss ++ rs)
  insert_item-Distinct i x [] rs fresh fresh' apart = (fresh', apart)
  insert_item-Distinct i x ((m, y) ∷ ss) rs (ne, fresh) fresh' (first, apart) =
      elim (Bool-cases (less x y)) [
        | inl e ↦ rw e ((ne, join-Fresh i ss rs fresh fresh'), (first, apart))
        | inr e ↦ rw e (
          insert_item-Fresh m i x ss rs (λ s. ne (sym s)) first,
          insert_item-Distinct i x ss rs fresh fresh' apart,
        )
      ]

  -- The state after a round.
  abbrev pub Moved : SortState A → ℕ → A → List (ℕ × A) → Type ℓ
  Moved s i x ss =
      (s' : SortState A) × (put_at s i (before less x ss none, after less x ss) ≡ some s')
      × Chain s'.heap s'.head (insert_item less i x ss)
      × (s'.tail ≡ last_of (insert_item less i x ss))
      × Kept s s' i ss

  pub put_at-Moved :
      (s : SortState A) (i : ℕ) (x : A) (q : Option ℕ) (ss : List (ℕ × A))
      → Chain s.heap s.head ss
      → s.tail ≡ last_of ss
      → get_elem? s.heap i ≡ some (cell x q)
      → Fresh i ss
      → Distinct ss
      → Moved s i x ss
  unfolding put_at set_next link_at
  put_at-Moved s i x q ss sorted ends found fresh apart =
      let p = after less x ss in
      let h = set s.heap i (cell x p) in
      let tail = ap (new_tail p i) ends ∙ sym (new_tail-last_of less i x ss) in
      let inside = get_elem?-lt s.heap i (cell x q) found in
      elim (place-Placed less s.heap i x none s.head ss sorted fresh apart inside) [
        | inl (b, a, e) ↦ (
          record { heap = h; head = some i; tail = new_tail p i s.tail },
          rw (put_at, set_next, found, b, link_at) refl,
          subst (Chain h (some i)) (sym e) (
              link i x (get_elem?-set_self s.heap i (cell x p) inside) (
                set-Chain s.heap i (cell x p) p ss (subst (λ r. Chain s.heap r ss) (sym a) sorted)
                  fresh)),
          tail,
          (λ r rs chain fresh' apart'. set-Chain s.heap i (cell x p) r rs chain fresh'),
        )
        | inr (j, y, b, held, other, chain) ↦
            let held' : get_elem? h j ≡ some (cell y p) =
              get_elem?-set_other s.heap i j (cell x p) (other i fresh) ∙ held in
            (
              record {
                heap = set h j (cell y (some i));
                head = s.head;
                tail = new_tail p i s.tail;
              },
              rw (put_at, set_next, found, b, link_at, held') refl,
              chain,
              tail,
              (λ r rs kept fresh' apart'.
                  set-Chain h j (cell y (some i)) r rs
                    (set-Chain s.heap i (cell x p) r rs kept fresh')
                    (other-Fresh j ss rs other apart')),
            )
      ]
