-- ===== src/LinkedList/Visits/Walks.antt =====
-- The operations that visit the items of a `ci_list_t` see its objects in order.
use c_icap_server.Common.{
  ℕ, zero, suc, ◌<◌, ◌≡◌, refl, sym, ap, ◌∙◌, subst, Bool, true, false, Option, none, some, List,
  [], ◌∷◌, length, if◌then◌else◌, arith,
}
use c_icap_server.LinkedList.{CiList}
use c_icap_server.LinkedList.Chains.{Chain, stop, link, objects, Holds, length-objects}
use c_icap_server.LinkedList.Visits.{
  object_at, visit_at, list_next, next_at, iterator_at, iterator_next, search_loop, list_search2,
}

abbrev pub first_of {ℓ} : {A : Type ℓ} → List A → Option A
first_of [] = none
first_of (x ∷ xs) = some x

abbrev pub rest_of {ℓ} : {A : Type ℓ} → List A → List A
rest_of [] = []
rest_of (x ∷ xs) = xs

-- A pointer to an item of a list, before the objects `xs`.
abbrev pub Before {ℓ} : {A : Type ℓ} → CiList A → Option ℕ → List A → Type ℓ
Before {A = A} l p xs = (ns : List (ℕ × A)) × Chain l.heap p ns × (objects ns ≡ xs)

-- The first object that matches.
abbrev pub first_match {ℓ} : {A : Type ℓ} → (A → Bool) → List A → Option A
first_match matches [] = none
first_match matches (x ∷ xs) =
    let rest = first_match matches xs in if matches x then some x else rest

module _ {ℓ} {A : Type ℓ} where
  search_loop-first_match :
      (fuel : ℕ) (matches : A → Bool) (l : CiList A) (p : Option ℕ) (ns : List (ℕ × A))
      → Chain l.heap p ns
      → length ns < fuel
      → search_loop fuel matches l p ≡ some (first_match matches (objects ns))
  unfolding search_loop
  search_loop-first_match zero matches l p ns chain lt = absurd (omega arith)
  search_loop-first_match (suc fuel) matches l p ns stop lt = refl
  search_loop-first_match (suc fuel) matches l p ns (link {q = q} {ns = ms} i x found rest) lt =
      let ih = search_loop-first_match fuel matches l q ms rest (omega arith) in
      rw (search_loop, found, ih)
        (elim (matches x)
          as (λ b.
            (if b then some (some x) else some (first_match matches (objects ms)))
            ≡ some (if b then some x else first_match matches (objects ms))) [
              | true ↦ refl
              | false ↦ refl
            ])

  -- `ci_list_search2` returns the first object for which the comparison returns 0, or null where
  -- there is none; it terminates.
  pub list_search2-first_match :
      (fuel : ℕ) (matches : A → Bool) (l : CiList A) (xs : List A)
      → Holds l xs
      → length xs < fuel
      → list_search2 fuel matches l ≡ some (first_match matches xs)
  unfolding list_search2
  list_search2-first_match fuel matches l xs (ns, ts, valid, same) lt =
      let e = length-objects ns in
      let e' : length (objects ns) ≡ length xs = ap length same in
      search_loop-first_match fuel matches l l.items ns valid.chain (omega arith)
      ∙ ap (λ ys. some (first_match matches ys)) same

  visit_at-Before :
      (l : CiList A) (p : Option ℕ) (xs : List A)
      → Before l p xs
      → l.cursor ≡ p
      → (m : CiList A) × (visit_at l p ≡ some (m, first_of xs)) × Before m m.cursor (rest_of xs)
  unfolding visit_at
  visit_at-Before l p xs (ns, stop, same) e =
      subst
        (λ ys.
          (m : CiList A) × (visit_at l none ≡ some (m, first_of ys))
          × Before m m.cursor (rest_of ys))
        same (l, refl, ([], subst (λ r. Chain l.heap r []) (sym e) stop, refl))
  visit_at-Before l p xs (ns, link {q = q} {ns = ms} i x found rest, same) e =
      subst
        (λ ys.
          (m : CiList A) × (visit_at l (some i) ≡ some (m, first_of ys))
          × Before m m.cursor (rest_of ys))
        same (record l { cursor = q }, rw (visit_at, found) refl, (ms, rest, refl))

  -- `ci_list_next` returns the first of the objects before which the cursor stands, and moves the
  -- cursor behind it; at the end it returns null.
  pub list_next-Before :
      (l : CiList A) (xs : List A)
      → Before l l.cursor xs
      → (m : CiList A) × (list_next l ≡ some (m, first_of xs)) × Before m m.cursor (rest_of xs)
  unfolding list_next
  list_next-Before l xs before = visit_at-Before l l.cursor xs before refl

  -- `ci_list_iterator_next` moves an iterator to the next of its objects.
  pub iterator_next-Before :
      (l : CiList A) (p : Option ℕ) (x : A) (xs : List A)
      → Before l p (x ∷ xs)
      → (q : Option ℕ) × (iterator_next l p ≡ some (q, first_of xs)) × Before l q xs
  unfolding iterator_next next_at iterator_at object_at
  iterator_next-Before l p x xs (ns, stop, same) = absurd (cc same)
  iterator_next-Before l p x xs (ns, link i z found stop, same) =
      subst
        (λ ys. (q : Option ℕ) × (iterator_next l (some i) ≡ some (q, first_of ys)) × Before l q ys)
        (ap rest_of same) (none, rw (iterator_next, next_at, found) refl, ([], stop, refl))
  iterator_next-Before l p x xs
        (ns, link i z found (link {q = q} {ns = ms} j y found' rest), same) =
      subst
        (λ ys. (q : Option ℕ) × (iterator_next l (some i) ≡ some (q, first_of ys)) × Before l q ys)
        (ap rest_of same)
        (
          some j,
          rw (iterator_next, next_at, found, iterator_at, object_at, found') refl,
          ((j, y) ∷ ms, link j y found' rest, refl),
        )
