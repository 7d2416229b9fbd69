-- ===== src/LinkedList/Visits/Ends.antt =====
-- `ci_list_first`, `ci_list_head` and `ci_list_tail` return the objects at the ends of a list.
use c_icap_server.Common.{ℕ, ◌≡◌, refl, ap, ◌∙◌, Option, none, some, List, [], ◌∷◌}
use c_icap_server.LinkedList.{CiList}
use c_icap_server.LinkedList.Chains.{Chain, stop, link, last_of, objects, Holds}
use c_icap_server.LinkedList.Visits.{object_at, list_head, list_tail, visit_at, list_first}
use c_icap_server.LinkedList.Visits.Walks.{Before, first_of, rest_of}

abbrev pub last_object {ℓ} : {A : Type ℓ} → List A → Option A
last_object [] = none
last_object (x ∷ []) = some x
last_object (x ∷ y ∷ ys) = last_object (y ∷ ys)

module _ {ℓ} {A : Type ℓ} where
  object_at-first_of :
      (l : CiList A) (p : Option ℕ) (ns : List (ℕ × A))
      → Chain l.heap p ns
      → object_at l p ≡ some (first_of (objects ns))
  unfolding object_at
  object_at-first_of l p ns stop = refl
  object_at-first_of l p ns (link i x found rest) = rw (object_at, found) refl

  object_at-last_object :
      (l : CiList A) (p : Option ℕ) (ns : List (ℕ × A))
      → Chain l.heap p ns
      → object_at l (last_of ns) ≡ some (last_object (objects ns))
  unfolding object_at
  object_at-last_object l p ns stop = refl
  object_at-last_object l p ns (link i x found stop) = rw (object_at, found) refl
  object_at-last_object l p ns (link {q = q} i x found (link j y found' rest)) =
      object_at-last_object l q _ (link j y found' rest)

  -- `ci_list_head` returns the first object and `ci_list_tail` the last one, or null for an empty
  -- list.
  pub list_head-list_tail :
      (l : CiList A) (xs : List A)
      → Holds l xs
      → (list_head l ≡ some (first_of xs)) × (list_tail l ≡ some (last_object xs))
  unfolding list_head list_tail
  list_head-list_tail l xs (ns, ts, valid, same) = (
    object_at-first_of l l.items ns valid.chain ∙ ap (λ ys. some (first_of ys)) same,
    ap (object_at l) valid.ends
        ∙ object_at-last_object l l.items ns valid.chain
        ∙ ap (λ ys. some (last_object ys)) same,
  )

  -- `ci_list_first` returns the first object, and the cursor stands before the others; on an empty
  -- list it returns null and leaves the list as it is.
  pub list_first-Before :
      (l : CiList A) (x : A) (xs : List A)
      → Holds l (x ∷ xs)
      → (q : Option ℕ) × (list_first l ≡ some (record l { cursor = q }, some x)) × Before l q xs
  unfolding list_first visit_at
  list_first-Before l x xs (ns, ts, valid, same) = first valid.chain same
    where
      first :
          {p : Option ℕ} {ns : List (ℕ × A)}
          → Chain l.heap p ns
          → objects ns ≡ x ∷ xs
          → (q : Option ℕ) × (visit_at l p ≡ some (record l { cursor = q }, some x)) × Before l q xs
      first stop same = absurd (cc same)
      first (link {q = q} {ns = ms} i z found rest) same = (
        q,
        rw (visit_at, found) (ap (λ v. some (record l { cursor = q }, v)) (ap first_of same)),
        (ms, rest, ap rest_of same),
      )
