-- ===== src/LinkedList/Losing.antt =====
-- What becomes of a `ci_list_t` whose last object `ci_list_remove2` has removed.
use c_icap_server.Common.{ℕ, ◌<◌, ◌≡◌, Bool, true, some, List, [], ◌∷◌, ◌++◌, length}
use c_icap_server.LinkedList.{CiList, list_remove2, list_push_back}
use c_icap_server.LinkedList.Chains.{Chain, IsList}
use c_icap_server.LinkedList.Removing.{
  Unmatched, Dangles, list_remove2-Dangles, list_push_back-Dangles,
}

-- `ci_list_remove2`, whose only match in a list is the last object, removes this object, but leaves
-- `last` at its item, the first to be used again: the next `ci_list_push_back` succeeds, and yet
-- the list has only the objects that were left, the new one is lost.
pub list_remove2-list_push_back {ℓ} :
    {A : Type ℓ} (fuel : ℕ) (matches : A → Bool) (l : CiList A) (i : ℕ) (x y : A)
    (ns ts : List (ℕ × A))
    → IsList l (ns ++ ((i, x) ∷ [])) ts
    → Unmatched matches ns
    → matches x ≡ true
    → length ns < fuel
    → (l' : CiList A) × (m : CiList A) × (list_remove2 fuel matches l ≡ some (l', true))
      × Dangles l' i x ns ts
      × (list_push_back l' y ≡ some m)
      × Chain m.heap m.items ns
list_remove2-list_push_back fuel matches l i x y ns ts valid none_ found lt =
    let (l', removed, dangles) =
      list_remove2-Dangles fuel matches l i x ns ts valid none_ found lt in
    let (m, pushed, left) = list_push_back-Dangles l' i x y ns ts dangles in
    (l', m, removed, dangles, pushed, left)
