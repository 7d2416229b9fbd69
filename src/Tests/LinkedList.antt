-- ===== src/Tests/LinkedList.antt =====
-- Instances of the theorems of LinkedList at a list with an item in the trash.
use mathlib.Core.List.{Perm}
use c_icap_server.Common.{ℕ, ◌≡◌, refl, none, some, List, [], ◌∷◌, arith, true, false, ◌==◌, ltb}
use c_icap_server.LinkedList.{CiList, cell, list_push_back, list_remove2}
use c_icap_server.LinkedList.Chains.{Chain, stop, link, IsList, Holds}
use c_icap_server.LinkedList.PoppingBack.{list_pop_back}
use c_icap_server.LinkedList.PoppingBack.Outcome.{PoppedBack, list_pop_back-PoppedBack}
use c_icap_server.LinkedList.Losing.{list_remove2-list_push_back}
use c_icap_server.LinkedList.Removing.{Dangles}
use c_icap_server.LinkedList.Unlinking.Unlinked.{list_remove2-IsList}
use c_icap_server.LinkedList.Sorting.{list_sort2}
use c_icap_server.LinkedList.Sorting.Ordered.{Ascending, list_sort2-Ascending}

ltb-asym : (a b : ℕ) → ltb b a ≡ true → ltb a b ≡ false
ltb-asym a b e = ground arith

-- The objects 7 and 8 at the indices 2 and 0; the item 1 is not used.
abbrev two_objects : CiList ℕ
two_objects = record {
  heap = cell 8 none ∷ cell 5 none ∷ cell 7 (some 0) ∷ [];
  items = some 2;
  last = some 0;
  trash = some 1;
  cursor = none;
}

two_objects-IsList : IsList two_objects ((2, 7) ∷ (0, 8) ∷ []) ((1, 5) ∷ [])
two_objects-IsList = record {
  chain = link 2 7 refl (link 0 8 refl stop);
  unused = link 1 5 refl stop;
  apart = (((λ e. omega arith), ((λ e. omega arith), tt)), (((λ e. omega arith), tt), (tt, tt)));
  ends = refl;
}

two_objects-Holds : Holds two_objects (7 ∷ 8 ∷ [])
two_objects-Holds = ((2, 7) ∷ (0, 8) ∷ [], (1, 5) ∷ [], two_objects-IsList, refl)

list_pop_back-PoppedBack_example : PoppedBack (list_pop_back 5 two_objects) (7 ∷ 8 ∷ [])
list_pop_back-PoppedBack_example =
    list_pop_back-PoppedBack 5 two_objects (7 ∷ 8 ∷ []) two_objects-Holds (omega arith)

list_sort2-Ascending_example :
    (m : CiList ℕ) × (ys : List ℕ) × (list_sort2 5 (λ a b. ltb b a) two_objects ≡ some m)
    × Holds m ys
    × Perm ys (7 ∷ 8 ∷ [])
    × Ascending (λ a b. ltb b a) ys
list_sort2-Ascending_example =
    list_sort2-Ascending 5 (λ a b. ltb b a) two_objects (7 ∷ 8 ∷ []) ltb-asym two_objects-Holds
      (omega arith)

list_remove2-IsList_example :
    (m : CiList ℕ) × (list_remove2 1 (λ v. v == 7) two_objects ≡ some (m, true))
    × IsList m ((0, 8) ∷ []) ((2, 7) ∷ (1, 5) ∷ [])
list_remove2-IsList_example =
    list_remove2-IsList 1 (λ v. v == 7) two_objects [] 2 7 (0, 8) [] ((1, 5) ∷ [])
      two_objects-IsList tt refl (omega arith)

list_remove2-list_push_back_example :
    (l' : CiList ℕ) × (m : CiList ℕ) × (list_remove2 2 (λ v. v == 8) two_objects ≡ some (l', true))
    × Dangles l' 0 8 ((2, 7) ∷ []) ((1, 5) ∷ [])
    × (list_push_back l' 9 ≡ some m)
    × Chain m.heap m.items ((2, 7) ∷ [])
list_remove2-list_push_back_example =
    list_remove2-list_push_back 2 (λ v. v == 8) two_objects 0 8 9 ((2, 7) ∷ []) ((1, 5) ∷ [])
      two_objects-IsList (refl, tt) refl (omega arith)
