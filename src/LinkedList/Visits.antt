-- ===== src/LinkedList/Visits.antt =====
-- array.c: `ci_list_first`, `ci_list_next`, the iterators, `ci_list_iterate` and `ci_list_search2`.
-- An iterator is a pointer to an item, and the list's field `tmp`, which `ci_list_next` alone uses,
-- is a variable.
pub mod Ends
pub mod Iterating
pub mod Walks
use c_icap_server.Common.{ℕ, zero, suc, Bool, Option, none, some, get_elem?, if◌then◌else◌}
use c_icap_server.LinkedList.{CiList}

module _ {ℓ} {A : Type ℓ} where
  -- The object that a pointer shows, if it shows an item.
  unfoldable pub object_at : CiList A → Option ℕ → Option (Option A)
  object_at l none = some none
  object_at l (some i) = elim (get_elem? l.heap i) [ none ↦ none | some c ↦ some (some c.item) ]

  -- The successor of a pointer's item.
  unfoldable pub next_at : CiList A → Option ℕ → Option (Option ℕ)
  next_at l none = some none
  next_at l (some i) = elim (get_elem? l.heap i) [ none ↦ none | some c ↦ some c.next ]

  unfoldable pub list_head : CiList A → Option (Option A)
  unfolding object_at
  list_head l = object_at l l.items

  unfoldable pub list_tail : CiList A → Option (Option A)
  unfolding object_at
  list_tail l = object_at l l.last

  -- The cursor behind the item at the pointer, and the item's object; without one the list is
  -- left as it is.
  unfoldable pub visit_at : CiList A → Option ℕ → Option (CiList A × Option A)
  visit_at l none = some (l, none)
  visit_at l (some i) = elim (get_elem? l.heap i) [
    | none ↦ none
    | some c ↦ some (record l { cursor = c.next }, some c.item)
  ]

  unfoldable pub list_first : CiList A → Option (CiList A × Option A)
  unfolding visit_at
  list_first l = visit_at l l.items

  unfoldable pub list_next : CiList A → Option (CiList A × Option A)
  unfolding visit_at
  list_next l = visit_at l l.cursor

  -- `ci_list_iterator_first`: the iterator and its object.
  unfoldable pub iterator_at : CiList A → Option ℕ → Option (Option ℕ × Option A)
  unfolding object_at
  iterator_at l p = elim (object_at l p) [ none ↦ none | some x ↦ some (p, x) ]

  unfoldable pub iterator_first : CiList A → Option (Option ℕ × Option A)
  unfolding iterator_at
  iterator_first l = iterator_at l l.items

  -- `ci_list_iterator_next`, which leaves an iterator at the end where it is.
  unfoldable pub iterator_next : CiList A → Option ℕ → Option (Option ℕ × Option A)
  unfolding next_at iterator_at
  iterator_next l p = elim (next_at l p) [ none ↦ none | some q ↦ iterator_at l q ]

  -- The loop of `ci_list_search2`, with whether `cmp_func` returns 0 for an object.
  unfoldable pub search_loop : ℕ → (A → Bool) → CiList A → Option ℕ → Option (Option A)
  search_loop zero matches l p = none
  search_loop (suc fuel) matches l none = some none
  search_loop (suc fuel) matches l (some i) = elim (get_elem? l.heap i) [
    | none ↦ none
    | some c ↦
        let rest = search_loop fuel matches l c.next in
        if matches c.item then some (some c.item) else rest
  ]

  unfoldable pub list_search2 : ℕ → (A → Bool) → CiList A → Option (Option A)
  unfolding search_loop
  list_search2 fuel matches l = search_loop fuel matches l l.items

-- `ci_list_iterate`, whose function `fn` returns its data and whether it stops. The function does
-- not change the list.
module _ {ℓ ℓ'} {A : Type ℓ} {S : Type ℓ'} where
  unfoldable pub iterate_loop :
      ℕ → (S → A → S × Bool) → S → CiList A → Option ℕ → Option (CiList A × S)
  iterate_loop zero fn s l p = none
  iterate_loop (suc fuel) fn s l none = some (record l { cursor = none }, s)
  iterate_loop (suc fuel) fn s l (some i) = elim (get_elem? l.heap i) [
    | none ↦ none
    | some c ↦
        let l' = record l { cursor = c.next } in
        let rest = iterate_loop fuel fn (fn s c.item).0 l' c.next in
        if (fn s c.item).1 then some (l', (fn s c.item).0) else rest
  ]

  unfoldable pub list_iterate : ℕ → (S → A → S × Bool) → S → CiList A → Option (CiList A × S)
  unfolding iterate_loop
  list_iterate fuel fn s l = iterate_loop fuel fn s l l.items
