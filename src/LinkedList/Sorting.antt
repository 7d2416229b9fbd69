-- ===== src/LinkedList/Sorting.antt =====
-- array.c: `ci_list_sort2`, which moves the items one by one to their places in a sorted list.
pub mod Insertion
pub mod Ordered
pub mod Rounds
pub mod Sorted
use c_icap_server.Common.{
  ℕ, zero, suc, Bool, true, false, Option, none, some, List, ◌>>=◌, get_elem?, if◌then◌else◌,
}
use c_icap_server.LinkedList.{Item, CiList, set_next}

-- The heap with the pointers `sortedHead` and `sortedTail`.
pub record SortState {ℓ} (A : Type ℓ) : Type ℓ where
  pub heap : List (Item A)
  pub head : Option ℕ
  pub tail : Option ℕ

-- `sortedTail` once the item `i` has the successor `p`.
abbrev pub new_tail : Option ℕ → ℕ → Option ℕ → Option ℕ
new_tail none i tail = some i
new_tail (some k) i tail = tail

module _ {ℓ} {A : Type ℓ} where
  -- The inner loop, with whether `cmp_func` is below 0 for two objects. The pointer to a pointer is
  -- the item that holds it, or none for `sortedHead`; the pointer that it shows is returned too.
  unfoldable pub place_loop :
      ℕ → (A → A → Bool) → List (Item A) → A → Option ℕ → Option ℕ → Option (Option ℕ × Option ℕ)
  place_loop zero less heap x prev p = none
  place_loop (suc fuel) less heap x prev none = some (prev, none)
  place_loop (suc fuel) less heap x prev (some k) = elim (get_elem? heap k) [
    | none ↦ none
    | some c ↦
        let rest = place_loop fuel less heap x (some k) c.next in
        if less x c.item then some (prev, some k) else rest
  ]

  -- The item `i`, whose successor is set, becomes the one that `prev` shows.
  unfoldable pub link_at : SortState A → ℕ → Option ℕ → Option (SortState A)
  unfolding set_next
  link_at s i none = some (record s { head = some i })
  link_at s i (some j) = elim (set_next s.heap j (some i)) [
    | none ↦ none
    | some heap ↦ some (record s { heap = heap })
  ]

  unfoldable pub put_at : SortState A → ℕ → Option ℕ × Option ℕ → Option (SortState A)
  unfolding set_next link_at
  put_at s i (prev, p) = elim (set_next s.heap i p) [
    | none ↦ none
    | some heap ↦ link_at (record s { heap = heap; tail = new_tail p i s.tail }) i prev
  ]

  -- The outer loop.
  unfoldable pub sort_loop : ℕ → ℕ → (A → A → Bool) → SortState A → Option ℕ → Option (SortState A)
  unfolding place_loop put_at
  sort_loop zero fuel less s it = none
  sort_loop (suc rounds) fuel less s none = some s
  sort_loop (suc rounds) fuel less s (some i) = elim (get_elem? s.heap i) [
    | none ↦ none
    | some c ↦
        (place_loop fuel less s.heap c.item none s.head >>= λ place.
        put_at s i place >>= λ s'. sort_loop rounds fuel less s' c.next)
  ]

  unfoldable pub sort_items : ℕ → (A → A → Bool) → CiList A → Option (CiList A)
  unfolding sort_loop
  sort_items fuel less l =
      (sort_loop fuel fuel less (record { heap = l.heap; head = none; tail = none }) l.items
        >>= λ s. some (record l { heap = s.heap; items = s.head; last = s.tail }))

  -- `ci_list_sort2`, with fuel for each loop; a list without a second item is left as it is.
  unfoldable pub list_sort2 : ℕ → (A → A → Bool) → CiList A → Option (CiList A)
  unfolding sort_items
  list_sort2 fuel less l = elim l.items [
    | none ↦ some l
    | some i ↦ elim (get_elem? l.heap i) [
      | none ↦ none
      | some c ↦ elim c.next [ none ↦ some l | some k ↦ sort_items fuel less l ]
    ]
  ]
