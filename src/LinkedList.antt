-- ===== src/LinkedList.antt =====
-- array.c: `ci_list_t`, the linked list whose removed items are used again. The items stand in `heap`
-- and a pointer is their index; the objects are copied by `memcpy`, without handlers. A result
-- `none` is an access through a null pointer.
pub mod Chains
pub mod Growing
pub mod Shrinking
pub mod Removing
pub mod Sorting
pub mod PoppingBack
pub mod Losing
pub mod Taking
pub mod Unlinking
pub mod Visits
use c_icap_server.Common.{
  ℕ, zero, suc, ◌+◌, Bool, true, false, Option, none, some, List, [], ◌∷◌, ◌++◌, ◌>>=◌, ◌==◌,
  if◌then◌else◌, length, get_elem?, set,
}

pub record Item {ℓ} (A : Type ℓ) : Type ℓ where
  pub item : A
  pub next : Option ℕ

pub record CiList {ℓ} (A : Type ℓ) : Type ℓ where
  pub heap : List (Item A)
  pub items : Option ℕ
  pub last : Option ℕ
  pub trash : Option ℕ
  pub cursor : Option ℕ

abbrev pub same_pointer : Option ℕ → Option ℕ → Bool
same_pointer none none = true
same_pointer none (some j) = false
same_pointer (some i) none = false
same_pointer (some i) (some j) = i == j

module _ {ℓ} {A : Type ℓ} where
  abbrev pub cell : A → Option ℕ → Item A
  cell x q = record { item = x; next = q }

  unfoldable pub list_create : CiList A
  list_create = record { heap = []; items = none; last = none; trash = none; cursor = none }

  unfoldable pub set_next : List (Item A) → ℕ → Option ℕ → Option (List (Item A))
  set_next heap i q = elim (get_elem? heap i) [
    | none ↦ none
    | some c ↦ some (set heap i (record c { next = q }))
  ]

  -- `list_alloc_item`: an item from the trash, or a new one, at the pointer it returns.
  unfoldable pub alloc_at : CiList A → Option ℕ → A → Option (CiList A × ℕ)
  alloc_at l none x = some (record l { heap = l.heap ++ (cell x none ∷ []) }, length l.heap)
  alloc_at l (some i) x = elim (get_elem? l.heap i) [
    | none ↦ none
    | some c ↦ some (record l { heap = set l.heap i (cell x none); trash = c.next }, i)
  ]

  unfoldable pub list_alloc_item : CiList A → A → Option (CiList A × ℕ)
  unfolding alloc_at
  list_alloc_item l x = alloc_at l l.trash x

  -- `ci_list_push`, at the first item.
  unfoldable pub push_at : CiList A × ℕ → Option ℕ → Option (CiList A)
  unfolding set_next
  push_at (l, i) none = some (record l { items = some i; last = some i })
  push_at (l, i) (some j) = elim (set_next l.heap i (some j)) [
    | none ↦ none
    | some heap ↦ some (record l { heap = heap; items = some i })
  ]

  unfoldable pub list_push : CiList A → A → Option (CiList A)
  unfolding list_alloc_item push_at
  list_push l x = list_alloc_item l x >>= λ r. push_at r l.items

  -- `ci_list_push_back`, at the last item.
  unfoldable pub push_back_at : CiList A × ℕ → Option ℕ → Option (CiList A)
  unfolding set_next
  push_back_at (l, i) none = some (record l { items = some i; last = some i })
  push_back_at (l, i) (some j) = elim (set_next l.heap j (some i)) [
    | none ↦ none
    | some heap ↦ some (record l { heap = heap; last = some i })
  ]

  unfoldable pub list_push_back : CiList A → A → Option (CiList A)
  unfolding list_alloc_item push_back_at
  list_push_back l x = list_alloc_item l x >>= λ r. push_back_at r l.last

  -- The pointers of a list that loses its first item, whose successor is `q`.
  unfoldable pub unlink_first : CiList A → Option ℕ → CiList A
  unlink_first l q =
      if same_pointer l.last l.items
      then record l { last = none; items = none; cursor = none }
      else record l { items = q; cursor = if same_pointer l.cursor l.items then q else l.cursor }

  -- An item that is no longer used.
  unfoldable pub discard : CiList A → ℕ → A → CiList A
  discard l i x = record l { heap = set l.heap i (cell x l.trash); trash = some i }

  -- `ci_list_pop`: the list, and the object if there is one.
  unfoldable pub pop_at : CiList A → Option ℕ → Option (CiList A × Option A)
  unfolding unlink_first discard
  pop_at l none = some (l, none)
  pop_at l (some i) = elim (get_elem? l.heap i) [
    | none ↦ none
    | some c ↦ some (discard (unlink_first l c.next) i c.item, some c.item)
  ]

  unfoldable pub list_pop : CiList A → Option (CiList A × Option A)
  unfolding pop_at
  list_pop l = pop_at l l.items

  -- The item before the removed one, or the list's head, points to the successor `q`.
  unfoldable pub unlink : CiList A → Option ℕ → Option ℕ → Option (CiList A)
  unfolding set_next
  unlink l none q = some (record l { items = q })
  unlink l (some j) q = elim (set_next l.heap j q) [
    | none ↦ none
    | some heap ↦ some (record l { heap = heap })
  ]

  -- The item `i` with the object `x` and the successor `q` is removed; `last` is left as it is.
  unfoldable pub remove_item : CiList A → Option ℕ → ℕ → A → Option ℕ → Option (CiList A)
  unfolding unlink discard
  remove_item l prev i x q = elim (unlink l prev q) [
    | none ↦ none
    | some l' ↦ some (
        discard (record l' { cursor = if same_pointer l'.cursor (some i) then q else l'.cursor }) i
          x)
  ]

  -- The loop of `ci_list_remove2`, with whether `cmp_func` returns 0 for an object: the list, and
  -- whether an object was removed.
  unfoldable pub remove_loop :
      ℕ → (A → Bool) → CiList A → Option ℕ → Option ℕ → Option (CiList A × Bool)
  unfolding remove_item
  remove_loop zero matches l prev it = none
  remove_loop (suc fuel) matches l prev none = some (l, false)
  remove_loop (suc fuel) matches l prev (some i) = elim (get_elem? l.heap i) [
    | none ↦ none
    | some c ↦
        let rest = remove_loop fuel matches l (some i) c.next in
        if matches c.item
        then (remove_item l prev i c.item c.next >>= λ l'. some (l', true))
        else rest
  ]

  -- `ci_list_remove2`, with fuel for the loop.
  unfoldable pub list_remove2 : ℕ → (A → Bool) → CiList A → Option (CiList A × Bool)
  unfolding remove_loop
  list_remove2 fuel matches l = remove_loop fuel matches l none l.items
