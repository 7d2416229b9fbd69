-- ===== src/LinkedList/Taking.antt =====
-- array.c: `ci_list_remove3`, which copies the removed object to a buffer of its caller.
use c_icap_server.Common.{
  ℕ, zero, suc, ◌≡◌, refl, Bool, Option, Option-cases, Bool-cases, inl, inr, none, some, ◌>>=◌,
  get_elem?, if◌then◌else◌,
}
use c_icap_server.LinkedList.{CiList, remove_item, remove_loop, list_remove2}
use c_icap_server.LinkedList.Visits.{search_loop, list_search2}

module _ {ℓ} {A : Type ℓ} where
  -- The loop: the list, and the object that is copied if one is removed.
  unfoldable take_loop :
      ℕ → (A → Bool) → CiList A → Option ℕ → Option ℕ → Option (CiList A × Option A)
  unfolding remove_item
  take_loop zero matches l prev it = none
  take_loop (suc fuel) matches l prev none = some (l, none)
  take_loop (suc fuel) matches l prev (some i) = elim (get_elem? l.heap i) [
    | none ↦ none
    | some c ↦
        let rest = take_loop fuel matches l (some i) c.next in
        if matches c.item
        then (remove_item l prev i c.item c.next >>= λ l'. some (l', some c.item))
        else rest
  ]

  -- `ci_list_remove3`, with fuel for the loop.
  unfoldable pub list_remove3 : ℕ → (A → Bool) → CiList A → Option (CiList A × Option A)
  unfolding take_loop
  list_remove3 fuel matches l = take_loop fuel matches l none l.items

  -- A removal by `ci_list_remove2`, with the object that `ci_list_search2` finds.
  abbrev remove_found : Option (CiList A × Bool) → Option (Option A) → Option (CiList A × Option A)
  remove_found r found = (r >>= λ s. found >>= λ o. some (s.0, o))

  take_loop-remove_loop :
      (fuel : ℕ) (matches : A → Bool) (l : CiList A) (prev it : Option ℕ)
      → take_loop fuel matches l prev it
        ≡ remove_found (remove_loop fuel matches l prev it) (search_loop fuel matches l it)
  unfolding take_loop remove_loop search_loop
  take_loop-remove_loop zero matches l prev it = refl
  take_loop-remove_loop (suc fuel) matches l prev none = refl
  take_loop-remove_loop (suc fuel) matches l prev (some i) =
      elim (Option-cases (get_elem? l.heap i)) [
        | inl e ↦ rw (take_loop, remove_loop, search_loop, e) refl
        | inr (c, e) ↦
            let ih = take_loop-remove_loop fuel matches l (some i) c.next in
            elim (Bool-cases (matches c.item)) [
              | inl t ↦ elim (Option-cases (remove_item l prev i c.item c.next)) [
                | inl f ↦ rw (take_loop, remove_loop, search_loop, e, t, f) refl
                | inr (l', f) ↦ rw (take_loop, remove_loop, search_loop, e, t, f) refl
              ]
              | inr t ↦ rw (take_loop, remove_loop, search_loop, e, t) ih
            ]
      ]

  -- `ci_list_remove3` does to a list what `ci_list_remove2` does, and copies the object that
  -- `ci_list_search2` finds in it.
  pub list_remove3-list_remove2 :
      (fuel : ℕ) (matches : A → Bool) (l : CiList A)
      → list_remove3 fuel matches l
        ≡ (list_remove2 fuel matches l >>= λ r. list_search2 fuel matches l >>= λ o. some (r.0, o))
  unfolding list_remove3 list_remove2 list_search2
  list_remove3-list_remove2 fuel matches l = take_loop-remove_loop fuel matches l none l.items
