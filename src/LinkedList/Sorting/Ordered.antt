-- ===== src/LinkedList/Sorting/Ordered.antt =====
-- The list that `ci_list_sort2` leaves is in order, with the objects that were there.
use mathlib.Core.List.{Perm, perm_middle}
use mathlib.Core.List.Perm
use c_icap_server.Common.{
  ℕ, ◌<◌, ◌≡◌, inl, inr, subst, Bool, true, false, some, List, [], ◌∷◌, ◌++◌, length, Bool-cases,
  append-nil,
}
use c_icap_server.LinkedList.{CiList}
use c_icap_server.LinkedList.Chains.{Holds}
use c_icap_server.LinkedList.Sorting.{list_sort2}
use c_icap_server.LinkedList.Sorting.Sorted.{insert_object, insert_all, list_sort2-insert_all}

-- No object is less than the one before it.
abbrev pub Ascending {ℓ} : {A : Type ℓ} → (A → A → Bool) → List A → Type 0
Ascending less [] = Unit
Ascending less (x ∷ []) = Unit
Ascending less (x ∷ y ∷ ys) = (less y x ≡ false) × Ascending less (y ∷ ys)

module _ {ℓ} {A : Type ℓ} (less : A → A → Bool) where
  insert_object-Perm : (x : A) (ys : List A) → Perm (insert_object less x ys) (x ∷ ys)
  insert_object-Perm x [] = Perm.rfl
  insert_object-Perm x (y ∷ ys) = elim (Bool-cases (less x y)) [
    | inl e ↦ rw e Perm.rfl
    | inr e ↦ rw e (Perm.trans (Perm.cons y (insert_object-Perm x ys)) (Perm.swap x y ys))
  ]

  insert_all-Perm : (ys xs : List A) → Perm (insert_all less ys xs) (xs ++ ys)
  insert_all-Perm ys [] = Perm.rfl
  insert_all-Perm ys (x ∷ xs) =
      Perm.trans (insert_all-Perm (insert_object less x ys) xs)
        (Perm.trans (Perm.append_left xs (insert_object-Perm x ys)) (perm_middle xs ys))

  -- `less` is the test `< 0` on a comparison of which at most one order of two objects is below 0.
  insert_object-Ascending :
      ((a b : A) → less a b ≡ true → less b a ≡ false)
      → (x : A) (ys : List A) → Ascending less ys
      → Ascending less (insert_object less x ys)
  insert_object-Ascending asym x [] ascending = tt
  insert_object-Ascending asym x (y ∷ []) ascending = elim (Bool-cases (less x y)) [
    | inl e ↦ rw e (asym x y e, tt)
    | inr e ↦ rw e (e, tt)
  ]
  insert_object-Ascending asym x (y ∷ z ∷ zs) (first, ascending) =
      let ih = insert_object-Ascending asym x (z ∷ zs) ascending in
      elim (Bool-cases (less x y)) [
        | inl e ↦ rw e (asym x y e, (first, ascending))
        | inr e ↦ rw e (behind e first ih)
      ]
    where
      behind :
          less x y ≡ false
          → less z y ≡ false
          → Ascending less (insert_object less x (z ∷ zs))
          → Ascending less (y ∷ insert_object less x (z ∷ zs))
      behind e first = elim (Bool-cases (less x z)) [
        | inl e' ↦ rw e' (λ rest. (e, rest))
        | inr e' ↦ rw e' (λ rest. (first, rest))
      ]

  insert_all-Ascending :
      ((a b : A) → less a b ≡ true → less b a ≡ false)
      → (ys xs : List A) → Ascending less ys
      → Ascending less (insert_all less ys xs)
  insert_all-Ascending asym ys [] ascending = ascending
  insert_all-Ascending asym ys (x ∷ xs) ascending =
      insert_all-Ascending asym (insert_object less x ys) xs
        (insert_object-Ascending asym x ys ascending)

-- `ci_list_sort2` terminates for a comparison function that is below 0 for at most one order of
-- two objects, and leaves a list with the same objects in which none is less than the one
-- before it.
pub list_sort2-Ascending {ℓ} :
    {A : Type ℓ} (fuel : ℕ) (less : A → A → Bool) (l : CiList A) (xs : List A)
    → ((a b : A) → less a b ≡ true → less b a ≡ false)
    → Holds l xs
    → length xs < fuel
    → (m : CiList A) × (ys : List A) × (list_sort2 fuel less l ≡ some m)
      × Holds m ys
      × Perm ys xs
      × Ascending less ys
list_sort2-Ascending fuel less l xs asym held lt =
    let (m, run, held') = list_sort2-insert_all less fuel l xs held lt in
    (
      m,
      insert_all less [] xs,
      run,
      held',
      subst (Perm (insert_all less [] xs)) (append-nil xs) (insert_all-Perm less [] xs),
      insert_all-Ascending less asym [] xs tt,
    )
