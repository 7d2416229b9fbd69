-- ===== src/LinkedList/Visits/Iterating.antt =====
-- `ci_list_iterate` gives its function the objects in order, until the function stops it.
use c_icap_server.Common.{
  ℕ, zero, suc, ◌<◌, ◌≡◌, refl, ap, subst, Bool, true, false, Option, none, some, List, [], ◌∷◌,
  length, if◌then◌else◌, arith,
}
use c_icap_server.LinkedList.{CiList}
use c_icap_server.LinkedList.Chains.{Chain, stop, link, objects, Holds, length-objects}
use c_icap_server.LinkedList.Visits.{iterate_loop, list_iterate}
use c_icap_server.LinkedList.Visits.Walks.{Before}

-- What a run of `fn` over objects leaves: its data, and the objects that it does not see.
abbrev pub seen {ℓ ℓ'} : {A : Type ℓ} {S : Type ℓ'} → (S → A → S × Bool) → S → List A → S × List A
seen fn s [] = (s, [])
seen fn s (x ∷ xs) =
    let rest = seen fn (fn s x).0 xs in if (fn s x).1 then ((fn s x).0, xs) else rest

-- The list after the run: the same but for the cursor, which is behind the objects seen.
abbrev pub Ran {ℓ ℓ'} :
    {A : Type ℓ} {S : Type ℓ'} → CiList A → Option (CiList A × S) → S × List A → Type (ℓ ⊔ ℓ')
Ran {A = A} {S = S} l r (s, xs) =
    (q : Option ℕ) × (r ≡ some (record l { cursor = q }, s)) × Before l q xs

module _ {ℓ ℓ'} {A : Type ℓ} {S : Type ℓ'} where
  iterate_loop-Ran :
      (fuel : ℕ) (fn : S → A → S × Bool) (s : S) (l : CiList A) (p : Option ℕ) (ns : List (ℕ × A))
      → Chain l.heap p ns
      → length ns < fuel
      → Ran l (iterate_loop fuel fn s l p) (seen fn s (objects ns))
  unfolding iterate_loop
  iterate_loop-Ran zero fn s l p ns chain lt = absurd (omega arith)
  iterate_loop-Ran (suc fuel) fn s l p ns stop lt = (none, refl, ([], stop, refl))
  iterate_loop-Ran (suc fuel) fn s l p ns (link {q = q} {ns = ms} i x found rest) lt =
      let l' = record l { cursor = q } in
      let s' = (fn s x).0 in
      let ih : Ran l' (iterate_loop fuel fn s' l' q) (seen fn s' (objects ms)) =
        iterate_loop-Ran fuel fn s' l' q ms rest (omega arith) in
      rw (iterate_loop, found)
        (elim ((fn s x).1)
          as (λ b.
            Ran l (if b then some (l', s') else iterate_loop fuel fn s' l' q)
              (if b then (s', objects ms) else seen fn s' (objects ms))) [
                | true ↦ (q, refl, (ms, rest, refl))
                | false ↦ ih
              ])

  -- `ci_list_iterate` terminates; its function has seen the objects of the list in order, up to
  -- the first at which it stops, and the cursor is before the objects that are left.
  pub list_iterate-Ran :
      (fuel : ℕ) (fn : S → A → S × Bool) (s : S) (l : CiList A) (xs : List A)
      → Holds l xs
      → length xs < fuel
      → Ran l (list_iterate fuel fn s l) (seen fn s xs)
  unfolding list_iterate
  list_iterate-Ran fuel fn s l xs (ns, ts, valid, same) lt =
      let e = length-objects ns in
      let e' : length (objects ns) ≡ length xs = ap length same in
      subst (λ ys. Ran l (list_iterate fuel fn s l) (seen fn s ys)) same
        (iterate_loop-Ran fuel fn s l l.items ns valid.chain (omega arith))
