-- ===== src/LinkedList/Sorting/Sorted.antt =====
-- `ci_list_sort2` sorts the objects of a list by insertion.
use c_icap_server.Common.{
  ℕ, zero, suc, ◌+◌, ◌<◌, ◌≡◌, refl, sym, ap, ◌∙◌, inl, inr, subst, Bool, Option, none, some, List,
  [], ◌∷◌, ◌++◌, append_assoc, length, get_elem?, if◌then◌else◌, Bool-cases, arith,
}
use c_icap_server.LinkedList.{CiList, cell}
use c_icap_server.LinkedList.Chains.{
  Chain, stop, link, Distinct, last_of, objects, IsList, Holds, append-Fresh, split-Distinct,
  append-Distinct, length-objects,
}
use c_icap_server.LinkedList.Sorting.{SortState, sort_loop, sort_items, list_sort2}
use c_icap_server.LinkedList.Sorting.Insertion.{insert_item, place_loop_lem}
use c_icap_server.LinkedList.Sorting.Rounds.{put_at-Moved, insert_item-Distinct}

-- The objects with one more, before the first that is greater.
abbrev pub insert_object {ℓ} : {A : Type ℓ} → (A → A → Bool) → A → List A → List A
insert_object less x [] = x ∷ []
insert_object less x (y ∷ ys) =
    let rest = insert_object less x ys in if less x y then x ∷ y ∷ ys else y ∷ rest

-- The sorted objects with those of a list, one by one.
abbrev pub insert_all {ℓ} : {A : Type ℓ} → (A → A → Bool) → List A → List A → List A
insert_all less ys [] = ys
insert_all less ys (x ∷ xs) = insert_all less (insert_object less x ys) xs

-- What the loop returns from the sorted items `ss` and the ones that are left, `ns`.
abbrev pub LoopSorted {ℓ} :
    {A : Type ℓ}
    → (A → A → Bool)
    → Option (SortState A)
    → Option ℕ
    → (ss ns ts : List (ℕ × A)) → Type ℓ
LoopSorted {A = A} less r trash ss ns ts =
    (s : SortState A) × (zs : List (ℕ × A)) × (r ≡ some s)
    × Chain s.heap s.head zs
    × (s.tail ≡ last_of zs)
    × Chain s.heap trash ts
    × Distinct (zs ++ ts)
    × (objects zs ≡ insert_all less (objects ss) (objects ns))

drop-Distinct {ℓ} :
    {A : Type ℓ} (ss ms ts : List (ℕ × A)) → Distinct (ss ++ (ms ++ ts)) → Distinct (ss ++ ts)
drop-Distinct ss [] ts apart = apart
drop-Distinct ss ((i, x) ∷ ms) ts apart =
    drop-Distinct ss ms ts (split-Distinct i x ss (ms ++ ts) apart).2

module _ {ℓ} {A : Type ℓ} (less : A → A → Bool) where
  objects-insert_item :
      (i : ℕ) (x : A) (ss : List (ℕ × A))
      → objects (insert_item less i x ss) ≡ insert_object less x (objects ss)
  objects-insert_item i x [] = refl
  objects-insert_item i x ((k, y) ∷ ss) = elim (Bool-cases (less x y)) [
    | inl e ↦ rw e refl
    | inr e ↦ rw e (ap (◌∷◌ y) (objects-insert_item i x ss))
  ]

  length-insert_item :
      (i : ℕ) (x : A) (ss : List (ℕ × A)) → length (insert_item less i x ss) ≡ suc (length ss)
  length-insert_item i x [] = refl
  length-insert_item i x ((k, y) ∷ ss) = elim (Bool-cases (less x y)) [
    | inl e ↦ rw e refl
    | inr e ↦ rw e (ap suc (length-insert_item i x ss))
  ]

  sort_loop-LoopSorted :
      (rounds fuel : ℕ) (s : SortState A) (it trash : Option ℕ) (ss ns ts : List (ℕ × A))
      → Chain s.heap it ns
      → Chain s.heap s.head ss
      → s.tail ≡ last_of ss
      → Chain s.heap trash ts
      → Distinct (ss ++ (ns ++ ts))
      → length ns < rounds
      → length ss + length ns < fuel
      → LoopSorted less (sort_loop rounds fuel less s it) trash ss ns ts
  unfolding sort_loop
  sort_loop-LoopSorted zero fuel s it trash ss ns ts chain sorted ends unused apart lt lt' =
      absurd (omega arith)
  sort_loop-LoopSorted (suc rounds) fuel s it trash ss ns ts stop sorted ends unused apart lt lt' =
      (s, ss, refl, sorted, ends, unused, apart, refl)
  sort_loop-LoopSorted (suc rounds) fuel s it trash ss ns ts (link {q = q} {ns = ms} i x found rest)
        sorted ends unused apart lt lt' =
      let (fresh, fresh', apart') = split-Distinct i x ss (ms ++ ts) apart in
      let (f₁, f₂) = append-Fresh i ms ts fresh' in
      let placed = place_loop_lem less fuel s.heap x none s.head ss sorted (omega arith) in
      let (s', moved, sorted', ends', kept) =
        put_at-Moved less s i x q ss sorted ends found fresh
          (append-Distinct ss (ms ++ ts) apart') in
      let long = length-insert_item i x ss in
      let (r, zs, run, chain', last', unused', apart'', same) =
        sort_loop-LoopSorted rounds fuel s' q trash (insert_item less i x ss) ms ts
          (kept q ms rest f₁
            (append-Distinct (ss ++ ms) ts (subst Distinct (sym (append_assoc ss ms ts)) apart')))
          sorted' ends' (kept trash ts unused f₂ (drop-Distinct ss ms ts apart'))
          (insert_item-Distinct less i x ss (ms ++ ts) fresh fresh' apart') (omega arith)
          (omega arith) in
      (
        r,
        zs,
        rw (sort_loop, found, placed, moved) run,
        chain',
        last',
        unused',
        apart'',
        same ∙ ap (λ ys. insert_all less ys (objects ms)) (objects-insert_item i x ss),
      )

  sort_items-Holds :
      (fuel : ℕ) (l : CiList A) (ns ts : List (ℕ × A))
      → IsList l ns ts
      → length ns < fuel
      → (m : CiList A) × (sort_items fuel less l ≡ some m)
        × Holds m (insert_all less [] (objects ns))
  unfolding sort_items
  sort_items-Holds fuel l ns ts valid lt =
      let s : SortState A = record { heap = l.heap; head = none; tail = none } in
      let (s', zs, run, chain, last, unused, apart, same) =
        sort_loop-LoopSorted fuel fuel s l.items l.trash [] ns ts valid.chain stop refl valid.unused
          valid.apart lt (omega arith) in
      (
        record l { heap = s'.heap; items = s'.head; last = s'.tail },
        rw (sort_items, run) refl,
        (zs, ts, record { chain = chain; unused = unused; apart = apart; ends = last }, same),
      )

  sort2_long :
      (fuel : ℕ) (l : CiList A) (i : ℕ) (x : A) (k : ℕ)
      → l.items ≡ some i
      → get_elem? l.heap i ≡ some (cell x (some k))
      → list_sort2 fuel less l ≡ sort_items fuel less l
  unfolding list_sort2
  sort2_long fuel l i x k e found = simp (list_sort2, e, found)

  list_sort2-chain :
      (fuel : ℕ) (l : CiList A) (p : Option ℕ) (ns ts : List (ℕ × A))
      → Chain l.heap p ns
      → l.items ≡ p
      → IsList l ns ts
      → length ns < fuel
      → (m : CiList A) × (list_sort2 fuel less l ≡ some m)
        × Holds m (insert_all less [] (objects ns))
  unfolding list_sort2
  list_sort2-chain fuel l p ns ts stop e valid lt = (l, simp (list_sort2, e), ([], ts, valid, refl))
  list_sort2-chain fuel l p ns ts (link i x found stop) e valid lt =
      (l, simp (list_sort2, e, found), ((i, x) ∷ [], ts, valid, refl))
  list_sort2-chain fuel l p ns ts (link i x found (link {ns = ms} k y found' rest)) e valid lt =
      let (m, run, held) = sort_items-Holds fuel l ((i, x) ∷ (k, y) ∷ ms) ts valid lt in
      (m, sort2_long fuel l i x k e found ∙ run, held)

  -- `ci_list_sort2` terminates, and leaves a list whose objects are those that were there, each
  -- inserted before the first greater one.
  pub list_sort2-insert_all :
      (fuel : ℕ) (l : CiList A) (xs : List A)
      → Holds l xs
      → length xs < fuel
      → (m : CiList A) × (list_sort2 fuel less l ≡ some m) × Holds m (insert_all less [] xs)
  list_sort2-insert_all fuel l xs (ns, ts, valid, same) lt =
      let e = length-objects ns in
      let e' : length (objects ns) ≡ length xs = ap length same in
      subst
        (λ ys. (m : CiList A) × (list_sort2 fuel less l ≡ some m) × Holds m (insert_all less [] ys))
        same (list_sort2-chain fuel l l.items ns ts valid.chain refl valid (omega arith))
