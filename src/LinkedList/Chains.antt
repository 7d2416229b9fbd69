-- ===== src/LinkedList/Chains.antt =====
-- The chains of items that a `ci_list_t` consists of, and what writes to the heap leave of them.
use mathlib.Core.Option.{some-injective}
use c_icap_server.Common.{
  ℕ, zero, suc, ◌<◌, ◌≡◌, ◌≢◌, refl, sym, ap, ◌∙◌, subst, Option, none, some, List, [], ◌∷◌, ◌++◌,
  length, get_elem?, set, arith,
}
use c_icap_server.LinkedList.{Item, CiList, cell}

-- The items from a pointer on: their indices and objects.
pub data Chain {ℓ} {A : Type ℓ} (heap : List (Item A)) : Option ℕ → List (ℕ × A) → Type ℓ where
  stop : Chain heap none []
  link :
      {q : Option ℕ} {ns : List (ℕ × A)} (i : ℕ) (x : A)
      → get_elem? heap i ≡ some (cell x q)
      → Chain heap q ns
      → Chain heap (some i) ((i, x) ∷ ns)

-- No item stands at the index.
abbrev pub Fresh {ℓ} : {A : Type ℓ} → ℕ → List (ℕ × A) → Type 0
Fresh i [] = Unit
Fresh i ((j, x) ∷ ns) = (i ≢ j) × Fresh i ns

abbrev pub Distinct {ℓ} : {A : Type ℓ} → List (ℕ × A) → Type 0
Distinct [] = Unit
Distinct ((i, x) ∷ ns) = Fresh i ns × Distinct ns

-- The last pointer of a chain.
abbrev pub last_of {ℓ} : {A : Type ℓ} → List (ℕ × A) → Option ℕ
last_of [] = none
last_of ((i, x) ∷ []) = some i
last_of ((i, x) ∷ n ∷ ns) = last_of (n ∷ ns)

abbrev pub objects {ℓ} : {A : Type ℓ} → List (ℕ × A) → List A
objects [] = []
objects ((i, x) ∷ ns) = x ∷ objects ns

-- A list with the items `ns` and the unused items `ts`.
pub record IsList {ℓ} {A : Type ℓ} (l : CiList A) (ns ts : List (ℕ × A)) : Type ℓ where
  pub chain : Chain l.heap l.items ns
  pub unused : Chain l.heap l.trash ts
  pub apart : Distinct (ns ++ ts)
  pub ends : l.last ≡ last_of ns

-- A list whose objects are `xs`.
abbrev pub Holds {ℓ} : {A : Type ℓ} → CiList A → List A → Type ℓ
Holds {A = A} l xs = (ns : List (ℕ × A)) × (ts : List (ℕ × A)) × IsList l ns ts × (objects ns ≡ xs)

module _ {ℓ} {A : Type ℓ} where
  pub get_elem?-set_other :
      (xs : List (Item A)) (i j : ℕ) (v : Item A)
      → i ≢ j
      → get_elem? (set xs i v) j ≡ get_elem? xs j
  get_elem?-set_other [] i j v ne = refl
  get_elem?-set_other (x ∷ xs) zero zero v ne = absurd (ne refl)
  get_elem?-set_other (x ∷ xs) zero (suc j) v ne = refl
  get_elem?-set_other (x ∷ xs) (suc i) zero v ne = refl
  get_elem?-set_other (x ∷ xs) (suc i) (suc j) v ne =
      get_elem?-set_other xs i j v (λ e. ne (ap suc e))

  get_elem?-append_left :
      (xs ys : List (Item A)) (i : ℕ) (c : Item A)
      → get_elem? xs i ≡ some c
      → get_elem? (xs ++ ys) i ≡ some c
  get_elem?-append_left [] ys i c e = absurd (cc e)
  get_elem?-append_left (x ∷ xs) ys zero c e = e
  get_elem?-append_left (x ∷ xs) ys (suc i) c e = get_elem?-append_left xs ys i c e

  pub get_elem?-lt :
      (xs : List (Item A)) (i : ℕ) (c : Item A) → get_elem? xs i ≡ some c → i < length xs
  get_elem?-lt [] i c e = absurd (cc e)
  get_elem?-lt (x ∷ xs) zero c e = omega arith
  get_elem?-lt (x ∷ xs) (suc i) c e = omega (arith, get_elem?-lt xs i c e)

  -- A write elsewhere leaves a chain.
  pub set-Chain :
      (heap : List (Item A)) (i : ℕ) (c : Item A) (p : Option ℕ) (ns : List (ℕ × A))
      → Chain heap p ns
      → Fresh i ns
      → Chain (set heap i c) p ns
  set-Chain heap i c p ns stop fresh = stop
  set-Chain heap i c p ns (link {q = q} {ns = ms} j x e rest) (ne, fresh) =
      link j x (get_elem?-set_other heap i j c ne ∙ e) (set-Chain heap i c q ms rest fresh)

  -- A new item leaves a chain, and is not in it.
  pub append-Chain :
      (heap : List (Item A)) (c : Item A) (p : Option ℕ) (ns : List (ℕ × A))
      → Chain heap p ns
      → Chain (heap ++ (c ∷ [])) p ns
  append-Chain heap c p ns stop = stop
  append-Chain heap c p ns (link {q = q} {ns = ms} j x e rest) =
      link j x (get_elem?-append_left heap (c ∷ []) j (cell x q) e) (append-Chain heap c q ms rest)

  pub length-Fresh :
      (heap : List (Item A)) (p : Option ℕ) (ns : List (ℕ × A))
      → Chain heap p ns
      → Fresh (length heap) ns
  length-Fresh heap p ns stop = tt
  length-Fresh heap p ns (link {q = q} {ns = ms} j x e rest) =
      (λ same. omega (arith, get_elem?-lt heap j (cell x q) e), length-Fresh heap q ms rest)

  pub join-Fresh : (i : ℕ) (ns ts : List (ℕ × A)) → Fresh i ns → Fresh i ts → Fresh i (ns ++ ts)
  join-Fresh i [] ts f g = g
  join-Fresh i ((j, x) ∷ ns) ts (ne, f) g = (ne, join-Fresh i ns ts f g)

  pub append-Fresh : (i : ℕ) (ns ts : List (ℕ × A)) → Fresh i (ns ++ ts) → Fresh i ns × Fresh i ts
  append-Fresh i [] ts f = (tt, f)
  append-Fresh i ((j, x) ∷ ns) ts (ne, f) = let (g, h) = append-Fresh i ns ts f in ((ne, g), h)

  -- An item taken out of the middle.
  pub split-Distinct :
      (i : ℕ) (x : A) (ns ts : List (ℕ × A))
      → Distinct (ns ++ ((i, x) ∷ ts))
      → Fresh i ns × Fresh i ts × Distinct (ns ++ ts)
  split-Distinct i x [] ts (f, d) = (tt, f, d)
  split-Distinct i x ((j, y) ∷ ns) ts (f, d) =
      let (g, h, d') = split-Distinct i x ns ts d in
      let (f₁, (ne, f₂)) = append-Fresh j ns ((i, x) ∷ ts) f in
      ((λ e. ne (sym e), g), h, (join-Fresh j ns ts f₁ f₂, d'))

  -- An item put into the middle.
  pub insert-Distinct :
      (i : ℕ) (x : A) (ns ts : List (ℕ × A))
      → Fresh i ns
      → Fresh i ts
      → Distinct (ns ++ ts)
      → Distinct (ns ++ ((i, x) ∷ ts))
  insert-Distinct i x [] ts f g d = (g, d)
  insert-Distinct i x ((j, y) ∷ ns) ts (ne, f) g (h, d) =
      let (h₁, h₂) = append-Fresh j ns ts h in
      (join-Fresh j ns ((i, x) ∷ ts) h₁ ((λ e. ne (sym e)), h₂), insert-Distinct i x ns ts f g d)

  -- The last item is another than a fresh one.
  pub last_of-other : (i j : ℕ) (ns : List (ℕ × A)) → Fresh i ns → last_of ns ≡ some j → i ≢ j
  last_of-other i j [] f e = absurd (cc e)
  last_of-other i j ((k, x) ∷ []) (ne, f) e = λ same. ne (same ∙ sym (some-injective k j e))
  last_of-other i j ((k, x) ∷ n ∷ ns) (ne, f) e = last_of-other i j (n ∷ ns) f e

  -- The last item is not among the unused ones.
  pub last_of-Fresh :
      (j : ℕ) (ns ts : List (ℕ × A)) → Distinct (ns ++ ts) → last_of ns ≡ some j → Fresh j ts
  last_of-Fresh j [] ts d e = absurd (cc e)
  last_of-Fresh j ((k, x) ∷ []) ts (f, d) e = subst (λ m. Fresh m ts) (some-injective k j e) f
  last_of-Fresh j ((k, x) ∷ n ∷ ns) ts (f, d) e = last_of-Fresh j (n ∷ ns) ts d e

  pub last_of-append : (ns : List (ℕ × A)) (i : ℕ) (x : A) → last_of (ns ++ ((i, x) ∷ [])) ≡ some i
  last_of-append [] i x = refl
  last_of-append ((j, y) ∷ []) i x = refl
  last_of-append ((j, y) ∷ n ∷ ns) i x = last_of-append (n ∷ ns) i x

  pub objects-append :
      (ns : List (ℕ × A)) (i : ℕ) (x : A) → objects (ns ++ ((i, x) ∷ [])) ≡ objects ns ++ (x ∷ [])
  objects-append [] i x = refl
  objects-append ((j, y) ∷ ns) i x = ap (◌∷◌ y) (objects-append ns i x)

  pub length-objects : (ns : List (ℕ × A)) → length (objects ns) ≡ length ns
  length-objects [] = refl
  length-objects ((i, x) ∷ ns) = ap suc (length-objects ns)

  pub append-Distinct : (ns ts : List (ℕ × A)) → Distinct (ns ++ ts) → Distinct ns
  append-Distinct [] ts d = tt
  append-Distinct ((i, x) ∷ ns) ts (f, d) = ((append-Fresh i ns ts f).0, append-Distinct ns ts d)

  pub last_of-cons : (n : ℕ × A) (ns : List (ℕ × A)) → last_of (n ∷ ns) ≢ none
  last_of-cons (i, x) [] e = cc e
  last_of-cons (i, x) (n ∷ ns) e = last_of-cons n ns e
