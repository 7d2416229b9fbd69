-- ===== src/Vector/Popping.antt =====
-- `ci_vector_pop` and `ci_vector_get` on the values of a vector.
use c_icap_server.Common.{
  ℕ, suc, ◌+◌, ◌-◌, ◌*◌, ◌≤◌, ◌≡◌, inl, inr, refl, sym, ap, ◌∙◌, subst, true, false, Option, none,
  some, List, [], ◌∷◌, ◌++◌, ltb, leb, ◌==◌, if◌then◌else◌, length, get_elem?, get_elem?-none,
  Bytes, slice, length-append, Bool-cases, arith,
}
use c_icap_server.Pack.{Pack, set_start_pos, set_end_pos}
use c_icap_server.Vector.{Vector, put, item_at, vector_get, end_with, vector_pop}
use c_icap_server.Vector.Stored.{
  Stored, IsVector, Stored-low, Stored-unsnoc, Stored-cells, Stored-get, put_self, put_before,
}

-- What `ci_vector_pop` comes to: the place of the last value, and the others are left.
abbrev pub Pops : List Bytes → Bytes → Option (Vector × Option ℕ) → Type 0
Pops xs x none = ⊥
Pops xs x (some (v, none)) = ⊥
Pops xs x (some (v, some t)) = IsVector v xs 0 × (slice v.mem t (length x) ≡ x)

Stored-last :
    (cells : ℕ → Option ℕ) (mem : Bytes) (a top : ℕ) (x : Bytes) (xs : List Bytes) (low : ℕ)
    → Stored cells mem a top (x ∷ xs) low
    → cells (a + 8 * length xs) ≡ some low
Stored-last cells mem a top x [] low (p, e, le, c, s) =
    let f : a + 8 * 0 ≡ a = omega arith in ap cells f ∙ e ∙ ap some (sym s)
Stored-last cells mem a top x (y ∷ xs) low (p, e, le, c, s) =
    let f : a + 8 * suc (length xs) ≡ a + 8 + 8 * length xs = omega arith in
    ap cells f ∙ Stored-last cells mem (a + 8) p y xs low s

-- The free space ends at the lowest of the values that are left.
end_with-low :
    (v : Vector) (p : Pack) (xs : List Bytes) (low : ℕ)
    → Stored v.cells v.mem v.items p.end xs low
    → set_end_pos p (end_with v (length xs)) ≡ some (record p { endpos = low })
unfolding set_end_pos end_with item_at
end_with-low v p [] low s = ap (λ e. some (record p { endpos = e })) (sym s)
end_with-low v p (x ∷ xs) low s =
    let below : leb low p.end ≡ true =
      ground (arith, Stored-low v.cells v.mem v.items p.end (x ∷ xs) low s) in
    rw (Stored-last v.cells v.mem v.items p.end x xs low s, below) refl

-- The steps of `ci_vector_pop` once the count is tested.
abbrev pop_with : Vector → ℕ → Option Pack → Option (Vector × Option ℕ)
pop_with v n none = none
pop_with v n (some p) = some (
  record v { pack = p; count = n; last = item_at v n; cells = put v.cells (item_at v n) none },
  v.cells (item_at v n),
)

module _ (v : Vector) (xs : List Bytes) (x : Bytes) (gap : ℕ)
    (w : IsVector v (xs ++ (x ∷ [])) gap) where
  left : ℕ → Vector
  left low = record v {
    pack = record v.pack { curpos = v.last; endpos = low };
    count = length xs;
    last = v.items + 8 * length xs;
    cells = put v.cells (v.items + 8 * length xs) none;
  }

  left-IsVector :
      (low : ℕ)
      → Stored v.cells v.mem v.items v.pack.end xs low
      → w.low ≤ low
      → IsVector (left low) xs 0
  unfolding left
  left-IsVector low s above =
      let at = v.items + 8 * length xs in
      record {
        low = low;
        stored =
            Stored-cells v.cells (put v.cells at none) v.mem v.items v.pack.end xs low s
              (λ b less. put_before v.cells at none b less);
        size = refl;
        at_last = refl;
        null = put_self v.cells at none;
        start = omega (arith, w.at_last, length-append xs (x ∷ []));
        free = omega (arith, w.start, w.free, w.room);
        room = omega arith;
        within = w.within;
      }

  -- `ci_vector_pop` on a vector that holds a value.
  pub vector_pop-Pops : Pops xs x (vector_pop v)
  unfolding vector_pop set_start_pos item_at left
  vector_pop-Pops =
      let (low, s, e, le, c) = Stored-unsnoc v.cells v.mem v.items v.pack.end xs x w.low w.stored in
      let n : v.count ≡ suc (length xs) = omega (arith, w.size, length-append xs (x ∷ [])) in
      let test : (v.count == 0) ≡ false = ground arith in
      let one : v.count - 1 ≡ length xs = omega arith in
      let p = set_start_pos v.pack v.last in
      let popped : Pops xs x
          (pop_with v (length xs) (some (record v.pack { curpos = v.last; endpos = low }))) =
        subst (λ q. Pops xs x (some (left low, q))) (sym e)
          (left-IsVector low s (omega arith), c) in
      subst
        (λ b. Pops xs x (
          if b
          then some (v, none)
          else pop_with v (v.count - 1) (set_end_pos p (end_with v (v.count - 1)))))
        (sym test)
        (subst (λ m. Pops xs x (pop_with v m (set_end_pos p (end_with v m)))) (sym one)
          (subst (λ o. Pops xs x (pop_with v (length xs) o)) (sym (end_with-low v p xs low s))
            popped))

-- What `ci_vector_get` comes to: the place of a value, or NULL.
abbrev pub Gets : Vector → Option Bytes → Option ℕ → Type 0
Gets v none r = r ≡ none
Gets v (some x) r = (t : ℕ) × (r ≡ some t) × (slice v.mem t (length x) ≡ x)

-- `ci_vector_get` gives the value `i`, or NULL if there are fewer.
pub vector_get-Gets :
    (v : Vector) (xs : List Bytes) (gap i : ℕ)
    → IsVector v xs gap
    → Gets v (get_elem? xs i) (vector_get v i)
unfolding vector_get item_at
vector_get-Gets v xs gap i w = elim (Bool-cases (ltb i v.count)) [
  | inl e ↦
      let (t, x, f, g, c) =
        Stored-get v.cells v.mem v.items v.pack.end xs w.low i w.stored (ground (arith, w.size)) in
      subst (λ o. Gets v o (if ltb i v.count then v.cells (v.items + 8 * i) else none)) (sym g)
        (t, ap (λ b. if b then v.cells (v.items + 8 * i) else none) e ∙ f, c)
  | inr e ↦
      subst (λ o. Gets v o (if ltb i v.count then v.cells (v.items + 8 * i) else none))
        (sym (get_elem?-none xs i (ground (arith, w.size))))
        (ap (λ b. if b then v.cells (v.items + 8 * i) else none) e)
]
