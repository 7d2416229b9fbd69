-- ===== src/Vector/Values.antt =====
-- `ci_vector_add`, `ci_vector_pop` and `ci_vector_get` on the values of a vector.
use c_icap_server.Common.{
  ℕ, ◌+◌, ◌*◌, ◌≤◌, ◌<◌, ◌≡◌, inl, inr, refl, sym, ap, ◌∙◌, subst, true, false, Option, none, some,
  List, [], ◌∷◌, ◌++◌, ltb, if◌then◌else◌, length, Bytes, memcpy, slice, slice-memcpy_self,
  slice-memcpy_after, length-memcpy, length-append, arith,
}
use c_icap_server.Pack.{Pack, alloc_from_rear2}
use c_icap_server.Pack.Pieces.{alloc_unaligned-cases, alloc_from_rear2-cases}
use c_icap_server.Vector.{Vector, put, store_value, vector_add}
use c_icap_server.Vector.Stored.{IsVector, Stored-low, Stored-snoc, put_self, put_before}

-- The pointers that a refused value leaves without use.
abbrev pub left_over : Vector → ℕ
left_over v = if ltb v.pack.endpos (v.pack.curpos + 8) then 0 else 1

-- What `ci_vector_add` comes to: the value is behind the others, or the values are the same, and one
-- more pointer is lost if there was space for it.
abbrev pub Adds : Vector → List Bytes → Bytes → Vector × Option ℕ → Type 0
Adds v xs x (v', none) = IsVector v' xs (left_over v)
Adds v xs x (v', some t) = IsVector v' (xs ++ (x ∷ [])) 0 × (slice v'.mem t (length x) ≡ x)

-- The two allocations apart from what is done with them.
abbrev pub with_item : Vector → Bytes → Option ℕ → Pack × Option ℕ → Vector × Option ℕ
with_item v x indx s = store_value (record v { pack = s.0 }) x indx s.1

abbrev pub with_index : Vector → Bytes → Pack × Option ℕ → Vector × Option ℕ
with_index v x s = with_item v x s.1 (alloc_from_rear2 s.0 (length x) v.aligned)

module _ (v : Vector) (xs : List Bytes) (x : Bytes) (w : IsVector v xs 0) where
  -- There is no space for a pointer.
  no_index-Adds : v.pack.endpos < v.pack.curpos + 8 → Adds v xs x (with_index v x (v.pack, none))
  unfolding store_value
  no_index-Adds small =
      let test : ltb v.pack.endpos (v.pack.curpos + 8) ≡ true = ground arith in
      let g : left_over v ≡ 0 = ap (λ b. if b then 0 else 1) test in
      elim (alloc_from_rear2-cases v.pack (length x) v.aligned w.free) [
        | inl e ↦
            subst (λ s. Adds v xs x (with_item v x none s)) (sym e)
              (subst (IsVector v xs) (sym g) w)
        | inr (t, e, fits, above) ↦
            subst (λ s. Adds v xs x (with_item v x none s)) (sym e)
              (subst (IsVector (record v { pack = record v.pack { endpos = t } }) xs) (sym g)
                (record {
                  low = w.low;
                  stored = w.stored;
                  size = w.size;
                  at_last = w.at_last;
                  null = w.null;
                  start = w.start;
                  free = above;
                  room = omega (arith, w.room);
                  within = w.within;
                }))
      ]

  -- There is space for a pointer, and the value at `t` below it.
  stored_at-Adds :
      (t : ℕ)
      → t + length x ≤ v.pack.endpos
      → v.pack.curpos + 8 ≤ t
      → Adds v xs x (
          with_item v x
            (some v.pack.curpos)
            (record v.pack { curpos = v.pack.curpos + 8; endpos = t }, some t))
  unfolding store_value
  stored_at-Adds t fits above =
      let i = v.pack.curpos in
      let n = length xs in
      let first = put v.cells v.last (some t) in
      let inside : t + length x ≤ length v.mem =
        omega (
          arith,
          w.room,
          w.within,
          Stored-low v.cells v.mem v.items v.pack.end xs w.low w.stored,
        ) in
      let place : v.items + 8 * n ≡ v.last = sym w.at_last in
      let read_back : slice (memcpy v.mem t x) t (length x) ≡ x =
        slice-memcpy_self v.mem t x (length x) (omega arith) refl in
      (
        record {
          low = t;
          stored =
              Stored-snoc v.cells (put first i none) v.mem (memcpy v.mem t x) v.items v.pack.end xs
                w.low x t w.stored
                (λ b less.
                  put_before first i none b (omega (arith, w.start, w.at_last))
                  ∙ put_before v.cells v.last (some t) b (omega (arith, w.at_last)))
                (λ q k le. slice-memcpy_after v.mem t x q k (omega arith) (omega (arith, w.room)))
                (ap (put first i none) place
                  ∙ put_before first i none v.last (omega (arith, w.start))
                  ∙ put_self v.cells v.last (some t))
                (omega (arith, w.room)) read_back;
          size = omega (arith, w.size, length-append xs (x ∷ []));
          at_last = omega (arith, w.start, w.at_last, length-append xs (x ∷ []));
          null = put_self first i none;
          start = omega arith;
          free = above;
          room = omega arith;
          within = omega (arith, w.within, length-memcpy v.mem t x inside);
        },
        read_back,
      )

  index-Adds :
      v.pack.curpos + 8 ≤ v.pack.endpos
      → Adds v xs x
          (with_index v x (record v.pack { curpos = v.pack.curpos + 8 }, some v.pack.curpos))
  unfolding store_value
  index-Adds space =
      let p = record v.pack { curpos = v.pack.curpos + 8 } in
      let test : ltb v.pack.endpos (v.pack.curpos + 8) ≡ false = ground arith in
      let g : left_over v ≡ 1 = ap (λ b. if b then 0 else 1) test in
      elim (alloc_from_rear2-cases p (length x) v.aligned space) [
        | inl e ↦
            subst (λ s. Adds v xs x (with_item v x (some v.pack.curpos) s)) (sym e)
              (subst (IsVector (record v { pack = p }) xs) (sym g) (record {
                low = w.low;
                stored = w.stored;
                size = w.size;
                at_last = w.at_last;
                null = w.null;
                start = omega (arith, w.start);
                free = space;
                room = w.room;
                within = w.within;
              }))
        | inr (t, e, fits, above) ↦
            subst (λ s. Adds v xs x (with_item v x (some v.pack.curpos) s)) (sym e)
              (stored_at-Adds t fits above)
      ]

  -- `ci_vector_add` on a vector, whether or not there is space.
  pub vector_add-Adds : Adds v xs x (vector_add v x)
  unfolding vector_add
  vector_add-Adds = elim (alloc_unaligned-cases v.pack 8 w.free) [
    | inl (e, small) ↦ subst (λ s. Adds v xs x (with_index v x s)) (sym e) (no_index-Adds small)
    | inr (e, space) ↦ subst (λ s. Adds v xs x (with_index v x s)) (sym e) (index-Adds space)
  ]
