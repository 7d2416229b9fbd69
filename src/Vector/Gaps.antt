-- ===== src/Vector/Gaps.antt =====
-- A refused value takes a pointer of the index with it, and what that does to the values after it.
use c_icap_server.Common.{
  ℕ, suc, ◌+◌, ◌*◌, ◌≤◌, ◌≡◌, inl, inr, refl, sym, ap, ◌∙◌, subst, true, Option, none, some, List,
  ltb, if◌then◌else◌, length, Bytes, arith,
}
use c_icap_server.Pack.Pieces.{alloc_unaligned-cases, alloc_from_rear2-cases}
use c_icap_server.Vector.{Vector, put, item_at, vector_get, store_value, vector_add}
use c_icap_server.Vector.Stored.{IsVector, put_before, put_behind}
use c_icap_server.Vector.Values.{with_item, with_index}

-- What changes in the index when a value is added.
abbrev Stores : Vector → Vector × Option ℕ → Type 0
Stores v (v', none) = Unit
Stores v (v', some t) =
    (v'.cells ≡ put (put v.cells v.last (some t)) v.pack.curpos none)
    × (v'.last ≡ v.pack.curpos)
    × (v'.count ≡ suc v.count)
    × (v'.items ≡ v.items)
    × (v'.pack.curpos ≡ v.pack.curpos + 8)
    × (v'.pack.curpos ≤ v'.pack.endpos)

vector_add-Stores :
    (v : Vector) (x : Bytes) → v.pack.curpos ≤ v.pack.endpos → Stores v (vector_add v x)
unfolding vector_add store_value
vector_add-Stores v x free = elim (alloc_unaligned-cases v.pack 8 free) [
  | inl (e, small) ↦ subst (λ s. Stores v (with_index v x s)) (sym e) tt
  | inr (e, space) ↦
      let p = record v.pack { curpos = v.pack.curpos + 8 } in
      subst (λ s. Stores v (with_index v x s)) (sym e)
        (elim (alloc_from_rear2-cases p (length x) v.aligned space) [
          | inl f ↦ subst (λ s. Stores v (with_item v x (some v.pack.curpos) s)) (sym f) tt
          | inr (t, f, fits, above) ↦
              subst (λ s. Stores v (with_item v x (some v.pack.curpos) s)) (sym f)
                (refl, refl, refl, refl, refl, above)
        ])
]

-- With a pointer lost, the value after the next one is not found: `ci_vector_get` gives what the lost
-- place held before.
pub vector_get_lost :
    (v v₁ v₂ : Vector) (xs : List Bytes) (y z : Bytes) (s t : ℕ)
    → IsVector v xs 1
    → vector_add v y ≡ (v₁, some s)
    → vector_add v₁ z ≡ (v₂, some t)
    → vector_get v₂ (suc (length xs)) ≡ v.cells (item_at v (suc (length xs)))
unfolding vector_get item_at
vector_get_lost v v₁ v₂ xs y z s t w e f =
    let (c₁, l₁, n₁, i₁, p₁, free₁) = subst (Stores v) e (vector_add-Stores v y w.free) in
    let (c₂, l₂, n₂, i₂, p₂, free₂) = subst (Stores v₁) f (vector_add-Stores v₁ z free₁) in
    let at = v.items + 8 * suc (length xs) in
    let test : ltb (suc (length xs)) v₂.count ≡ true = ground (arith, w.size) in
    let place : v₂.items + 8 * suc (length xs) ≡ at = omega arith in
    let cell₂ : v₂.cells at ≡ v₁.cells at =
      ap (λ c. c at) c₂
      ∙ put_before (put v₁.cells v₁.last (some t)) v₁.pack.curpos none at
          (omega (arith, w.start, w.at_last))
      ∙ put_before v₁.cells v₁.last (some t) at (omega (arith, w.start, w.at_last)) in
    let cell₁ : v₁.cells at ≡ v.cells at =
      ap (λ c. c at) c₁
      ∙ put_before (put v.cells v.last (some s)) v.pack.curpos none at
          (omega (arith, w.start, w.at_last))
      ∙ put_behind v.cells v.last (some s) at (omega (arith, w.at_last)) in
    ap (λ b. if b then v₂.cells (v₂.items + 8 * suc (length xs)) else none) test
    ∙ ap v₂.cells place
    ∙ cell₂
    ∙ cell₁
