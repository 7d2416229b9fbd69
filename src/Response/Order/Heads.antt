-- ===== src/Response/Order/Heads.antt =====
-- The encapsulated headers, one after the other.
use mathlib.Core.Option.{some-injective}
use c_icap_server.Common.{
  ℕ, zero, suc, ◌≤◌, ◌≡◌, inl, inr, refl, sym, ap, ◌∙◌, Bool, true, false, none, some, List, [],
  ◌∷◌, ◌++◌, append_assoc, append-nil, if◌then◌else◌, get_elem?, Bytes, Option-cases, arith,
}
use c_icap_server.Response.{
  Sender, SendStatus, Entity, req_hdr, res_hdr, null_body, other_body, sending, header_text,
  after_heads, next_head, last_text,
}
use c_icap_server.Response.Order.{leading, heads, pending, Phase, Sent}

-- A header in front of entities of which the claim holds.
heads_cons : (u t h h' : Bytes) → h ≡ h' ++ t → u ++ h ≡ (u ++ h') ++ t
heads_cons u t h h' e = ap (λ xs. u ++ xs) e ∙ sym (append_assoc u h' t)

heads_next :
    (es : List Entity) (i : ℕ) (t : Bytes)
    → i ≤ leading es
    → header_text (get_elem? es i) ≡ some t
    → (heads (suc i) es ≡ heads i es ++ t) × (suc i ≤ leading es)
unfolding header_text
heads_next [] i t le e = absurd (cc e)
heads_next (req_hdr u ∷ es) zero t le e = (append-nil u ∙ some-injective u t e, omega arith)
heads_next (res_hdr u ∷ es) zero t le e = (append-nil u ∙ some-injective u t e, omega arith)
heads_next (null_body ∷ es) zero t le e = absurd (cc e)
heads_next (other_body ∷ es) zero t le e = absurd (cc e)
heads_next (req_hdr u ∷ es) (suc i) t le e =
    let (same, more) = heads_next es i t (omega arith) e in
    (heads_cons u t (heads (suc i) es) (heads i es) same, omega arith)
heads_next (res_hdr u ∷ es) (suc i) t le e =
    let (same, more) = heads_next es i t (omega arith) e in
    (heads_cons u t (heads (suc i) es) (heads i es) same, omega arith)
heads_next (null_body ∷ es) (suc i) t le e = absurd (omega arith)
heads_next (other_body ∷ es) (suc i) t le e = absurd (omega arith)

heads_full : (es : List Entity) (i n : ℕ) → leading es ≤ i → i ≤ n → heads n es ≡ heads i es
heads_full [] zero zero le le' = refl
heads_full [] zero (suc n) le le' = refl
heads_full [] (suc i) zero le le' = refl
heads_full [] (suc i) (suc n) le le' = refl
heads_full (req_hdr t ∷ es) zero n le le' = absurd (omega arith)
heads_full (res_hdr t ∷ es) zero n le le' = absurd (omega arith)
heads_full (req_hdr t ∷ es) (suc i) zero le le' = absurd (omega arith)
heads_full (res_hdr t ∷ es) (suc i) zero le le' = absurd (omega arith)
heads_full (req_hdr t ∷ es) (suc i) (suc n) le le' =
    ap (λ xs. t ++ xs) (heads_full es i n (omega arith) (omega arith))
heads_full (res_hdr t ∷ es) (suc i) (suc n) le le' =
    ap (λ xs. t ++ xs) (heads_full es i n (omega arith) (omega arith))
heads_full (null_body ∷ es) zero zero le le' = refl
heads_full (null_body ∷ es) zero (suc n) le le' = refl
heads_full (null_body ∷ es) (suc i) zero le le' = refl
heads_full (null_body ∷ es) (suc i) (suc n) le le' = refl
heads_full (other_body ∷ es) zero zero le le' = refl
heads_full (other_body ∷ es) zero (suc n) le le' = refl
heads_full (other_body ∷ es) (suc i) zero le le' = refl
heads_full (other_body ∷ es) (suc i) (suc n) le le' = refl

no_header : (es : List Entity) (i : ℕ) → header_text (get_elem? es i) ≡ none → leading es ≤ i
unfolding header_text
no_header [] i e = omega arith
no_header (req_hdr t ∷ es) zero e = absurd (cc e)
no_header (res_hdr t ∷ es) zero e = absurd (cc e)
no_header (null_body ∷ es) i e = omega arith
no_header (other_body ∷ es) i e = omega arith
no_header (req_hdr t ∷ es) (suc i) e = omega (arith, no_header es i e)
no_header (res_hdr t ∷ es) (suc i) e = omega (arith, no_header es i e)

-- The step behind the headers: to the body, or to the end of a response without one.
pub after_heads-Sent :
    (header wire : Bytes) (r : Sender) (b : Bool) (i : ℕ)
    → r.responce_hasbody ≡ b
    → i ≤ 2
    → leading r.entities ≤ i
    → wire ≡ header ++ heads i r.entities
    → r.block ≡ sending []
    → Sent header (after_heads r b).0 wire []
unfolding after_heads last_text
after_heads-Sent header wire r true i body le few sent idle = (
  ap (λ b. wire ++ pending b) idle
      ∙ append-nil wire
      ∙ sent
      ∙ ap (λ xs. header ++ xs)
          (sym (heads_full r.entities i 2 few le) ∙ sym (append-nil (heads 2 r.entities))),
  body,
)
after_heads-Sent header wire r false i body le few sent idle =
    append-nil wire
    ∙ sent
    ∙ ap (λ xs. header ++ xs)
        (sym (heads_full r.entities i 2 few le)
          ∙ sym (append-nil (heads 2 r.entities))
          ∙ ap (λ b. heads 2 r.entities ++ (if b then last_text r else [])) (sym body))

-- The step to the next header, or behind the headers.
pub next_head-Sent :
    (header wire : Bytes) (r : Sender) (st : SendStatus) (i : ℕ)
    → i ≤ 2
    → i ≤ leading r.entities
    → leading r.entities ≤ 2
    → wire ≡ header ++ heads i r.entities
    → r.block ≡ sending []
    → ((t : Bytes)
        → wire ++ t ≡ header ++ heads (suc i) r.entities
        → suc i ≤ leading r.entities
        → Phase header st (record r { block = sending t; status = st }) (wire ++ t) [])
    → Sent header (next_head r st i).0 wire []
unfolding next_head
next_head-Sent header wire r st i le there few sent idle phase =
    elim (Option-cases (header_text (get_elem? r.entities i))) [
      | inl e ↦
          rw (next_head, e)
            (after_heads-Sent header wire r r.responce_hasbody i refl le (no_header r.entities i e)
              sent idle)
      | inr (t, e) ↦
          let (same, more) = heads_next r.entities i t there e in
          rw (next_head, e)
            (phase t
              (ap (λ xs. xs ++ t) sent
                ∙ append_assoc header (heads i r.entities) t
                ∙ ap (λ xs. header ++ xs) (sym same))
              more)
    ]
