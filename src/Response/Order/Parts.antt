-- ===== src/Response/Order/Parts.antt =====
-- The parts of the message that a response is to be, from its entities as the service leaves them.
use c_icap_server.Common.{
  ℕ, zero, suc, ◌≤◌, ◌≡◌, ◌⊎◌, inl, inr, refl, sym, ap, ◌∙◌, Bool, true, false, Option, none, some,
  List, [], ◌∷◌, ◌++◌, Bytes, codes, Bool-cases, Option-cases, arith,
}
use c_icap_server.Response.{
  Sender, Entity, req_hdr, res_hdr, null_body, other_body, resp_check_body, response_entities,
  last_text,
}
use c_icap_server.Response.Hex.{decimal_text}
use c_icap_server.Response.Order.{leading, heads}

-- The encapsulated headers of a response: those of the request, in REQMOD, and of the response.
abbrev pub own_heads : Bool → List Entity → Bytes
own_heads is_respmod [] = []
own_heads is_respmod (null_body ∷ es) = []
own_heads is_respmod (other_body ∷ es) = []
own_heads is_respmod (res_hdr t ∷ es) = t ++ own_heads is_respmod es
own_heads true (req_hdr t ∷ es) = own_heads true es
own_heads false (req_hdr t ∷ es) = t ++ own_heads false es

abbrev pub NoRequest : List Entity → Type 0
NoRequest [] = Unit
NoRequest (req_hdr t ∷ es) = ⊥
NoRequest (res_hdr t ∷ es) = NoRequest es
NoRequest (null_body ∷ es) = NoRequest es
NoRequest (other_body ∷ es) = NoRequest es

-- The header of a request can only stand first.
abbrev pub RequestFirst : List Entity → Type 0
RequestFirst [] = Unit
RequestFirst (e ∷ es) = NoRequest es

-- There is a null body, or there is none.
abbrev pub HasNull : List Entity → Type 0
HasNull [] = ⊥
HasNull (null_body ∷ es) = Unit
HasNull (req_hdr t ∷ es) = HasNull es
HasNull (res_hdr t ∷ es) = HasNull es
HasNull (other_body ∷ es) = HasNull es

abbrev pub NoNull : List Entity → Type 0
NoNull [] = Unit
NoNull (null_body ∷ es) = ⊥
NoNull (req_hdr t ∷ es) = NoNull es
NoNull (res_hdr t ∷ es) = NoNull es
NoNull (other_body ∷ es) = NoNull es

-- The last chunk, with the offset from which a client keeps its own body in a 206 response.
abbrev pub final_chunk : Bool → Option ℕ → Bytes
final_chunk true (some n) = codes "0; use-original-body=" ++ (decimal_text n ++ codes "\r\n\r\n")
final_chunk true none = codes "0\r\n\r\n"
final_chunk false original = codes "0\r\n\r\n"

heads-own_heads : (n : ℕ) (es : List Entity) → leading es ≤ n → heads n es ≡ own_heads false es
heads-own_heads zero [] le = refl
heads-own_heads zero (null_body ∷ es) le = refl
heads-own_heads zero (other_body ∷ es) le = refl
heads-own_heads zero (req_hdr t ∷ es) le = absurd (omega arith)
heads-own_heads zero (res_hdr t ∷ es) le = absurd (omega arith)
heads-own_heads (suc n) [] le = refl
heads-own_heads (suc n) (null_body ∷ es) le = refl
heads-own_heads (suc n) (other_body ∷ es) le = refl
heads-own_heads (suc n) (req_hdr t ∷ es) le =
    ap (λ xs. t ++ xs) (heads-own_heads n es (omega arith))
heads-own_heads (suc n) (res_hdr t ∷ es) le =
    ap (λ xs. t ++ xs) (heads-own_heads n es (omega arith))

own_heads-NoRequest : (es : List Entity) → NoRequest es → own_heads true es ≡ own_heads false es
own_heads-NoRequest [] none_ = refl
own_heads-NoRequest (null_body ∷ es) none_ = refl
own_heads-NoRequest (other_body ∷ es) none_ = refl
own_heads-NoRequest (req_hdr t ∷ es) none_ = absurd none_
own_heads-NoRequest (res_hdr t ∷ es) none_ = ap (λ xs. t ++ xs) (own_heads-NoRequest es none_)

pub heads-response_entities :
    (is_respmod : Bool) (es : List Entity)
    → RequestFirst es
    → leading es ≤ 2
    → (heads 2 (response_entities is_respmod es) ≡ own_heads is_respmod es)
      × (leading (response_entities is_respmod es) ≤ 2)
unfolding response_entities
heads-response_entities false es first le = (heads-own_heads 2 es le, le)
heads-response_entities true [] first le = (refl, le)
heads-response_entities true (null_body ∷ es) first le = (refl, le)
heads-response_entities true (other_body ∷ es) first le = (refl, le)
heads-response_entities true (req_hdr t ∷ es) first le =
    (heads-own_heads 2 es (omega arith) ∙ sym (own_heads-NoRequest es first), omega arith)
heads-response_entities true (res_hdr t ∷ es) first le = (
  heads-own_heads 2 (res_hdr t ∷ es) le ∙ ap (λ xs. t ++ xs) (sym (own_heads-NoRequest es first)),
  le,
)

pub resp_check_body-HasNull :
    (es : List Entity)
    → ((resp_check_body es ≡ false) × HasNull es) ⊎ ((resp_check_body es ≡ true) × NoNull es)
unfolding resp_check_body
resp_check_body-HasNull [] = inr (refl, tt)
resp_check_body-HasNull (null_body ∷ es) = inl (refl, tt)
resp_check_body-HasNull (req_hdr t ∷ es) = resp_check_body-HasNull es
resp_check_body-HasNull (res_hdr t ∷ es) = resp_check_body-HasNull es
resp_check_body-HasNull (other_body ∷ es) = resp_check_body-HasNull es

-- The request's header does not matter for the body.
pub resp_check_body-response_entities :
    (is_respmod : Bool) (es : List Entity)
    → resp_check_body (response_entities is_respmod es) ≡ resp_check_body es
unfolding response_entities resp_check_body
resp_check_body-response_entities false es = refl
resp_check_body-response_entities true [] = refl
resp_check_body-response_entities true (null_body ∷ es) = refl
resp_check_body-response_entities true (other_body ∷ es) = refl
resp_check_body-response_entities true (req_hdr t ∷ es) = refl
resp_check_body-response_entities true (res_hdr t ∷ es) = refl

pub last_text-final_chunk :
    (r : Sender) → last_text r ≡ final_chunk r.is_206 r.i206_use_original_body
unfolding last_text
last_text-final_chunk r = elim (Option-cases r.i206_use_original_body) [
  | inl e ↦ elim (Bool-cases r.is_206) [ inl f ↦ rw (e, f) refl | inr f ↦ rw (e, f) refl ]
  | inr (n, e) ↦ elim (Bool-cases r.is_206) [ inl f ↦ rw (e, f) refl | inr f ↦ rw (e, f) refl ]
]
