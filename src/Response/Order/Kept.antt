-- ===== src/Response/Order/Kept.antt =====
-- A response keeps the parts that `mk_responce_header` gives it.
use mathlib.Core.Option.{some-injective}
use c_icap_server.Common.{
  ℕ, ◌≡◌, ◌⊎◌, inl, inr, refl, sym, ap, ◌∙◌, subst, Bool, true, false, ◌&&◌, Option, some, List, [],
  ◌∷◌, ◌++◌, length, Bytes, Option-cases, get_elem?,
}
use c_icap_server.Response.{
  Sender, SendStatus, send_nothing, send_resphead, send_head1, send_head2, send_head3, send_body,
  send_eof, send_trailers, Entity, sending, body_end, eof, ok, resp_check_body, response_entities,
  mk_responce_header, header_text, after_heads, next_head, is_sent, after_eof, update_at,
  update_send_status, send_block, send_current_block_data, put_chunk, format_block,
  format_body_chunk,
}
use c_icap_server.Response.Chunk.{format_body_chunk_lem}
use c_icap_server.Response.Order.{
  pending, Phase, Sent, Reached, starts, writes, updates, reads, ends,
}
use c_icap_server.Response.Order.Reachable.{Reached-Sent}

-- What a response consists of, and its status.
abbrev pub Config : Type 0
Config = List Entity × Bool × Bool × Option ℕ

abbrev pub config : Sender → Config
config r = (r.entities, r.responce_hasbody, r.is_206, r.i206_use_original_body)

abbrev pub IsStarted : SendStatus → Type 0
IsStarted send_nothing = ⊥
IsStarted send_resphead = Unit
IsStarted send_head1 = Unit
IsStarted send_head2 = Unit
IsStarted send_head3 = Unit
IsStarted send_body = Unit
IsStarted send_eof = Unit
IsStarted send_trailers = Unit

-- The response has not started, or has the parts that it gets then.
abbrev pub Fixed : Sender → Sender → Type 0
Fixed start r =
    ((r.status ≡ send_nothing)
      × (r.is_respmod ≡ start.is_respmod)
      × (r.entities ≡ start.entities)
      × (r.is_206 ≡ start.is_206)
      × (r.i206_use_original_body ≡ start.i206_use_original_body))
    ⊎ (IsStarted r.status × (config r ≡ config (mk_responce_header start)))

-- The status, the mode and the parts stay.
abbrev Same : Sender → Sender → Type 0
Same r r' = (r'.status ≡ r.status) × (r'.is_respmod ≡ r.is_respmod) × (config r' ≡ config r)

Same-Fixed : (start r r' : Sender) → Same r r' → Fixed start r → Fixed start r'
Same-Fixed start r r' (st, mode, parts) (inl (nothing, mode', es, is, n)) = inl (
  st ∙ nothing,
  mode ∙ mode',
  ap (λ c. c.0) parts ∙ es,
  ap (λ c. c.2) parts ∙ is,
  ap (λ c. c.3) parts ∙ n,
)
Same-Fixed start r r' (st, mode, parts) (inr (started, all)) =
    inr (subst IsStarted (sym st) started, parts ∙ all)

send_block-Same :
    (k : ℕ) (r r' : Sender) (s : Bytes) → send_block k r (sending s) ≡ some r' → Same r r'
unfolding send_block
send_block-Same k r r' [] made = subst (Same r) (some-injective r r' made) (refl, refl, refl)
send_block-Same k r r' (c ∷ s) made = subst (Same r) (some-injective _ r' made) (refl, refl, refl)

-- A response that has started and has the same parts.
abbrev Later : Sender → Sender → Type 0
Later r r' = IsStarted r'.status × (config r' ≡ config r)

after_heads-Later : (r : Sender) (b : Bool) → Later r (after_heads r b).0
unfolding after_heads
after_heads-Later r true = (tt, refl)
after_heads-Later r false = (tt, refl)

next_head-Later :
    (r : Sender) (st : SendStatus) (i : ℕ) → IsStarted st → Later r (next_head r st i).0
unfolding next_head
next_head-Later r st i started = elim (Option-cases (header_text (get_elem? r.entities i))) [
  | inl e ↦ rw (next_head, e) (after_heads-Later r r.responce_hasbody)
  | inr (t, e) ↦ rw (next_head, e) (started, refl)
]

after_eof-Later :
    (r : Sender) (sent promised : Bool) → IsStarted r.status → Later r (after_eof r sent promised).0
unfolding after_eof
after_eof-Later r true true started = (tt, refl)
after_eof-Later r true false started = (started, refl)
after_eof-Later r false promised started = (started, refl)

update_at-Later :
    (header : Bytes) (r : Sender) (st : SendStatus)
    → r.status ≡ st
    → IsStarted st
    → Later r (update_at header r st).0
unfolding update_at
update_at-Later header r send_nothing e started = absurd started
update_at-Later header r send_resphead e started = next_head-Later r send_head1 0 tt
update_at-Later header r send_head1 e started = next_head-Later r send_head2 1 tt
update_at-Later header r send_head2 e started = next_head-Later r send_head3 2 tt
update_at-Later header r send_head3 e started = next_head-Later r send_head3 2 tt
update_at-Later header r send_body e started = (subst IsStarted (sym e) tt, refl)
update_at-Later header r send_eof e started =
    after_eof-Later r (is_sent r.block) (r.allow_trailers && r.has_trailer_names)
      (subst IsStarted (sym e) tt)
update_at-Later header r send_trailers e started = (subst IsStarted (sym e) tt, refl)

-- The parts that a response gets.
abbrev parts_of : Bool → List Entity → Bool → Option ℕ → Config
parts_of is_respmod es is_206 n =
    (response_entities is_respmod es, resp_check_body (response_entities is_respmod es), is_206, n)

first_update :
    (header : Bytes) (start r : Sender)
    → (r.is_respmod ≡ start.is_respmod)
      × (r.entities ≡ start.entities)
      × (r.is_206 ≡ start.is_206)
      × (r.i206_use_original_body ≡ start.i206_use_original_body)
    → Fixed start (update_at header r send_nothing).0
unfolding update_at mk_responce_header
first_update header start r (mode, es, is, n) = inr (
  tt,
  ap (λ m. parts_of m r.entities r.is_206 r.i206_use_original_body) mode
      ∙ ap (λ x. parts_of start.is_respmod x r.is_206 r.i206_use_original_body) es
      ∙ ap (λ b. parts_of start.is_respmod start.entities b r.i206_use_original_body) is
      ∙ ap (parts_of start.is_respmod start.entities start.is_206) n,
)

nothing_not_started : (st : SendStatus) → st ≡ send_nothing → IsStarted st → ⊥
nothing_not_started st e started = subst IsStarted e started

update_at-Fixed :
    (header : Bytes) (start r : Sender) (st : SendStatus)
    → r.status ≡ st
    → Fixed start r
    → Fixed start (update_at header r st).0
update_at-Fixed header start r st e (inl (nothing, mode, es, is, n)) =
    subst (λ x. Fixed start (update_at header r x).0) (sym nothing ∙ e)
      (first_update header start r (mode, es, is, n))
update_at-Fixed header start r st e (inr (started, all)) =
    let (started', same) = update_at-Later header r st e (subst IsStarted e started) in
    inr (started', same ∙ all)

-- A chunk, or the last one, leaves the parts.
put_chunk-Same :
    (r : Sender) (cells data_ : Bytes)
    → Same r (put_chunk (record r { wbuf = cells; block = sending data_ }) (length data_))
unfolding put_chunk
put_chunk-Same r cells data_ = (refl, refl, refl)

at_end-Later :
    (r r' : Sender) (b : Bool)
    → format_block (record r { block = body_end }) b body_end ≡ some (r', eof)
    → Later r (record r' { status = send_eof })
unfolding format_block
at_end-Later r r' false made =
    subst (λ x. Later r (record x { status = send_eof }))
      (ap (λ p. p.0) (some-injective (record r { block = body_end }, eof) (r', eof) made))
      (tt, refl)
at_end-Later r r' true made =
    subst (λ x. Later r (record x { status = send_eof }))
      (ap (λ p. p.0) (some-injective _ (r', eof) made)) (tt, refl)

in_body-started :
    (start r : Sender)
    → r.status ≡ send_body
    → Fixed start r
    → config r ≡ config (mk_responce_header start)
in_body-started start r e (inl (nothing, mode, es, is, n)) =
    absurd (subst IsStarted (sym e ∙ nothing) tt)
in_body-started start r e (inr (started, all)) = all

body_there :
    (header : Bytes) (start : Sender)
    → Sent header start [] []
    → (r : Sender) (wire : Bytes) (ds : List Bytes) → Reached header start r wire ds
    → r.status ≡ send_body
    → r.responce_hasbody ≡ true
body_there header start init r wire ds steps e =
    (subst (λ s. Phase header s r (wire ++ pending r.block) ds) e
      (Reached-Sent header start init r wire ds steps)).1

-- At each point the response has the parts that it started with, or those that it gets.
pub Reached-Fixed :
    (header : Bytes) (start : Sender)
    → Sent header start [] []
    → start.status ≡ send_nothing
    → (r : Sender) (wire : Bytes) (ds : List Bytes) → Reached header start r wire ds
    → Fixed start r
unfolding send_current_block_data update_send_status format_body_chunk
Reached-Fixed header start init nothing r wire ds starts = inl (nothing, refl, refl, refl, refl)
Reached-Fixed header start init nothing r wire ds
      (writes {r = r₀} {wire = wire₀} {s = s} k before e made) =
    Same-Fixed start r₀ r (send_block-Same k r₀ r s (ap (send_block k r₀) (sym e) ∙ made))
      (Reached-Fixed header start init nothing r₀ wire₀ ds before)
Reached-Fixed header start init nothing r wire ds (updates {r = r₀} before idle) =
    update_at-Fixed header start r₀ r₀.status refl
      (Reached-Fixed header start init nothing r₀ wire ds before)
Reached-Fixed header start init nothing r wire ds
      (reads {r = r₀} {ds = ds₀} cells data_ before e idle there pos fits made) =
    let body = body_there header start init r₀ wire ds₀ before e in
    let r₁ = record r₀ { wbuf = cells; block = sending data_ } in
    let (made₁, text) = format_body_chunk_lem r₁ data_ there body pos fits in
    let same : some (put_chunk r₁ (length data_), ok) ≡ some (r, ok) = sym made₁ ∙ made in
    let both : put_chunk r₁ (length data_) ≡ r =
      ap (λ p. p.0) (some-injective (put_chunk r₁ (length data_), ok) (r, ok) same) in
    subst (Fixed start) both (
      Same-Fixed start r₀ (put_chunk r₁ (length data_)) (put_chunk-Same r₀ cells data_)
        (Reached-Fixed header start init nothing r₀ wire ds₀ before))
Reached-Fixed header start init nothing r wire ds (ends {r = r₀} {r' = r₁} before e idle made) =
    let all =
      in_body-started start r₀ e (Reached-Fixed header start init nothing r₀ wire ds before) in
    let (started, same) = at_end-Later r₀ r₁ r₀.responce_hasbody made in inr (started, same ∙ all)
