-- ===== src/Response/Order/Complete.antt =====
-- A response that is sent to its end is the message that its parts ask for.
use c_icap_server.Common.{
  ◌≤◌, ◌≡◌, ◌⊎◌, inl, inr, refl, sym, ap, ◌∙◌, subst, Bool, List, [], ◌++◌, if◌then◌else◌, Bytes,
  append-nil,
}
use c_icap_server.Response.{
  Sender, send_nothing, send_eof, sending, resp_check_body, response_entities, mk_responce_header,
}
use c_icap_server.Response.Order.{leading, heads, chunks, pending, message, Phase, Sent, Reached}
use c_icap_server.Response.Order.Parts.{
  own_heads, RequestFirst, HasNull, NoNull, final_chunk, heads-response_entities,
  resp_check_body-HasNull, resp_check_body-response_entities, last_text-final_chunk,
}
use c_icap_server.Response.Order.Reachable.{Reached-message}
use c_icap_server.Response.Order.Kept.{Config, config, IsStarted, Reached-Fixed}

-- The message that the entities ask for.
abbrev pub Complete : Bytes → Sender → Bytes → List Bytes → Type 0
Complete header start wire ds =
    (HasNull start.entities × (wire ≡ header ++ own_heads start.is_respmod start.entities))
    ⊎ (NoNull start.entities
        × (wire
            ≡ header
              ++ (own_heads start.is_respmod start.entities
                  ++ (chunks ds ++ final_chunk start.is_206 start.i206_use_original_body))))

-- The message of a response with these parts.
abbrev message_of : Bytes → List Bytes → Config → Bytes
message_of header ds (es, b, is_206, n) =
    header ++ (heads 2 es ++ (if b then chunks ds ++ final_chunk is_206 n else []))

message-message_of :
    (header : Bytes) (r : Sender) (ds : List Bytes)
    → message header r ds ≡ message_of header ds (config r)
message-message_of header r ds =
    ap (λ t. header ++ (heads 2 r.entities ++ (if r.responce_hasbody then chunks ds ++ t else [])))
      (last_text-final_chunk r)

message-Complete :
    (header wire : Bytes) (start r : Sender) (ds : List Bytes)
    → RequestFirst start.entities
    → leading start.entities ≤ 2
    → config r ≡ config (mk_responce_header start)
    → wire ≡ message header r ds
    → Complete header start wire ds
unfolding mk_responce_header
message-Complete header wire start r ds first few all sent =
    let own = (heads-response_entities start.is_respmod start.entities first few).0 in
    let body = resp_check_body-response_entities start.is_respmod start.entities in
    let final = final_chunk start.is_206 start.i206_use_original_body in
    let text =
      λ (hs : Bytes) (b : Bool). header ++ (hs ++ (if b then chunks ds ++ final else [])) in
    let es = response_entities start.is_respmod start.entities in
    let same : wire
        ≡ text (own_heads start.is_respmod start.entities) (resp_check_body start.entities) =
      sent
      ∙ message-message_of header r ds
      ∙ ap (message_of header ds) all
      ∙ ap (λ hs. text hs (resp_check_body es)) own
      ∙ ap (text (own_heads start.is_respmod start.entities)) body in
    elim (resp_check_body-HasNull start.entities) [
      | inl (e, has) ↦ inl (
        has,
        same
            ∙ ap (text (own_heads start.is_respmod start.entities)) e
            ∙ ap (λ xs. header ++ xs) (append-nil (own_heads start.is_respmod start.entities)),
      )
      | inr (e, none_) ↦ inr (none_, same ∙ ap (text (own_heads start.is_respmod start.entities)) e)
    ]

-- A response starts with nothing sent and with entities of which the first alone may be the header
-- of a request, and at most two are headers. When it has come to `SEND_EOF`, with its last block
-- sent, what was sent is the response header, then the encapsulated headers, in RESPMOD without the
-- request's; and if no entity is a null body, a chunk for each piece of the body and the last
-- chunk, in a 206 response with the offset of the original body.
pub Reached-Complete :
    (header : Bytes) (start r : Sender) (wire : Bytes) (ds : List Bytes)
    → start.status ≡ send_nothing
    → start.block ≡ sending []
    → RequestFirst start.entities
    → leading start.entities ≤ 2
    → Reached header start r wire ds
    → r.status ≡ send_eof
    → r.block ≡ sending []
    → Complete header start wire ds
Reached-Complete header start r wire ds nothing empty first few steps e idle =
    let fit = (heads-response_entities start.is_respmod start.entities first few).1 in
    let init : Sent header start [] [] =
      subst (λ st. Phase header st start ([] ++ pending start.block) []) (sym nothing)
        (ap pending empty, refl, fit) in
    let sent = Reached-message header start r wire ds init steps e idle in
    elim (Reached-Fixed header start init nothing r wire ds steps) [
      | inl (nothing', mode, es, is, n) ↦ absurd (subst IsStarted (sym e ∙ nothing') tt)
      | inr (started, all) ↦ message-Complete header wire start r ds first few all sent
    ]
