-- ===== src/Response/Order/Reachable.antt =====
-- Every response is sent in order.
use mathlib.Core.Option.{some-injective}
use c_icap_server.Common.{◌≡◌, refl, sym, ap, ◌∙◌, subst, some, List, [], ◌++◌, length, Bytes}
use c_icap_server.Response.{
  Sender, send_body, send_eof, sending, ok, update_send_status, send_block, send_current_block_data,
  put_chunk,
}
use c_icap_server.Response.Chunk.{format_body_chunk_lem}
use c_icap_server.Response.Order.{pending, message, Phase, Sent, Reached}
use c_icap_server.Response.Order.{starts, writes, updates, reads, ends}
use c_icap_server.Response.Order.Updates.{all_sent, update_at-Sent}
use c_icap_server.Response.Order.Blocks.{send_block-Sent, put_chunk-Sent, last_chunk-Sent}

in_body :
    (header wire : Bytes) (r : Sender) (ds : List Bytes)
    → r.status ≡ send_body
    → r.block ≡ sending []
    → Sent header r wire ds
    → Phase header send_body r wire ds
in_body header wire r ds e idle phase =
    subst (λ total. Phase header send_body r total ds) (all_sent wire r idle)
      (subst (λ s. Phase header s r (wire ++ pending r.block) ds) e phase)

-- A response that starts with nothing sent, and with at most two encapsulated headers, is sent in
-- order: at each point, what was sent, followed by the rest of the block, is what the status
-- says: the response header, then the encapsulated headers, then a chunk for each piece of the
-- body and the last chunk if there is a body, then the trailers.
pub Reached-Sent :
    (header : Bytes) (start : Sender)
    → Sent header start [] []
    → (r : Sender) (wire : Bytes) (ds : List Bytes) → Reached header start r wire ds
    → Sent header r wire ds
unfolding send_current_block_data update_send_status
Reached-Sent header start init r wire ds starts = init
Reached-Sent header start init r wire ds (writes {r = r₀} {wire = wire₀} {s = s} k before e made) =
    let phase = Reached-Sent header start init r₀ wire₀ ds before in
    let (r₁, made₁, sent) = send_block-Sent header wire₀ r₀ s k ds e phase in
    let same : some r₁ ≡ some r = sym made₁ ∙ ap (send_block k r₀) (sym e) ∙ made in
    subst (λ x. Sent header x wire ds) (some-injective r₁ r same) sent
Reached-Sent header start init r wire ds (updates {r = r₀} before idle) =
    update_at-Sent header wire r₀ r₀.status ds refl idle (
      subst (λ total. Phase header r₀.status r₀ total ds) (all_sent wire r₀ idle)
        (Reached-Sent header start init r₀ wire ds before))
Reached-Sent header start init r wire ds
      (reads {r = r₀} {ds = ds₀} cells data_ before e idle there pos fits made) =
    let phase =
      in_body header wire r₀ ds₀ e idle (Reached-Sent header start init r₀ wire ds₀ before) in
    let r₁ = record r₀ { wbuf = cells; block = sending data_ } in
    let (made₁, text) = format_body_chunk_lem r₁ data_ there phase.1 pos fits in
    let same : some (put_chunk r₁ (length data_), ok) ≡ some (r, ok) = sym made₁ ∙ made in
    let both : put_chunk r₁ (length data_) ≡ r =
      ap (λ p. p.0) (some-injective (put_chunk r₁ (length data_), ok) (r, ok) same) in
    subst (λ x. Sent header x wire ds) both
      (put_chunk-Sent header wire cells data_ r₀ ds₀ e phase text)
Reached-Sent header start init r wire ds (ends {r = r₀} {r' = r₁} before e idle made) =
    last_chunk-Sent header wire r₀ r₁ ds
      (in_body header wire r₀ ds e idle (Reached-Sent header start init r₀ wire ds before)) made

-- A response that has come to `SEND_EOF`, with its last block sent, is complete: what was sent is the
-- response header, the encapsulated headers and, if there is a body, a chunk for each piece of the
-- body and the last chunk.
pub Reached-message :
    (header : Bytes) (start r : Sender) (wire : Bytes) (ds : List Bytes)
    → Sent header start [] []
    → Reached header start r wire ds
    → r.status ≡ send_eof
    → r.block ≡ sending []
    → wire ≡ message header r ds
Reached-message header start r wire ds init steps e idle =
    sym (all_sent wire r idle)
    ∙ subst (λ s. Phase header s r (wire ++ pending r.block) ds) e
        (Reached-Sent header start init r wire ds steps)
