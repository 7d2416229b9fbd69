-- ===== src/Response/Order/Blocks.antt =====
-- `send_current_block_data` and `format_body_chunk` keep a response in order.
use mathlib.Core.Option.{some-injective}
use c_icap_server.Common.{
  ℕ, ◌+◌, ◌≡◌, refl, sym, ap, ◌∙◌, subst, some, List, [], ◌∷◌, ◌++◌, append_assoc, append-nil,
  if◌then◌else◌, length, drop, take, Bytes, memcpy, take-append-drop, take-nil,
}
use c_icap_server.Response.{
  Sender, SendStatus, send_nothing, send_resphead, send_head1, send_head2, send_head3, send_body,
  send_eof, send_trailers, Block, sending, body_end, eof, in_heads, send_block, put_chunk,
  last_text, format_block, format_body_chunk,
}
use c_icap_server.Response.Chunk.{chunk_text}
use c_icap_server.Response.Order.{heads, chunks, pending, Phase, Sent}

-- A phase does not depend on the block and the counters.
module _ (header total : Bytes) (r : Sender) (block : Block) (out http : ℕ) (ds : List Bytes) where
  abbrev counted : Sender
  counted = record r { block = block; bytes_out = out; http_bytes_out = http }

  counted-Phase : (st : SendStatus) → Phase header st r total ds → Phase header st counted total ds
  unfolding last_text
  counted-Phase send_nothing phase = phase
  counted-Phase send_resphead phase = phase
  counted-Phase send_head1 phase = phase
  counted-Phase send_head2 phase = phase
  counted-Phase send_head3 phase = phase
  counted-Phase send_body phase = phase
  counted-Phase send_eof phase = phase
  counted-Phase send_trailers phase = phase

move_sent : (wire s : Bytes) (k : ℕ) → (wire ++ take k s) ++ drop k s ≡ wire ++ s
move_sent wire s k =
    append_assoc wire (take k s) (drop k s) ∙ ap (λ xs. wire ++ xs) (take-append-drop k s)

-- Bytes of the block that are written move from what is pending to what was sent.
pub send_block-Sent :
    (header wire : Bytes) (r : Sender) (s : Bytes) (k : ℕ) (ds : List Bytes)
    → r.block ≡ sending s
    → Sent header r wire ds
    → (r' : Sender) × (send_block k r (sending s) ≡ some r') × Sent header r' (wire ++ take k s) ds
unfolding send_block
send_block-Sent header wire r [] k ds e phase = (
  r,
  refl,
  subst (λ w. Sent header r w ds) (sym (append-nil wire) ∙ ap (λ xs. wire ++ xs) (sym (take-nil k)))
      phase,
)
send_block-Sent header wire r (c ∷ s) k ds e phase =
    let http = if in_heads r.status then r.http_bytes_out + k else r.http_bytes_out in
    let rest = sending (drop k (c ∷ s)) in
    let total = wire ++ take k (c ∷ s) in
    let same : wire ++ pending r.block ≡ total ++ drop k (c ∷ s) =
      ap (λ b. wire ++ pending b) e ∙ sym (move_sent wire (c ∷ s) k) in
    (
      counted header total r rest (r.bytes_out + k) http ds,
      refl,
      counted-Phase header (total ++ drop k (c ∷ s)) r rest (r.bytes_out + k) http ds r.status
          (subst (λ xs. Phase header r.status r xs ds) same phase),
    )

chunks-append : (ds : List Bytes) (d : Bytes) → chunks (ds ++ (d ∷ [])) ≡ chunks ds ++ chunk_text d
chunks-append [] d = append-nil (chunk_text d)
chunks-append (e ∷ ds) d =
    ap (λ xs. chunk_text e ++ xs) (chunks-append ds d)
    ∙ sym (append_assoc (chunk_text e) (chunks ds) (chunk_text d))

pub put_chunk-Sent :
    (header wire cells data_ : Bytes) (r : Sender) (ds : List Bytes)
    → r.status ≡ send_body
    → Phase header send_body r wire ds
    → (put_chunk (record r { wbuf = cells; block = sending data_ }) (length data_)).block
      ≡ sending (chunk_text data_)
    → Sent header
        (put_chunk (record r { wbuf = cells; block = sending data_ }) (length data_))
        wire
        (ds ++ (data_ ∷ []))
unfolding put_chunk
put_chunk-Sent header wire cells data_ r ds e (sent, body) text =
    let r₁ = record r { wbuf = cells; block = sending data_ } in
    let r₂ = put_chunk r₁ (length data_) in
    subst (λ st. Phase header st r₂ (wire ++ pending r₂.block) (ds ++ (data_ ∷ []))) (sym e)
      (
        ap (λ b. wire ++ pending b) text
            ∙ ap (λ xs. xs ++ chunk_text data_) sent
            ∙ append_assoc header (heads 2 r.entities ++ chunks ds) (chunk_text data_)
            ∙ ap (λ xs. header ++ xs)
                (append_assoc (heads 2 r.entities) (chunks ds) (chunk_text data_)
                  ∙ ap (λ xs. heads 2 r.entities ++ xs) (sym (chunks-append ds data_))),
        body,
      )

pub last_chunk-Sent :
    (header wire : Bytes) (r r' : Sender) (ds : List Bytes)
    → Phase header send_body r wire ds
    → format_body_chunk (record r { block = body_end }) ≡ some (r', eof)
    → Sent header (record r' { status = send_eof }) wire ds
unfolding format_body_chunk format_block last_text
last_chunk-Sent header wire r r' ds (sent, body) made =
    let r₁ = record r { block = body_end } in
    let r₂ = record r {
      wbuf = memcpy r.wbuf 0 (last_text r₁ ++ (0 ∷ []));
      block = sending (last_text r₁);
    } in
    let same : some (r₂, eof) ≡ some (r', eof) =
      sym (ap (λ b. format_block r₁ b body_end) body) ∙ made in
    let both : r₂ ≡ r' = ap (λ p. p.0) (some-injective (r₂, eof) (r', eof) same) in
    subst (λ x. Sent header (record x { status = send_eof }) wire ds) both
      (ap (λ xs. xs ++ last_text r₁) sent
        ∙ append_assoc header (heads 2 r.entities ++ chunks ds) (last_text r₁)
        ∙ ap (λ xs. header ++ xs)
            (append_assoc (heads 2 r.entities) (chunks ds) (last_text r₁)
              ∙ ap (λ b. heads 2 r.entities ++ (if b then chunks ds ++ last_text r₁ else []))
                  (sym body)))
