-- ===== src/Response/Order.antt =====
-- The order in which request.c sends the parts of a response: `update_send_status`,
-- `send_current_block_data` and `format_body_chunk` as `get_send_body` and
-- `send_remaining_response` call them.
pub mod Heads
pub mod Updates
pub mod Blocks
pub mod Reachable
pub mod Parts
pub mod Kept
pub mod Complete
use mathlib.Core.Option.{some-injective}
use c_icap_server.Common.{
  ℕ, zero, suc, ◌+◌, ◌-◌, ◌≤◌, ◌<◌, ◌≡◌, ◌≢◌, ◌⊎◌, inl, inr, refl, sym, ap, ◌∙◌, subst, Bool, true,
  false, ◌&&◌, Option, none, some, List, [], ◌∷◌, ◌++◌, append_assoc, append-nil, if◌then◌else◌,
  length, get_elem?, drop, take, Bytes, Bool-cases, Option-cases, arith, memcpy, take-append-drop,
  take-nil,
}
use c_icap_server.Response.{
  Sender, SendStatus, send_nothing, send_resphead, send_head1, send_head2, send_head3, send_body,
  send_eof, send_trailers, Entity, req_hdr, res_hdr, null_body, other_body, Block, sending,
  body_end, Progress, ok, eof, extra_chunk_size, max_chunk_size, response_entities,
  mk_responce_header, header_text, after_heads, next_head, is_sent, trailers, after_eof, update_at,
  update_send_status, in_heads, send_block, send_current_block_data, put_chunk, last_text,
  format_block, format_body_chunk,
}
use c_icap_server.Response.Chunk.{chunk_text, HasData, format_body_chunk_lem}

-- How many headers the entities start with.
abbrev pub leading : List Entity → ℕ
leading [] = 0
leading (req_hdr t ∷ es) = suc (leading es)
leading (res_hdr t ∷ es) = suc (leading es)
leading (null_body ∷ es) = 0
leading (other_body ∷ es) = 0

-- The texts of the first `n` of these headers.
abbrev pub heads : ℕ → List Entity → Bytes
heads zero es = []
heads (suc n) [] = []
heads (suc n) (req_hdr t ∷ es) = t ++ heads n es
heads (suc n) (res_hdr t ∷ es) = t ++ heads n es
heads (suc n) (null_body ∷ es) = []
heads (suc n) (other_body ∷ es) = []

abbrev pub chunks : List Bytes → Bytes
chunks [] = []
chunks (d ∷ ds) = chunk_text d ++ chunks ds

abbrev pub pending : Block → Bytes
pending (sending s) = s
pending body_end = []

-- A response without its trailers: the header, the encapsulated headers and, if there is a body, a
-- chunk for each piece of the body and the last chunk.
abbrev pub message : Bytes → Sender → List Bytes → Bytes
message header r ds =
    header ++ (heads 2 r.entities ++ (if r.responce_hasbody then chunks ds ++ last_text r else []))

-- What has been sent and is about to be, at each status.
abbrev pub Phase : Bytes → SendStatus → Sender → Bytes → List Bytes → Type 0
Phase header send_nothing r total ds =
    (total ≡ []) × (ds ≡ []) × (leading (response_entities r.is_respmod r.entities) ≤ 2)
Phase header send_resphead r total ds =
    (total ≡ header ++ heads 0 r.entities)
    × (ds ≡ [])
    × (leading r.entities ≤ 2)
    × (0 ≤ leading r.entities)
Phase header send_head1 r total ds =
    (total ≡ header ++ heads 1 r.entities)
    × (ds ≡ [])
    × (leading r.entities ≤ 2)
    × (1 ≤ leading r.entities)
Phase header send_head2 r total ds =
    (total ≡ header ++ heads 2 r.entities)
    × (ds ≡ [])
    × (leading r.entities ≤ 2)
    × (2 ≤ leading r.entities)
Phase header send_head3 r total ds = ⊥
Phase header send_body r total ds =
    (total ≡ header ++ (heads 2 r.entities ++ chunks ds)) × (r.responce_hasbody ≡ true)
Phase header send_eof r total ds = total ≡ message header r ds
Phase header send_trailers r total ds = total ≡ message header r ds ++ trailers r

abbrev pub Sent : Bytes → Sender → Bytes → List Bytes → Type 0
Sent header r wire ds = Phase header r.status r (wire ++ pending r.block) ds

-- What `get_send_body` and `send_remaining_response` do to a response, with what was sent and the
-- pieces of the body that the service gave.
pub data Reached (header : Bytes) (start : Sender) : Sender → Bytes → List Bytes → Type 0 where
  starts : Reached header start start [] []
  -- the connection takes some bytes of the block
  writes :
      {r r' : Sender} {wire s : Bytes} {ds : List Bytes} (k : ℕ)
      → Reached header start r wire ds
      → r.block ≡ sending s
      → send_current_block_data k r ≡ some r'
      → Reached header start r' (wire ++ take k s) ds
  -- the block is sent, and the next one is chosen
  updates :
      {r : Sender} {wire : Bytes} {ds : List Bytes}
      → Reached header start r wire ds
      → r.block ≡ sending []
      → Reached header start (update_send_status header r).0 wire ds
  -- the service puts a piece of the body into `wbuf`
  reads :
      {r r' : Sender} {wire : Bytes} {ds : List Bytes} (cells data_ : Bytes)
      → Reached header start r wire ds
      → r.status ≡ send_body
      → r.block ≡ sending []
      → HasData (record r { wbuf = cells; block = sending data_ }) data_
      → 0 < length data_
      → length data_ ≤ max_chunk_size
      → format_body_chunk (record r { wbuf = cells; block = sending data_ }) ≡ some (r', ok)
      → Reached header start r' wire (ds ++ (data_ ∷ []))
  -- the service has no more data
  ends :
      {r r' : Sender} {wire : Bytes} {ds : List Bytes}
      → Reached header start r wire ds
      → r.status ≡ send_body
      → r.block ≡ sending []
      → format_body_chunk (record r { block = body_end }) ≡ some (r', eof)
      → Reached header start (record r' { status = send_eof }) wire ds
