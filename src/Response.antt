-- ===== src/Response.antt =====
-- request.c: how a response is sent. A block is what stands at `pstrblock_responce`, as long as
-- `remain_send_block_bytes` says. What `mk_responce_header` packs into the response header is an
-- argument.
pub mod Hex
pub mod Chunk
pub mod Order
pub mod Remaining
use c_icap_server.Common.{
  ℕ, zero, suc, ◌+◌, ◌-◌, ◌^◌, Bool, true, false, not, ◌&&◌, ◌||◌, Option, none, some, List, [],
  ◌∷◌, ◌++◌, ltb, leb, ◌==◌, if◌then◌else◌, length, get_elem?, drop, Bytes, codes, memcpy, slice,
}
use Hex.{hex_text, decimal_text}

pub data SendStatus : Type 0 where
  send_nothing send_resphead send_head1 send_head2 send_head3 : SendStatus
  send_body send_eof send_trailers : SendStatus

-- The kinds of `ci_encaps_entity_t` that the sender tells apart; a header with its packed text.
pub data Entity : Type 0 where
  req_hdr res_hdr : Bytes → Entity
  null_body other_body : Entity

-- `body_end`: `remain_send_block_bytes` is `CI_EOF`.
pub data Block : Type 0 where
  sending : Bytes → Block
  body_end : Block

-- The fields of `ci_request_t` that the sender uses; `xtrailers` with its packed text.
pub record Sender : Type 0 where
  pub status : SendStatus
  pub is_respmod : Bool
  pub responce_hasbody : Bool
  pub entities : List Entity
  pub wbuf : Bytes
  pub block : Block
  -- whether `return_code` is `EC_206`
  pub is_206 : Bool
  -- `none` if it is negative
  pub i206_use_original_body : Option ℕ
  pub allow_trailers : Bool
  pub has_trailer_names : Bool
  pub xtrailers : Option Bytes
  pub bytes_out : ℕ
  pub http_bytes_out : ℕ
  pub body_bytes_out : ℕ

pub data Progress : Type 0 where
  ok eof error : Progress

abbrev pub extra_chunk_size : ℕ
extra_chunk_size = 30

abbrev pub max_chunk_size : ℕ
max_chunk_size = 4064

abbrev pub crlf : Bytes
crlf = 13 ∷ 10 ∷ []

unfoldable pub resp_check_body : List Entity → Bool
resp_check_body [] = true
resp_check_body (null_body ∷ es) = false
resp_check_body (req_hdr t ∷ es) = resp_check_body es
resp_check_body (res_hdr t ∷ es) = resp_check_body es
resp_check_body (other_body ∷ es) = resp_check_body es

-- The entities after `mk_responce_header`: a RESPMOD response leaves the request's header out.
unfoldable pub response_entities : Bool → List Entity → List Entity
response_entities true (req_hdr t ∷ es) = es
response_entities is_respmod es = es

-- `mk_responce_header`, as far as the sender depends on it.
unfoldable pub mk_responce_header : Sender → Sender
unfolding resp_check_body response_entities
mk_responce_header r =
    let es = response_entities r.is_respmod r.entities in
    record r { entities = es; responce_hasbody = resp_check_body es }

-- The text of an entity that is a header.
unfoldable pub header_text : Option Entity → Option Bytes
header_text (some (req_hdr t)) = some t
header_text (some (res_hdr t)) = some t
header_text (some null_body) = none
header_text (some other_body) = none
header_text none = none

-- What follows the headers, given whether there is a body.
unfoldable pub after_heads : Sender → Bool → Sender × Progress
after_heads r true = (record r { status = send_body }, ok)
after_heads r false = (record r { status = send_eof; block = sending [] }, eof)

-- The step to the entity `i`, or to what follows the headers.
unfoldable pub next_head : Sender → SendStatus → ℕ → Sender × Progress
unfolding header_text after_heads
next_head r status i = elim (header_text (get_elem? r.entities i)) [
  | some t ↦ (record r { block = sending t; status = status }, ok)
  | none ↦ after_heads r r.responce_hasbody
]

abbrev pub is_sent : Block → Bool
is_sent (sending []) = true
is_sent (sending (c ∷ s)) = false
is_sent body_end = false

-- The trailers that are sent.
abbrev pub trailers : Sender → Bytes
trailers r = elim r.xtrailers [ none ↦ codes "X-Empty-Trailer: 0\r\n\r\n" | some t ↦ t ]

-- At the status `SEND_EOF`: whether the block is sent, and whether trailers were promised.
unfoldable pub after_eof : Sender → Bool → Bool → Sender × Progress
after_eof r true true = (record r { block = sending (trailers r); status = send_trailers }, ok)
after_eof r true false = (r, eof)
after_eof r false promised = (r, ok)

-- `update_send_status` at a status, with the text of the response header.
unfoldable pub update_at : Bytes → Sender → SendStatus → Sender × Progress
unfolding mk_responce_header next_head after_eof
update_at header r send_nothing =
    (record (mk_responce_header r) { block = sending header; status = send_resphead }, ok)
update_at header r send_resphead = next_head r send_head1 0
update_at header r send_head1 = next_head r send_head2 1
update_at header r send_head2 = next_head r send_head3 2
update_at header r send_head3 = next_head r send_head3 2
update_at header r send_body = (r, ok)
update_at header r send_eof =
    after_eof r (is_sent r.block) (r.allow_trailers && r.has_trailer_names)
update_at header r send_trailers = (r, if is_sent r.block then eof else ok)

unfoldable pub update_send_status : Bytes → Sender → Sender × Progress
unfolding update_at
update_send_status header r = update_at header r r.status

abbrev pub in_heads : SendStatus → Bool
in_heads send_head1 = true
in_heads send_head2 = true
in_heads send_head3 = true
in_heads _ = false

-- `send_current_block_data` of a block, when the connection takes `bytes` bytes. `none`: a write of
-- negative length.
unfoldable pub send_block : ℕ → Sender → Block → Option Sender
send_block bytes r body_end = none
send_block bytes r (sending []) = some r
send_block bytes r (sending (c ∷ s)) = some (record r {
  block = sending (drop bytes (c ∷ s));
  bytes_out = r.bytes_out + bytes;
  http_bytes_out = if in_heads r.status then r.http_bytes_out + bytes else r.http_bytes_out;
})

unfoldable pub send_current_block_data : ℕ → Sender → Option Sender
unfolding send_block
send_current_block_data bytes r = send_block bytes r r.block

-- The definition of a chunk of `n` bytes.
abbrev pub chunk_def : ℕ → Bytes
chunk_def n = hex_text n ++ crlf

-- A chunk of `n` bytes in `wbuf` gets its end, and its definition in front of it.
unfoldable pub put_chunk : Sender → ℕ → Sender
put_chunk r n =
    let start = extra_chunk_size - length (chunk_def n) in
    let ended = memcpy r.wbuf (extra_chunk_size + n) crlf in
    let wbuf = memcpy ended start (chunk_def n) in
    record r {
      http_bytes_out = r.http_bytes_out + n;
      body_bytes_out = r.body_bytes_out + n;
      wbuf = wbuf;
      block = sending (slice wbuf start (n + (length (chunk_def n) + 2)));
    }

-- The last chunk.
unfoldable pub last_text : Sender → Bytes
last_text r = elim r.i206_use_original_body [
  | none ↦ codes "0\r\n\r\n"
  | some n ↦
      if r.is_206
      then codes "0; use-original-body=" ++ (decimal_text n ++ codes "\r\n\r\n")
      else codes "0\r\n\r\n"
]

-- `format_body_chunk`, given whether there is a body and the block; `none`: an assertion fails.
unfoldable pub format_block : Sender → Bool → Block → Option (Sender × Progress)
unfolding put_chunk last_text
format_block r false block = some (r, eof)
format_block r true (sending []) = some (r, ok)
format_block r true (sending (c ∷ s)) =
    let n = length (c ∷ s) in
    if leb n max_chunk_size && ltb (length (chunk_def n)) extra_chunk_size
    then some (put_chunk r n, ok)
    else none
format_block r true body_end = some (
  record r { wbuf = memcpy r.wbuf 0 (last_text r ++ (0 ∷ [])); block = sending (last_text r) },
  eof,
)

unfoldable pub format_body_chunk : Sender → Option (Sender × Progress)
unfolding format_block
format_body_chunk r = format_block r r.responce_hasbody r.block
