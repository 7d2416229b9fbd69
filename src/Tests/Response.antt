-- ===== src/Tests/Response.antt =====
-- Instances of the theorems of Response at a small response.
use c_icap_server.Common.{
  ℕ, min, ◌+◌, ◌≡◌, refl, ap, ◌∙◌, true, false, none, some, [], ◌∷◌, ◌++◌, Bytes, length, replicate,
  codes, memcpy, slice, arith, length-memcpy, length-replicate, slice-memcpy_self,
}
use c_icap_server.Request.Chunks.{Req, chunk_step, continue}
use c_icap_server.Response.{
  Sender, send_nothing, send_body, send_eof, req_hdr, res_hdr, other_body, sending, ok, put_chunk,
  crlf, format_body_chunk, format_block, update_send_status, update_at, send_current_block_data,
  send_block, next_head, after_heads, mk_responce_header, resp_check_body, response_entities,
  header_text, last_text,
}
use c_icap_server.Response.Hex.{hex_text, hex_loop}
use c_icap_server.Response.Chunk.{
  chunk_text, HasData, format_body_chunk_lem, format_body_chunk-chunk_text, chunk_step-chunk_text,
}
use c_icap_server.Response.Remaining.{Connection, send_remaining_response}
use c_icap_server.Response.Remaining.Draining.{Takes}
use c_icap_server.Response.Remaining.Rounds.{answers}
use c_icap_server.Response.Remaining.Completing.{Whole, send_remaining_response-Whole}
use c_icap_server.Response.Order.{Sent, Reached, starts, writes, updates, reads, ends}
use c_icap_server.Response.Order.Reachable.{Reached-Sent}
use c_icap_server.Response.Order.Complete.{Complete, Reached-Complete}

abbrev abc : Bytes
abc = codes "abc"

abbrev new_response : Sender
new_response = record {
  status = send_nothing;
  is_respmod = true;
  responce_hasbody = false;
  entities = req_hdr (codes "Q") ∷ res_hdr (codes "H") ∷ other_body ∷ [];
  wbuf = replicate 4096 0;
  block = sending [];
  is_206 = false;
  i206_use_original_body = none;
  allow_trailers = false;
  has_trailer_names = false;
  xtrailers = none;
  bytes_out = 0;
  http_bytes_out = 0;
  body_bytes_out = 0;
}

abbrev cells : Bytes
cells = memcpy (replicate 4096 0) 30 abc

cells-length : length cells ≡ 4096
cells-length =
    length-memcpy (replicate 4096 0) 30 abc (omega (arith, length-replicate {A = ℕ} 4096 0))
    ∙ length-replicate {A = ℕ} 4096 0

cells-abc : slice cells 30 3 ≡ abc
cells-abc =
    slice-memcpy_self (replicate 4096 0) 30 abc 3 (omega (arith, length-replicate {A = ℕ} 4096 0))
      refl

abbrev body_response : Sender
body_response = record new_response {
  status = send_body;
  responce_hasbody = true;
  wbuf = cells;
  block = sending abc;
}

body_response-HasData : HasData body_response abc
body_response-HasData = (cells-length, refl, cells-abc)

format_body_chunk_example :
    (r' : Sender) × (format_body_chunk body_response ≡ some (r', ok))
    × (r'.block ≡ sending (chunk_text abc))
    × (r'.status ≡ send_body)
    × (length r'.wbuf ≡ 4096)
    × (r'.body_bytes_out ≡ 0 + 3)
format_body_chunk_example =
    format_body_chunk-chunk_text body_response abc body_response-HasData refl (omega arith)
      (omega arith)

abbrev chunk_reader : Req
chunk_reader = record {
  block = chunk_text abc ++ codes "0\r\n\r\n";
  current_chunk_len = 0;
  chunk_bytes_read = 0;
  write_to_module_pending = 0;
  eof_received = false;
  i206_use_original_body = none;
  request_bytes_in = 0;
  http_bytes_in = 0;
  body_bytes_in = 0;
}

chunk_step_example :
    (r' : Req) × (chunk_step chunk_reader none
      ≡ continue r' (some (abc ++ (crlf ++ codes "0\r\n\r\n"))))
    × (r'.block ≡ codes "0\r\n\r\n")
    × (r'.write_to_module_pending ≡ 3)
    × (r'.current_chunk_len ≡ r'.chunk_bytes_read)
chunk_step_example =
    chunk_step-chunk_text chunk_reader abc (codes "0\r\n\r\n") refl refl refl (omega arith)
      (omega arith)

abbrev head_line : Bytes
head_line = codes "I"

new_response-Sent : Sent head_line new_response [] []
unfolding response_entities
new_response-Sent = (refl, refl, omega arith)

-- The response header and the encapsulated header are sent, then a chunk, then the last chunk.
abbrev at_body : Sender
at_body = record new_response {
  status = send_body;
  entities = res_hdr (codes "H") ∷ other_body ∷ [];
  responce_hasbody = true;
  bytes_out = 2;
  http_bytes_out = 1;
}

at_body-Reached : Reached head_line new_response at_body (codes "IH") []
unfolding update_send_status update_at next_head after_heads mk_responce_header resp_check_body
    response_entities header_text send_current_block_data send_block
at_body-Reached =
    updates (writes 1 (updates (writes 1 (updates starts refl) refl refl) refl) refl refl) refl

abbrev chunk_ready : Sender
chunk_ready = put_chunk (record at_body { wbuf = cells; block = sending abc }) 3

abbrev made_ready :
    (format_body_chunk (record at_body { wbuf = cells; block = sending abc })
      ≡ some (chunk_ready, ok))
    × (chunk_ready.block ≡ sending (chunk_text abc))
made_ready =
    format_body_chunk_lem (record at_body { wbuf = cells; block = sending abc }) abc
      body_response-HasData refl (omega arith) (omega arith)

chunk_ready-Reached : Reached head_line new_response chunk_ready (codes "IH") (abc ∷ [])
chunk_ready-Reached =
    reads cells abc at_body-Reached refl refl body_response-HasData (omega arith) (omega arith)
      made_ready.0

abbrev chunk_sent : Sender
chunk_sent = record chunk_ready { block = sending []; bytes_out = 10 }

chunk_sent-Reached :
    Reached head_line new_response chunk_sent (codes "IH" ++ codes "3\r\nabc\r\n") (abc ∷ [])
unfolding send_current_block_data send_block put_chunk hex_text hex_loop
chunk_sent-Reached =
    writes {r = chunk_ready} {s = codes "3\r\nabc\r\n"} 8 chunk_ready-Reached made_ready.1
      (ap (send_block 8 chunk_ready) made_ready.1)

abbrev at_end : Sender
at_end = record chunk_sent {
  status = send_eof;
  wbuf = memcpy chunk_sent.wbuf 0 (codes "0\r\n\r\n" ++ (0 ∷ []));
  block = sending (codes "0\r\n\r\n");
}

at_end-Reached :
    Reached head_line new_response at_end (codes "IH" ++ codes "3\r\nabc\r\n") (abc ∷ [])
unfolding format_body_chunk format_block put_chunk last_text
at_end-Reached = ends chunk_sent-Reached refl refl refl

abbrev finished : Sender
finished = record at_end { block = sending []; bytes_out = 15 }

finished-Reached :
    Reached head_line new_response finished (codes "IH3\r\nabc\r\n0\r\n\r\n") (abc ∷ [])
unfolding send_current_block_data send_block put_chunk
finished-Reached = writes {r = at_end} {s = codes "0\r\n\r\n"} 5 at_end-Reached refl refl

Reached-Sent_example : Sent head_line finished (codes "IH3\r\nabc\r\n0\r\n\r\n") (abc ∷ [])
Reached-Sent_example =
    Reached-Sent head_line new_response new_response-Sent finished (codes "IH3\r\nabc\r\n0\r\n\r\n")
      (abc ∷ []) finished-Reached

Reached-Complete_example :
    Complete head_line new_response (codes "IH3\r\nabc\r\n0\r\n\r\n") (abc ∷ [])
Reached-Complete_example =
    Reached-Complete head_line new_response finished (codes "IH3\r\nabc\r\n0\r\n\r\n") (abc ∷ [])
      refl refl tt (omega arith) finished-Reached refl refl

-- A connection that takes three bytes at a time.
slow : Connection
slow t n = some (min 3 n)

slow-Takes : Takes slow
unfolding slow
slow-Takes t n pos = (min 3 n, refl, omega arith, omega arith)

send_remaining_response_example :
    Whole head_line
      (abc ∷ [])
      (send_remaining_response 9 head_line slow new_response [] (answers (abc ∷ [])))
send_remaining_response_example =
    send_remaining_response-Whole head_line new_response new_response slow [] [] [] (abc ∷ []) 9
      new_response-Sent starts slow-Takes (omega arith) (omega arith) refl
      (length-replicate {A = ℕ} 4096 0) ((omega arith, omega arith), tt)
