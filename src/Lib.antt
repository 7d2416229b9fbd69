-- ===== src/Lib.antt =====
-- c-icap-server: verified models of the parts of the ICAP server that read, hold, transform and send
-- message data.
--
-- The server reads an ICAP request from a connection, passes the encapsulated HTTP headers and the
-- body to a service module, and writes a response back. The body comes in chunks
-- (request_common.c), is kept in a container (body.c), and goes out in chunks (request.c); codecs
-- (decode.c) and tables (hash.c) serve the services and the access lists.
--
-- - Request (request_common.c, include/request.h): Request.Chunks models `parse_chunk_data`, the
--   reader of chunked bodies, one function for each part of its loop; the block is the list of the
--   bytes from `pstrblock_read` on. Sizes, Progress, Counts and Limits under it hold the
--   proofs. The model stops where a negative length moves the pointer back: the bytes in front of
--   the block are not in it.
-- - Response (request.c): the sender of responses. `update_send_status`, `send_current_block_data`
--   and `format_body_chunk` are functions on `Sender`; Response.Hex has the conversions of
--   `snprintf`, Response.Chunk the chunks and how Request.Chunks reads them, Response.Order the
--   step relation `Reached` of what `get_send_body` and `send_remaining_response` do with these
--   functions, and what it keeps, up to the whole message in Response.Order.Complete,
--   Response.Remaining `send_remaining_response` as a loop over what the connection takes and the
--   service answers.
-- - Body (body.c, include/body.h): the containers of message bodies. Body.RingBuf models
--   `ci_ring_buf_t`, a ring of bytes with the loops of `ci_ring_buf_write` and `ci_ring_buf_read`;
--   pointers are offsets. Body.MemBuf models `ci_membuf_t`, a growing buffer with a read position, a
--   lock and an end-of-data flag.
-- - Decode (decode.c): Decode.Base64 models `ci_base64_encode` and `ci_base64_decode`, Decode.Url
--   models `url_decoder` and `url_decoder2`, each with the accesses outside its buffers as a fault.
-- - Hash (hash.c, include/hash.h): `ci_hash_compute` and the hash table, for the `TypeOps` that its
--   user passes.
-- - LinkedList (array.c, include/array.h): `ci_list_t`, with its items on an explicit heap; `Holds`
--   says which objects a list has. Growing, Shrinking, PoppingBack, Removing, Unlinking, Losing and
--   Taking have the operations that change it, Sorting its sort by insertion, Visits those that go
--   over its items. Allocations are taken to succeed.
-- - Header (header.c, include/header.h): `ci_headers_list_t`, the headers of a message in one
--   buffer; pointers into it are offsets. Header.Lines says which lines a list in edit mode holds;
--   Editing, Shortage, Appending, Joining, Search, Closing, Moving, Removal and Copying have the operations
--   on it, Values, Trimming, Sizes and Valued the values, Packing, Rows and Wire the way to the
--   text that is sent, Parsing, Scanning, Walking, Ends and Unpacking the way back.
--   A failed assertion and an access outside the buffer are results.
-- - Pack (mem.c): the pack allocator, a block that is handed out from both ends.
-- - Vector (array.c, include/array.h): `ci_vector_t` over the pack allocator. `IsVector` says which
--   values a vector holds, and how many pointers it has lost.
-- - Common: bytes and buffers as lists, `memcpy` and pieces of a buffer, `strtol`, and what the
--   containers rely on of the buffer allocator of mem.c.
--
-- Numbers are natural numbers. Where the source's arithmetic wraps around on inputs that are
-- admitted, the wrap-around is written out; elsewhere lengths are assumed to stay below 2 ^ 31.
-- Fuel: the loops of the ring buffer take at most two rounds, the encoder at most one round for
-- each byte and one more, the chunk reader one for each byte of the block and one more, the growth
-- of a hash table at most 25, the index of the headers is checked at most 33 times and its buffer
-- grows once for each byte asked for, `send_remaining_response` has a round for each piece and
-- eight more, the parser of headers looks at each byte at most once, `%x` at most 8 digits, and the
-- loop of `ci_list_remove2` takes as much as it is given, which has to be more than the items
-- before the one that matches; the theorems show that this is enough.
--
-- Not modelled: sockets, processes and threads, configuration, logging, TLS, the compression
-- libraries, and the modules and utilities built on them; the text of the response header, which is
-- an argument of the sender.
pub mod Common
pub mod Body
pub mod Decode
pub mod Request
pub mod Hash
pub mod Response
pub mod LinkedList
pub mod Header
pub mod Pack
pub mod Vector
mod Tests
