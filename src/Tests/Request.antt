-- ===== src/Tests/Request.antt =====
-- Instances of the theorems of Request at blocks of a chunked body.
use c_icap_server.Common.{
  ◌-◌, ◌^◌, ◌<◌, ◌≡◌, refl, false, none, some, Bytes, codes, strtol, arith, skip_spaces, is_space,
  digit_in, hex_value, digits, to_word, unsigned_number, signed_number, skip_prefix,
}
use c_icap_server.Request.Chunks.{
  Req, returns, rewinds, ci_eof, parse_chunk_data, find_crlf, skip_blanks, read_data,
}
use c_icap_server.Request.Chunks.Progress.{parse_chunk_data-Ends}
use c_icap_server.Request.Chunks.Sizes.{Ends, SmallSizes}
use c_icap_server.Request.Chunks.Counts.{read_data_lem, after_data, next_round}
use c_icap_server.Request.Chunks.Limits.{
  HasLine, behind_last, parse_chunk_data-rewinds, parse_chunk_data-end,
}

abbrev chunk_req : Bytes → Req
chunk_req block = record {
  block = block;
  current_chunk_len = 0;
  chunk_bytes_read = 0;
  write_to_module_pending = 0;
  eof_received = false;
  i206_use_original_body = none;
  request_bytes_in = 0;
  http_bytes_in = 0;
  body_bytes_in = 0;
}

abbrev two_chunks : Req
two_chunks = chunk_req (codes "3\r\nabc\r\n0\r\n\r\n")

two_chunks-SmallSizes : SmallSizes two_chunks.block
unfolding strtol skip_spaces is_space signed_number skip_prefix unsigned_number digits digit_in
    hex_value to_word
two_chunks-SmallSizes = (
  omega arith,
  (
    omega arith,
    (
      omega arith,
      (
        omega arith,
        (
          omega arith,
          (omega arith, (omega arith, (omega arith, (omega arith, (tt, (tt, (tt, (tt, tt)))))))),
        ),
      ),
    ),
  ),
)

parse_chunk_data-Ends_example : Ends (parse_chunk_data two_chunks)
parse_chunk_data-Ends_example =
    parse_chunk_data-Ends two_chunks (omega arith, omega arith, two_chunks-SmallSizes)

-- The block ends inside the chunk's end characters.
abbrev midway : Req
midway = record (chunk_req (codes "bc\r")) { current_chunk_len = 5; chunk_bytes_read = 1 }

read_data_example :
    (0 < 3) × (read_data midway none ≡ next_round (after_data midway 3) (some (codes "bc\r")))
read_data_example = read_data_lem midway none 3 refl (omega arith) (omega arith) (omega arith)

abbrev negative_line : Req
negative_line = chunk_req (codes "-5\r\nx")

negative_line-HasLine : HasLine negative_line 2 (2 ^ 64 - 5)
unfolding find_crlf strtol skip_spaces is_space signed_number skip_prefix unsigned_number digits
    digit_in hex_value to_word skip_blanks
negative_line-HasLine = (refl, codes "\r\nx", refl, codes "x", refl)

parse_chunk_data-rewinds_example : parse_chunk_data negative_line ≡ rewinds 3
parse_chunk_data-rewinds_example =
    parse_chunk_data-rewinds negative_line 2 (2 ^ 64 - 5) (refl, refl) negative_line-HasLine
      (omega arith) (omega arith) (omega arith)

abbrev last_line : Req
last_line = chunk_req (codes "0\r\n\r")

last_line-HasLine : HasLine last_line 1 0
unfolding find_crlf strtol skip_spaces is_space signed_number skip_prefix unsigned_number digits
    digit_in hex_value to_word skip_blanks
last_line-HasLine = (refl, codes "\r\n\r", refl, codes "\r", refl)

abbrev wrong_end : Req
wrong_end = chunk_req (codes "0\r\nx\nGET")

wrong_end-HasLine : HasLine wrong_end 1 0
unfolding find_crlf strtol skip_spaces is_space signed_number skip_prefix unsigned_number digits
    digit_in hex_value to_word skip_blanks
wrong_end-HasLine = (refl, codes "\r\nx\nGET", refl, codes "x\nGET", refl)

parse_chunk_data-end_example :
    parse_chunk_data wrong_end ≡ returns ci_eof (behind_last wrong_end 1) none
parse_chunk_data-end_example =
    parse_chunk_data-end wrong_end 1 0 b'x' 10 (codes "GET") (refl, refl) wrong_end-HasLine refl
      refl
