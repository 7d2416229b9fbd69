-- ===== src/Tests/Header.antt =====
-- `ci_headers_list_t` at concrete inputs.
use c_icap_server.Common.{
  ◌+◌, ◌≡◌, refl, true, false, some, [], ◌∷◌, ◌++◌, length, replicate, drop, codes, Bytes, arith,
}
use c_icap_server.Tests.MemBuf.{heap}
use c_icap_server.Header.{
  Headers, done, fault, ◌>>=◌, empty_line, lower, headers_search, headers_add, headers_remove,
}
use c_icap_server.Header.Lines.{text_of, offsets, IsHeaders}
use c_icap_server.Header.Appending.{Added, headers_add-Added}
use c_icap_server.Header.Shortage.{NoSpace}
use c_icap_server.Header.Search.{line_place, headers_search-line_place}
use c_icap_server.Header.Removal.{Removed, first_named, headers_remove-Removed}
use c_icap_server.Header.Joining.{AllAdded, headers_add_all, headers_add_all-AllAdded}
use c_icap_server.Header.Packing.{headers_pack, headers_pack_to_buffer, wire}
use c_icap_server.Header.Wire.{headers_pack_to_buffer-wire}
use c_icap_server.Header.Parsing.{headers_unpack}
use c_icap_server.Header.Unpacking.{Unpacks, unpack-pack}
use c_icap_server.Header.Values.{headers_value2}
use c_icap_server.Header.Valued.{Value, headers_value2-Value}
use c_icap_server.Header.Faults.{headers_unpack-fault}

abbrev host : Bytes
host = codes "Host: a"

abbrev via : Bytes
via = codes "Via: b"

abbrev via_name : Bytes
via_name = codes "VIA"

-- A list with two headers, and eight bytes to spare.
abbrev two : Headers
two = record {
  size = 64;
  headers = offsets 0 (host ∷ via ∷ []);
  bufsize = length (text_of (host ∷ via ∷ [])) + 8;
  bufused = length (text_of (host ∷ via ∷ []));
  buf = text_of (host ∷ via ∷ []) ++ replicate 8 0;
  packed = false;
}

two-IsHeaders : IsHeaders two (host ∷ via ∷ [])
two-IsHeaders = record {
  rest = replicate 8 0;
  text = refl;
  used = refl;
  index = refl;
  cells = refl;
  room = omega arith;
  spare = omega arith;
  edit = refl;
}

headers_add_example :
    Added (NoSpace heap true two 1 8) (host ∷ via ∷ []) via (headers_add heap true two via)
headers_add_example = headers_add-Added heap true two (host ∷ via ∷ []) via two-IsHeaders

headers_add_all_example :
    AllAdded
      (NoSpace heap true two (length two.headers) two.bufused)
      (host ∷ via ∷ [])
      (host ∷ via ∷ [])
      (headers_add_all heap true two two)
headers_add_all_example =
    headers_add_all-AllAdded heap true two two (host ∷ via ∷ []) host (via ∷ []) two-IsHeaders
      two-IsHeaders

headers_search_example : headers_search two via_name ≡ done (some 9)
unfolding line_place lower
headers_search_example =
    headers_search-line_place two (host ∷ via ∷ []) via_name two-IsHeaders
      (omega arith, (omega arith, (omega arith, tt))) (omega arith)

headers_remove_example : Removed via_name (host ∷ via ∷ []) (headers_remove heap true two via_name)
headers_remove_example =
    headers_remove-Removed heap true two (host ∷ via ∷ []) via_name two-IsHeaders
      (omega arith, (omega arith, (omega arith, tt)))

headers_pack_to_buffer_example :
    headers_pack_to_buffer two (replicate 30 7) 30
    ≡ done ((wire (host ∷ via ∷ []) ++ empty_line) ++ drop 19 (replicate 30 7), 19)
headers_pack_to_buffer_example =
    headers_pack_to_buffer-wire two host (via ∷ []) (replicate 30 7) 30 two-IsHeaders (omega arith)
      (omega arith)

unpack-pack_example :
    Unpacks (host ∷ via ∷ []) (headers_pack heap true two >>= headers_unpack heap true)
unpack-pack_example = unpack-pack heap true two host (via ∷ []) two-IsHeaders refl

headers_unpack-fault_example :
    headers_unpack heap true (record {
      size = 64;
      headers = [];
      bufsize = 4096;
      bufused = 2;
      buf = 13 ∷ 10 ∷ [];
      packed = false;
    })
    ≡ fault
headers_unpack-fault_example = headers_unpack-fault heap true 64 4096 [] (omega arith) (omega arith)

headers_value2_example : Value two (some (codes "b")) (headers_value2 two via_name)
unfolding first_named lower
headers_value2_example =
    headers_value2-Value two (host ∷ via ∷ []) via_name two-IsHeaders
      (omega arith, (omega arith, (omega arith, tt))) (omega arith) refl
