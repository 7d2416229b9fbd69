-- ===== src/Tests/Decode.antt =====
-- The decoders of decode.c at concrete inputs.
use c_icap_server.Common.{◌≡◌, refl, true, false, [], ◌∷◌, ◌++◌, Bytes, codes, arith}
use c_icap_server.Decode.Base64.{Encoded, encoded, base64_encode, base64_decode, quad}
use c_icap_server.Decode.Base64.Encoding.{text_of, base64_encode_short}
use c_icap_server.Decode.Base64.Reference.{base64_text, base64_encode-base64_text}
use c_icap_server.Decode.Base64.RoundTrip.{padded, base64_decode-base64_encode}
use c_icap_server.Decode.Url.{Decoded, decoded, url_decoder}
use c_icap_server.Decode.Url.Decoding.{escape, url_decoder-escape, url_decoder_overrun}

base64_run : base64_encode (codes "icap!") 20 ≡ encoded (codes "aWNhcCEA")
unfolding base64_encode
base64_run = refl

base64_encode_example : base64_encode (codes "icap!") 20 ≡ encoded (base64_text (codes "icap!"))
unfolding base64_text
base64_encode_example =
    base64_encode-base64_text (codes "icap!") 20 (omega arith) (omega arith)
      (omega arith, (omega arith, (omega arith, (omega arith, (omega arith, tt))))) (omega arith)
      (omega arith)

base64_round_trip_example :
    (text : Bytes) × (base64_encode (codes "icap!") 20 ≡ encoded text)
    × (base64_decode text 10 ≡ padded (codes "icap!"))
unfolding text_of padded quad
base64_round_trip_example =
    base64_decode-base64_encode (codes "icap!") 20 10 (omega arith) (omega arith) (omega arith)
      (omega arith) (omega arith) (omega arith)

base64_encode_short_example : base64_encode (codes "A") 20 ≡ Encoded.fault
base64_encode_short_example =
    base64_encode_short (codes "A") 20 (omega arith) (omega arith) (omega arith)

url_decoder_run : url_decoder (codes "a%2Fb+c" ++ 0 ∷ []) 10 ≡ decoded (codes "a/b c") false
unfolding url_decoder
url_decoder_run = refl

url_decoder-escape_example :
    url_decoder (escape (codes "a/b") ++ 0 ∷ []) 10 ≡ decoded (codes "a/b") false
url_decoder-escape_example = url_decoder-escape (codes "a/b") [] 10 (omega arith) (omega arith)

url_decoder_stops : url_decoder (codes "abc" ++ 0 ∷ []) 3 ≡ decoded (codes "ab") true
unfolding url_decoder
url_decoder_stops = refl

url_decoder_overrun_example : url_decoder (codes "ab" ++ b'%' ∷ 0 ∷ []) 9 ≡ Decoded.fault
url_decoder_overrun_example = url_decoder_overrun (codes "ab") 9 (omega arith) (omega arith)
