-- ===== src/Decode.antt =====
-- decode.c: the decoders of header values.
pub mod Base64
pub mod Url
