-- ===== src/Request.antt =====
-- request_common.c and request.c: the parts of a request that read and write bodies.
pub mod Chunks
