-- ===== src/Body.antt =====
-- body.c: the containers that hold the bodies of messages.
pub mod RingBuf
pub mod MemBuf
