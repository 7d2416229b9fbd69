-- ===== src/Tests.antt =====
-- The theorems at concrete inputs, and runs of the definitions.
mod RingBuf
mod MemBuf
mod Decode
mod Request
mod Hash
mod Response
mod LinkedList
mod Header
mod Vector
