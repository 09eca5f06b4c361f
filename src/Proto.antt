-- ===== src/Proto.antt =====
-- include/lx/proto: the wire messages and the frame decoder.
pub mod Messages
pub mod Codec
pub mod Examples
