-- ===== src/Queue.antt =====
-- include/lx/queue: the ring between two threads.
pub mod Spsc
pub mod Examples
