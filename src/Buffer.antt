-- ===== src/Buffer.antt =====
-- src/buffer: the buffer. Block is the lock of a control block, Free the lists of what is free with the chains
-- of the hash table, and Pool the buffer manager on these.
pub mod Block
pub mod Free
pub mod Pool
mod Tests
