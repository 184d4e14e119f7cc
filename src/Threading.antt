-- ===== src/Threading.antt =====
-- src/threading: the queue of the thread pool.
pub mod Queue
mod Tests
