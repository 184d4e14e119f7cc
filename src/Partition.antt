-- ===== src/Partition.antt =====
-- src/partition: a partition is a file or a raw device of pages, every `getMaxPagesPerFSIP() + 1`-th
-- of them an indicator page. The file is the map from byte offsets to pages; `::open` and `::close`
-- are calls of the system, whose success is an argument.
pub mod Manager
pub mod Monad
pub mod Base
pub mod File
pub mod Pages
pub mod Counts
pub mod Alloc
pub mod FreeSet
pub mod Free
pub mod Layout
pub mod Format
pub mod Growth
mod Tests
