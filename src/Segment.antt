-- ===== src/Segment.antt =====
-- src/segment: a segment of a partition, with its index pages, its free space management pages and its data
-- pages.
pub mod Space
pub mod State
pub mod Fsm
pub mod Records
pub mod Groups
pub mod Disk
mod Tests
