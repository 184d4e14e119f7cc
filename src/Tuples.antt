-- ===== src/Tuples.antt =====
-- The tuples of src/infra and their form on disk.
pub mod Bytes
pub mod Catalogue
pub mod Codec
pub mod Stored
mod Tests
