-- ===== src/Infra.antt =====
-- src/infra: the types, enumerations and page headers that the components share.
pub mod Types
pub mod Headers
