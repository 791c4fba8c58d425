-- ===== src/Search.antt =====
-- The vectors of crates/super-mem-core/src/search.rs.
mod Encoding
mod Signatures
pub mod Roundtrip
pub mod Distance
mod Tests
