-- ===== src/Ranking.antt =====
-- The ranking of recalled memories: crates/super-mem-core/src/ranking.rs, with the functions of
-- crates/super-mem-core/src/engine.rs that bound what it works on.
pub mod Floats
mod Candidates
mod Tokens
mod Order
mod Scoring
mod Query
mod Mmr
mod Reference
mod Vectors
pub mod Selection
pub mod Equivalence
pub mod Signals
pub mod Bounds
pub mod Reader
pub mod Pool
pub mod Tests
