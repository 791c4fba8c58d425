-- ===== src/Applicability.antt =====
-- crates/super-mem-core/src/applicability.rs: whether a memory applies to the current scope.
pub mod Artifacts
pub mod Digests
pub mod Classify
pub mod Isolation
pub mod Exactness
pub mod Framing
pub mod Agreement
pub mod Incomplete
mod Tests
