-- ===== src/Requests.antt =====
-- What crates/super-mem-core/src/engine.rs does to a request before it is written, and
-- `normalize_remote` of crates/super-mem-core/src/git.rs.
mod Paths
mod Remote
mod Scoped
mod Hidden
mod Prepare
pub mod Bare
pub mod Credentials
pub mod Relative
pub mod Prepared
pub mod Clean
pub mod Accepted
mod Tests
