-- ===== src/Checkpoints.antt =====
-- The automatic checkpoints of crates/super-mem-core/src/engine.rs: what of a session is worth
-- keeping, and how its attempts are grouped.
mod Words
mod Events
mod Session
mod Groups
pub mod Grouping
pub mod Reporting
pub mod Order
pub mod Caps
pub mod Classes
mod Tests
