-- ===== src/Store.antt =====
-- The store of memories: the SQL writes of crates/super-mem-core/src/engine.rs.
pub mod Outcome
pub mod Words
pub mod Tables
mod Scoping
pub mod Validate
mod Heads
mod Lifecycle
mod Attachments
mod Links
mod Events
mod Upsert
mod Operations
mod Steps
mod Rows
mod Unrevised
mod Claims
mod Lasting
mod Keys
mod Replay
mod History
mod Retraction
mod Pointers
mod Tests
