-- ===== src/Types.antt =====
-- The domain types of crates/super-mem-core/src/types.rs.
--
-- An identifier (`MemoryId`, `EventId`, ...) is the 128-bit number of its `Uuid`, whose order is
-- the order of the numbers. A time is a count of the smallest steps of the clock from the earliest
-- time that it can express. An `f64` is its bit pattern; an `f32` is the bit pattern of the `f64`
-- that `f64::from` gives. A `u32` or a `usize` is a number.
mod Tests
mod Json
pub mod Labels
mod Scopes
mod Records
unfoldable pub use Labels.*
pub use Json.{Value, Items, Fields, Number}
pub use Scopes.{RepositoryContext, Scope, GitRelation, ArtifactRef, repo_id, branch}
pub use Records.*
