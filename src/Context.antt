-- ===== src/Context.antt =====
-- Context assembly.
pub mod Tokens
pub mod Render
pub mod Assemble
pub mod Search
pub mod Sizes
pub mod Budget
pub mod Plain
pub mod Safety
pub mod Caveats
pub mod Contents
mod Tests
