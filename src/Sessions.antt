-- ===== src/Sessions.antt =====
-- Requests of several sessions at once, under the row lock of `SELECT … FOR UPDATE`.
mod Defs
pub mod Serial
pub mod Worlds
pub mod Steps
pub mod Exclusion
pub mod Interleaved
pub mod Races
pub mod Exactly
pub mod Progress
pub mod Ending
unfoldable pub use Defs.*
