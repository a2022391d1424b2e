-- ===== src/Service.antt =====
-- Usage requests and deliveries of Stripe's events at once, in sessions of their own.
mod Defs
pub mod Records
pub mod Ledger
pub mod Limits
pub mod Standing
pub mod Moves
pub mod Once
pub mod Alone
pub mod Leads
pub mod Ending
unfoldable pub use Defs.*
