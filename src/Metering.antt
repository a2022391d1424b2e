-- ===== src/Metering.antt =====
-- app/services/metering.py: `MeteringEngine`.
mod Defs
pub mod Spec
pub mod Writing
pub mod Outcomes
pub mod Replay
pub mod Ledger
pub mod Steady
pub mod Account
pub mod Limits
pub mod Serving
pub mod Widths
unfoldable pub use Defs.{
  get_stored_response, write_usage, recover, attempt, record_usage, conflict, requested_quantity,
  cost_cents,
}
pub use Defs.{MeteringResult, replay_of, usage_or_default, event_row, body_of, record_row}
