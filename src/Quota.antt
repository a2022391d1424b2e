-- ===== src/Quota.antt =====
-- app/services/quota.py: `QuotaEnforcer`.
mod Defs
pub mod Rollup
pub mod Locking
pub mod Decision
pub mod Waiting
unfoldable pub use Defs.{
  latest_active, later_of, get_locked_active_subscription, period_usage, usage_row,
  sum_period_usage, check_subscription, check_and_reserve, retry_after,
}
pub use Defs.{QuotaCheckResult, limit_of, used_of, in_period, quantity_in, is_current}
