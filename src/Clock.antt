-- ===== src/Clock.antt =====
-- Instants, and `_as_aware_utc` of app/services/quota.py. An instant is a number of microseconds
-- since 0001-01-01 00:00 UTC, `datetime.min` in UTC; an aware datetime in UTC is its instant.
mod Defs
pub mod Laws
unfoldable pub use Defs.{as_aware_utc, total_seconds_int, add_timedelta}
pub use Defs.{
  Offset, east, west, Datetime, naive, aware, max_instant, microseconds_per_second, thirty_days,
}
