-- ===== src/Clock/Laws.antt =====
-- `_as_aware_utc` on what a database driver returns for a stored instant.
use flyrank_backend_capstone.Prelude.{ℕ, ◌+◌, ◌≤◌, ◌≡◌, refl, some, arith}
use flyrank_backend_capstone.Clock.Defs.{
  Datetime, naive, aware, east, west, max_instant, as_aware_utc, add_timedelta,
}

-- A driver returns an instant in its column type's way: naive in UTC (SQLite), or aware in some
-- zone east or west of UTC (PostgreSQL).
pub data Loads (t : ℕ) : Datetime → Type 0 where
  as_naive : Loads t (naive t)
  as_east : (wall n : ℕ) → wall ≡ t + n → Loads t (aware wall (east n))
  as_west : (wall n : ℕ) → wall + n ≡ t → Loads t (aware wall (west n))

-- Whichever way a driver returns a stored instant that is at most `datetime.max`, naive or aware in
-- any zone, normalising it gives that instant back and raises nothing.
pub as_aware_utc-Loads :
    (t : ℕ) {d : Datetime} → t ≤ max_instant → Loads t d → as_aware_utc d ≡ some t
unfolding as_aware_utc
as_aware_utc-Loads t h as_naive = refl
as_aware_utc-Loads t h (as_east wall n e) = ground arith
as_aware_utc-Loads t h (as_west wall n e) = ground arith

pub add_timedelta-some :
    (instant delta : ℕ)
    → instant + delta ≤ max_instant
    → add_timedelta instant delta ≡ some (instant + delta)
unfolding add_timedelta
add_timedelta-some instant delta h = ground arith
