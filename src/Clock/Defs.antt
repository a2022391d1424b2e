-- ===== src/Clock/Defs.antt =====
-- Instants as `_as_aware_utc` of app/services/quota.py reads them, and differences in seconds.
use flyrank_backend_capstone.Prelude.{ℕ, ◌+◌, ◌-◌, ◌/◌, Option, none, some, ltb, if◌then◌else◌}

-- The offset from UTC, in microseconds.
pub data Offset : Type 0 where
  east west : ℕ → Offset

-- A Python datetime by its wall clock reading, with or without `tzinfo`.
pub data Datetime : Type 0 where
  naive : ℕ → Datetime
  aware : ℕ → Offset → Datetime

-- `datetime.max`, 9999-12-31 23:59:59.999999.
abbrev pub max_instant : ℕ
max_instant = 315537897599999999

abbrev pub microseconds_per_second : ℕ
microseconds_per_second = 1000000

-- `_as_aware_utc`; `none` is the OverflowError of `astimezone` outside the range of `datetime`.
unfoldable pub as_aware_utc : Datetime → Option ℕ
as_aware_utc (naive wall) = some wall
as_aware_utc (aware wall (east n)) = if ltb wall n then none else some (wall - n)
as_aware_utc (aware wall (west n)) = if ltb max_instant (wall + n) then none else some (wall + n)

-- `timedelta(days=30)`
abbrev pub thirty_days : ℕ
thirty_days = 2592000000000

-- `instant + delta`; `none` is its OverflowError.
unfoldable pub add_timedelta : ℕ → ℕ → Option ℕ
add_timedelta instant delta =
    if ltb max_instant (instant + delta) then none else some (instant + delta)

-- `int((end - start).total_seconds())` where `start` is not after `end`. The float is exact to the
-- microsecond for spans of up to 285 years, so the cast is this division there.
unfoldable pub total_seconds_int : ℕ → ℕ → ℕ
total_seconds_int end start = (end - start) / microseconds_per_second
