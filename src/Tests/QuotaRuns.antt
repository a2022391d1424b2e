-- ===== src/Tests/QuotaRuns.antt =====
-- Checks of quotas, and their rollups.
use flyrank_backend_capstone.Prelude.{ℕ, ◌+◌, ◌*◌, ◌≤◌, ◌<◌, ◌≡◌, refl, max, some, [], ◌∷◌, arith}
use flyrank_backend_capstone.Models.{EventType, UsageEvent}
use flyrank_backend_capstone.Clock.{aware, west, as_aware_utc}
use flyrank_backend_capstone.Clock.Laws.{as_west, as_aware_utc-Loads}
use flyrank_backend_capstone.Store.Schema.{Tables}
use flyrank_backend_capstone.Store.Database.{contract-IsLawful, contract, view_select}
use flyrank_backend_capstone.Store.Action.{
  period_ended, QuotaExceeded, quota_exceeded, payment_required, raised, Run, ◌>>=◌, query,
}
use flyrank_backend_capstone.Quota.{
  check_and_reserve, check_subscription, get_locked_active_subscription, sum_period_usage,
  latest_active, retry_after,
}
use flyrank_backend_capstone.Quota.Locking.{Selects, latest_active-Selects}
use flyrank_backend_capstone.Quota.Decision.{Decides, check_and_reserve-Decides}
use flyrank_backend_capstone.Quota.Waiting.{retry_after_bounds, quota_exceeded-period_ended}
use flyrank_backend_capstone.Tests.Samples.{env, env-LoadsAll, acme, tables, session}

abbrev event : ℕ → ℕ → UsageEvent
event id timestamp = record {
  id = id;
  tenant_id = 7;
  event_type = EventType.api_call;
  input_tokens = 0;
  cached_input_tokens = 0;
  output_tokens = 0;
  reasoning_tokens = 0;
  total_quantity = 1;
  cost_cents = 0;
  idempotency_key = "used";
  timestamp = timestamp;
}

-- The one call of the plan is used up; a second one was made before the period.
abbrev full : Tables
full = record tables { usage_events = event 1 2000 ∷ event 2 500 ∷ [] }

abbrev refusal : QuotaExceeded
refusal = record { limit = 1; used = 1; requested = 1; retry_after_seconds = 55 }

check-full :
    (check_and_reserve env contract acme EventType.api_call 1 (session full)).0
    ≡ raised (quota_exceeded refusal)
unfolding check_and_reserve check_subscription get_locked_active_subscription sum_period_usage ◌>>=◌
    query view_select as_aware_utc
check-full = refl

-- The same session a minute later: 60 draws are 60 seconds.
abbrev later_session : Run (contract.Session)
later_session = record (session full) { draws = 60 }

latest_active-Selects_example :
    Selects 7 tables.subscriptions (latest_active 7 tables.subscriptions)
latest_active-Selects_example = latest_active-Selects 7 tables.subscriptions

check_and_reserve-Decides_example :
    Decides acme EventType.api_call 1 5000000 full
      (check_and_reserve env contract acme EventType.api_call 1 (session full)).0
check_and_reserve-Decides_example =
    check_and_reserve-Decides env contract-IsLawful acme EventType.api_call 1 (session full)
      env-LoadsAll (omega arith) refl

retry_after_bounds_example :
    (1 ≤ retry_after 60000000 5500000)
    × (5500000 + retry_after 60000000 5500000 * 1000000 ≤ max 60000000 (5500000 + 1000000))
    × (60000000 < 5500000 + (retry_after 60000000 5500000 + 1) * 1000000)
retry_after_bounds_example = retry_after_bounds 60000000 5500000 (omega arith)

quota_exceeded-period_ended_example :
    (check_and_reserve env contract acme EventType.ai_token 3 later_session).0
    ≡ raised (payment_required period_ended)
quota_exceeded-period_ended_example =
    quota_exceeded-period_ended env contract-IsLawful acme EventType.api_call EventType.ai_token 1 3
      refusal (session full) later_session env-LoadsAll (omega arith) refl refl refl check-full
      (omega arith)

as_aware_utc-Loads_example : as_aware_utc (aware 3000 (west 2000)) ≡ some 5000
as_aware_utc-Loads_example = as_aware_utc-Loads 5000 (omega arith) (as_west 3000 2000 (omega arith))
