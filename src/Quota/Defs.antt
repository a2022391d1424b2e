-- ===== src/Quota/Defs.antt =====
-- `QuotaEnforcer`: the two statements, and the checks of `check_and_reserve` in their order.
use flyrank_backend_capstone.Prelude.{
  ℕ, ◌+◌, Bool, ◌&&◌, not, Option, none, some, List, [], ◌∷◌, max, ltb, leb, ◌==◌, if◌then◌else◌,
  sum_by,
}
use flyrank_backend_capstone.Models.{
  Tenant, Plan, Subscription, UsageEvent, EventType, is_active_tenant, is_active, is_api_call,
  same_event_type,
}
use flyrank_backend_capstone.Clock.{as_aware_utc, total_seconds_int}
use flyrank_backend_capstone.Store.Schema.{Tables, get_plan}
use flyrank_backend_capstone.Store.Database.{Database}
use flyrank_backend_capstone.Store.Action.{
  Env, tenant_blocked, no_active_subscription, period_ended, unknown_plan, quota_exceeded,
  payment_required, overflow_error, Action, pure, raise, draw, if_none, ◌>>=◌, query,
}

pub record QuotaCheckResult : Type 0 where
  pub plan : Plan
  pub subscription : Subscription
  pub api_calls_used : ℕ
  pub tokens_used : ℕ

-- The WHERE clause: this tenant's ACTIVE subscriptions.
abbrev pub is_current : ℕ → Subscription → Bool
is_current tenant_id s = s.tenant_id == tenant_id && is_active s.status

-- ORDER BY current_period_end DESC LIMIT 1, with the row that is kept among equal ends left to the
-- order of the table.
unfoldable pub later_of : Subscription → Option Subscription → Subscription
later_of s none = s
later_of s (some u) = if ltb s.current_period_end u.current_period_end then u else s

unfoldable pub latest_active : ℕ → List Subscription → Option Subscription
unfolding later_of
latest_active tenant_id [] = none
latest_active tenant_id (s ∷ ss) =
    let rest = latest_active tenant_id ss in
    if is_current tenant_id s then some (later_of s rest) else rest

-- The WHERE clause of the rollup: start <= timestamp < end.
abbrev pub in_period : ℕ → ℕ → ℕ → UsageEvent → Bool
in_period tenant_id start end e =
    e.tenant_id == tenant_id && (leb start e.timestamp && ltb e.timestamp end)

-- What one row adds to `sum(total_quantity) FILTER (WHERE event_type = …)`.
abbrev pub quantity_in : ℕ → ℕ → ℕ → EventType → UsageEvent → ℕ
quantity_in tenant_id start end type e =
    if in_period tenant_id start end e && same_event_type e.event_type type
    then e.total_quantity
    else 0

-- One column of the rollup; COALESCE makes the sum of no rows 0.
unfoldable pub period_usage : ℕ → ℕ → ℕ → EventType → Tables → ℕ
period_usage tenant_id start end type t =
    sum_by (quantity_in tenant_id start end type) t.usage_events

-- The row that the rollup returns: (api_calls_used, tokens_used).
unfoldable pub usage_row : ℕ → ℕ → ℕ → Tables → ℕ × ℕ
unfolding period_usage
usage_row tenant_id start end t = (
  period_usage tenant_id start end EventType.api_call t,
  period_usage tenant_id start end EventType.ai_token t,
)

abbrev pub limit_of : EventType → Plan → ℕ
limit_of type plan = if is_api_call type then plan.api_call_limit else plan.token_limit

abbrev pub used_of : EventType → ℕ → ℕ → ℕ
used_of type api_calls_used tokens_used = if is_api_call type then api_calls_used else tokens_used

-- max(1, int((period_end - now).total_seconds()))
unfoldable pub retry_after : ℕ → ℕ → ℕ
unfolding total_seconds_int
retry_after period_end now = max 1 (total_seconds_int period_end now)

module _ (D : Database) where
  -- SELECT … FOR UPDATE. The lock orders sessions among themselves; one session reads as without it.
  unfoldable pub get_locked_active_subscription : ℕ → Action D.Session (Option Subscription)
  unfolding latest_active
  get_locked_active_subscription tenant_id = query D (λ t. latest_active tenant_id t.subscriptions)

  unfoldable pub sum_period_usage : ℕ → ℕ → ℕ → Action D.Session (ℕ × ℕ)
  unfolding usage_row
  sum_period_usage tenant_id period_start period_end =
      query D (usage_row tenant_id period_start period_end)

module _ (E : Env) (D : Database) where
  -- The checks after the subscription is found.
  unfoldable pub check_subscription :
      Tenant → EventType → ℕ → Subscription → Action D.Session QuotaCheckResult
  unfolding sum_period_usage retry_after
  check_subscription tenant event_type requested_quantity subscription = do
    now ← draw E.now
    if_none (as_aware_utc (E.loaded subscription.current_period_end)) (raise overflow_error)
        λ period_end. if leb period_end now then raise (payment_required period_ended) else do
          found ← query D (get_plan subscription.plan_id)
          if_none found (raise (payment_required unknown_plan)) λ plan. do
            used ←
                sum_period_usage D tenant.id subscription.current_period_start
                  subscription.current_period_end
            if ltb (limit_of event_type plan)
                  (used_of event_type used.0 used.1 + requested_quantity)
                then raise (
                    quota_exceeded (record {
                      limit = limit_of event_type plan;
                      used = used_of event_type used.0 used.1;
                      requested = requested_quantity;
                      retry_after_seconds = retry_after period_end now;
                    }))
                else pure (record {
                  plan = plan;
                  subscription = subscription;
                  api_calls_used = used.0;
                  tokens_used = used.1;
                })

  unfoldable pub check_and_reserve : Tenant → EventType → ℕ → Action D.Session QuotaCheckResult
  unfolding get_locked_active_subscription check_subscription
  check_and_reserve tenant event_type requested_quantity =
      if not (is_active_tenant tenant.status)
      then raise (payment_required (tenant_blocked tenant.status))
      else do
        found ← get_locked_active_subscription D tenant.id
        if_none found (raise (payment_required no_active_subscription))
            (check_subscription tenant event_type requested_quantity)
