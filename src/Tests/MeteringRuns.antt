-- ===== src/Tests/MeteringRuns.antt =====
-- Requests to record usage.
use flyrank_backend_capstone.Prelude.{◌≡◌, refl, true, false, none, [], ◌∷◌, arith, string_dec}
use flyrank_backend_capstone.Models.{EventType, Body, usage}
use flyrank_backend_capstone.Pricing.{default_settings, no_tokens, calculate_api_call_cost_cents}
use flyrank_backend_capstone.Clock.{as_aware_utc}
use flyrank_backend_capstone.Store.Schema.{
  Tables, apply_changes, apply_change, insert_usage_event, insert_idempotency_record,
}
use flyrank_backend_capstone.Store.Database.{
  contract-IsLawful, View, contract, view_select, view_add, view_flush, view_commit, view_rollback,
}
use flyrank_backend_capstone.Store.Action.{
  QuotaExceeded, quota_exceeded, Outcome, returned, raised, Run, ◌>>=◌, try_except, query, add,
  flush, commit, rollback,
}
use flyrank_backend_capstone.Quota.{check_and_reserve, period_usage}
use flyrank_backend_capstone.Metering.{
  MeteringResult, record_usage, requested_quantity, cost_cents, event_row,
}
use flyrank_backend_capstone.Metering.Spec.{Meters}
use flyrank_backend_capstone.Metering.Outcomes.{record_usage-Meters}
use flyrank_backend_capstone.Metering.Replay.{record_usage_twice}
use flyrank_backend_capstone.Metering.Ledger.{IsLedger}
use flyrank_backend_capstone.Metering.Account.{Accounts, account_of, record_usage-Accounts}
use flyrank_backend_capstone.Metering.Limits.{IsWithin}
use flyrank_backend_capstone.Metering.Serving.{Served, here, next, Served-IsWithin}
use flyrank_backend_capstone.Metering.Widths.{PlansFit}
use flyrank_backend_capstone.Tests.Samples.{env, env-LoadsAll, acme, other, tables, session}

abbrev response : Body
response = usage (record {
  id = 101;
  tenant_id = 7;
  event_type = EventType.api_call;
  total_quantity = 1;
  cost_cents = 0;
  plan_name = "tight";
  idempotency_key = "k1";
})

abbrev first_call : Outcome MeteringResult × Run View
first_call =
    record_usage env contract default_settings acme "k1" EventType.api_call none (session tables)

-- The tables after the first call.
abbrev once : Tables
once = first_call.1.session.stored

runs : first_call.0 ≡ returned (record { status_code = 201; body = response; replayed = false })
unfolding record_usage check_and_reserve ◌>>=◌ try_except query add flush commit view_select
    view_add view_flush view_commit apply_changes apply_change insert_usage_event
    insert_idempotency_record string_dec as_aware_utc requested_quantity cost_cents
    calculate_api_call_cost_cents
runs = refl

-- The other tenant sends the same key with other contents, and gets the first tenant's response.
record_usage_twice_example :
    let (o, after) =
      record_usage env contract default_settings other "k1" EventType.ai_token none
        (session once) in
    (o ≡ returned (record { status_code = 201; body = response; replayed = true }))
    × (after.session.stored ≡ once)
record_usage_twice_example =
    record_usage_twice env env contract-IsLawful contract-IsLawful default_settings default_settings
      acme other "k1" EventType.api_call EventType.ai_token none none tables once (session tables)
      (session once) response env-LoadsAll (omega arith) refl runs refl refl

record_usage-Meters_example :
    Meters env default_settings acme "k1" EventType.api_call no_tokens 5000000 tables first_call.0
      once
record_usage-Meters_example =
    record_usage-Meters env contract-IsLawful default_settings acme "k1" EventType.api_call none
      tables (session tables) env-LoadsAll (omega arith) refl

record_usage-Accounts_example :
    Accounts 7 "k1" EventType.api_call
      (requested_quantity EventType.api_call no_tokens)
      (account_of tables)
      first_call.0
      (account_of once)
record_usage-Accounts_example =
    record_usage-Accounts env contract-IsLawful default_settings acme "k1" EventType.api_call none
      tables (session tables) env-LoadsAll (omega arith) refl

pub tables-IsLedger : IsLedger tables
tables-IsLedger = record { distinct = tt; receipts = tt; backed = tt }

pub tables-IsWithin : IsWithin 7 tables
unfolding period_usage
tables-IsWithin = record { at = λ s plan type sel found. omega arith }

-- One call of each tenant.
served :
    Served tables
      (record_usage env contract default_settings other "k2" EventType.api_call none
        (session once)).1.session.stored
served =
    next
      (next here env contract-IsLawful default_settings acme "k1" EventType.api_call none
        (session tables) env-LoadsAll refl refl)
      env contract-IsLawful default_settings other "k2" EventType.api_call none (session once)
      env-LoadsAll refl refl

Served-IsWithin_example :
    IsWithin 7
      (record_usage env contract default_settings other "k2" EventType.api_call none
        (session once)).1.session.stored
Served-IsWithin_example = Served-IsWithin 7 served (omega arith) tables-IsWithin

abbrev refusal : QuotaExceeded
refusal = record { limit = 1; used = 1; requested = 1; retry_after_seconds = 55 }

-- Tables in which the plan's one call is used up.
abbrev spent : Tables
spent = record tables {
  usage_events = event_row default_settings acme "k0" EventType.api_call no_tokens 50 2000000 ∷ [];
}

spent-PlansFit : PlansFit spent
spent-PlansFit = record { at = λ id plan found. ground arith }

-- A call with a new key passes the limit.
refused_call :
    (record_usage env contract default_settings acme "k2" EventType.api_call none (session spent)).0
    ≡ raised (quota_exceeded refusal)
unfolding record_usage check_and_reserve ◌>>=◌ try_except query add flush commit rollback
    view_select view_add view_flush view_commit view_rollback apply_changes apply_change
    insert_usage_event insert_idempotency_record string_dec as_aware_utc requested_quantity
    cost_cents calculate_api_call_cost_cents
refused_call = refl
