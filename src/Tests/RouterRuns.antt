-- ===== src/Tests/RouterRuns.antt =====
-- Requests to the endpoints.
use flyrank_backend_capstone.Prelude.{refl, arith}
use flyrank_backend_capstone.Prelude.Int.{pos}
use flyrank_backend_capstone.Models.{EventType}
use flyrank_backend_capstone.Schemas.{UsageEventCreate, QuotaStatus, is_accepted}
use flyrank_backend_capstone.Pricing.{default_settings}
use flyrank_backend_capstone.Store.Database.{contract-IsLawful, contract, view_select}
use flyrank_backend_capstone.Store.Action.{◌>>=◌, query, pure}
use flyrank_backend_capstone.Quota.{check_and_reserve, usage_row, latest_active}
use flyrank_backend_capstone.Metering.Ledger.{IsLedger}
use flyrank_backend_capstone.Metering.Widths.{PlansFit}
use flyrank_backend_capstone.Routers.{post_usage, get_quota_status}
use flyrank_backend_capstone.Routers.Status.{IsPromised, post_usage-IsPromised}
use flyrank_backend_capstone.Routers.Agreement.{Agrees, get_quota_status-Agrees}
use flyrank_backend_capstone.Tests.Samples.{acme, env, env-LoadsAll, tables, session}

-- An event of 40 tokens of the first tenant.
abbrev pub payload : UsageEventCreate
payload = record {
  tenant_id = 7;
  event_type = EventType.ai_token;
  input_tokens = pos 30;
  cached_input_tokens = pos 0;
  output_tokens = pos 10;
  reasoning_tokens = pos 0;
}

pub tables-PlansFit : PlansFit tables
tables-PlansFit = record { at = λ id plan found. ground arith }

pub tables-IsLedger : IsLedger tables
tables-IsLedger = record { distinct = tt; receipts = tt; backed = tt }

post_usage-IsPromised_example :
    IsPromised (post_usage env contract default_settings "k1" payload (session tables)).0
unfolding is_accepted
post_usage-IsPromised_example =
    post_usage-IsPromised env contract-IsLawful "k1" payload tables (session tables) env-LoadsAll
      (omega arith) refl refl tables-PlansFit refl tables-IsLedger (λ n. refl)

abbrev shown : QuotaStatus
shown = record {
  tenant_id = 7;
  plan_name = "tight";
  api_calls_used = 0;
  api_call_limit = 1;
  tokens_used = 0;
  token_limit = 50;
  period_start = 1000;
  period_end = 60000000;
}

get_quota_status-Agrees_example :
    Agrees EventType.ai_token 40 shown
      (check_and_reserve env contract acme EventType.ai_token 40 (session tables)).0
unfolding get_quota_status ◌>>=◌ query view_select usage_row latest_active pure
get_quota_status-Agrees_example =
    get_quota_status-Agrees env contract-IsLawful contract-IsLawful acme EventType.ai_token 40
      tables (session tables) (session tables) shown env-LoadsAll (omega arith) refl refl refl refl
      refl (omega arith)
