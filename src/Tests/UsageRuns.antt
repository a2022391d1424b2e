-- ===== src/Tests/UsageRuns.antt =====
-- A retried request for usage, and a tenant's name that no column takes.
use flyrank_backend_capstone.Prelude.{◌≡◌, refl, arith, string_dec, true}
use flyrank_backend_capstone.Models.{EventType, PlanType, plan_type_value, usage, Body}
use flyrank_backend_capstone.Config.{default_settings}
use flyrank_backend_capstone.Clock.{as_aware_utc}
use flyrank_backend_capstone.Pricing.{
  post_init, total_tokens, calculate_cost_cents, calculate_cost_micro_cents,
}
use flyrank_backend_capstone.Schemas.{UsageEventCreate, is_accepted}
use flyrank_backend_capstone.Store.Schema.{
  apply_changes, apply_change, insert_usage_event, insert_idempotency_record, insert_tenant,
  get_tenant, is_some,
}
use flyrank_backend_capstone.Store.Database.{
  contract-IsLawful, View, contract, view_select, view_add, view_flush, view_commit, view_close,
  view_rollback,
}
use flyrank_backend_capstone.Store.Action.{
  Run, ◌>>=◌, try_except, finally, query, add, flush, commit, close, raise, pure, draw, rollback,
}
use flyrank_backend_capstone.Store.Request.{get_db}
use flyrank_backend_capstone.Quota.{
  check_and_reserve, check_subscription, latest_active, sum_period_usage, usage_row, period_usage,
}
use flyrank_backend_capstone.Metering.{
  record_usage, attempt, get_stored_response, write_usage, requested_quantity, cost_cents,
}
use flyrank_backend_capstone.Routers.{post_usage, token_usage_of}
use flyrank_backend_capstone.Routers.Tenants.{create_tenant}
use flyrank_backend_capstone.App.{
  post_v1_usage, post_v1_tenants, usage_body, Response, ok, serve, answer,
}
use flyrank_backend_capstone.App.Usage.{serve_usage_twice}
use flyrank_backend_capstone.Tests.Samples.{seeded, env, env-LoadsAll, tables, session}
use flyrank_backend_capstone.Tests.RouterRuns.{payload}
use flyrank_backend_capstone.Tests.AppRuns.{construct_event}

abbrev first : Response × Run View
first =
    serve env contract default_settings construct_event (post_v1_usage "k1" payload)
      (session tables)

abbrev body : Body
body = usage (record {
  id = 101;
  tenant_id = 7;
  event_type = EventType.ai_token;
  total_quantity = 40;
  cost_cents = 0;
  plan_name = "tight";
  idempotency_key = "k1";
})

first_run : first.0 ≡ ok 201 (usage_body body)
unfolding string_dec serve answer get_db finally close try_except post_usage token_usage_of
    record_usage attempt get_stored_response write_usage requested_quantity cost_cents
    check_and_reserve check_subscription latest_active sum_period_usage usage_row period_usage
    post_init total_tokens calculate_cost_cents calculate_cost_micro_cents is_accepted as_aware_utc
    ◌>>=◌ query add flush commit raise pure draw rollback view_select view_add view_flush
    view_commit view_close view_rollback apply_changes apply_change insert_usage_event
    insert_idempotency_record
first_run = refl

known_run : is_some (get_tenant 8 first.1.session.stored) ≡ true
unfolding string_dec serve answer get_db finally close try_except post_usage token_usage_of
    record_usage attempt get_stored_response write_usage requested_quantity cost_cents
    check_and_reserve check_subscription latest_active sum_period_usage usage_row period_usage
    post_init total_tokens calculate_cost_cents calculate_cost_micro_cents is_accepted as_aware_utc
    ◌>>=◌ query add flush commit raise pure draw rollback view_select view_add view_flush
    view_commit view_close view_rollback apply_changes apply_change insert_usage_event
    insert_idempotency_record
known_run = refl

-- The key of another tenant.
abbrev other_payload : UsageEventCreate
other_payload = record payload { tenant_id = 8 }

serve_usage_twice_example :
    let (response, after) =
      serve env contract default_settings construct_event
        (post_v1_usage "k1" other_payload)
        (session first.1.session.stored) in
    (response ≡ ok 200 (usage_body body)) × (after.session.stored ≡ first.1.session.stored)
unfolding is_accepted
serve_usage_twice_example =
    serve_usage_twice env env contract-IsLawful contract-IsLawful default_settings default_settings
      construct_event "k1" payload other_payload tables first.1.session.stored (session tables)
      (session first.1.session.stored) body env-LoadsAll (omega arith) refl first_run refl refl refl
      known_run

-- A name of 256 characters passes the schema, and is answered with a 500.
long_name_run :
    (serve env contract default_settings construct_event
      (post_v1_tenants (record {
        name =
            "xxxxxxxxxxxxxxxxxxxxxxxxxxxxxxxxxxxxxxxxxxxxxxxxxxxxxxxxxxxxxxxxxxxxxxxxxxxxxxxxxxxxxxxxxxxxxxxxxxxxxxxxxxxxxxxxxxxxxxxxxxxxxxxxxxxxxxxxxxxxxxxxxxxxxxxxxxxxxxxxxxxxxxxxxxxxxxxxxxxxxxxxxxxxxxxxxxxxxxxxxxxxxxxxxxxxxxxxxxxxxxxxxxxxxxxxxxxxxxxxxxxxxxxxxxxxxxxx";
        plan_type = PlanType.pro;
      }))
      (session seeded)).0.status_code
    ≡ 500
unfolding string_dec serve answer get_db finally close try_except create_tenant ◌>>=◌ query add
    flush raise pure draw rollback view_select view_add view_flush view_rollback view_close
    apply_changes apply_change insert_tenant plan_type_value
long_name_run = refl
