-- ===== src/Tests/AppRuns.antt =====
-- Requests to the application, and columns.

use flyrank_backend_capstone.Prelude.{
  ℕ, Bool, true, false, inl, ◌≡◌, refl, some, none, [], ◌∷◌, String, List, arith, string_dec,
  Option, if◌then◌else◌, same_text,
}
use flyrank_backend_capstone.Models.{EventType, PlanType, plan_type_value}
use flyrank_backend_capstone.Models.Uuid.{
  result, Dialect, native, process_bind_param, process_result_value, bind-result,
}
use flyrank_backend_capstone.Config.{default_settings}
use flyrank_backend_capstone.Schemas.{TenantCreate, TenantResponse}
use flyrank_backend_capstone.Clock.{add_timedelta}
use flyrank_backend_capstone.Store.Schema.{
  set_tenant, apply_changes, insert_subscription, insert_processed_webhook,
}
use flyrank_backend_capstone.Store.Database.{
  contract-IsLawful, View, contract, opened, view_select, view_add, view_flush, view_commit,
}
use flyrank_backend_capstone.Store.Action.{
  Outcome, returned, Run, Action, ◌>>=◌, try_except, finally, query, add, flush, commit, close,
  raise, overflow_error,
}
use flyrank_backend_capstone.Store.Request.{get_db, get_db-opened}
use flyrank_backend_capstone.Quota.{QuotaCheckResult, check_and_reserve}
use flyrank_backend_capstone.Webhooks.{
  subscription_created, handle_event, handle_checkout_completed, price_id, plan_type_of,
}
use flyrank_backend_capstone.Migration.{seeded_pro}
use flyrank_backend_capstone.Routers.Tenants.{create_tenant, tenant_response}
use flyrank_backend_capstone.Routers.Creation.{new_row, created_tables}
use flyrank_backend_capstone.Routers.Onboarding.{create_tenant-passes}
use flyrank_backend_capstone.Routers.Stripe.{
  Verified, verified, signature_verification_error, signature_invalid, stripe_webhook,
}
use flyrank_backend_capstone.App.{
  Request, post_v1_usage, get_v1_tenant_quota, post_v1_tenants, post_v1_webhooks_stripe, detail,
  Response, serve, serve_all, answer,
}
use flyrank_backend_capstone.App.Ledger.{OpenedLedger, serve_all-OpenedLedger}
use flyrank_backend_capstone.App.Webhooks.{webhook_response, serve_webhook_forged}
use flyrank_backend_capstone.Tests.Samples.{seeded, acme, env, env-LoadsAll, tables, session}
use flyrank_backend_capstone.Tests.RouterRuns.{payload, tables-IsLedger}
use flyrank_backend_capstone.Tests.WebhookRuns.{checkout}

-- A library that takes one signature for the checkout event.
abbrev pub construct_event : String → String → String → Verified
construct_event body signature secret =
    if same_text signature "signed" then verified checkout else signature_verification_error

-- A request that flushes a change and fails.
abbrev failing : Action View ℕ
failing = add contract (set_tenant acme) >>= λ _. flush contract >>= λ _. raise overflow_error

get_db-opened_example :
    ((get_db contract failing (session tables)).0 ≡ (failing (session tables)).0)
    × ((get_db contract failing (session tables)).1.session
        ≡ opened (failing (session tables)).1.session.stored)
get_db-opened_example = get_db-opened contract-IsLawful failing (session tables)

abbrev new_tenant_payload : TenantCreate
new_tenant_payload = record { name = "New Inc"; plan_type = PlanType.pro }

abbrev created : Outcome TenantResponse × Run View
created = create_tenant env contract new_tenant_payload (session seeded)

create_tenant-passes_example :
    (created.0 ≡ returned (tenant_response (new_row env new_tenant_payload 0)))
    × (created.1.session.stored ≡ created_tables env new_tenant_payload seeded_pro 0 seeded)
    × ((c : QuotaCheckResult) × ((check_and_reserve env contract
            (new_row env new_tenant_payload 0)
            EventType.ai_token
            10000000
            (session created.1.session.stored)).0
          ≡ returned c))
unfolding string_dec plan_type_value
create_tenant-passes_example =
    create_tenant-passes env env contract-IsLawful contract-IsLawful new_tenant_payload seeded_pro
      seeded created.1.session.stored (session seeded) (session created.1.session.stored)
      EventType.ai_token 10000000 refl refl refl refl
      (record { tenant = refl; subscriptions = tt; events = tt }) refl (omega arith) tt env-LoadsAll
      refl refl (omega arith) (omega arith)

abbrev requests : List Request
requests =
    post_v1_tenants new_tenant_payload
    ∷ post_v1_usage "k1" payload
    ∷ post_v1_webhooks_stripe "{}" "signed"
    ∷ post_v1_webhooks_stripe "{}" "forged"
    ∷ post_v1_usage "k1" payload
    ∷ get_v1_tenant_quota (some 7)
    ∷ get_v1_tenant_quota none
    ∷ []

serve_all-OpenedLedger_example :
    OpenedLedger
      (serve_all env contract default_settings construct_event requests (session tables)).1.session
serve_all-OpenedLedger_example =
    serve_all-OpenedLedger contract-IsLawful env default_settings construct_event requests
      (session tables) (tables, refl, tables-IsLedger)

serve_webhook_forged_example :
    let (response, after) =
      serve env contract default_settings construct_event
        (post_v1_webhooks_stripe "{}" "forged")
        (session tables) in
    (response
      ≡ record { status_code = 400; content = detail signature_invalid.detail; retry_after = none })
    × (after.session ≡ opened tables)
unfolding string_dec
serve_webhook_forged_example =
    serve_webhook_forged contract-IsLawful env default_settings construct_event "{}" "forged" tables
      (session tables) refl (λ event e. cc)

-- Two UUIDs, and their texts.
abbrev str : Bool → String
str false = "00000000-0000-0000-0000-000000000001"
str true = "00000000-0000-0000-0000-000000000002"

abbrev parse : String → Option Bool
parse s =
    if same_text s "00000000-0000-0000-0000-000000000001"
    then some false
    else if same_text s "00000000-0000-0000-0000-000000000002"
    then some true
    else none

reads : (value : Bool) → parse (str value) ≡ some value
unfolding string_dec
reads false = refl
reads true = refl

bind-result_example :
    process_result_value str parse (native true) Dialect.postgresql ≡ result (some true)
unfolding process_bind_param
bind-result_example =
    bind-result str parse reads (some true) Dialect.postgresql (native true)
      (true, reads true, inl refl)

abbrev delivered : Response × Run View
delivered =
    serve env contract default_settings construct_event (post_v1_webhooks_stripe "{}" "signed")
      (session tables)

delivered_run : delivered.0 ≡ webhook_response (subscription_created 8)
unfolding string_dec serve answer get_db finally close try_except stripe_webhook handle_event ◌>>=◌
    add flush view_flush view_add apply_changes insert_processed_webhook handle_checkout_completed
    query view_select price_id add_timedelta plan_type_of commit view_commit insert_subscription
delivered_run = refl
