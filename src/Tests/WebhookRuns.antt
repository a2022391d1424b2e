-- ===== src/Tests/WebhookRuns.antt =====
-- Deliveries of Stripe events.
use flyrank_backend_capstone.Prelude.{◌≡◌, arith, refl, [], ◌∷◌, string_dec}
use flyrank_backend_capstone.Models.{EventType, PlanType}
use flyrank_backend_capstone.Store.Schema.{
  Tables, apply_changes, insert_processed_webhook, insert_subscription,
}
use flyrank_backend_capstone.Store.Database.{
  contract-IsLawful, View, contract, view_select, view_add, view_flush, view_commit,
}
use flyrank_backend_capstone.Store.Action.{
  payment_required, no_active_subscription, multiple_results_found, Outcome, returned, raised, Run,
  ◌>>=◌, try_except, query, add, flush, commit,
}
use flyrank_backend_capstone.Quota.{QuotaCheckResult, check_and_reserve}
use flyrank_backend_capstone.Routers.Renewal.{checkout_passes}
use flyrank_backend_capstone.Webhooks.{
  missing, null, value, Event, StripeObject, Reply, subscription_created, subscription_updated,
  subscription_canceled, duplicate_ignored, handle_event, handle_checkout_completed, price_id,
  next_status, from_timestamp, plan_type_of,
}
use flyrank_backend_capstone.Webhooks.Atomic.{Delivers, handle_event-Delivers}
use flyrank_backend_capstone.Webhooks.Delivery.{handle_event_twice}
use flyrank_backend_capstone.Webhooks.Customers.{granted_tables, checkout_grants}
use flyrank_backend_capstone.Webhooks.Cancellation.{deleted_revokes}
use flyrank_backend_capstone.Webhooks.Updates.{updated_tables, updated_syncs, updated_revokes}
use flyrank_backend_capstone.Tests.Samples.{
  env, env-LoadsAll, acme, other, acme_subscription, pro_plan, tables, session,
}

abbrev pub no_object : StripeObject
no_object = record {
  id = missing;
  customer = missing;
  subscription = missing;
  line_items = missing;
  status = missing;
  current_period_start = missing;
  current_period_end = missing;
}

-- A checkout whose customer is null: Stripe sends it where no customer was created.
abbrev pub checkout : Event
checkout = record {
  id = "evt_1";
  type = "checkout.session.completed";
  object = record no_object { customer = null; subscription = value "sub_new" };
}

abbrev past_due : Event
past_due = record {
  id = "evt_2";
  type = "customer.subscription.updated";
  object = record no_object {
    id = value "sub_acme";
    status = value "past_due";
    current_period_end = value 1;
  };
}

abbrev pub deleted : Event
deleted = record {
  id = "evt_3";
  type = "customer.subscription.deleted";
  object = record no_object { id = value "sub_acme" };
}

abbrev delivered : Event → Outcome Reply × Run View
delivered event = handle_event env contract event (session tables)

abbrev after : Event → Tables
after event = (delivered event).1.session.stored

-- The null customer selects the tenant whose `stripe_customer_id` is NULL.
checkout_grants_example :
    ((delivered checkout).0 ≡ returned (subscription_created 8))
    × (after checkout ≡ granted_tables env checkout other pro_plan 0 tables)
unfolding string_dec
checkout_grants_example =
    checkout_grants env contract-IsLawful checkout tables (session tables) other pro_plan refl refl
      refl refl refl refl refl refl refl refl (omega arith)

-- The tenant's first check after the checkout, for all that the plan has.
checkout_passes_example :
    (c : QuotaCheckResult) × ((check_and_reserve env contract
        (record other { plan_type = PlanType.pro })
        EventType.ai_token
        10000000
        (session (after checkout))).0
      ≡ returned c)
unfolding string_dec
checkout_passes_example =
    checkout_passes env env contract-IsLawful contract-IsLawful checkout tables (after checkout)
      (session tables) (session (after checkout)) other pro_plan EventType.ai_token 10000000 refl
      refl refl refl refl refl refl refl refl refl (omega arith) refl (λ c. cc, tt) tt refl
      (omega arith) env-LoadsAll refl refl (omega arith) (omega arith)

handle_event-Delivers_example : Delivers checkout tables (delivered checkout).0 (after checkout)
handle_event-Delivers_example =
    handle_event-Delivers env contract-IsLawful checkout tables (session tables) refl

checkout_run : (delivered checkout).0 ≡ returned (subscription_created 8)
unfolding string_dec handle_event ◌>>=◌ try_except add flush view_flush view_add apply_changes
    insert_processed_webhook handle_checkout_completed query view_select price_id plan_type_of
    commit view_commit insert_subscription
checkout_run = refl

handle_event_twice_example :
    let (o, again) = handle_event env contract checkout (session (after checkout)) in
    (o ≡ returned (duplicate_ignored "evt_1")) × (again.session.stored ≡ after checkout)
handle_event_twice_example =
    handle_event_twice env env contract-IsLawful contract-IsLawful checkout checkout tables
      (after checkout) (session tables) (session (after checkout)) (subscription_created 8) refl
      checkout_run refl refl refl refl

deleted_revokes_example :
    ((delivered deleted).0 ≡ returned (subscription_canceled 11))
    × ((check_and_reserve env contract acme EventType.api_call 1 (session (after deleted))).0
        ≡ raised (payment_required no_active_subscription))
unfolding string_dec
deleted_revokes_example =
    deleted_revokes env env contract-IsLawful contract-IsLawful deleted tables (after deleted)
      (session tables) (session (after deleted)) "sub_acme" acme_subscription acme
      EventType.api_call 1 refl refl refl refl refl refl refl (λ c. refl, tt) refl refl

updated_syncs_example :
    ((delivered past_due).0 ≡ returned (subscription_updated 11))
    × (after past_due
        ≡ updated_tables env past_due acme_subscription 1000 62135596801000000 0 tables)
unfolding string_dec from_timestamp
updated_syncs_example =
    updated_syncs env contract-IsLawful past_due tables (session tables) "sub_acme"
      acme_subscription 1000 62135596801000000 refl refl refl refl refl refl refl refl

updated_revokes_example :
    (check_and_reserve env contract acme EventType.ai_token 5 (session (after past_due))).0
    ≡ raised (payment_required no_active_subscription)
unfolding string_dec from_timestamp next_status
updated_revokes_example =
    updated_revokes env env contract-IsLawful contract-IsLawful past_due tables (after past_due)
      (session tables) (session (after past_due)) "sub_acme" acme_subscription 1000
      62135596801000000 acme EventType.ai_token 5 refl refl refl refl refl refl refl refl refl refl
      (λ c. refl, tt) refl refl

-- With two tenants without a customer, the same event is an exception at every delivery.
ambiguous_run :
    (handle_event env contract checkout
      (session (record tables { tenants = record other { id = 9 } ∷ acme ∷ other ∷ [] }))).0
    ≡ raised multiple_results_found
unfolding string_dec handle_event ◌>>=◌ try_except add flush view_flush view_add apply_changes
    insert_processed_webhook handle_checkout_completed query view_select
ambiguous_run = refl
