-- ===== src/Webhooks/Customers.antt =====
-- What a completed checkout does to the tenant that its customer id selects.
use flyrank_backend_capstone.Prelude.{
  ℕ, suc, ◌+◌, ◌≤◌, ◌≡◌, refl, ◌∙◌, ap, ◌∷◌, String, none, some, true, same_text, same_text_refl,
  arith, same_text-eq, string_dec,
}
use flyrank_backend_capstone.Models.{
  Tenant, Plan, Subscription, PlanType, SubscriptionStatus, ProcessedWebhook,
}
use flyrank_backend_capstone.Clock.{max_instant, thirty_days}
use flyrank_backend_capstone.Clock.Laws.{add_timedelta-some}
use flyrank_backend_capstone.Store.Schema.{
  Tables, apply_change, apply_changes, insert_subscription, insert_processed_webhook,
  get_processed_webhook, fits_text, fits_nullable, get_tenant, get_plan, is_some, column_eq,
  put_tenant, subscription_with_id, subscription_with_stripe_id,
}
use flyrank_backend_capstone.Store.Database.{
  Database, View, IsLawful, contract, opened, view_add, view_flush, view_commit, view_select,
}
use flyrank_backend_capstone.Store.Action.{
  Env, Run, Outcome, returned, ◌>>=◌, try_except, draw, add, flush, commit, pure, query,
}
use flyrank_backend_capstone.Store.Scalar.{one_row, scalar_one, scalar_one-Member, find-Member}
use flyrank_backend_capstone.Webhooks.Events.{missing, Event, Reply, get, subscription_created}
use flyrank_backend_capstone.Webhooks.Defs.{
  plan_type_of, price_id, get_tenant_by_customer_id, get_plan_by_stripe_price,
  mark_processed_or_skip, handle_checkout_completed, dispatch, apply_event, handle_event,
}
use flyrank_backend_capstone.Webhooks.Simulated.{handle_event-opened}

-- The rows that a completed checkout writes: the processed event, and thirty days of the plan.
abbrev pub processed_row : Env → Event → ℕ → ProcessedWebhook
processed_row E event n = record {
  event_id = event.id;
  event_type = event.type;
  processed_at = E.now n;
}

abbrev pub granted_row : Env → Event → Tenant → Plan → ℕ → Subscription
granted_row E event tenant plan n = record {
  id = E.serial (suc (suc n));
  tenant_id = tenant.id;
  stripe_subscription_id = get event.object.subscription;
  plan_id = plan.id;
  status = SubscriptionStatus.active;
  current_period_start = E.now (suc n);
  current_period_end = E.now (suc n) + thirty_days;
}

abbrev pub granted_tables : Env → Event → Tenant → Plan → ℕ → Tables → Tables
granted_tables E event tenant plan n t = record t {
  tenants = put_tenant (record tenant { plan_type = PlanType.pro }) t.tenants;
  subscriptions = granted_row E event tenant plan n ∷ t.subscriptions;
  processed_webhooks = processed_row E event n ∷ t.processed_webhooks;
}

plan_type_of-pro :
    (name : String) → same_text name "pro" ≡ true → plan_type_of name ≡ some PlanType.pro
unfolding plan_type_of string_dec
plan_type_of-pro name h = rw (same_text-eq name "pro" h) refl

module _ (E : Env) (event : Event) (t : Tables) (n : ℕ) (tenant : Tenant) (plan : Plan)
    (is_checkout : event.type ≡ "checkout.session.completed")
    (no_items : event.object.line_items ≡ missing) (fits : fits_text 255 event.id ≡ true)
    (is_new : get_processed_webhook event.id t ≡ none)
    (owner : scalar_one
        (λ (r : Tenant). column_eq r.stripe_customer_id (get event.object.customer))
        t.tenants
      ≡ one_row tenant)
    (pro : scalar_one (λ (r : Plan). same_text r.name "pro") t.plans ≡ one_row plan)
    (new_id : subscription_with_id (E.serial (suc (suc n))) t ≡ none)
    (fits_stripe_id : fits_nullable 255 (get event.object.subscription) ≡ true)
    (new_stripe_id : subscription_with_stripe_id (get event.object.subscription) t ≡ none)
    (range : E.now (suc n) + thirty_days ≤ max_instant) where
  known_tenant : is_some (get_tenant tenant.id t) ≡ true
  known_tenant =
      let (m, _) = scalar_one-Member _ t.tenants tenant owner in
      find-Member _ t.tenants tenant m (ground arith)

  known_plan : is_some (get_plan plan.id t) ≡ true
  known_plan =
      let (m, _) = scalar_one-Member _ t.plans plan pro in
      find-Member _ t.plans plan m (ground arith)

  checkout-contract : handle_event E contract event (record { session = opened t; draws = n }) ≡ (
    returned (subscription_created tenant.id),
    record { session = opened (granted_tables E event tenant plan n t); draws = suc (suc (suc n)) },
  )
  unfolding handle_event mark_processed_or_skip apply_event dispatch handle_checkout_completed
      get_tenant_by_customer_id get_plan_by_stripe_price price_id ◌>>=◌ try_except draw add flush
      commit pure query view_add view_flush view_commit view_select apply_changes apply_change
      insert_processed_webhook insert_subscription
  checkout-contract =
      rw
        (
          is_new,
          is_checkout,
          fits,
          same_text_refl "checkout.session.completed",
          owner,
          no_items,
          pro,
        )
        (rw
          (
            add_timedelta-some (E.now (suc n)) thirty_days range,
            plan_type_of-pro plan.name (scalar_one-Member _ t.plans plan pro).1,
            new_id,
            fits_stripe_id,
            new_stripe_id,
            known_tenant,
            known_plan,
          )
          refl)

-- A checkout event that is new and carries no line items (Stripe sends them only on request), on a
-- lawful session opened on tables where exactly one tenant's `stripe_customer_id` equals the
-- event's customer, NULL where the event's is missing or null, where exactly one plan is named
-- "pro", where the new row's two keys are free, where the ids of the event and of its subscription
-- fit 255 characters, and thirty days before `datetime.max` at the latest:
-- the reply names that tenant, and one commit
-- stores the event's id, thirty days of an ACTIVE subscription to the plan, and the tenant on "pro".
pub checkout_grants :
    (E : Env) {D : Database} {view : D.Session → View}
    → IsLawful D view
    → (event : Event) (t : Tables) (r : Run D.Session) (tenant : Tenant) (plan : Plan)
    → view r.session ≡ opened t
    → event.type ≡ "checkout.session.completed"
    → event.object.line_items ≡ missing
    → fits_text 255 event.id ≡ true
    → get_processed_webhook event.id t ≡ none
    → scalar_one
        (λ (x : Tenant). column_eq x.stripe_customer_id (get event.object.customer))
        t.tenants
      ≡ one_row tenant
    → scalar_one (λ (x : Plan). same_text x.name "pro") t.plans ≡ one_row plan
    → subscription_with_id (E.serial (suc (suc r.draws))) t ≡ none
    → fits_nullable 255 (get event.object.subscription) ≡ true
    → subscription_with_stripe_id (get event.object.subscription) t ≡ none
    → E.now (suc r.draws) + thirty_days ≤ max_instant
    → let (o, after) = handle_event E D event r in
      (o ≡ returned (subscription_created tenant.id))
      × ((view after.session).stored ≡ granted_tables E event tenant plan r.draws t)
checkout_grants E lawful event t r tenant plan fresh is_checkout no_items fits is_new owner pro
      new_id fits_stripe_id new_stripe_id range =
    let runs =
      handle_event-opened lawful E event t r fresh
      ∙ checkout-contract E event t r.draws tenant plan is_checkout no_items fits is_new owner pro
          new_id fits_stripe_id new_stripe_id range in
    (
      ap (λ (p : Outcome Reply × Run View). p.0) runs,
      ap (λ (p : Outcome Reply × Run View). p.1.session.stored) runs,
    )
