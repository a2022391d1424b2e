-- ===== src/Tests/RenewalRuns.antt =====
-- A checkout that adds a subscription while a usage request holds the lock of another one, and a
-- cancellation that waits for that lock.
use flyrank_backend_capstone.Prelude.{
  ap, ◌≤◌, arith, false, ℕ, ◌≡◌, ◌==◌, inl, inr, refl, Bool-cases, [], ◌∷◌, string_dec,
  some-injective, sym, ◌∙◌, some,
}
use flyrank_backend_capstone.Models.{EventType, Subscription, SubscriptionStatus}
use flyrank_backend_capstone.Clock.{add_timedelta, as_aware_utc}
use flyrank_backend_capstone.Pricing.{calculate_api_call_cost_cents}
use flyrank_backend_capstone.Store.Schema.{
  Tables, apply_changes, apply_change, insert_usage_event, insert_idempotency_record,
  insert_processed_webhook, insert_subscription,
}
use flyrank_backend_capstone.Store.Database.{
  view_select, view_add, view_flush, view_commit, view_rollback,
}
use flyrank_backend_capstone.Store.Action.{
  ◌>>=◌, try_except, query, add, flush, commit, rollback, draw, pure, raise,
}
use flyrank_backend_capstone.Quota.{
  period_usage, get_locked_active_subscription, check_subscription, latest_active, sum_period_usage,
  usage_row,
}
use flyrank_backend_capstone.Metering.{
  get_stored_response, write_usage, recover, requested_quantity, cost_cents,
}
use flyrank_backend_capstone.Metering.Ledger.{IsLedger}
use flyrank_backend_capstone.Webhooks.{
  value, Event, handle_checkout_completed, price_id, plan_type_of, mark_processed_or_skip,
  apply_event, dispatch, get_tenant_by_customer_id, get_plan_by_stripe_price,
  handle_subscription_deleted, get_subscription_by_stripe_id, required,
}
use flyrank_backend_capstone.Sessions.{
  idle, asked, replace, proceed_in, proceed, lock_of, wanted, IsFree, proceeds,
}
use flyrank_backend_capstone.Service.{
  waiting, received, deliver, holds, Service, replace_delivery, IsKeyFree, IsRowFree, deliver_in,
  requests, delivers, Serves, here, next,
}
use flyrank_backend_capstone.Service.Ledger.{Serves-IsLedger}
use flyrank_backend_capstone.Service.Leads.{deliver_left}
use flyrank_backend_capstone.Service.Ending.{Serves-ended}
use flyrank_backend_capstone.Sessions.Progress.{IsIdleFrom, steps_left}
use flyrank_backend_capstone.Tests.SessionRuns.{job, wants_none-IsFree}
use flyrank_backend_capstone.Tests.WebhookRuns.{no_object, deleted}
use flyrank_backend_capstone.Tests.Samples.{env, tables, tight_plan, acme_subscription}

-- A tenant whose plan is the one that a checkout grants, with one call in each period.
abbrev scarce : Tables
scarce = record tables { plans = record tight_plan { name = "pro" } ∷ [] }

abbrev renewal : Event
renewal = record {
  id = "evt_9";
  type = "checkout.session.completed";
  object = record no_object { customer = value "cus_acme"; subscription = value "sub_next" };
}

abbrev asked_twice : Service
asked_twice = record {
  usage = record {
    stored = scarce;
    phases = replace (replace (λ j. idle) 0 (asked (job "k1"))) 1 (asked (job "k2"));
  };
  deliveries = replace_delivery (λ j. waiting) 0 (received renewal);
}

abbrev step_of : ℕ → ℕ → Service → Service
step_of n i w = record w { usage = proceed_in env n i w.usage }

-- The session 0 has checked, with the lock of the only subscription.
abbrev one_checked : Service
one_checked = step_of 0 0 (step_of 0 0 (step_of 0 0 asked_twice))

-- A checkout has committed a second one.
abbrev renewed : Service
renewed = deliver_in env 1 0 (deliver_in env 0 0 one_checked)

-- The session 1 has checked, with the lock of the second one.
abbrev two_checked : Service
two_checked = step_of 2 1 (step_of 2 1 (step_of 2 1 renewed))

abbrev both_written : Service
both_written = step_of 6 0 (step_of 3 1 two_checked)

-- The lock is on a subscription's row, not on the tenant: two requests pass the check of the second
-- subscription's period, which has one call.
oversold : period_usage 7 6000000 2592006000000 EventType.api_call both_written.usage.stored ≡ 2
unfolding proceed period_usage get_stored_response get_locked_active_subscription check_subscription
    latest_active write_usage recover ◌>>=◌ query add flush commit rollback draw pure raise
    view_select view_add view_flush view_commit view_rollback apply_changes apply_change
    insert_usage_event insert_idempotency_record string_dec as_aware_utc requested_quantity
    cost_cents sum_period_usage usage_row calculate_api_call_cost_cents deliver
    mark_processed_or_skip apply_event dispatch handle_checkout_completed get_tenant_by_customer_id
    get_plan_by_stripe_price price_id plan_type_of add_timedelta try_except insert_processed_webhook
    insert_subscription
oversold = refl

-- The lock that each session takes is free.
first-IsFree : IsFree (step_of 0 0 asked_twice).usage 0
unfolding lock_of proceed get_stored_response query view_select string_dec
first-IsFree id wants j = elim (Bool-cases (j == 0)) [
  | inl e ↦ rw e (λ h. cc)
  | inr e ↦
      rw e (elim (Bool-cases (j == 1)) [ inl at ↦ rw at (λ h. cc) | inr at ↦ rw at (λ h. cc) ])
]

second-IsFree : IsFree (step_of 2 1 renewed).usage 1
unfolding wanted lock_of apply_event dispatch handle_checkout_completed get_tenant_by_customer_id
    get_plan_by_stripe_price price_id plan_type_of add_timedelta commit view_commit
    insert_subscription deliver mark_processed_or_skip try_except add flush view_add view_flush
    apply_changes apply_change insert_processed_webhook proceed get_stored_response
    get_locked_active_subscription check_subscription latest_active ◌>>=◌ query draw pure raise
    view_select string_dec as_aware_utc sum_period_usage usage_row requested_quantity
second-IsFree id wants j = elim (Bool-cases (j == 1)) [
  | inl e ↦ rw e (λ h. cc)
  | inr e ↦ rw e (elim (Bool-cases (j == 0)) [
    | inl at ↦
        rw at
          (λ h. let row : ◌≡◌ {A = ℕ} 202 11 = some-injective wants ∙ sym (some-injective h) in cc)
    | inr at ↦ rw at (λ h. cc)
  ])
]

renewal-IsKeyFree : IsKeyFree one_checked 0
unfolding holds
renewal-IsKeyFree event at j = elim (Bool-cases (j == 0)) [
  | inl e ↦ rw e (λ h. cc)
  | inr e ↦ rw e (λ h. cc)
]

flushed_renewal-IsKeyFree : IsKeyFree (deliver_in env 0 0 one_checked) 0
unfolding deliver mark_processed_or_skip try_except add flush view_add view_flush apply_changes
    apply_change insert_processed_webhook proceed get_stored_response get_locked_active_subscription
    check_subscription latest_active ◌>>=◌ query draw pure raise view_select string_dec as_aware_utc
    sum_period_usage usage_row requested_quantity
flushed_renewal-IsKeyFree event at j = cc

-- The checkout adds a row, and leaves the row that is locked.
renewal-IsRowFree : IsRowFree env 0 0 one_checked
unfolding deliver mark_processed_or_skip try_except add flush view_add view_flush apply_changes
    apply_change insert_processed_webhook proceed get_stored_response get_locked_active_subscription
    check_subscription latest_active ◌>>=◌ query draw pure raise view_select string_dec as_aware_utc
    sum_period_usage usage_row requested_quantity
renewal-IsRowFree id j busy = refl

flushed_renewal-IsRowFree : IsRowFree env 1 0 (deliver_in env 0 0 one_checked)
unfolding lock_of apply_event dispatch handle_checkout_completed get_tenant_by_customer_id
    get_plan_by_stripe_price price_id plan_type_of add_timedelta commit view_commit
    insert_subscription deliver mark_processed_or_skip try_except add flush view_add view_flush
    apply_changes apply_change insert_processed_webhook proceed get_stored_response
    get_locked_active_subscription check_subscription latest_active ◌>>=◌ query draw pure raise
    view_select string_dec as_aware_utc sum_period_usage usage_row requested_quantity
flushed_renewal-IsRowFree id j = elim (Bool-cases (j == 0)) [
  | inl e ↦ rw e (λ h. let row : 11 ≡ id = some-injective h in rw⁻¹ row refl)
  | inr e ↦
      rw e (elim (Bool-cases (j == 1)) [ inl at ↦ rw at (λ h. cc) | inr at ↦ rw at (λ h. cc) ])
]

written_steps : Serves asked_twice both_written
unfolding wanted lock_of proceed get_stored_response get_locked_active_subscription
    check_subscription latest_active write_usage recover ◌>>=◌ query add flush commit rollback draw
    pure raise view_select view_add view_flush view_commit view_rollback apply_changes apply_change
    insert_usage_event insert_idempotency_record string_dec as_aware_utc requested_quantity
    cost_cents sum_period_usage usage_row calculate_api_call_cost_cents deliver
    mark_processed_or_skip apply_event dispatch handle_checkout_completed get_tenant_by_customer_id
    get_plan_by_stripe_price price_id plan_type_of add_timedelta try_except insert_processed_webhook
    insert_subscription holds
written_steps = next (requests _ (proceeds env 0 0 (wants_none-IsFree asked_twice.usage 0 refl))) (
    next (requests _ (proceeds env 0 0 first-IsFree)) (
      next
        (requests _ (
          proceeds env 0 0
            (wants_none-IsFree (step_of 0 0 (step_of 0 0 asked_twice)).usage 0 refl)))
        (next (delivers env 0 0 renewal-IsKeyFree renewal-IsRowFree) (
          next (delivers env 1 0 flushed_renewal-IsKeyFree flushed_renewal-IsRowFree) (
            next (requests _ (proceeds env 2 1 (wants_none-IsFree renewed.usage 1 refl))) (
              next (requests _ (proceeds env 2 1 second-IsFree)) (
                next
                  (requests _ (
                    proceeds env 2 1
                      (wants_none-IsFree (step_of 2 1 (step_of 2 1 renewed)).usage 1 refl)))
                  (next (requests _ (proceeds env 3 1 (wants_none-IsFree two_checked.usage 1 refl)))
                    (next
                      (requests _ (
                        proceeds env 6 0
                          (wants_none-IsFree (step_of 3 1 two_checked).usage 0 refl)))
                      here)))))))))

Serves-IsLedger_example : IsLedger both_written.usage.stored
Serves-IsLedger_example =
    Serves-IsLedger written_steps (record { distinct = tt; receipts = tt; backed = tt })

-- Two usage requests, one with the lock, and a delivery that has flushed its id.
abbrev in_flight : Service
in_flight = deliver_in env 0 0 one_checked

in_flight-IsIdleFrom : IsIdleFrom 2 in_flight.usage
in_flight-IsIdleFrom j h =
    let not_first : (j == 0) ≡ false = ground arith in
    let not_second : (j == 1) ≡ false = ground arith in rw (not_first, not_second) refl

in_flight-waiting : (j : ℕ) → 2 ≤ j → in_flight.deliveries j ≡ waiting
in_flight-waiting j h = let not_first : (j == 0) ≡ false = ground arith in rw not_first refl

Serves-ended_example :
    (v : Service) × Serves in_flight v
    × ((i : ℕ) → steps_left (v.usage.phases i) ≡ 0)
    × ((i : ℕ) → deliver_left (v.deliveries i) ≡ 0)
Serves-ended_example = Serves-ended env 2 in_flight in_flight-IsIdleFrom in_flight-waiting

-- A cancellation waits for the request that holds the lock of its subscription.
abbrev cancelling : Service
cancelling =
    deliver_in env 0 0
      (record one_checked { deliveries = replace_delivery (λ j. waiting) 0 (received deleted) })

cancellation_waits : ¬ (IsRowFree env 1 0 cancelling)
unfolding lock_of apply_event dispatch handle_subscription_deleted get_subscription_by_stripe_id
    required commit view_commit deliver mark_processed_or_skip try_except add flush view_add
    view_flush apply_changes apply_change insert_processed_webhook proceed get_stored_response
    get_locked_active_subscription check_subscription latest_active ◌>>=◌ query draw pure raise
    view_select string_dec as_aware_utc sum_period_usage usage_row requested_quantity
cancellation_waits free =
    let same : some (record acme_subscription { status = SubscriptionStatus.canceled })
        ≡ some acme_subscription =
      free 11 0 refl in
    let status : SubscriptionStatus.canceled ≡ SubscriptionStatus.active =
      ap (λ (x : Subscription). x.status) (some-injective same) in
    cc
