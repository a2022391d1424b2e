-- ===== src/Tests/LimitRuns.antt =====
-- A checkout of another tenant is delivered while a request holds the lock, and the request is then written.
use flyrank_backend_capstone.Prelude.{
  arith, ℕ, ◌≡◌, ◌==◌, inl, inr, refl, none, some, Bool-cases, string_dec, some-injective,
}
use flyrank_backend_capstone.Clock.{as_aware_utc, add_timedelta}
use flyrank_backend_capstone.Store.Schema.{
  apply_changes, apply_change, insert_processed_webhook, insert_subscription,
}
use flyrank_backend_capstone.Store.Database.{view_select, view_add, view_flush, view_commit}
use flyrank_backend_capstone.Store.Action.{
  ◌>>=◌, try_except, query, add, flush, commit, draw, pure, raise,
}
use flyrank_backend_capstone.Quota.{
  get_locked_active_subscription, check_subscription, latest_active, later_of, sum_period_usage,
  usage_row,
}
use flyrank_backend_capstone.Metering.{get_stored_response, requested_quantity}
use flyrank_backend_capstone.Metering.Limits.{IsWithin}
use flyrank_backend_capstone.Webhooks.{
  handle_checkout_completed, price_id, plan_type_of, mark_processed_or_skip, apply_event, dispatch,
  get_tenant_by_customer_id, get_plan_by_stripe_price,
}
use flyrank_backend_capstone.Sessions.{
  idle, asked, replace, proceed_in, proceed, lock_of, wanted, IsFree, arrives, proceeds,
}
use flyrank_backend_capstone.Service.{
  waiting, received, deliver, holds, Service, replace_delivery, IsKeyFree, IsRowFree, deliver_in,
  ServiceStep, requests, receives, delivers, Serves, here, next,
}
use flyrank_backend_capstone.Service.Limits.{StaysSelected, IsSteady, Serves-IsWithin}
use flyrank_backend_capstone.Tests.MeteringRuns.{tables-IsWithin}
use flyrank_backend_capstone.Tests.SessionRuns.{job, wants_none-IsFree}
use flyrank_backend_capstone.Tests.WebhookRuns.{checkout}
use flyrank_backend_capstone.Tests.Samples.{env, tables, acme_subscription}

abbrev quiet : Service
quiet = record { usage = record { stored = tables; phases = λ j. idle }; deliveries = λ j. waiting }

abbrev arrived : Service
arrived = record quiet {
  usage = record quiet.usage { phases = replace quiet.usage.phases 0 (asked (job "k1")) };
}

abbrev step_of : ℕ → Service → Service
step_of n w = record w { usage = proceed_in env n 0 w.usage }

-- The request holds the lock.
abbrev one_locked : Service
one_locked = step_of 0 (step_of 0 arrived)

abbrev one_received : Service
one_received = record one_locked {
  deliveries = replace_delivery one_locked.deliveries 0 (received checkout);
}

abbrev one_answered : Service
one_answered = deliver_in env 1 0 (deliver_in env 0 0 one_received)

abbrev one_written : Service
one_written = step_of 1 (step_of 0 one_answered)

looked_up-IsFree : IsFree (step_of 0 arrived).usage 0
unfolding lock_of proceed get_stored_response query view_select string_dec
looked_up-IsFree id wants j = elim (Bool-cases (j == 0)) [
  | inl e ↦ rw e (λ h. cc)
  | inr e ↦ rw e (λ h. cc)
]

received-IsKeyFree : IsKeyFree one_received 0
unfolding holds
received-IsKeyFree event at j = elim (Bool-cases (j == 0)) [
  | inl e ↦ rw e (λ h. cc)
  | inr e ↦ rw e (λ h. cc)
]

flushed-IsKeyFree : IsKeyFree (deliver_in env 0 0 one_received) 0
unfolding deliver mark_processed_or_skip ◌>>=◌ try_except draw add flush pure view_add view_flush
    apply_changes apply_change insert_processed_webhook proceed get_stored_response
    get_locked_active_subscription latest_active query view_select string_dec
flushed-IsKeyFree event at j = cc

received-IsRowFree : IsRowFree env 0 0 one_received
unfolding deliver mark_processed_or_skip ◌>>=◌ try_except draw add flush pure view_add view_flush
    apply_changes apply_change insert_processed_webhook proceed get_stored_response
    get_locked_active_subscription latest_active query view_select string_dec
received-IsRowFree id j busy = refl

-- The checkout adds a row for the other tenant, and leaves the row that is locked.
flushed-IsRowFree : IsRowFree env 1 0 (deliver_in env 0 0 one_received)
unfolding lock_of deliver mark_processed_or_skip ◌>>=◌ try_except draw add flush pure view_add
    view_flush apply_changes apply_change insert_processed_webhook apply_event dispatch
    handle_checkout_completed get_tenant_by_customer_id get_plan_by_stripe_price price_id
    plan_type_of add_timedelta commit view_commit insert_subscription proceed get_stored_response
    get_locked_active_subscription latest_active query view_select string_dec
flushed-IsRowFree id j = elim (Bool-cases (j == 0)) [
  | inl e ↦ rw e (λ h. let row : 11 ≡ id = some-injective h in rw⁻¹ row refl)
  | inr e ↦ rw e (λ h. cc)
]

arrived-IsFree : IsFree arrived.usage 0
unfolding wanted
arrived-IsFree = wants_none-IsFree arrived.usage 0 refl

answered-IsFree : IsFree one_answered.usage 0
unfolding wanted proceed get_stored_response get_locked_active_subscription latest_active query
    view_select string_dec
answered-IsFree = wants_none-IsFree one_answered.usage 0 refl

checked-IsFree : IsFree (step_of 0 one_answered).usage 0
unfolding wanted deliver mark_processed_or_skip ◌>>=◌ try_except draw add flush pure view_add
    view_flush apply_changes apply_change insert_processed_webhook apply_event dispatch
    handle_checkout_completed get_tenant_by_customer_id get_plan_by_stripe_price price_id
    plan_type_of add_timedelta commit view_commit insert_subscription proceed get_stored_response
    get_locked_active_subscription latest_active query view_select string_dec check_subscription
    as_aware_utc sum_period_usage usage_row requested_quantity raise
checked-IsFree = wants_none-IsFree (step_of 0 one_answered).usage 0 refl

flush-StaysSelected :
    StaysSelected one_received.usage.stored (deliver_in env 0 0 one_received).usage.stored
unfolding deliver mark_processed_or_skip ◌>>=◌ try_except draw add flush pure view_add view_flush
    apply_changes apply_change insert_processed_webhook proceed get_stored_response
    get_locked_active_subscription latest_active query view_select string_dec
flush-StaysSelected id s h = h

answer-StaysSelected :
    StaysSelected (deliver_in env 0 0 one_received).usage.stored one_answered.usage.stored
unfolding later_of deliver mark_processed_or_skip ◌>>=◌ try_except draw add flush pure view_add
    view_flush apply_changes apply_change insert_processed_webhook apply_event dispatch
    handle_checkout_completed get_tenant_by_customer_id get_plan_by_stripe_price price_id
    plan_type_of add_timedelta commit view_commit insert_subscription proceed get_stored_response
    get_locked_active_subscription latest_active query view_select string_dec
answer-StaysSelected id s h = ground arith

abbrev flush_step : ServiceStep one_received (deliver_in env 0 0 one_received)
flush_step = delivers env 0 0 received-IsKeyFree received-IsRowFree

abbrev answer_step : ServiceStep (deliver_in env 0 0 one_received) one_answered
answer_step = delivers env 1 0 flushed-IsKeyFree flushed-IsRowFree

abbrev steps : Serves quiet one_written
steps = next (requests arrived.usage (arrives 0 (job "k1") refl)) (
    next (requests (step_of 0 arrived).usage (proceeds env 0 0 arrived-IsFree)) (
      next (requests one_locked.usage (proceeds env 0 0 looked_up-IsFree)) (
        next (receives 0 checkout refl) (
          next flush_step (
            next answer_step (
              next (requests (step_of 0 one_answered).usage (proceeds env 0 0 answered-IsFree))
                (next (requests one_written.usage (proceeds env 1 0 checked-IsFree)) here)))))))

steps-IsSteady : IsSteady steps
unfolding IsSteady
steps-IsSteady =
    (tt, (tt, (tt, (tt, (flush-StaysSelected, (answer-StaysSelected, (tt, (tt, tt))))))))

quiet_unlocked : (i : ℕ) → lock_of (quiet.usage.phases i) ≡ none
unfolding lock_of
quiet_unlocked i = refl

selected : latest_active 7 tables.subscriptions ≡ some acme_subscription
unfolding latest_active
selected = refl

Serves-IsWithin_example :
    IsWithin 7 one_written.usage.stored
    × (latest_active 7 one_written.usage.stored.subscriptions ≡ some acme_subscription)
Serves-IsWithin_example =
    Serves-IsWithin 7 acme_subscription steps steps-IsSteady quiet_unlocked selected tables-IsWithin
