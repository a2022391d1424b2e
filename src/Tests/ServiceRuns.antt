-- ===== src/Tests/ServiceRuns.antt =====
-- Deliveries of Stripe's events among usage requests.
use flyrank_backend_capstone.Prelude.{
  ap, ℕ, ◌≡◌, ◌≢◌, ◌==◌, ◌⊎◌, inl, inr, refl, none, some, Bool-cases, string_dec,
}
use flyrank_backend_capstone.Clock.{add_timedelta}
use flyrank_backend_capstone.Store.Schema.{
  apply_changes, apply_change, insert_processed_webhook, insert_subscription,
}
use flyrank_backend_capstone.Store.Database.{
  contract-IsLawful, contract, view_select, view_add, view_flush, view_commit, view_rollback,
}
use flyrank_backend_capstone.Store.Action.{
  returned, ◌>>=◌, try_except, query, add, flush, commit, rollback, draw, pure,
}
use flyrank_backend_capstone.Webhooks.{
  subscription_created, duplicate_ignored, handle_event, handle_checkout_completed, price_id,
  plan_type_of, mark_processed_or_skip, apply_event, already_processed, dispatch,
  get_tenant_by_customer_id, get_plan_by_stripe_price,
}
use flyrank_backend_capstone.Webhooks.Delivery.{IsProcessed}
use flyrank_backend_capstone.Sessions.{idle, lock_of}
use flyrank_backend_capstone.Service.{
  waiting, received, answered, deliver, holds, Service, replace_delivery, IsKeyFree, IsRowFree,
  deliver_in, receives, delivers, Serves, here, next,
}
use flyrank_backend_capstone.Service.Once.{delivered_once}
use flyrank_backend_capstone.Service.Alone.{Serves-handle_event}
use flyrank_backend_capstone.Tests.WebhookRuns.{checkout}
use flyrank_backend_capstone.Tests.Samples.{env, tables, session}

abbrev quiet : Service
quiet = record { usage = record { stored = tables; phases = λ j. idle }; deliveries = λ j. waiting }

abbrev both_received : Service
both_received = record quiet {
  deliveries =
      replace_delivery (replace_delivery quiet.deliveries 0 (received checkout)) 1
        (received checkout);
}

-- The session 0 has flushed the id, and then committed it.
abbrev one_flushed : Service
one_flushed = deliver_in env 0 0 both_received

abbrev one_answered : Service
one_answered = deliver_in env 1 0 one_flushed

abbrev both_answered : Service
both_answered = deliver_in env 2 1 one_answered

nothing_held-IsKeyFree :
    (w : Service) (i : ℕ) → ((j : ℕ) → holds (w.deliveries j) ≡ none) → IsKeyFree w i
nothing_held-IsKeyFree w i h event at j e = cc (h j)

idle-IsRowFree : (n i : ℕ) (w : Service) → ((j : ℕ) → w.usage.phases j ≡ idle) → IsRowFree env n i w
unfolding lock_of
idle-IsRowFree n i w h id j busy = cc (ap lock_of (h j), busy)

received-held : (j : ℕ) → holds (both_received.deliveries j) ≡ none
unfolding holds
received-held j = elim (Bool-cases (j == 1)) [
  | inl e ↦ rw e refl
  | inr e ↦ rw e (elim (Bool-cases (j == 0)) [ inl at ↦ rw at refl | inr at ↦ rw at refl ])
]

-- The session 1 has to wait for the session 0.
waits : ¬ (IsKeyFree one_flushed 1)
unfolding holds deliver mark_processed_or_skip ◌>>=◌ try_except draw add flush pure view_add
    view_flush apply_changes apply_change insert_processed_webhook string_dec
waits free = free checkout refl 0 refl

answered-held : (j : ℕ) → holds (one_answered.deliveries j) ≡ none
unfolding holds deliver mark_processed_or_skip apply_event dispatch handle_checkout_completed
    get_tenant_by_customer_id get_plan_by_stripe_price price_id plan_type_of add_timedelta ◌>>=◌
    try_except draw add flush commit query pure view_select view_add view_flush view_commit
    apply_changes apply_change insert_processed_webhook insert_subscription string_dec
answered-held j = elim (Bool-cases (j == 0)) [
  | inl e ↦ rw e refl
  | inr e ↦ rw e (elim (Bool-cases (j == 1)) [ inl at ↦ rw at refl | inr at ↦ rw at refl ])
]

flushed-IsKeyFree : IsKeyFree one_flushed 0
unfolding deliver mark_processed_or_skip ◌>>=◌ try_except draw add flush pure view_add view_flush
    apply_changes apply_change insert_processed_webhook string_dec
flushed-IsKeyFree event at j = cc

both_steps : Serves quiet both_answered
both_steps = next (receives 0 checkout refl) (
    next (receives 1 checkout refl) (
      next
        (delivers env 0 0 (nothing_held-IsKeyFree both_received 0 received-held)
          (idle-IsRowFree 0 0 both_received (λ j. refl)))
        (next (delivers env 1 0 flushed-IsKeyFree (idle-IsRowFree 1 0 one_flushed (λ j. refl))) (
          next
            (delivers env 2 1 (nothing_held-IsKeyFree one_answered 1 answered-held)
              (idle-IsRowFree 2 1 one_answered (λ j. refl)))
            here))))

first_answer : both_answered.deliveries 0 ≡ answered checkout (returned (subscription_created 8))
unfolding deliver mark_processed_or_skip apply_event dispatch handle_checkout_completed
    get_tenant_by_customer_id get_plan_by_stripe_price price_id plan_type_of add_timedelta ◌>>=◌
    try_except draw add flush commit query pure view_select view_add view_flush view_commit
    apply_changes apply_change insert_processed_webhook insert_subscription string_dec
first_answer = refl

second_answer :
    both_answered.deliveries 1 ≡ answered checkout (returned (duplicate_ignored "evt_1"))
unfolding deliver mark_processed_or_skip already_processed apply_event dispatch
    handle_checkout_completed get_tenant_by_customer_id get_plan_by_stripe_price price_id
    plan_type_of add_timedelta ◌>>=◌ try_except draw add flush commit query pure rollback
    view_select view_add view_flush view_commit view_rollback apply_changes apply_change
    insert_processed_webhook insert_subscription string_dec
second_answer = refl

delivered_once_example :
    ((subscription_created 8 ≡ duplicate_ignored "evt_1")
      ⊎ (duplicate_ignored "evt_1" ≡ duplicate_ignored "evt_1"))
    × IsProcessed "evt_1" both_answered.usage.stored
delivered_once_example =
    delivered_once both_steps (λ i. refl) 0 1 checkout checkout (subscription_created 8)
      (duplicate_ignored "evt_1") (λ e. cc) first_answer second_answer refl

abbrev one_received : Service
one_received = record quiet { deliveries = replace_delivery quiet.deliveries 0 (received checkout) }

one_received-held : (j : ℕ) → holds (one_received.deliveries j) ≢ some "evt_1"
unfolding holds
one_received-held j = elim (Bool-cases (j == 0)) [
  | inl at ↦ rw at (λ h. cc)
  | inr at ↦ rw at (λ h. cc)
]

idle-ne_busy : (id : ℕ) → lock_of idle ≢ some id
unfolding lock_of
idle-ne_busy id = λ h. cc

Serves-handle_event_example :
    let (o, after) = handle_event env contract checkout (session tables) in
    (v : Service) × Serves one_received v
    × (v.deliveries 0 ≡ answered checkout o)
    × (v.usage.stored ≡ after.session.stored)
Serves-handle_event_example =
    Serves-handle_event env contract-IsLawful checkout one_received 0 (session tables) refl refl
      one_received-held (λ id j busy. absurd (idle-ne_busy id busy))
