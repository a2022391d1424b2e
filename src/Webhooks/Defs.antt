-- ===== src/Webhooks/Defs.antt =====
-- The methods of `StripeWebhookHandler`.
use flyrank_backend_capstone.Prelude.{
  ℕ, ◌+◌, ◌*◌, String, Bool, true, false, ◌||◌, Option, none, some, List, [], ◌∷◌, ltb,
  if◌then◌else◌, same_text,
}
use flyrank_backend_capstone.Models.{PlanType, Tenant, Plan, Subscription, SubscriptionStatus}
use flyrank_backend_capstone.Clock.{
  max_instant, microseconds_per_second, thirty_days, add_timedelta,
}
use flyrank_backend_capstone.Store.Schema.{
  new_subscription, new_processed_webhook, set_tenant, set_subscription, integrity_error,
  get_tenant, column_eq,
}
use flyrank_backend_capstone.Store.Database.{Database}
use flyrank_backend_capstone.Store.Action.{
  Env, Exception, db_error, overflow_error, value_error, index_error, key_error, attribute_error,
  type_error, lookup_error, Action, pure, raise, draw, if_none, ◌>>=◌, ◌>>◌, try_except, query, add,
  flush, commit, rollback,
}
use flyrank_backend_capstone.Store.Scalar.{scalar_one, or_raise_many}
use flyrank_backend_capstone.Webhooks.Events.{
  Field, missing, null, value, StripeObject, Event, get, Reply, duplicate_ignored,
  ignored_unhandled_type, no_matching_tenant, no_matching_subscription, no_matching_plan,
  subscription_created, subscription_updated, subscription_canceled,
}

-- `_ACTIVE_STRIPE_STATUSES` and `_TERMINAL_STRIPE_STATUSES`
abbrev pub is_active_stripe_status : String → Bool
is_active_stripe_status s = same_text s "active" || same_text s "trialing"

abbrev pub is_terminal_stripe_status : String → Bool
is_terminal_stripe_status s =
    same_text s "canceled" || (same_text s "unpaid" || same_text s "incomplete_expired")

-- The chain of tests on `stripe_status`; a null or missing status is in none of the sets.
unfoldable pub next_status : Option String → SubscriptionStatus → SubscriptionStatus
next_status none old = old
next_status (some s) old =
    if is_active_stripe_status s
    then SubscriptionStatus.active
    else if same_text s "past_due"
    then SubscriptionStatus.past_due
    else if is_terminal_stripe_status s
    then SubscriptionStatus.canceled
    else old

-- 1970-01-01 00:00 UTC.
abbrev pub posix_epoch : ℕ
posix_epoch = 62135596800000000

-- `datetime.fromtimestamp(seconds, tz=timezone.utc)`, where it is in the range of `datetime`.
unfoldable pub from_timestamp : ℕ → Option ℕ
from_timestamp seconds =
    let instant = posix_epoch + seconds * microseconds_per_second in
    if ltb max_instant instant then none else some instant

-- `PlanType(name)`, as the Enum column takes the text.
unfoldable pub plan_type_of : String → Option PlanType
plan_type_of name =
    if same_text name "free"
    then some PlanType.free
    else if same_text name "pro"
    then some PlanType.pro
    else none

module _ {S A B : Type 0} where
  -- What `.get` or `[…]` on a key continues with, by what stands at the key.
  abbrev pub at_key : Field A → Action S B → Action S B → (A → Action S B) → Action S B
  at_key missing absent none_value f = absent
  at_key null absent none_value f = none_value
  at_key (value a) absent none_value f = f a

  -- `[0]` of a list.
  abbrev pub at_head : List A → (A → Action S B) → Action S B
  at_head [] f = raise index_error
  at_head (a ∷ as_) f = f a

module _ {S : Type 0} where
  -- obj.get("line_items", {}).get("data", [{}])[0].get("price", {}).get("id", "")
  unfoldable pub price_id : StripeObject → Action S (Option String)
  price_id object = at_key object.line_items (pure (some "")) (raise attribute_error) λ line_items.
      at_key line_items.items (pure (some "")) (raise type_error) λ items. at_head items λ item.
        at_key item.price (pure (some "")) (raise attribute_error)
          λ price. at_key price.id (pure (some "")) (pure none) λ id. pure (some id)

  -- `obj["id"]`
  unfoldable pub required : Field String → Action S (Option String)
  required id = at_key id (raise key_error) (pure none) λ text. pure (some text)

  -- `if seconds is not None: … = datetime.fromtimestamp(…)`; a year past 9999 is a ValueError.
  unfoldable pub synced : Field ℕ → ℕ → Action S ℕ
  synced seconds old =
      at_key seconds (pure old) (pure old) λ n. if_none (from_timestamp n) (raise value_error) pure

module _ (D : Database) where
  unfoldable pub get_tenant_by_customer_id : Option String → Action D.Session (Option Tenant)
  get_tenant_by_customer_id customer = do
    rows ← query D (λ t. scalar_one (λ r. column_eq r.stripe_customer_id customer) t.tenants)
    or_raise_many rows

  -- The price is not used: every price stands for the plan named "pro".
  unfoldable pub get_plan_by_stripe_price : Option String → Action D.Session (Option Plan)
  get_plan_by_stripe_price price = do
    rows ← query D (λ t. scalar_one (λ r. same_text r.name "pro") t.plans)
    or_raise_many rows

  unfoldable pub get_subscription_by_stripe_id :
      Option String → Action D.Session (Option Subscription)
  get_subscription_by_stripe_id id = do
    rows ← query D (λ t. scalar_one (λ r. column_eq r.stripe_subscription_id id) t.subscriptions)
    or_raise_many rows

  -- The `except IntegrityError` of `_mark_processed_or_skip`.
  unfoldable pub already_processed : Exception → Action D.Session Bool
  already_processed (db_error integrity_error) = rollback D >> pure false
  already_processed e = raise e

  unfoldable pub handle_subscription_updated : Event → Action D.Session Reply
  unfolding get_subscription_by_stripe_id
  handle_subscription_updated event = do
    stripe_subscription_id ← required event.object.id
    found ← get_subscription_by_stripe_id stripe_subscription_id
    if_none found (pure (no_matching_subscription stripe_subscription_id)) λ subscription. do
      start ← synced event.object.current_period_start subscription.current_period_start
      end ← synced event.object.current_period_end subscription.current_period_end
      add D (
          set_subscription (record subscription {
            status = next_status (get event.object.status) subscription.status;
            current_period_start = start;
            current_period_end = end;
          }))
      pure (subscription_updated subscription.id)

  unfoldable pub handle_subscription_deleted : Event → Action D.Session Reply
  unfolding get_subscription_by_stripe_id
  handle_subscription_deleted event = do
    stripe_subscription_id ← required event.object.id
    found ← get_subscription_by_stripe_id stripe_subscription_id
    if_none found (pure (no_matching_subscription stripe_subscription_id)) λ subscription. do
      add D (set_subscription (record subscription { status = SubscriptionStatus.canceled }))
      owner ← query D (get_tenant subscription.tenant_id)
      if_none owner (pure (subscription_canceled subscription.id)) λ tenant. do
        add D (set_tenant (record tenant { plan_type = PlanType.free }))
        pure (subscription_canceled subscription.id)

module _ (E : Env) (D : Database) where
  unfoldable pub mark_processed_or_skip : String → String → Action D.Session Bool
  unfolding already_processed
  mark_processed_or_skip event_id event_type =
      try_except
        (do
          processed_at ← draw E.now
          add D (
              new_processed_webhook (record {
                event_id = event_id;
                event_type = event_type;
                processed_at = processed_at;
              }))
          flush D
          pure true)
        (already_processed D)

  unfoldable pub handle_checkout_completed : Event → Action D.Session Reply
  unfolding get_tenant_by_customer_id get_plan_by_stripe_price add_timedelta
  handle_checkout_completed event = do
    owner ← get_tenant_by_customer_id D (get event.object.customer)
    if_none owner (pure (no_matching_tenant (get event.object.customer))) λ tenant. do
      price ← price_id event.object
      found ← get_plan_by_stripe_price D price
      if_none found (pure no_matching_plan) λ plan. do
        now ← draw E.now
        if_none (add_timedelta now thirty_days) (raise overflow_error) λ period_end. do
          id ← draw E.serial
          add D (
              new_subscription (record {
                id = id;
                tenant_id = tenant.id;
                stripe_subscription_id = get event.object.subscription;
                plan_id = plan.id;
                status = SubscriptionStatus.active;
                current_period_start = now;
                current_period_end = period_end;
              }))
          if_none (plan_type_of plan.name) (raise lookup_error) λ plan_type. do
            add D (set_tenant (record tenant { plan_type = plan_type }))
            pure (subscription_created tenant.id)

  -- `_DISPATCH`: the handler of the type, or none.
  unfoldable pub dispatch : Event → Option (Action D.Session Reply)
  dispatch event =
      if same_text event.type "checkout.session.completed"
      then some (handle_checkout_completed event)
      else if same_text event.type "customer.subscription.updated"
      then some (handle_subscription_updated D event)
      else if same_text event.type "customer.subscription.deleted"
      then some (handle_subscription_deleted D event)
      else none

  -- What follows once the event is new.
  unfoldable pub apply_event : Event → Action D.Session Reply
  unfolding dispatch
  apply_event event =
      if_none (dispatch event) (commit D >> pure (ignored_unhandled_type event.type))
        λ handler. do result ← handler; commit D; pure result

  unfoldable pub handle_event : Event → Action D.Session Reply
  unfolding mark_processed_or_skip apply_event
  handle_event event = do
    is_new ← mark_processed_or_skip event.id event.type
    if is_new then apply_event event else pure (duplicate_ignored event.id)
