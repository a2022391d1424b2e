-- ===== src/Store/Schema.antt =====
-- The tables of app/models/models.py and alembic/versions/0001_initial_schema.py, and what their
-- PRIMARY KEY, UNIQUE, FOREIGN KEY and column types ask of each change. Every CHECK (`>= 0`) holds
-- by the rows' types.
use Prim.Native.String.{count}
use flyrank_backend_capstone.Prelude.{
  ℕ, String, Bool, true, false, ◌&&◌, ◌||◌, not, Option, none, some, List, [], ◌∷◌, map, ltb, leb,
  ◌==◌, if◌then◌else◌, same_text, find,
}
use flyrank_backend_capstone.Models.{
  Tenant, Plan, Subscription, UsageEvent, IdempotencyRecord, ProcessedWebhook,
}

pub record Tables : Type 0 where
  pub tenants : List Tenant
  pub plans : List Plan
  pub subscriptions : List Subscription
  pub usage_events : List UsageEvent
  pub idempotency_records : List IdempotencyRecord
  pub processed_webhooks : List ProcessedWebhook

-- What a session sends to the database: new rows, and rows whose attributes were assigned.
pub data Change : Type 0 where
  new_tenant : Tenant → Change
  new_subscription : Subscription → Change
  new_usage_event : UsageEvent → Change
  new_idempotency_record : IdempotencyRecord → Change
  new_processed_webhook : ProcessedWebhook → Change
  set_tenant : Tenant → Change
  set_subscription : Subscription → Change

-- `integrity_error` is a violated constraint, `data_error` a value that its column cannot hold,
-- `pending_rollback_error` the use of a session whose flush failed before it was rolled back.
pub data DbError : Type 0 where
  integrity_error data_error pending_rollback_error : DbError

pub data Applied : Type 0 where
  applied : Tables → Applied
  refused : DbError → Applied

-- The value fits a signed 32-bit (`Integer`) or 64-bit (`BigInteger`) column.
abbrev pub fits_integer : ℕ → Bool
fits_integer n = ltb n 2147483648

abbrev pub fits_big_integer : ℕ → Bool
fits_big_integer n = ltb n 9223372036854775808

-- The text fits a `String(n)` column, by its characters; NULL fits a nullable one. (PostgreSQL
-- would cut off spaces beyond the n-th character; here they do not fit.)
abbrev pub fits_text : ℕ → String → Bool
fits_text n text = leb (count text) n

abbrev pub fits_nullable : ℕ → Option String → Bool
fits_nullable n none = true
fits_nullable n (some text) = fits_text n text

abbrev pub is_some {ℓ} : {A : Type ℓ} → Option A → Bool
is_some none = false
is_some (some a) = true

-- `await db.get(Model, key)`, and the selects by a unique column.
abbrev pub get_tenant : ℕ → Tables → Option Tenant
get_tenant k t = find (λ r. r.id == k) t.tenants

abbrev pub get_plan : ℕ → Tables → Option Plan
get_plan k t = find (λ r. r.id == k) t.plans

abbrev pub get_idempotency_record : String → Tables → Option IdempotencyRecord
get_idempotency_record k t = find (λ r. same_text r.idempotency_key k) t.idempotency_records

abbrev pub get_processed_webhook : String → Tables → Option ProcessedWebhook
get_processed_webhook k t = find (λ r. same_text r.event_id k) t.processed_webhooks

abbrev pub usage_event_with_key : String → Tables → Option UsageEvent
usage_event_with_key k t = find (λ r. same_text r.idempotency_key k) t.usage_events

abbrev pub usage_event_with_id : ℕ → Tables → Option UsageEvent
usage_event_with_id k t = find (λ r. r.id == k) t.usage_events

abbrev pub subscription_with_id : ℕ → Tables → Option Subscription
subscription_with_id k t = find (λ r. r.id == k) t.subscriptions

-- Two values of a nullable unique column clash if both are there and equal: NULLs never do.
abbrev pub clashes : Option String → Option String → Bool
clashes (some a) (some b) = same_text a b
clashes _ _ = false

abbrev pub tenant_with_customer_id : Option String → Tables → Option Tenant
tenant_with_customer_id k t = find (λ r. clashes r.stripe_customer_id k) t.tenants

abbrev pub subscription_with_stripe_id : Option String → Tables → Option Subscription
subscription_with_stripe_id k t = find (λ r. clashes r.stripe_subscription_id k) t.subscriptions

-- `column == value` in a WHERE clause: against Python's None it is `IS NULL`.
abbrev pub column_eq : Option String → Option String → Bool
column_eq column none = not (is_some column)
column_eq column (some value) = clashes column (some value)

-- `usage_events`: the widths of the columns of numbers, and the length of the key.
abbrev pub fits_usage_event : UsageEvent → Bool
fits_usage_event e =
    fits_big_integer e.input_tokens
    && (fits_big_integer e.cached_input_tokens
        && (fits_big_integer e.output_tokens
            && (fits_big_integer e.reasoning_tokens
                && (fits_big_integer e.total_quantity
                    && (fits_integer e.cost_cents && fits_text 255 e.idempotency_key)))))

-- The row's two keys are new, and its tenant is there.
abbrev pub fits_keys : UsageEvent → Tables → Bool
fits_keys e t =
    not (is_some (usage_event_with_id e.id t))
    && (not (is_some (usage_event_with_key e.idempotency_key t))
        && is_some (get_tenant e.tenant_id t))

unfoldable pub insert_usage_event : UsageEvent → Tables → Applied
insert_usage_event e t =
    if not (fits_usage_event e)
    then refused data_error
    else if not (fits_keys e t)
    then refused integrity_error
    else applied (record t { usage_events = e ∷ t.usage_events })

unfoldable pub insert_idempotency_record : IdempotencyRecord → Tables → Applied
insert_idempotency_record r t =
    if not (fits_text 255 r.idempotency_key)
    then refused data_error
    else if is_some (get_idempotency_record r.idempotency_key t)
        || not (is_some (get_tenant r.tenant_id t))
    then refused integrity_error
    else applied (record t { idempotency_records = r ∷ t.idempotency_records })

unfoldable pub insert_processed_webhook : ProcessedWebhook → Tables → Applied
insert_processed_webhook w t =
    if not (fits_text 255 w.event_id && fits_text 100 w.event_type)
    then refused data_error
    else if is_some (get_processed_webhook w.event_id t)
    then refused integrity_error
    else applied (record t { processed_webhooks = w ∷ t.processed_webhooks })

unfoldable pub insert_tenant : Tenant → Tables → Applied
insert_tenant r t =
    if not (fits_text 255 r.name && fits_nullable 255 r.stripe_customer_id)
    then refused data_error
    else if is_some (get_tenant r.id t) || is_some (tenant_with_customer_id r.stripe_customer_id t)
    then refused integrity_error
    else applied (record t { tenants = r ∷ t.tenants })

unfoldable pub insert_subscription : Subscription → Tables → Applied
insert_subscription r t =
    if not (fits_nullable 255 r.stripe_subscription_id)
    then refused data_error
    else if is_some (subscription_with_id r.id t)
        || (is_some (subscription_with_stripe_id r.stripe_subscription_id t)
            || (not (is_some (get_tenant r.tenant_id t)) || not (is_some (get_plan r.plan_id t))))
    then refused integrity_error
    else applied (record t { subscriptions = r ∷ t.subscriptions })

-- An UPDATE of the row with that primary key. The program assigns no key column.
abbrev pub put_tenant : Tenant → List Tenant → List Tenant
put_tenant r = map (λ x. if x.id == r.id then r else x)

abbrev pub put_subscription : Subscription → List Subscription → List Subscription
put_subscription r = map (λ x. if x.id == r.id then r else x)

unfoldable pub apply_change : Change → Tables → Applied
apply_change (new_tenant r) t = insert_tenant r t
apply_change (new_subscription r) t = insert_subscription r t
apply_change (new_usage_event e) t = insert_usage_event e t
apply_change (new_idempotency_record r) t = insert_idempotency_record r t
apply_change (new_processed_webhook w) t = insert_processed_webhook w t
apply_change (set_tenant r) t = applied (record t { tenants = put_tenant r t.tenants })
apply_change (set_subscription r) t =
    applied (record t { subscriptions = put_subscription r t.subscriptions })

-- The changes in their order; the first refusal ends the batch.
abbrev pub and_then : Applied → (Tables → Applied) → Applied
and_then (applied t) k = k t
and_then (refused e) k = refused e

unfoldable pub apply_changes : List Change → Tables → Applied
unfolding apply_change
apply_changes [] t = applied t
apply_changes (c ∷ cs) t = and_then (apply_change c t) (λ u. apply_changes cs u)
