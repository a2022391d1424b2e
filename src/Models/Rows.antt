-- ===== src/Models/Rows.antt =====
-- The rows of the tables in app/models/models.py. A UUID and an integer key are only compared, so
-- both are numbers; an instant is the number of microseconds since 0001-01-01 00:00 UTC, the
-- smallest value of Python's `datetime`.
use flyrank_backend_capstone.Prelude.{ℕ, String, Option}
use flyrank_backend_capstone.Models.Enums.{PlanType, TenantStatus, SubscriptionStatus, EventType}

pub record Tenant : Type 0 where
  pub id : ℕ
  pub name : String
  pub plan_type : PlanType
  pub stripe_customer_id : Option String
  pub status : TenantStatus
  pub created_at : ℕ

pub record Plan : Type 0 where
  pub id : ℕ
  pub name : String
  pub api_call_limit : ℕ
  pub token_limit : ℕ
  pub price_cents : ℕ

pub record Subscription : Type 0 where
  pub id : ℕ
  pub tenant_id : ℕ
  pub stripe_subscription_id : Option String
  pub plan_id : ℕ
  pub status : SubscriptionStatus
  pub current_period_start : ℕ
  pub current_period_end : ℕ

pub record UsageEvent : Type 0 where
  pub id : ℕ
  pub tenant_id : ℕ
  pub event_type : EventType
  pub input_tokens : ℕ
  pub cached_input_tokens : ℕ
  pub output_tokens : ℕ
  pub reasoning_tokens : ℕ
  pub total_quantity : ℕ
  pub cost_cents : ℕ
  pub idempotency_key : String
  pub timestamp : ℕ

-- The response body that `record_usage` of app/services/metering.py builds and stores.
pub record UsageBody : Type 0 where
  pub id : ℕ
  pub tenant_id : ℕ
  pub event_type : EventType
  pub total_quantity : ℕ
  pub cost_cents : ℕ
  pub plan_name : String
  pub idempotency_key : String

-- A JSON body: the one above, or the error envelope of an idempotency conflict.
pub data Body : Type 0 where
  usage : UsageBody → Body
  idempotency_conflict : Body

pub record IdempotencyRecord : Type 0 where
  pub idempotency_key : String
  pub tenant_id : ℕ
  pub status_code : ℕ
  pub response_body : Body
  pub created_at : ℕ

pub record ProcessedWebhook : Type 0 where
  pub event_id : String
  pub event_type : String
  pub processed_at : ℕ
