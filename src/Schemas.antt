-- ===== src/Schemas.antt =====
-- The payloads of app/schemas/schemas.py, and the errors that the routers answer with. A detail's
-- message is left out.
use flyrank_backend_capstone.Prelude.{
  ℕ, String, Option, Bool, true, false, not, ◌&&◌, ◌==◌, if◌then◌else◌,
}
use flyrank_backend_capstone.Prelude.Int.{ℤ, pos, negsuc, is_negative}
use flyrank_backend_capstone.Models.{
  EventType, PlanType, TenantStatus, UsageEvent, Plan, is_api_call, event_type_value,
}

pub data ErrorCode : Type 0 where
  quota_exceeded payment_required validation_error idempotency_conflict not_found : ErrorCode
  webhook_signature_invalid : ErrorCode

pub record ErrorDetail : Type 0 where
  pub code : ErrorCode
  pub limit : Option ℕ
  pub used : Option ℕ
  pub requested : Option ℕ
  pub retry_after_seconds : Option ℕ

-- The declared envelope of an error.
pub record ErrorResponse : Type 0 where
  pub error : ErrorDetail

-- `HTTPException`; `retry_after` is the header of a 429.
pub record HttpException : Type 0 where
  pub status_code : ℕ
  pub detail : ErrorDetail
  pub retry_after : Option ℕ

pub record UsageEventCreate : Type 0 where
  pub tenant_id : ℕ
  pub event_type : EventType
  pub input_tokens : ℤ
  pub cached_input_tokens : ℤ
  pub output_tokens : ℤ
  pub reasoning_tokens : ℤ

abbrev is_zero : ℤ → Bool
is_zero (pos n) = n == 0
is_zero (negsuc n) = false

-- The fields' `ge=0`, then `validate_token_fields`.
unfoldable pub is_accepted : UsageEventCreate → Bool
is_accepted p =
    not (is_negative p.input_tokens)
    && (not (is_negative p.cached_input_tokens)
        && (not (is_negative p.output_tokens)
            && (not (is_negative p.reasoning_tokens)
                && (if is_api_call p.event_type
                    then is_zero p.input_tokens
                      && (is_zero p.cached_input_tokens
                          && (is_zero p.output_tokens && is_zero p.reasoning_tokens))
                    else true))))

-- What no endpoint answers with: an event, read from its row. `EventType` is a `str`, so its value is
-- what `event_type: str` holds.
pub record UsageEventResponse : Type 0 where
  pub id : ℕ
  pub tenant_id : ℕ
  pub event_type : String
  pub total_quantity : ℕ
  pub cost_cents : ℕ
  pub idempotency_key : String
  pub timestamp : ℕ

abbrev pub usage_event_response : UsageEvent → UsageEventResponse
usage_event_response e = record {
  id = e.id;
  tenant_id = e.tenant_id;
  event_type = event_type_value e.event_type;
  total_quantity = e.total_quantity;
  cost_cents = e.cost_cents;
  idempotency_key = e.idempotency_key;
  timestamp = e.timestamp;
}

pub record QuotaStatus : Type 0 where
  pub tenant_id : ℕ
  pub plan_name : String
  pub api_calls_used : ℕ
  pub api_call_limit : ℕ
  pub tokens_used : ℕ
  pub token_limit : ℕ
  pub period_start : ℕ
  pub period_end : ℕ

-- `Literal["free", "pro"]` is the enumeration of its two texts.
pub record TenantCreate : Type 0 where
  pub name : String
  pub plan_type : PlanType

pub record TenantResponse : Type 0 where
  pub id : ℕ
  pub name : String
  pub plan_type : PlanType
  pub status : TenantStatus
  pub stripe_customer_id : Option String
  pub created_at : ℕ

-- What no endpoint answers with: a plan, read from its row.
pub record PlanResponse : Type 0 where
  pub id : ℕ
  pub name : String
  pub api_call_limit : ℕ
  pub token_limit : ℕ
  pub price_cents : ℕ

abbrev pub plan_response : Plan → PlanResponse
plan_response plan = record {
  id = plan.id;
  name = plan.name;
  api_call_limit = plan.api_call_limit;
  token_limit = plan.token_limit;
  price_cents = plan.price_cents;
}
