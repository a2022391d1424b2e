-- ===== src/Routers/Defs.antt =====
-- The endpoints `record_usage` of app/routers/usage.py and `get_quota_status` of
-- app/routers/quota.py.
use flyrank_backend_capstone.Prelude.{ℕ, String, none, some, ◌&&◌, ◌==◌, if◌then◌else◌}
use flyrank_backend_capstone.Models.{Body}
use flyrank_backend_capstone.Schemas.{
  ErrorCode, ErrorDetail, HttpException, UsageEventCreate, QuotaStatus,
}
use flyrank_backend_capstone.Pricing.{
  Settings, TokenUsage, Construction, constructed, value_error, post_init,
}
use flyrank_backend_capstone.Store.Schema.{get_tenant, get_plan}
use flyrank_backend_capstone.Store.Database.{Database}
use flyrank_backend_capstone.Store.Action.{
  Env, Exception, QuotaExceeded, attribute_error, http_exception, Action, pure, raise, if_none,
  ◌>>=◌, try_except, query,
}
use flyrank_backend_capstone.Quota.{latest_active, usage_row}
use flyrank_backend_capstone.Metering.{MeteringResult, record_usage}

pub record UsageReply : Type 0 where
  pub status_code : ℕ
  pub body : Body

abbrev pub plain_detail : ErrorCode → ErrorDetail
plain_detail code = record {
  code = code;
  limit = none;
  used = none;
  requested = none;
  retry_after_seconds = none;
}

abbrev pub not_found : HttpException
not_found = record {
  status_code = 404;
  detail = plain_detail ErrorCode.not_found;
  retry_after = none;
}

abbrev pub payment_required_response : HttpException
payment_required_response = record {
  status_code = 402;
  detail = plain_detail ErrorCode.payment_required;
  retry_after = none;
}

abbrev pub quota_exceeded_response : QuotaExceeded → HttpException
quota_exceeded_response x = record {
  status_code = 429;
  detail = record {
    code = ErrorCode.quota_exceeded;
    limit = some x.limit;
    used = some x.used;
    requested = some x.requested;
    retry_after_seconds = some x.retry_after_seconds;
  };
  retry_after = some x.retry_after_seconds;
}

-- A replayed 201 is a 200.
abbrev pub reply_of : MeteringResult → UsageReply
reply_of result = record {
  status_code = if result.replayed && result.status_code == 201 then 200 else result.status_code;
  body = result.body;
}

module _ {S : Type 0} where
  -- The `except` clauses of the endpoint.
  unfoldable pub refuse : Exception → Action S MeteringResult
  refuse (Exception.quota_exceeded x) = raise (http_exception (quota_exceeded_response x))
  refuse (Exception.payment_required x) = raise (http_exception payment_required_response)
  refuse e = raise e

  abbrev pub or_value_error : Construction → Action S TokenUsage
  or_value_error (constructed u) = pure u
  or_value_error (value_error name) = raise Exception.value_error

  -- `TokenUsage(…)` of the payload.
  unfoldable pub token_usage_of : UsageEventCreate → Action S TokenUsage
  token_usage_of payload = or_value_error (
      post_init payload.input_tokens payload.cached_input_tokens payload.output_tokens
        payload.reasoning_tokens)

module _ (E : Env) (D : Database) (settings : Settings) where
  unfoldable pub post_usage : String → UsageEventCreate → Action D.Session UsageReply
  unfolding refuse token_usage_of
  post_usage idempotency_key payload = do
    found ← query D (get_tenant payload.tenant_id)
    if_none found (raise (http_exception not_found)) λ tenant. do
      token_usage ← token_usage_of payload
      result ←
          try_except
            (record_usage E D settings tenant idempotency_key payload.event_type (some token_usage))
            refuse
      pure (reply_of result)

module _ (D : Database) where
  unfoldable pub get_quota_status : ℕ → Action D.Session QuotaStatus
  unfolding latest_active usage_row
  get_quota_status tenant_id = do
    found ← query D (get_tenant tenant_id)
    if_none found (raise (http_exception not_found)) λ tenant. do
      selected ← query D (λ t. latest_active tenant.id t.subscriptions)
      if_none selected (raise (http_exception not_found)) λ subscription. do
        plan ← query D (get_plan subscription.plan_id)
        used ←
            query D (
              usage_row tenant.id subscription.current_period_start subscription.current_period_end)
        if_none plan (raise attribute_error) λ p. pure (record {
          tenant_id = tenant.id;
          plan_name = p.name;
          api_calls_used = used.0;
          api_call_limit = p.api_call_limit;
          tokens_used = used.1;
          token_limit = p.token_limit;
          period_start = subscription.current_period_start;
          period_end = subscription.current_period_end;
        })
