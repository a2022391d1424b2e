-- ===== src/Metering/Defs.antt =====
-- `MeteringEngine.record_usage`: the fast path, the transaction, and the two `except` clauses.
use flyrank_backend_capstone.Prelude.{
  ℕ, String, true, false, Bool, Option, none, some, if◌then◌else◌,
}
use flyrank_backend_capstone.Models.{
  Tenant, EventType, UsageEvent, UsageBody, Body, usage, idempotency_conflict, IdempotencyRecord,
  is_api_call,
}
use flyrank_backend_capstone.Pricing.{
  Settings, TokenUsage, no_tokens, total_tokens, calculate_cost_cents,
  calculate_api_call_cost_cents,
}
use flyrank_backend_capstone.Store.Schema.{
  new_usage_event, new_idempotency_record, integrity_error, get_idempotency_record,
}
use flyrank_backend_capstone.Store.Database.{Database}
use flyrank_backend_capstone.Store.Action.{
  Env, Exception, db_error, quota_exceeded, payment_required, Action, pure, raise, draw, if_none,
  ◌>>=◌, ◌>>◌, try_except, query, add, flush, commit, rollback,
}
use flyrank_backend_capstone.Quota.{QuotaCheckResult, check_and_reserve}

pub record MeteringResult : Type 0 where
  pub status_code : ℕ
  pub body : Body
  pub replayed : Bool

-- The stored response, marked as a replay.
abbrev pub replay_of : IdempotencyRecord → MeteringResult
replay_of r = record { status_code = r.status_code; body = r.response_body; replayed = true }

-- The response where the other request's record is not there.
unfoldable pub conflict : MeteringResult
conflict = record { status_code = 409; body = idempotency_conflict; replayed = false }

-- `token_usage or TokenUsage()`: a `TokenUsage` is never falsy.
abbrev pub usage_or_default : Option TokenUsage → TokenUsage
usage_or_default none = no_tokens
usage_or_default (some u) = u

-- `1 if event_type == EventType.API_CALL else usage.total_tokens`
unfoldable pub requested_quantity : EventType → TokenUsage → ℕ
requested_quantity type u = if is_api_call type then 1 else total_tokens u

unfoldable pub cost_cents : Settings → EventType → TokenUsage → ℕ
cost_cents settings type u =
    if is_api_call type then calculate_api_call_cost_cents else calculate_cost_cents settings u

-- The `UsageEvent(…)` that is added, with the defaults that its INSERT fills in.
abbrev pub event_row : Settings → Tenant → String → EventType → TokenUsage → ℕ → ℕ → UsageEvent
event_row settings tenant key type u id timestamp = record {
  id = id;
  tenant_id = tenant.id;
  event_type = type;
  input_tokens = u.input_tokens;
  cached_input_tokens = u.cached_input_tokens;
  output_tokens = u.output_tokens;
  reasoning_tokens = u.reasoning_tokens;
  total_quantity = requested_quantity type u;
  cost_cents = cost_cents settings type u;
  idempotency_key = key;
  timestamp = timestamp;
}

-- `response_body`
abbrev pub body_of : UsageEvent → QuotaCheckResult → UsageBody
body_of e check = record {
  id = e.id;
  tenant_id = e.tenant_id;
  event_type = e.event_type;
  total_quantity = e.total_quantity;
  cost_cents = e.cost_cents;
  plan_name = check.plan.name;
  idempotency_key = e.idempotency_key;
}

-- The `IdempotencyRecord(…)` of a 201.
abbrev pub record_row : UsageEvent → QuotaCheckResult → ℕ → IdempotencyRecord
record_row e check created_at = record {
  idempotency_key = e.idempotency_key;
  tenant_id = e.tenant_id;
  status_code = 201;
  response_body = usage (body_of e check);
  created_at = created_at;
}

module _ (D : Database) where
  unfoldable pub get_stored_response : String → Action D.Session (Option IdempotencyRecord)
  get_stored_response key = query D (get_idempotency_record key)

  -- The `except` clauses: another request has the key; a refused request is rolled back and raised
  -- again; any other exception passes.
  unfoldable pub recover : String → Exception → Action D.Session MeteringResult
  unfolding get_stored_response conflict
  recover key (db_error integrity_error) = do
    rollback D
    winner ← get_stored_response key
    if_none winner (pure conflict) (λ r. pure (replay_of r))
  recover key (quota_exceeded x) = rollback D >> raise (quota_exceeded x)
  recover key (payment_required x) = rollback D >> raise (payment_required x)
  recover key e = raise e

module _ (E : Env) (D : Database) (settings : Settings) where
  -- The transaction after the check. `id` and `timestamp` are defaults that the flush fills in, and
  -- `created_at` is one of the commit's flush.
  unfoldable pub write_usage :
      Tenant → String → EventType → TokenUsage → QuotaCheckResult → Action D.Session MeteringResult
  write_usage tenant key type u check = do
    id ← draw E.uuid4
    timestamp ← draw E.now
    let usage_event = event_row settings tenant key type u id timestamp
    add D (new_usage_event usage_event)
    flush D
    created_at ← draw E.now
    add D (new_idempotency_record (record_row usage_event check created_at))
    commit D
    pure (record { status_code = 201; body = usage (body_of usage_event check); replayed = false })

  -- The `try` statement.
  unfoldable pub attempt :
      Tenant → String → EventType → TokenUsage → Action D.Session MeteringResult
  unfolding write_usage recover
  attempt tenant key type u =
      try_except
        (do
          check ← check_and_reserve E D tenant type (requested_quantity type u)
          write_usage tenant key type u check)
        (recover D key)

  unfoldable pub record_usage :
      Tenant → String → EventType → Option TokenUsage → Action D.Session MeteringResult
  unfolding get_stored_response attempt
  record_usage tenant key type token_usage = do
    existing ← get_stored_response D key
    if_none existing (attempt tenant key type (usage_or_default token_usage))
        (λ r. pure (replay_of r))
