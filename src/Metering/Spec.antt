-- ===== src/Metering/Spec.antt =====
-- A description of every way in which `MeteringEngine.record_usage` ends, with the tables that it
-- leaves.
use flyrank_backend_capstone.Prelude.{ℕ, suc, ◌≡◌, String, true, false, none, some, ◌∷◌}
use flyrank_backend_capstone.Models.{Tenant, EventType, UsageEvent, usage, IdempotencyRecord}
use flyrank_backend_capstone.Pricing.{Settings, TokenUsage}
use flyrank_backend_capstone.Store.Schema.{
  Tables, refused, integrity_error, data_error, get_idempotency_record, get_tenant,
  fits_usage_event, usage_event_with_id, usage_event_with_key, is_some, insert_usage_event,
}
use flyrank_backend_capstone.Store.Action.{Env, Exception, db_error, Outcome, returned, raised}
use flyrank_backend_capstone.Quota.{QuotaCheckResult}
use flyrank_backend_capstone.Quota.Decision.{Decides}
use flyrank_backend_capstone.Metering.Defs.{
  MeteringResult, replay_of, conflict, requested_quantity, event_row, body_of, record_row,
}

-- The tables with the two rows of a fresh 201.
abbrev pub recorded_tables : UsageEvent → IdempotencyRecord → Tables → Tables
recorded_tables e r t = record t {
  usage_events = e ∷ t.usage_events;
  idempotency_records = r ∷ t.idempotency_records;
}

-- The row fits its columns, its keys are new, and its tenant is there.
abbrev pub IsInsertable : UsageEvent → Tables → Type 0
IsInsertable e t =
    (fits_usage_event e ≡ true)
    × (usage_event_with_id e.id t ≡ none)
    × (usage_event_with_key e.idempotency_key t ≡ none)
    × (is_some (get_tenant e.tenant_id t) ≡ true)

-- The event that a call inserts whose `id` is the environment's draw `n`.
abbrev pub event_at : Env → Settings → Tenant → String → EventType → TokenUsage → ℕ → UsageEvent
event_at E settings tenant key type u n =
    event_row settings tenant key type u (E.uuid4 n) (E.now (suc n))

abbrev pub fresh_result : UsageEvent → QuotaCheckResult → MeteringResult
fresh_result e c = record { status_code = 201; body = usage (body_of e c); replayed = false }

-- How a call that reads the clock at `now` ends on the tables `t`: the outcome `o`, and the tables
-- that are stored `after` it.
pub data Meters (E : Env) (settings : Settings) (tenant : Tenant) (key : String) (type : EventType)
    (u : TokenUsage) (now : ℕ) (t : Tables) (o : Outcome MeteringResult) (after : Tables)
    : Type 0 where
  replayed :
      (r : IdempotencyRecord)
      → get_idempotency_record key t ≡ some r
      → o ≡ returned (replay_of r)
      → after ≡ t
      → Meters E settings tenant key type u now t o after
  recorded :
      (c : QuotaCheckResult) (n created_at : ℕ)
      → get_idempotency_record key t ≡ none
      → Decides tenant type (requested_quantity type u) now t (returned c)
      → IsInsertable (event_at E settings tenant key type u n) t
      → o ≡ returned (fresh_result (event_at E settings tenant key type u n) c)
      → after
        ≡ recorded_tables
            (event_at E settings tenant key type u n)
            (record_row (event_at E settings tenant key type u n) c created_at)
            t
      → Meters E settings tenant key type u now t o after
  refused_by_check :
      (x : Exception)
      → get_idempotency_record key t ≡ none
      → Decides tenant type (requested_quantity type u) now t (raised x)
      → o ≡ raised x
      → after ≡ t
      → Meters E settings tenant key type u now t o after
  conflicted :
      (c : QuotaCheckResult) (n : ℕ)
      → get_idempotency_record key t ≡ none
      → Decides tenant type (requested_quantity type u) now t (returned c)
      → insert_usage_event (event_at E settings tenant key type u n) t ≡ refused integrity_error
      → o ≡ returned conflict
      → after ≡ t
      → Meters E settings tenant key type u now t o after
  failed :
      (c : QuotaCheckResult) (n : ℕ)
      → get_idempotency_record key t ≡ none
      → Decides tenant type (requested_quantity type u) now t (returned c)
      → fits_usage_event (event_at E settings tenant key type u n) ≡ false
      → o ≡ raised (db_error data_error)
      → after ≡ t
      → Meters E settings tenant key type u now t o after
