-- ===== src/Metering/Steady.antt =====
-- What `record_usage` leaves stored, whatever the stored instants and the driver's ways are.
use flyrank_backend_capstone.Prelude.{
  ℕ, ◌≡◌, refl, sym, subst, String, Option, none, Option-cases, inl, inr,
}
use flyrank_backend_capstone.Models.{Tenant, EventType, UsageEvent}
use flyrank_backend_capstone.Pricing.{Settings, TokenUsage}
use flyrank_backend_capstone.Store.Schema.{
  Tables, get_idempotency_record, integrity_error, data_error, pending_rollback_error,
}
use flyrank_backend_capstone.Store.Database.{View, contract, opened, view_select, view_rollback}
use flyrank_backend_capstone.Store.Action.{
  Env, Exception, db_error, quota_exceeded, payment_required, Outcome, returned, raised, Run, ◌>>=◌,
  try_except, query, rollback, handle, continue, raise, pure,
}
use flyrank_backend_capstone.Quota.{QuotaCheckResult, check_and_reserve}
use flyrank_backend_capstone.Quota.Decision.{check_and_reserve-ReadsOnly}
use flyrank_backend_capstone.Metering.Defs.{
  MeteringResult, usage_or_default, requested_quantity, record_row, recover, write_usage, attempt,
  record_usage,
}
use flyrank_backend_capstone.Metering.Spec.{recorded_tables, IsInsertable, event_at}
use flyrank_backend_capstone.Metering.Writing.{
  Writes, written, duplicate, too_large, write_usage-Writes,
}
use flyrank_backend_capstone.Metering.Ledger.{IsLedger, recorded_tables-IsLedger}

-- The tables are as they were, or have one event more, of a key with no response, and its response.
data Grows (key : String) (t after : Tables) : Type 0 where
  same : after ≡ t → Grows key t after
  grown :
      (e : UsageEvent) (c : QuotaCheckResult) (created_at : ℕ)
      → e.idempotency_key ≡ key
      → get_idempotency_record key t ≡ none
      → IsInsertable e t
      → after ≡ recorded_tables e (record_row e c created_at) t
      → Grows key t after

-- The `except` clauses store nothing.
pub recover-stored :
    (key : String) (x : Exception) (r : Run View)
    → (recover contract key x r).1.session.stored ≡ r.session.stored
unfolding recover ◌>>=◌ rollback view_rollback query view_select raise pure
recover-stored key (db_error integrity_error) r =
    elim (Option-cases (get_idempotency_record key r.session.stored)) [
      | inl miss ↦ rw miss refl
      | inr (w, hit) ↦ rw hit refl
    ]
recover-stored key (db_error data_error) r = refl
recover-stored key (db_error pending_rollback_error) r = refl
recover-stored key (quota_exceeded x) r = refl
recover-stored key (payment_required x) r = refl
recover-stored key _ r = refl

module _ (E : Env) (settings : Settings) (tenant : Tenant) (key : String) (type : EventType)
    (u : TokenUsage) (t : Tables) (miss : get_idempotency_record key t ≡ none) where
  recovered-Grows :
      (o : Outcome MeteringResult) (r : Run View)
      → Grows key t r.session.stored
      → Grows key t (handle o (recover contract key) r).1.session.stored
  recovered-Grows (returned a) r h = h
  recovered-Grows (raised x) r h = subst (Grows key t) (sym (recover-stored key x r)) h

  Writes-Grows :
      (c : QuotaCheckResult) (n : ℕ) (p : Outcome MeteringResult × Run View)
      → Writes (event_at E settings tenant key type u n) c t p
      → Grows key t p.1.session.stored
  Writes-Grows c n p (written created_at new _ after) =
      grown (event_at E settings tenant key type u n) c created_at refl miss new after
  Writes-Grows c n p (duplicate _ _ h) = same h
  Writes-Grows c n p (too_large _ _ h) = same h

  checked-Grows :
      (o : Outcome QuotaCheckResult) (m : ℕ)
      → Grows key t
          (continue o
            (write_usage E contract settings tenant key type u)
            (record { session = opened t; draws = m })).1.session.stored
  checked-Grows (returned c) m =
      Writes-Grows c m _ (write_usage-Writes E settings tenant key type u c t m miss)
  checked-Grows (raised x) m = same refl

  attempt-Grows :
      (n : ℕ)
      → Grows key t
          (attempt E contract settings tenant key type u
            (record { session = opened t; draws = n })).1.session.stored
  unfolding attempt ◌>>=◌ try_except
  attempt-Grows n =
      let (o, r) =
        check_and_reserve E contract tenant type (requested_quantity type u)
          (record { session = opened t; draws = n }) in
      let kept =
        (check_and_reserve-ReadsOnly E contract tenant type (requested_quantity type u)).at
          (record { session = opened t; draws = n }) in
      recovered-Grows _ _ (
        subst
          (λ (v : View).
            Grows key t
              (continue o (write_usage E contract settings tenant key type u)
                (record { session = v; draws = r.draws })).1.session.stored)
          (sym kept) (checked-Grows o r.draws))

Grows-IsLedger : {key : String} {t after : Tables} → Grows key t after → IsLedger t → IsLedger after
Grows-IsLedger (same h) ledger = subst IsLedger (sym h) ledger
Grows-IsLedger {key} {t} (grown e c created_at named miss new after) ledger =
    subst IsLedger (sym after) (
      recorded_tables-IsLedger e (record_row e c created_at) t refl
        (subst (λ k. get_idempotency_record k t ≡ none) (sym named) miss) new.2
        (c.plan.name, refl, refl) ledger)

pub record_usage-opened-IsLedger :
    (E : Env) (settings : Settings) (tenant : Tenant) (key : String) (type : EventType)
    (token_usage : Option TokenUsage) (t : Tables) (n : ℕ)
    → IsLedger t
    → IsLedger
        (record_usage E contract settings tenant key type token_usage
          (record { session = opened t; draws = n })).1.session.stored
unfolding record_usage query ◌>>=◌ view_select pure
record_usage-opened-IsLedger E settings tenant key type token_usage t n ledger =
    elim (Option-cases (get_idempotency_record key t)) [
      | inr (r, hit) ↦ rw hit ledger
      | inl miss ↦ rw miss (
          Grows-IsLedger
            (attempt-Grows E settings tenant key type (usage_or_default token_usage) t miss n)
            ledger)
    ]
