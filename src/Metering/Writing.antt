-- ===== src/Metering/Writing.antt =====
-- The parts of `record_usage`: the write after the check, and the `except` clauses.
use flyrank_backend_capstone.Prelude.{
  ℕ, suc, ◌≡◌, refl, sym, String, true, false, none, ◌∷◌, arith, Bool-cases, inl, inr, ◌⊎◌, ◌∙◌,
}
use flyrank_backend_capstone.Models.{Tenant, EventType, UsageEvent, IdempotencyRecord}
use flyrank_backend_capstone.Pricing.{Settings, TokenUsage}
use flyrank_backend_capstone.Store.Schema.{
  Tables, applied, refused, integrity_error, data_error, get_idempotency_record, get_tenant,
  fits_usage_event, fits_text, fits_keys, is_some, insert_usage_event, insert_idempotency_record,
  apply_changes,
}
use flyrank_backend_capstone.Store.Database.{
  View, contract, opened, view_add, view_flush, view_commit, view_rollback,
}
use flyrank_backend_capstone.Store.Action.{
  Env, Exception, QuotaExceeded, Reason, db_error, quota_exceeded, payment_required, Outcome,
  returned, raised, Run, ◌>>=◌, add, flush, commit, rollback,
}
use flyrank_backend_capstone.Quota.{QuotaCheckResult}
use flyrank_backend_capstone.Quota.Decision.{
  Decides, blocked, unsubscribed, ended, planless, exceeded, allowed,
}
use flyrank_backend_capstone.Metering.Defs.{MeteringResult, record_row, recover, write_usage}
use flyrank_backend_capstone.Metering.Spec.{recorded_tables, IsInsertable, event_at, fresh_result}

-- What a write does to a session that was opened on `t`.
pub data Writes (e : UsageEvent) (c : QuotaCheckResult) (t : Tables)
    (p : Outcome MeteringResult × Run View) : Type 0 where
  written :
      (created_at : ℕ)
      → IsInsertable e t
      → p.0 ≡ returned (fresh_result e c)
      → p.1.session.stored ≡ recorded_tables e (record_row e c created_at) t
      → Writes e c t p
  duplicate :
      insert_usage_event e t ≡ refused integrity_error
      → p.0 ≡ raised (db_error integrity_error)
      → p.1.session.stored ≡ t
      → Writes e c t p
  too_large :
      fits_usage_event e ≡ false
      → p.0 ≡ raised (db_error data_error)
      → p.1.session.stored ≡ t
      → Writes e c t p

pub insert_usage_event-cases :
    (e : UsageEvent) (t : Tables)
    → (IsInsertable e t
        × (insert_usage_event e t ≡ applied (record t { usage_events = e ∷ t.usage_events })))
      ⊎ (insert_usage_event e t ≡ refused integrity_error)
      ⊎ ((fits_usage_event e ≡ false) × (insert_usage_event e t ≡ refused data_error))
unfolding insert_usage_event
insert_usage_event-cases e t = elim (Bool-cases (fits_usage_event e)) [
  | inr wide ↦ inr (inr (wide, rw wide))
  | inl fits ↦ elim (Bool-cases (fits_keys e t)) [
    | inr clash ↦ inr (inl (rw (fits, clash)))
    | inl new ↦ inl ((fits, ground arith, ground arith, ground arith), rw (fits, new))
  ]
]

-- A row that fits its columns has a key that fits.
pub fits_usage_event-key :
    (e : UsageEvent) → fits_usage_event e ≡ true → fits_text 255 e.idempotency_key ≡ true
fits_usage_event-key e fits = ground arith

insert_idempotency_record-new :
    (r : IdempotencyRecord) (t : Tables)
    → fits_text 255 r.idempotency_key ≡ true
    → get_idempotency_record r.idempotency_key t ≡ none
    → is_some (get_tenant r.tenant_id t) ≡ true
    → insert_idempotency_record r t
      ≡ applied (record t { idempotency_records = r ∷ t.idempotency_records })
unfolding insert_idempotency_record
insert_idempotency_record-new r t fits miss known = rw (fits, miss, known)

module _ (E : Env) (settings : Settings) (tenant : Tenant) (key : String) (type : EventType)
    (u : TokenUsage) (c : QuotaCheckResult) (t : Tables) where
  pub write_usage-Writes :
      (n : ℕ)
      → get_idempotency_record key t ≡ none
      → Writes (event_at E settings tenant key type u n) c t (
          write_usage E contract settings tenant key type u c
            (record { session = opened t; draws = n }))
  unfolding write_usage ◌>>=◌ add flush commit view_add view_flush view_commit apply_changes
  write_usage-Writes n miss =
      let e = event_at E settings tenant key type u n in
      elim (insert_usage_event-cases e t) [
        | inl (new, done) ↦
            let r = record_row e c (E.now (suc (suc n))) in
            rw
              (
                done,
                insert_idempotency_record-new r (record t { usage_events = e ∷ t.usage_events })
                    (fits_usage_event-key e new.0) miss new.3,
              )
              (written (E.now (suc (suc n))) new refl refl)
        | inr (inl clash) ↦ rw clash (duplicate clash refl refl)
        | inr (inr (wide, big)) ↦ rw big (too_large wide refl refl)
      ]

pub raised-injective :
    {A : Type 0} {x y : Exception} → ◌≡◌ {A = Outcome A} (raised x) (raised y) → x ≡ y
raised-injective h = cc

-- A check that raises does so for the quota or for the payment.
abbrev pub IsRefusal : Exception → Type 0
IsRefusal x =
    ((y : QuotaExceeded) × (x ≡ quota_exceeded y)) ⊎ ((y : Reason) × (x ≡ payment_required y))

pub Decides-IsRefusal :
    {tenant : Tenant} {type : EventType} {q now : ℕ} {t : Tables} {o : Outcome QuotaCheckResult}
    (x : Exception)
    → Decides tenant type q now t o
    → o ≡ raised x
    → IsRefusal x
Decides-IsRefusal x (blocked _ e) h = inr (_, raised-injective (sym h ∙ e))
Decides-IsRefusal x (unsubscribed _ _ e) h = inr (_, raised-injective (sym h ∙ e))
Decides-IsRefusal x (ended s _ _ _ e) h = inr (_, raised-injective (sym h ∙ e))
Decides-IsRefusal x (planless s _ _ _ _ e) h = inr (_, raised-injective (sym h ∙ e))
Decides-IsRefusal x (exceeded s plan _ _ _ _ _ e) h = inl (_, raised-injective (sym h ∙ e))
Decides-IsRefusal x (allowed s plan _ _ _ _ _ e) h = cc

pub recover-IsRefusal :
    (key : String) (x : Exception) (r : Run View)
    → IsRefusal x
    → recover contract key x r ≡ (raised x, record r { session = view_rollback r.session })
unfolding recover ◌>>=◌ rollback
recover-IsRefusal key x r (inl (y, e)) = rw e
recover-IsRefusal key x r (inr (y, e)) = rw e
