-- ===== src/Metering/Ledger.antt =====
-- The usage events and the stored responses stay in step: one event for each key, and a 201 with
-- that event's body for each event and each stored key.
use flyrank_backend_capstone.Prelude.{
  ℕ, ◌≡◌, ◌≢◌, refl, sym, subst, String, true, Option, none, some, List, [], ◌∷◌, arith, All,
  All-weaken, find, same_text, same_text_refl, same_text-eq, ◌∙◌, Bool-cases, inl, inr,
}
use flyrank_backend_capstone.Models.{Tenant, EventType, UsageEvent, usage, IdempotencyRecord}
use flyrank_backend_capstone.Pricing.{Settings, TokenUsage}
use flyrank_backend_capstone.Store.Schema.{
  Tables, get_idempotency_record, usage_event_with_key, usage_event_with_id, get_tenant, is_some,
  insert_usage_event,
}
use flyrank_backend_capstone.Store.Database.{Database, View, IsLawful, opened}
use flyrank_backend_capstone.Store.Bystander.{SameUsage}
use flyrank_backend_capstone.Store.Action.{Env, Outcome, returned, Run}
use flyrank_backend_capstone.Quota.Decision.{LoadsAll, EndsInRange}
use flyrank_backend_capstone.Metering.Defs.{MeteringResult, conflict, record_row, record_usage}
use flyrank_backend_capstone.Metering.Spec.{
  Meters, replayed, recorded, refused_by_check, conflicted, failed, recorded_tables, event_at,
}
use flyrank_backend_capstone.Metering.Outcomes.{record_usage-Meters}

abbrev pub KeysDistinct : List UsageEvent → Type 0
KeysDistinct [] = Unit
KeysDistinct (e ∷ es) = All (λ f. f.idempotency_key ≢ e.idempotency_key) es × KeysDistinct es

-- The stored response is a 201 that tells of this event.
abbrev pub Answers : UsageEvent → IdempotencyRecord → Type 0
Answers e r =
    (plan_name : String) × (r.status_code ≡ 201)
    × (r.response_body
        ≡ usage (record {
          id = e.id;
          tenant_id = e.tenant_id;
          event_type = e.event_type;
          total_quantity = e.total_quantity;
          cost_cents = e.cost_cents;
          plan_name = plan_name;
          idempotency_key = e.idempotency_key;
        }))

abbrev pub Receipt : Tables → UsageEvent → Type 0
Receipt t e =
    (r : IdempotencyRecord) × (get_idempotency_record e.idempotency_key t ≡ some r) × Answers e r

abbrev pub Backed : Tables → IdempotencyRecord → Type 0
Backed t r = (e : UsageEvent) × (usage_event_with_key r.idempotency_key t ≡ some e) × Answers e r

pub record IsLedger (t : Tables) : Type 0 where
  pub distinct : KeysDistinct t.usage_events
  pub receipts : All (Receipt t) t.usage_events
  pub backed : All (Backed t) t.idempotency_records

-- Only those two tables matter.
pub SameUsage-IsLedger : (t u : Tables) → SameUsage t u → IsLedger t → IsLedger u
SameUsage-IsLedger t u same h =
    subst (λ es. IsLedger (record u { usage_events = es })) (sym same.0)
      (subst (λ rs. IsLedger (record u { usage_events = t.usage_events; idempotency_records = rs }))
        (sym same.1) (record { distinct = h.distinct; receipts = h.receipts; backed = h.backed }))

keys_differ :
    (key : String) (es : List UsageEvent) (t : Tables)
    → All (Receipt t) es
    → get_idempotency_record key t ≡ none
    → All (λ f. f.idempotency_key ≢ key) es
keys_differ key es t receipts miss =
    All-weaken es (λ f x e. cc (subst (λ k. get_idempotency_record k t ≡ some x.0) e x.1, miss))
      receipts

module _ (e : UsageEvent) (r : IdempotencyRecord) (t : Tables)
    (same_key : r.idempotency_key ≡ e.idempotency_key)
    (miss : get_idempotency_record e.idempotency_key t ≡ none)
    (new : usage_event_with_key e.idempotency_key t ≡ none) where
  Receipt-recorded : (f : UsageEvent) → Receipt t f → Receipt (recorded_tables e r t) f
  Receipt-recorded f (s, found, answers) =
      elim (Bool-cases (same_text r.idempotency_key f.idempotency_key)) [
        | inr other ↦ (s, rw other found, answers)
        | inl same ↦
            let key = sym same_key ∙ same_text-eq r.idempotency_key f.idempotency_key same in
            cc (subst (λ k. get_idempotency_record k t ≡ none) key miss, found)
      ]

  Backed-recorded : (s : IdempotencyRecord) → Backed t s → Backed (recorded_tables e r t) s
  Backed-recorded s (f, found, answers) =
      elim (Bool-cases (same_text e.idempotency_key s.idempotency_key)) [
        | inr other ↦ (f, rw other found, answers)
        | inl same ↦
            let key = same_text-eq e.idempotency_key s.idempotency_key same in
            cc (subst (λ k. usage_event_with_key k t ≡ none) key new, found)
      ]

  pub recorded_tables-IsLedger : Answers e r → IsLedger t → IsLedger (recorded_tables e r t)
  recorded_tables-IsLedger answers h = record {
    distinct = (keys_differ e.idempotency_key t.usage_events t h.receipts miss, h.distinct);
    receipts = (
      (r, rw (same_key, same_text_refl e.idempotency_key), answers),
      All-weaken t.usage_events Receipt-recorded h.receipts,
    );
    backed = (
      (e, rw (same_key, same_text_refl e.idempotency_key), answers),
      All-weaken t.idempotency_records Backed-recorded h.backed,
    );
  }

pub Meters-IsLedger :
    {E : Env} {settings : Settings} {tenant : Tenant} {key : String} {type : EventType}
    {u : TokenUsage} {now : ℕ} {t : Tables} {o : Outcome MeteringResult} {after : Tables}
    → Meters E settings tenant key type u now t o after
    → IsLedger t
    → IsLedger after
Meters-IsLedger (replayed r _ _ same) h = subst IsLedger (sym same) h
Meters-IsLedger {E} {settings} {tenant} {key} {type} {u} {t}
      (recorded c n created_at miss d new e after) h =
    let row = event_at E settings tenant key type u n in
    subst IsLedger (sym after) (
      recorded_tables-IsLedger row (record_row row c created_at) t refl miss new.2
        (c.plan.name, refl, refl) h)
Meters-IsLedger (refused_by_check x _ _ _ same) h = subst IsLedger (sym same) h
Meters-IsLedger (conflicted c n _ _ _ _ same) h = subst IsLedger (sym same) h
Meters-IsLedger (failed c n _ _ _ _ same) h = subst IsLedger (sym same) h

-- On any lawful session opened on tables whose events and stored responses are in step (one event
-- for each key, a 201 with its body for each event, an event for each stored response), whatever
-- the request is and however it ends, the stored tables are in step afterwards.
pub record_usage-IsLedger :
    (E : Env) {D : Database} {view : D.Session → View}
    → IsLawful D view
    → (settings : Settings) (tenant : Tenant) (key : String) (type : EventType)
      (token_usage : Option TokenUsage) (t : Tables) (r : Run D.Session)
    → LoadsAll E
    → EndsInRange t
    → view r.session ≡ opened t
    → IsLedger t
    → IsLedger (view (record_usage E D settings tenant key type token_usage r).1.session).stored
record_usage-IsLedger E lawful settings tenant key type token_usage t r loads range fresh h =
    Meters-IsLedger
      (record_usage-Meters E lawful settings tenant key type token_usage t r loads range fresh) h

-- A key with no stored response has no event either.
pub no_event :
    (key : String) (es : List UsageEvent) (t : Tables)
    → All (Receipt t) es
    → get_idempotency_record key t ≡ none
    → find (λ e. same_text e.idempotency_key key) es ≡ none
no_event key [] t receipts miss = refl
no_event key (e ∷ es) t receipts miss = elim (Bool-cases (same_text e.idempotency_key key)) [
  | inr other ↦ rw other (no_event key es t receipts.1 miss)
  | inl same ↦
      let k = same_text-eq e.idempotency_key key same in
      cc (subst (λ k. get_idempotency_record k t ≡ some receipts.0.0) k receipts.0.1, miss)
]

pub Meters-ne-conflict :
    {E : Env} {settings : Settings} {tenant : Tenant} {key : String} {type : EventType}
    {u : TokenUsage} {now : ℕ} {t : Tables} {o : Outcome MeteringResult} {after : Tables}
    → Meters E settings tenant key type u now t o after
    → IsLedger t
    → is_some (get_tenant tenant.id t) ≡ true
    → ((n : ℕ) → usage_event_with_id (E.uuid4 n) t ≡ none)
    → o ≢ returned conflict
unfolding conflict insert_usage_event
Meters-ne-conflict (replayed r hit e _) h known fresh c = ground arith
Meters-ne-conflict (recorded c n created_at miss d new e after) h known fresh k = cc
Meters-ne-conflict (refused_by_check x _ _ e same) h known fresh k = cc
Meters-ne-conflict {E} {key} {t} (conflicted c n miss _ clash e same) h known fresh k =
    ground (arith, known, fresh n, no_event key t.usage_events t h.receipts miss)
Meters-ne-conflict (failed c n _ _ _ e same) h known fresh k = cc

-- On any lawful session opened on tables that are in step and hold the tenant, with identifiers
-- from `uuid4` that no event has yet, no request is answered with the 409 of a conflict: without
-- another session in between, the `except IntegrityError` branch is not taken.
pub record_usage-ne-conflict :
    (E : Env) {D : Database} {view : D.Session → View}
    → IsLawful D view
    → (settings : Settings) (tenant : Tenant) (key : String) (type : EventType)
      (token_usage : Option TokenUsage) (t : Tables) (r : Run D.Session)
    → LoadsAll E
    → EndsInRange t
    → view r.session ≡ opened t
    → IsLedger t
    → is_some (get_tenant tenant.id t) ≡ true
    → ((n : ℕ) → usage_event_with_id (E.uuid4 n) t ≡ none)
    → (record_usage E D settings tenant key type token_usage r).0 ≢ returned conflict
record_usage-ne-conflict E lawful settings tenant key type token_usage t r loads range fresh h known
      new =
    Meters-ne-conflict
      (record_usage-Meters E lawful settings tenant key type token_usage t r loads range fresh) h
      known new
