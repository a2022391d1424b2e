-- ===== src/Metering/Limits.antt =====
-- What `record_usage` keeps below: a plan's limits, and the widths of the columns.
use flyrank_backend_capstone.Prelude.{
  ℕ, ◌+◌, ◌≤◌, ◌≡◌, ◌≢◌, ◌⊎◌, ◌∙◌, inl, inr, refl, sym, subst, String, false, some, arith,
}
use mathlib.Core.Path.{subst₂}
use mathlib.Core.Option.{some-injective}
use native.Mathlib.Decide.{ℕ_discrete}
use flyrank_backend_capstone.Models.{
  Tenant, EventType, UsageEvent, Plan, Subscription, IdempotencyRecord, same_event_type,
}
use flyrank_backend_capstone.Pricing.{Settings, TokenUsage}
use flyrank_backend_capstone.Store.Schema.{Tables, get_plan}
use flyrank_backend_capstone.Store.Action.{Env, Outcome, returned}
use flyrank_backend_capstone.Quota.{
  QuotaCheckResult, limit_of, period_usage, quantity_in, latest_active,
}
use flyrank_backend_capstone.Quota.Decision.{
  Decides, blocked, unsubscribed, ended, planless, exceeded, allowed, used_in,
}
use flyrank_backend_capstone.Metering.Defs.{MeteringResult, requested_quantity, record_row}
use flyrank_backend_capstone.Metering.Spec.{
  Meters, replayed, recorded, refused_by_check, conflicted, failed, recorded_tables, event_at,
}

-- The subscription that the statement selects has a plan with room for `q` more units.
abbrev pub Room : ℕ → EventType → ℕ → Tables → Type 0
Room id type q t =
    (s : Subscription) × (plan : Plan) × (latest_active id t.subscriptions ≡ some s)
    × (get_plan s.plan_id t ≡ some plan)
    × (period_usage id s.current_period_start s.current_period_end type t + q ≤ limit_of type plan)

pub used_in-eq :
    (type : EventType) (tenant : Tenant) (s : Subscription) (t : Tables)
    → used_in type tenant s t
      ≡ period_usage tenant.id s.current_period_start s.current_period_end type t
used_in-eq EventType.api_call tenant s t = refl
used_in-eq EventType.ai_token tenant s t = refl

-- A request that the check lets through has room.
pub Decides-Room :
    {tenant : Tenant} {type : EventType} {q now : ℕ} {t : Tables} {o : Outcome QuotaCheckResult}
    (c : QuotaCheckResult)
    → Decides tenant type q now t o
    → o ≡ returned c
    → Room tenant.id type q t
Decides-Room c (blocked _ e) h = cc
Decides-Room c (unsubscribed _ _ e) h = cc
Decides-Room c (ended s _ _ _ e) h = cc
Decides-Room c (planless s _ _ _ _ e) h = cc
Decides-Room c (exceeded s plan _ _ _ _ _ e) h = cc
Decides-Room {tenant} {type} {t} c (allowed s plan _ latest _ found room e) h =
    (s, plan, latest.0, found, omega (arith, used_in-eq type tenant s t))

-- The selected row and its plan are determined, so the room is theirs.
pub Room-selected :
    (id : ℕ) (type : EventType) (q : ℕ) (t : Tables) (s : Subscription) (plan : Plan)
    → Room id type q t
    → latest_active id t.subscriptions ≡ some s
    → get_plan s.plan_id t ≡ some plan
    → period_usage id s.current_period_start s.current_period_end type t + q ≤ limit_of type plan
Room-selected id type q t s plan (s₀, plan₀, selected, found₀, room) sel found =
    let same : s₀ ≡ s = some-injective s₀ s (sym selected ∙ sel) in
    let same_plan : plan₀ ≡ plan =
      some-injective plan₀ plan (
        sym (subst (λ (x : Subscription). get_plan x.plan_id t ≡ some plan₀) same found₀)
        ∙ found) in
    subst₂
      (λ (x : Subscription) (p : Plan).
        period_usage id x.current_period_start x.current_period_end type t + q ≤ limit_of type p)
      same same_plan room

-- The usage of the tenant's selected subscription is within its plan, for both event types.
pub record IsWithin (tenant_id : ℕ) (t : Tables) : Type 0 where
  pub at :
      (s : Subscription) (plan : Plan) (type : EventType)
      → latest_active tenant_id t.subscriptions ≡ some s
      → get_plan s.plan_id t ≡ some plan
      → period_usage tenant_id s.current_period_start s.current_period_end type t
        ≤ limit_of type plan

-- What one new row adds to a usage.
module _ (id start end : ℕ) (type : EventType) (e : UsageEvent) where
  quantity_in-le : quantity_in id start end type e ≤ e.total_quantity
  quantity_in-le = ground arith

  pub quantity_in-ne_tenant : e.tenant_id ≢ id → quantity_in id start end type e ≡ 0
  quantity_in-ne_tenant h = ground arith

  quantity_in-ne_type :
      same_event_type e.event_type type ≡ false → quantity_in id start end type e ≡ 0
  quantity_in-ne_type h = ground arith

same_event_type-cases : (a b : EventType) → (a ≡ b) ⊎ (same_event_type a b ≡ false)
same_event_type-cases EventType.api_call EventType.api_call = inl refl
same_event_type-cases EventType.api_call EventType.ai_token = inr refl
same_event_type-cases EventType.ai_token EventType.api_call = inr refl
same_event_type-cases EventType.ai_token EventType.ai_token = inl refl

-- A row of `q` units for which there was room keeps every tenant within its plan.
pub recorded-IsWithin :
    (id : ℕ) (tenant : Tenant) (type : EventType) (q : ℕ) (e : UsageEvent) (r : IdempotencyRecord)
    (t : Tables)
    → e.tenant_id ≡ tenant.id
    → e.event_type ≡ type
    → e.total_quantity ≡ q
    → Room tenant.id type q t
    → IsWithin id t
    → IsWithin id (recorded_tables e r t)
unfolding period_usage
recorded-IsWithin id tenant type q e r t of_tenant of_type of_q room h = record {
  at = λ s plan ty sel found.
      let start = s.current_period_start in
      let end = s.current_period_end in
      elim (ℕ_discrete tenant.id id) [
        | no other ↦ omega (
          arith,
          h.at s plan ty sel found,
          quantity_in-ne_tenant id start end ty e (λ x. other (sym of_tenant ∙ x)),
        )
        | yes same ↦ elim (same_event_type-cases e.event_type ty) [
          | inr other ↦
              omega (arith, h.at s plan ty sel found, quantity_in-ne_type id start end ty e other)
          | inl same_type ↦
              let here = subst₂ (λ i k. Room i k q t) same (sym of_type ∙ same_type) room in
              omega (
                arith,
                of_q,
                quantity_in-le id start end ty e,
                Room-selected id ty q t s plan here sel found,
              )
        ]
      ];
}

pub Meters-IsWithin :
    {E : Env} {settings : Settings} {tenant : Tenant} {key : String} {type : EventType}
    {u : TokenUsage} {now : ℕ} {t : Tables} {o : Outcome MeteringResult} {after : Tables} (id : ℕ)
    → Meters E settings tenant key type u now t o after
    → IsWithin id t
    → IsWithin id after
Meters-IsWithin id (replayed r _ _ same) h = subst (IsWithin id) (sym same) h
Meters-IsWithin {E} {settings} {tenant} {key} {type} {u} {t} id
      (recorded c n created_at _ d _ _ after) h =
    let row = event_at E settings tenant key type u n in
    subst (IsWithin id) (sym after) (
      recorded-IsWithin id tenant type (requested_quantity type u) row (record_row row c created_at)
        t refl refl refl (Decides-Room c d refl) h)
Meters-IsWithin id (refused_by_check x _ _ _ same) h = subst (IsWithin id) (sym same) h
Meters-IsWithin id (conflicted c n _ _ _ _ same) h = subst (IsWithin id) (sym same) h
Meters-IsWithin id (failed c n _ _ _ _ same) h = subst (IsWithin id) (sym same) h

-- A call leaves the subscriptions and the plans alone.
pub Meters-terms :
    {E : Env} {settings : Settings} {tenant : Tenant} {key : String} {type : EventType}
    {u : TokenUsage} {now : ℕ} {t : Tables} {o : Outcome MeteringResult} {after : Tables}
    → Meters E settings tenant key type u now t o after
    → (after.subscriptions ≡ t.subscriptions) × (after.plans ≡ t.plans)
Meters-terms (replayed r _ _ same) = rw same (refl, refl)
Meters-terms (recorded c n created_at _ d _ _ after) = rw after (refl, refl)
Meters-terms (refused_by_check x _ _ _ same) = rw same (refl, refl)
Meters-terms (conflicted c n _ _ _ _ same) = rw same (refl, refl)
Meters-terms (failed c n _ _ _ _ same) = rw same (refl, refl)
