-- ===== src/Routers/Agreement.antt =====
-- What `GET /v1/tenants/{tenant_id}/quota` shows, against what the check of a request decides.
use flyrank_backend_capstone.Prelude.{
  ℕ, ◌+◌, ◌≤◌, ◌<◌, ◌≡◌, ◌⊎◌, refl, sym, subst, ◌∙◌, ap, some, none, arith, Option-cases,
  some-injective, inl, inr, All-apply, false,
}
use flyrank_backend_capstone.Models.{Tenant, TenantStatus, EventType, Subscription, Plan}
use flyrank_backend_capstone.Schemas.{QuotaStatus}
use flyrank_backend_capstone.Store.Schema.{Tables, get_tenant, get_plan}
use flyrank_backend_capstone.Store.Database.{
  Database, View, IsLawful, contract, opened, view_select,
}
use flyrank_backend_capstone.Store.Action.{
  Env, QuotaExceeded, quota_exceeded, Outcome, returned, raised, Run, ◌>>=◌, query, pure, raise,
  http_exception, attribute_error,
}
use flyrank_backend_capstone.Quota.{
  QuotaCheckResult, latest_active, usage_row, period_usage, check_and_reserve, is_current, limit_of,
}
use flyrank_backend_capstone.Quota.Locking.{Selects, latest_active-Selects}
use flyrank_backend_capstone.Quota.Decision.{
  Decides, blocked, unsubscribed, ended, planless, exceeded, allowed, check_and_reserve-Decides,
  LoadsAll, EndsInRange, used_in,
}
use flyrank_backend_capstone.Routers.Simulated.{Simulates-get_quota_status}
use flyrank_backend_capstone.Routers.Defs.{not_found, get_quota_status}

-- What the status shows of an event type.
abbrev pub shown_used : EventType → QuotaStatus → ℕ
shown_used EventType.api_call status = status.api_calls_used
shown_used EventType.ai_token status = status.tokens_used

abbrev pub shown_limit : EventType → QuotaStatus → ℕ
shown_limit EventType.api_call status = status.api_call_limit
shown_limit EventType.ai_token status = status.token_limit

-- The status of a subscription and its plan.
abbrev pub status_of : Tenant → Subscription → Plan → Tables → QuotaStatus
status_of tenant s plan t = record {
  tenant_id = tenant.id;
  plan_name = plan.name;
  api_calls_used =
      period_usage tenant.id s.current_period_start s.current_period_end EventType.api_call t;
  api_call_limit = plan.api_call_limit;
  tokens_used =
      period_usage tenant.id s.current_period_start s.current_period_end EventType.ai_token t;
  token_limit = plan.token_limit;
  period_start = s.current_period_start;
  period_end = s.current_period_end;
}

data Shows (tenant : Tenant) (t : Tables) (status : QuotaStatus) : Type 0 where
  shows :
      (s : Subscription) (plan : Plan)
      → latest_active tenant.id t.subscriptions ≡ some s
      → get_plan s.plan_id t ≡ some plan
      → status ≡ status_of tenant s plan t
      → Shows tenant t status

returned-injective :
    {a b : QuotaStatus} → ◌≡◌ {A = Outcome QuotaStatus} (returned a) (returned b) → a ≡ b
returned-injective e = cc

-- The outcome on tables that a session was opened on.
abbrev outcome : ℕ → Tables → ℕ → Outcome QuotaStatus
outcome id t n = (get_quota_status contract id (record { session = opened t; draws = n })).0

status-Shows :
    (tenant : Tenant) (id : ℕ) (t : Tables) (n : ℕ) (status : QuotaStatus)
    → get_tenant id t ≡ some tenant
    → outcome id t n ≡ returned status
    → Shows tenant t status
unfolding get_quota_status ◌>>=◌ query view_select usage_row pure raise
status-Shows tenant id t n status found ends =
    elim (Option-cases (latest_active tenant.id t.subscriptions)) [
      | inl off ↦
          let refused : outcome id t n ≡ raised (http_exception not_found) = rw (found, off) refl in
          cc (refused, ends)
      | inr (s, selected) ↦ elim (Option-cases (get_plan s.plan_id t)) [
        | inl off ↦
            let refused : outcome id t n ≡ raised attribute_error =
              rw (found, selected, off) refl in
            cc (refused, ends)
        | inr (plan, known) ↦
            let shown : outcome id t n ≡ returned (status_of tenant s plan t) =
              rw (found, selected, known) refl in
            shows s plan selected known (returned-injective (sym ends ∙ shown))
      ]
    ]

-- The check passes a request of `q` units, or refuses it with the status' numbers.
abbrev pub Agrees : EventType → ℕ → QuotaStatus → Outcome QuotaCheckResult → Type 0
Agrees type q status o =
    ((shown_used type status + q ≤ shown_limit type status)
      × ((c : QuotaCheckResult) × (o ≡ returned c)))
    ⊎ ((shown_limit type status < shown_used type status + q)
        × ((x : QuotaExceeded) × (o ≡ raised (quota_exceeded x))
            × (x.used ≡ shown_used type status)
            × (x.limit ≡ shown_limit type status)))

exceeded-Agrees :
    (tenant : Tenant) (type : EventType) (q : ℕ) (t : Tables) (o : Outcome QuotaCheckResult)
    (s : Subscription) (plan : Plan) (x : QuotaExceeded)
    → limit_of type plan < used_in type tenant s t + q
    → o ≡ raised (quota_exceeded x)
    → x.used ≡ used_in type tenant s t
    → x.limit ≡ limit_of type plan
    → Agrees type q (status_of tenant s plan t) o
exceeded-Agrees tenant EventType.api_call q t o s plan x over e used limit =
    inr (over, (x, e, used, limit))
exceeded-Agrees tenant EventType.ai_token q t o s plan x over e used limit =
    inr (over, (x, e, used, limit))

allowed-Agrees :
    (tenant : Tenant) (type : EventType) (q : ℕ) (t : Tables) (o : Outcome QuotaCheckResult)
    (s : Subscription) (plan : Plan) (c : QuotaCheckResult)
    → used_in type tenant s t + q ≤ limit_of type plan
    → o ≡ returned c
    → Agrees type q (status_of tenant s plan t) o
allowed-Agrees tenant EventType.api_call q t o s plan c fits e = inl (fits, (c, e))
allowed-Agrees tenant EventType.ai_token q t o s plan c fits e = inl (fits, (c, e))

-- The statement selects one row, and it names one plan.
same-Agrees :
    (tenant : Tenant) (type : EventType) (q : ℕ) (t : Tables) (o : Outcome QuotaCheckResult)
    {s s' : Subscription} {plan plan' : Plan}
    → latest_active tenant.id t.subscriptions ≡ some s'
    → latest_active tenant.id t.subscriptions ≡ some s
    → get_plan s'.plan_id t ≡ some plan'
    → get_plan s.plan_id t ≡ some plan
    → Agrees type q (status_of tenant s' plan' t) o
    → Agrees type q (status_of tenant s plan t) o
same-Agrees tenant type q t o {s} {s'} {plan} {plan'} selected' selected found' found h =
    let same = some-injective (sym selected' ∙ selected) in
    let found'' = subst (λ (x : Subscription). get_plan x.plan_id t ≡ some plan') same found' in
    subst (λ p. Agrees type q (status_of tenant s p t) o) (some-injective (sym found'' ∙ found))
      (subst (λ x. Agrees type q (status_of tenant x plan' t) o) same h)

contradicts : {a b : ℕ} → a ≤ b → ¬ (b < a)
contradicts h k = omega arith

pub Decides-Agrees :
    (tenant : Tenant) (type : EventType) (q now : ℕ) (t : Tables) (o : Outcome QuotaCheckResult)
    (s : Subscription) (plan : Plan)
    → Decides tenant type q now t o
    → tenant.status ≡ TenantStatus.active
    → latest_active tenant.id t.subscriptions ≡ some s
    → get_plan s.plan_id t ≡ some plan
    → now < s.current_period_end
    → Agrees type q (status_of tenant s plan t) o
Decides-Agrees tenant type q now t o s plan (blocked off _) active selected known early =
    absurd (off active)
Decides-Agrees tenant type q now t o s plan (unsubscribed _ all _) active selected known early =
    let latest =
      subst (Selects tenant.id t.subscriptions) selected
        (latest_active-Selects tenant.id t.subscriptions) in
    let off = All-apply (λ u. is_current tenant.id u ≡ false) t.subscriptions all latest.0 in
    cc (off, latest.1)
Decides-Agrees tenant type q now t o s plan (ended s' _ latest over _) active selected known early =
    let same = some-injective (sym latest.0 ∙ selected) in
    let over' = subst (λ (x : Subscription). x.current_period_end ≤ now) same over in
    absurd (contradicts over' early)
Decides-Agrees tenant type q now t o s plan (planless s' _ latest _ off _) active selected known
      early =
    let same = some-injective (sym latest.0 ∙ selected) in
    cc (subst (λ (x : Subscription). get_plan x.plan_id t ≡ none) same off, known)
Decides-Agrees tenant type q now t o s plan (exceeded s' plan' _ latest _ found over e) active
      selected known early =
    same-Agrees tenant type q t o latest.0 selected found known
      (exceeded-Agrees tenant type q t o s' plan' _ over e refl refl)
Decides-Agrees tenant type q now t o s plan (allowed s' plan' _ latest _ found fits e) active
      selected known early =
    same-Agrees tenant type q t o latest.0 selected found known
      (allowed-Agrees tenant type q t o s' plan' _ fits e)

Shows-Agrees :
    {tenant : Tenant} {type : EventType} {q now : ℕ} {t : Tables} {o : Outcome QuotaCheckResult}
    {status : QuotaStatus}
    → Shows tenant t status
    → Decides tenant type q now t o
    → tenant.status ≡ TenantStatus.active
    → now < status.period_end
    → Agrees type q status o
Shows-Agrees {tenant} {type} {q} {now} {t} {o} (shows s plan selected known e) d active early =
    subst (λ status. Agrees type q status o) (sym e)
      (Decides-Agrees tenant type q now t o s plan d active selected known
        (subst (λ (status : QuotaStatus). now < status.period_end) e early))

-- If the status of a tenant was shown, on a lawful session opened on tables whose periods `datetime`
-- can hold, then every check of the tenant while its own status is
-- ACTIVE, on any lawful session opened on the same tables, at an instant before the end of the
-- period that was shown, for any event type and quantity, passes the request where the usage shown
-- plus the quantity is within the limit shown, and otherwise ends in a 429 with those two numbers.
pub get_quota_status-Agrees :
    (E : Env) {D check_db : Database} {view : D.Session → View}
    {check_view : check_db.Session → View}
    → IsLawful D view
    → IsLawful check_db check_view
    → (tenant : Tenant) (type : EventType) (q : ℕ) (t : Tables) (r : Run D.Session)
      (later : Run check_db.Session) (status : QuotaStatus)
    → LoadsAll E
    → EndsInRange t
    → view r.session ≡ opened t
    → check_view later.session ≡ opened t
    → get_tenant tenant.id t ≡ some tenant
    → tenant.status ≡ TenantStatus.active
    → (get_quota_status D tenant.id r).0 ≡ returned status
    → E.now later.draws < status.period_end
    → Agrees type q status (check_and_reserve E check_db tenant type q later).0
get_quota_status-Agrees E {check_db} lawful check_lawful tenant type q t r later status loads range
      fresh opens found active ends early =
    let shown = status-Shows tenant tenant.id t r.draws status found (
      sym (
        ap (λ (p : Outcome QuotaStatus × Run View). p.0)
          ((Simulates-get_quota_status lawful tenant.id).at r)
        ∙ ap
            (λ (v : View).
              (get_quota_status contract tenant.id (record { session = v; draws = r.draws })).0)
            fresh)
      ∙ ends) in
    let d =
      subst
        (λ (v : View).
          Decides tenant type q (E.now later.draws) v.visible
            (check_and_reserve E check_db tenant type q later).0)
        opens
        (check_and_reserve-Decides E check_lawful tenant type q later loads
          (subst (λ (v : View). EndsInRange v.visible) (sym opens) range)
          (subst (λ (v : View). v.failed ≡ false) (sym opens) refl)) in
    Shows-Agrees shown d active early
