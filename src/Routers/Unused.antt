-- ===== src/Routers/Unused.antt =====
-- A tenant whose selected subscription has not been used.
use flyrank_backend_capstone.Prelude.{
  ℕ, ◌+◌, ◌≤◌, ◌<◌, ◌≡◌, refl, sym, subst, some, false, arith, inl, inr,
}
use flyrank_backend_capstone.Models.{Tenant, TenantStatus, Subscription, Plan, EventType}
use flyrank_backend_capstone.Store.Schema.{Tables, get_plan}
use flyrank_backend_capstone.Store.Database.{Database, View, IsLawful, opened}
use flyrank_backend_capstone.Store.Action.{Env, Outcome, returned, Run}
use flyrank_backend_capstone.Quota.{
  QuotaCheckResult, latest_active, period_usage, check_and_reserve, limit_of,
}
use flyrank_backend_capstone.Quota.Decision.{
  Decides, check_and_reserve-Decides, LoadsAll, EndsInRange,
}
use flyrank_backend_capstone.Routers.Agreement.{Decides-Agrees, status_of, shown_used, shown_limit}

module _ (tenant : Tenant) (type : EventType) (q : ℕ) (t : Tables) (s : Subscription)
    (plan : Plan) where
  unused-room :
      (type : EventType)
      → period_usage tenant.id s.current_period_start s.current_period_end type t ≡ 0
      → shown_limit type (status_of tenant s plan t)
        < shown_used type (status_of tenant s plan t) + q
      → ¬ (q ≤ limit_of type plan)
  unused-room EventType.api_call unused over fits = omega (arith, unused)
  unused-room EventType.ai_token unused over fits = omega (arith, unused)

  unused-Passes :
      {now : ℕ} {o : Outcome QuotaCheckResult}
      → Decides tenant type q now t o
      → tenant.status ≡ TenantStatus.active
      → latest_active tenant.id t.subscriptions ≡ some s
      → get_plan s.plan_id t ≡ some plan
      → now < s.current_period_end
      → period_usage tenant.id s.current_period_start s.current_period_end type t ≡ 0
      → q ≤ limit_of type plan
      → (c : QuotaCheckResult) × (o ≡ returned c)
  unused-Passes {now} {o} d active selected found early unused fits =
      elim (Decides-Agrees tenant type q now t o s plan d active selected found early) [
        | inl (_, passed) ↦ passed
        | inr (over, _) ↦ absurd (unused-room type unused over fits)
      ]

-- On a session that is opened on such tables, every request within the plan's limit passes the check.
pub opened-Passes :
    (E : Env) {D : Database} {view : D.Session → View}
    → IsLawful D view
    → (tenant : Tenant) (type : EventType) (q : ℕ) (t : Tables) (s : Subscription) (plan : Plan)
      (r : Run D.Session)
    → LoadsAll E
    → EndsInRange t
    → view r.session ≡ opened t
    → tenant.status ≡ TenantStatus.active
    → latest_active tenant.id t.subscriptions ≡ some s
    → get_plan s.plan_id t ≡ some plan
    → E.now r.draws < s.current_period_end
    → period_usage tenant.id s.current_period_start s.current_period_end type t ≡ 0
    → q ≤ limit_of type plan
    → (c : QuotaCheckResult) × ((check_and_reserve E D tenant type q r).0 ≡ returned c)
opened-Passes E {D} {view} lawful tenant type q t s plan r loads ranges fresh active selected found
      early unused fits =
    unused-Passes tenant type q t s plan
      (subst
        (λ (v : View).
          Decides tenant type q (E.now r.draws) v.visible (check_and_reserve E D tenant type q r).0)
        fresh
        (check_and_reserve-Decides E lawful tenant type q r loads
          (subst (λ (v : View). EndsInRange v.visible) (sym fresh) ranges)
          (subst (λ (v : View). v.failed ≡ false) (sym fresh) refl)))
      active selected found early unused fits
