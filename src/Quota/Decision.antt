-- ===== src/Quota/Decision.antt =====
-- `QuotaEnforcer.check_and_reserve` against a description of its decision, over any lawful session.
use flyrank_backend_capstone.Prelude.{
  ℕ, ◌+◌, ◌≤◌, ◌<◌, ◌≡◌, ◌≢◌, refl, ap, true, false, none, some, arith, leb, ltb, All, Bool-cases,
  Option-cases, inl, inr, ◌⊎◌, subst, sym, List, Member, All-apply,
}
use flyrank_backend_capstone.Models.{
  Tenant, TenantStatus, Plan, Subscription, EventType, is_active_tenant,
}
use flyrank_backend_capstone.Clock.{as_aware_utc, max_instant}
use flyrank_backend_capstone.Clock.Laws.{Loads, as_aware_utc-Loads}
use flyrank_backend_capstone.Store.Schema.{Tables, get_plan}
use flyrank_backend_capstone.Store.Database.{Database, View, IsLawful, contract, view_select}
use flyrank_backend_capstone.Store.Action.{
  Env, tenant_blocked, no_active_subscription, period_ended, unknown_plan, quota_exceeded,
  payment_required, Outcome, returned, raised, Run, ◌>>=◌, query, draw,
}
use flyrank_backend_capstone.Store.Simulation.{Simulates, through, simulation}
use flyrank_backend_capstone.Store.ReadsOnly.{ReadsOnly, reads_only}
use flyrank_backend_capstone.Quota.Defs.{
  QuotaCheckResult, is_current, limit_of, used_of, retry_after, period_usage, latest_active,
  check_subscription, check_and_reserve,
}
use flyrank_backend_capstone.Quota.Locking.{IsSelected, Selects, latest_active-Selects}

-- The usage of the subscription's period that counts against the event type's limit.
abbrev pub used_in : EventType → Tenant → Subscription → Tables → ℕ
used_in type tenant s t =
    used_of type
      (period_usage tenant.id s.current_period_start s.current_period_end EventType.api_call t)
      (period_usage tenant.id s.current_period_start s.current_period_end EventType.ai_token t)

abbrev pub check_result : Tenant → Subscription → Plan → Tables → QuotaCheckResult
check_result tenant s plan t = record {
  plan = plan;
  subscription = s;
  api_calls_used =
      period_usage tenant.id s.current_period_start s.current_period_end EventType.api_call t;
  tokens_used =
      period_usage tenant.id s.current_period_start s.current_period_end EventType.ai_token t;
}

-- The decision for a request of `q` units at the instant `now`, one rule for each way it ends.
pub data Decides (tenant : Tenant) (type : EventType) (q now : ℕ) (t : Tables)
    (o : Outcome QuotaCheckResult) : Type 0 where
  blocked :
      tenant.status ≢ TenantStatus.active
      → o ≡ raised (payment_required (tenant_blocked tenant.status))
      → Decides tenant type q now t o
  unsubscribed :
      tenant.status ≡ TenantStatus.active
      → All (λ u. is_current tenant.id u ≡ false) t.subscriptions
      → o ≡ raised (payment_required no_active_subscription)
      → Decides tenant type q now t o
  ended :
      (s : Subscription)
      → tenant.status ≡ TenantStatus.active
      → IsSelected tenant.id t.subscriptions s
      → s.current_period_end ≤ now
      → o ≡ raised (payment_required period_ended)
      → Decides tenant type q now t o
  planless :
      (s : Subscription)
      → tenant.status ≡ TenantStatus.active
      → IsSelected tenant.id t.subscriptions s
      → now < s.current_period_end
      → get_plan s.plan_id t ≡ none
      → o ≡ raised (payment_required unknown_plan)
      → Decides tenant type q now t o
  exceeded :
      (s : Subscription) (plan : Plan)
      → tenant.status ≡ TenantStatus.active
      → IsSelected tenant.id t.subscriptions s
      → now < s.current_period_end
      → get_plan s.plan_id t ≡ some plan
      → limit_of type plan < used_in type tenant s t + q
      → o
        ≡ raised (
            quota_exceeded (record {
              limit = limit_of type plan;
              used = used_in type tenant s t;
              requested = q;
              retry_after_seconds = retry_after s.current_period_end now;
            }))
      → Decides tenant type q now t o
  allowed :
      (s : Subscription) (plan : Plan)
      → tenant.status ≡ TenantStatus.active
      → IsSelected tenant.id t.subscriptions s
      → now < s.current_period_end
      → get_plan s.plan_id t ≡ some plan
      → used_in type tenant s t + q ≤ limit_of type plan
      → o ≡ returned (check_result tenant s plan t)
      → Decides tenant type q now t o

-- The driver returns each stored instant in one of the known ways.
abbrev pub LoadsAll : Env → Type 0
LoadsAll E = (t : ℕ) → Loads t (E.loaded t)

-- Every period of the table ends within the range of `datetime`.
abbrev pub EndsInRange : Tables → Type 0
EndsInRange t = All (λ s. s.current_period_end ≤ max_instant) t.subscriptions

tenant_status-cases :
    (s : TenantStatus)
    → ((s ≡ TenantStatus.active) × (is_active_tenant s ≡ true))
      ⊎ ((s ≢ TenantStatus.active) × (is_active_tenant s ≡ false))
tenant_status-cases TenantStatus.active = inl (refl, refl)
tenant_status-cases TenantStatus.suspended = inr (λ e. cc, refl)
tenant_status-cases TenantStatus.canceled = inr (λ e. cc, refl)

module _ (E : Env) where
  pub Simulates-check_and_reserve :
      {D : Database} {view : D.Session → View}
      → IsLawful D view
      → (tenant : Tenant) (type : EventType) (q : ℕ)
      → Simulates view
          (check_and_reserve E D tenant type q)
          (check_and_reserve E contract tenant type q)
  unfolding check_and_reserve
  Simulates-check_and_reserve lawful tenant type q = search simulation depth 20

  check_subscription-contract :
      (tenant : Tenant) (type : EventType) (q : ℕ) (s : Subscription) (r : Run View)
      → r.session.failed ≡ false
      → tenant.status ≡ TenantStatus.active
      → IsSelected tenant.id r.session.visible.subscriptions s
      → as_aware_utc (E.loaded s.current_period_end) ≡ some s.current_period_end
      → Decides tenant type q
          (E.now r.draws)
          r.session.visible
          (check_subscription E contract tenant type q s r).0
  unfolding check_subscription ◌>>=◌ query draw view_select
  check_subscription-contract tenant type q s r ok active latest loads =
      rw (loads, ok)
        (elim (Bool-cases (leb s.current_period_end (E.now r.draws))) [
          | inl over ↦ rw over (ended s active latest (ground arith) refl)
          | inr on ↦ rw on (elim (Option-cases (get_plan s.plan_id r.session.visible)) [
            | inl missing ↦ rw missing (planless s active latest (ground arith) missing refl)
            | inr (plan, found) ↦
                rw found
                  (elim (Bool-cases
                    (ltb (limit_of type plan) (used_in type tenant s r.session.visible + q))) [
                      | inl over ↦
                          rw over
                            (exceeded s plan active latest (ground arith) found (ground arith) refl)
                      | inr fits ↦
                          rw fits
                            (allowed s plan active latest (ground arith) found (ground arith) refl)
                    ])
          ])
        ])

  pub check_and_reserve-contract :
      (tenant : Tenant) (type : EventType) (q : ℕ) (r : Run View)
      → LoadsAll E
      → EndsInRange r.session.visible
      → r.session.failed ≡ false
      → Decides tenant type q
          (E.now r.draws)
          r.session.visible
          (check_and_reserve E contract tenant type q r).0
  unfolding check_and_reserve ◌>>=◌ query view_select
  check_and_reserve-contract tenant type q r loads range ok =
      elim (tenant_status-cases tenant.status) [
        | inr (off, e) ↦ rw e (blocked off refl)
        | inl (on, e) ↦
            rw (e, ok)
              (elim (Option-cases (latest_active tenant.id r.session.visible.subscriptions)) [
                | inl missing ↦
                    rw missing (
                      unsubscribed on (subst (Selects tenant.id subscriptions) missing selects)
                        refl)
                | inr (s, found) ↦
                    let latest : IsSelected tenant.id subscriptions s =
                      (found, subst (Selects tenant.id subscriptions) found selects) in
                    rw found (
                      check_subscription-contract tenant type q s
                        (record r { session = record r.session { failed = false } }) refl on latest
                        (as_aware_utc-Loads s.current_period_end (in_range s latest.1.0)
                          (loads s.current_period_end)))
              ])
      ]
    where
      subscriptions : List Subscription
      subscriptions = r.session.visible.subscriptions

      selects : Selects tenant.id subscriptions (latest_active tenant.id subscriptions)
      selects = latest_active-Selects tenant.id subscriptions

      in_range : (s : Subscription) → Member s subscriptions → s.current_period_end ≤ max_instant
      in_range s = All-apply (λ u. u.current_period_end ≤ max_instant) subscriptions range

-- For every environment and every lawful session whose last flush did not fail and whose tables have
-- periods that `datetime` can hold, and for every request of `q` units, the check ends in the way that the tenant's status, the latest ACTIVE
-- subscription, its period, its plan and the period's usage decide at the instant that it reads:
-- 402 for a blocked tenant, a missing subscription, a lapsed period or an unknown plan, in this
-- order, 429 with the numbers exactly when the usage plus `q` passes the plan's limit, and the
-- rollup otherwise.
pub check_and_reserve-Decides :
    (E : Env) {D : Database} {view : D.Session → View}
    → IsLawful D view
    → (tenant : Tenant) (type : EventType) (q : ℕ) (r : Run D.Session) → LoadsAll E
    → EndsInRange (view r.session).visible
    → (view r.session).failed ≡ false
    → Decides tenant type q
        (E.now r.draws)
        (view r.session).visible
        (check_and_reserve E D tenant type q r).0
check_and_reserve-Decides E {D} {view} lawful tenant type q r loads range ok =
    subst (Decides tenant type q (E.now r.draws) (view r.session).visible)
      (sym (
        ap (λ (x : Outcome QuotaCheckResult × Run View). x.0)
          ((Simulates-check_and_reserve E lawful tenant type q).at r)))
      (check_and_reserve-contract E tenant type q (through view r) loads range ok)

-- For every environment, database session and request, whether the check passes or raises, it
-- leaves the session as it was: it adds, flushes, commits and rolls back nothing.
pub check_and_reserve-ReadsOnly :
    (E : Env) (D : Database) (tenant : Tenant) (type : EventType) (q : ℕ)
    → ReadsOnly (check_and_reserve E D tenant type q)
unfolding check_and_reserve
check_and_reserve-ReadsOnly E D tenant type q = search reads_only depth 20
