-- ===== src/Quota/Waiting.antt =====
-- What `Retry-After` promises, and what a client meets that waits.
use flyrank_backend_capstone.Prelude.{
  ℕ, max, ◌+◌, ◌*◌, ◌≤◌, ◌<◌, ◌≡◌, sym, subst, true, false, List, arith, All-apply,
}
use flyrank_backend_capstone.Models.{Tenant, TenantStatus, Subscription, EventType}
use flyrank_backend_capstone.Store.Schema.{Tables}
use flyrank_backend_capstone.Store.Database.{Database, View, IsLawful}
use flyrank_backend_capstone.Store.Action.{
  Env, period_ended, QuotaExceeded, quota_exceeded, payment_required, Outcome, raised, Run,
}
use flyrank_backend_capstone.Quota.Defs.{
  QuotaCheckResult, is_current, retry_after, check_and_reserve,
}
use flyrank_backend_capstone.Quota.Locking.{IsLatest, IsSelected}
use flyrank_backend_capstone.Quota.Decision.{
  Decides, blocked, unsubscribed, ended, planless, exceeded, allowed, LoadsAll, EndsInRange,
  check_and_reserve-Decides,
}

-- For every instant before the end of the period, the seconds of `Retry-After` are at least 1, do
-- not reach past the end of the period unless less than one second of it is left, and leave less
-- than one second of it.
pub retry_after_bounds :
    (period_end now : ℕ)
    → now < period_end
    → (1 ≤ retry_after period_end now)
      × (now + retry_after period_end now * 1000000 ≤ max period_end (now + 1000000))
      × (period_end < now + (retry_after period_end now + 1) * 1000000)
unfolding retry_after
retry_after_bounds period_end now h = omega arith

-- The period that a refusal speaks of ends less than a second after the advised wait.
Decides-exceeded :
    {tenant : Tenant} {type : EventType} {q now : ℕ} {t : Tables} {o : Outcome QuotaCheckResult}
    (x : QuotaExceeded)
    → Decides tenant type q now t o
    → o ≡ raised (quota_exceeded x)
    → (s : Subscription) × (tenant.status ≡ TenantStatus.active)
      × IsSelected tenant.id t.subscriptions s
      × (s.current_period_end < now + (x.retry_after_seconds + 1) * 1000000)
Decides-exceeded x (blocked _ e) h = cc
Decides-exceeded x (unsubscribed _ _ e) h = cc
Decides-exceeded x (ended s _ _ _ e) h = cc
Decides-exceeded x (planless s _ _ _ _ e) h = cc
Decides-exceeded {now} x (exceeded s plan on latest before _ _ e) h =
    let after = retry_after_bounds s.current_period_end now before in (s, on, latest, ground arith)
Decides-exceeded x (allowed s plan _ _ _ _ _ e) h = cc

latest_ends :
    (id : ℕ) (ss : List Subscription) (s u : Subscription)
    → IsLatest id ss s
    → IsLatest id ss u
    → u.current_period_end ≤ s.current_period_end
latest_ends id ss s u a b =
    All-apply (λ v. is_current id v ≡ true → v.current_period_end ≤ s.current_period_end) ss a.2 b.0
      b.1

Decides-ended :
    {tenant : Tenant} {type : EventType} {q now : ℕ} {t : Tables} {o : Outcome QuotaCheckResult}
    (s : Subscription)
    → tenant.status ≡ TenantStatus.active
    → IsSelected tenant.id t.subscriptions s
    → s.current_period_end ≤ now
    → Decides tenant type q now t o
    → o ≡ raised (payment_required period_ended)
Decides-ended s on latest over (blocked off e) = absurd (off on)
Decides-ended {tenant} {t} s on latest over (unsubscribed _ missing e) =
    cc (
      All-apply (λ u. is_current tenant.id u ≡ false) t.subscriptions missing latest.1.0,
      latest.1.1,
    )
Decides-ended s on latest over (ended u _ _ _ e) = e
Decides-ended {tenant} {t} s on latest over (planless u _ lu before _ e) =
    absurd (omega (arith, latest_ends tenant.id t.subscriptions s u latest.1 lu.1))
Decides-ended {tenant} {t} s on latest over (exceeded u plan _ lu before _ _ e) =
    absurd (omega (arith, latest_ends tenant.id t.subscriptions s u latest.1 lu.1))
Decides-ended {tenant} {t} s on latest over (allowed u plan _ lu before _ _ e) =
    absurd (omega (arith, latest_ends tenant.id t.subscriptions s u latest.1 lu.1))

-- For every environment and every lawful session whose last flush did not fail and whose tables have
-- periods that `datetime` can hold: where a check answers 429, every check for the tenant
-- on the same tables that reads the clock one second or more after the advised wait answers 402
-- for the lapsed period, whatever it asks for, so a client that waits gets through only once the
-- subscription has been renewed.
pub quota_exceeded-period_ended :
    (E : Env) {D : Database} {view : D.Session → View}
    → IsLawful D view
    → (tenant : Tenant) (type later_type : EventType) (q later_q : ℕ) (x : QuotaExceeded)
      (r later : Run D.Session)
    → LoadsAll E
    → EndsInRange (view r.session).visible
    → (view r.session).failed ≡ false
    → (view later.session).failed ≡ false
    → (view later.session).visible ≡ (view r.session).visible
    → (check_and_reserve E D tenant type q r).0 ≡ raised (quota_exceeded x)
    → E.now r.draws + (x.retry_after_seconds + 1) * 1000000 ≤ E.now later.draws
    → (check_and_reserve E D tenant later_type later_q later).0
      ≡ raised (payment_required period_ended)
quota_exceeded-period_ended E {view} lawful tenant type later_type q later_q x r later loads range
      ok later_ok same refused waited =
    let first = check_and_reserve-Decides E lawful tenant type q r loads range ok in
    let (s, on, latest, near) = Decides-exceeded x first refused in
    Decides-ended s on
      (subst (λ (t : Tables). IsSelected tenant.id t.subscriptions s) (sym same) latest)
      (omega arith)
      (check_and_reserve-Decides E lawful tenant later_type later_q later loads
        (subst EndsInRange (sym same) range) later_ok)
