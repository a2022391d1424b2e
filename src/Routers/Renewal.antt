-- ===== src/Routers/Renewal.antt =====
-- A tenant whose checkout was completed can be metered by the new subscription at once.
use flyrank_backend_capstone.Prelude.{
  ℕ, suc, ◌+◌, ◌≤◌, ◌<◌, ◌≡◌, refl, sym, subst, ap, ◌∙◌, List, [], ◌∷◌, some, none, true, sum_by,
  arith, All, All-apply, same_text, Option-cases, inl, inr,
}
use flyrank_backend_capstone.Models.{
  Tenant, TenantStatus, Plan, PlanType, Subscription, UsageEvent, EventType,
}
use flyrank_backend_capstone.Clock.{max_instant, thirty_days}
use flyrank_backend_capstone.Store.Schema.{
  Tables, fits_text, fits_nullable, get_plan, get_processed_webhook, subscription_with_id,
  subscription_with_stripe_id, column_eq,
}
use flyrank_backend_capstone.Store.Database.{Database, View, IsLawful, opened}
use flyrank_backend_capstone.Store.Action.{Env, returned, Run}
use flyrank_backend_capstone.Store.Scalar.{one_row, scalar_one}
use flyrank_backend_capstone.Quota.{
  QuotaCheckResult, is_current, later_of, latest_active, period_usage, quantity_in,
  check_and_reserve, limit_of,
}
use flyrank_backend_capstone.Quota.Decision.{LoadsAll, EndsInRange}
use flyrank_backend_capstone.Quota.Locking.{Selects, latest_active-Selects, later_of-more}
use flyrank_backend_capstone.Webhooks.{missing, get, Event, handle_event}
use flyrank_backend_capstone.Webhooks.Customers.{granted_row, granted_tables, checkout_grants}
use flyrank_backend_capstone.Routers.Unused.{opened-Passes}

-- No event before the start of a period is counted in it.
period_usage-earlier :
    (id start end : ℕ) (type : EventType) (t : Tables)
    → All (λ (e : UsageEvent). e.timestamp < start) t.usage_events
    → period_usage id start end type t ≡ 0
unfolding period_usage
period_usage-earlier id start end type t h = sum_of_none t.usage_events h
  where
    sum_of_none :
        (es : List UsageEvent)
        → All (λ (e : UsageEvent). e.timestamp < start) es
        → sum_by (quantity_in id start end type) es ≡ 0
    sum_of_none [] h = refl
    sum_of_none (e ∷ es) h = ground (arith, h.0, sum_of_none es h.1)

-- A subscription that ends later than the others is selected as soon as it is there.
latest_active-newest :
    (s : Subscription) (ss : List Subscription)
    → is_current s.tenant_id s ≡ true
    → All (λ u. is_current s.tenant_id u ≡ true → u.current_period_end < s.current_period_end) ss
    → latest_active s.tenant_id (s ∷ ss) ≡ some s
unfolding latest_active later_of
latest_active-newest s ss on h = elim (Option-cases (latest_active s.tenant_id ss)) [
  | inl none_there ↦ rw (on, none_there) refl
  | inr (u, there) ↦
      let latest = subst (Selects s.tenant_id ss) there (latest_active-Selects s.tenant_id ss) in
      let ends : u.current_period_end < s.current_period_end =
        All-apply
          (λ u. is_current s.tenant_id u ≡ true → u.current_period_end < s.current_period_end) ss h
          latest.0 latest.1 in
      rw (on, there) (ap some (later_of-more s u (ground arith)))
]

granted-is_current :
    (E : Env) (event : Event) (tenant : Tenant) (plan : Plan) (n : ℕ)
    → is_current tenant.id (granted_row E event tenant plan n) ≡ true
granted-is_current E event tenant plan n = ground arith

-- A checkout event that is new and carries no line items, on a lawful session opened on tables where
-- exactly one tenant's `stripe_customer_id` equals the event's customer (NULL where the event's is
-- missing or null), where exactly one plan is named "pro" and its id finds it, where the new row's
-- two keys are free, where the ids of the event and of its subscription fit 255 characters, thirty
-- days before `datetime.max` at the latest, and for a tenant whose status is ACTIVE and whose ACTIVE
-- subscriptions end earlier than thirty days after the clock of the delivery, where every usage
-- event is earlier than that clock: every check of the tenant, with the row as the delivery leaves
-- it, in those thirty days, on any lawful session opened on the tables that were stored, passes each
-- request of a quantity within the plan's limit for its type.
pub checkout_passes :
    (E later_env : Env) {D later_db : Database} {view : D.Session → View}
    {later_view : later_db.Session → View}
    → IsLawful D view
    → IsLawful later_db later_view
    → (event : Event) (t stored : Tables) (r : Run D.Session) (later : Run later_db.Session)
      (tenant : Tenant) (plan : Plan) (type : EventType) (q : ℕ)
    → view r.session ≡ opened t
    → event.type ≡ "checkout.session.completed"
    → event.object.line_items ≡ missing
    → fits_text 255 event.id ≡ true
    → get_processed_webhook event.id t ≡ none
    → scalar_one
        (λ (x : Tenant). column_eq x.stripe_customer_id (get event.object.customer))
        t.tenants
      ≡ one_row tenant
    → scalar_one (λ (x : Plan). same_text x.name "pro") t.plans ≡ one_row plan
    → subscription_with_id (E.serial (suc (suc r.draws))) t ≡ none
    → fits_nullable 255 (get event.object.subscription) ≡ true
    → subscription_with_stripe_id (get event.object.subscription) t ≡ none
    → E.now (suc r.draws) + thirty_days ≤ max_instant
    → tenant.status ≡ TenantStatus.active
    → All
        (λ u.
          is_current tenant.id u ≡ true → u.current_period_end < E.now (suc r.draws) + thirty_days)
        t.subscriptions
    → All (λ (e : UsageEvent). e.timestamp < E.now (suc r.draws)) t.usage_events
    → get_plan plan.id t ≡ some plan
    → EndsInRange t
    → LoadsAll later_env
    → (view (handle_event E D event r).1.session).stored ≡ stored
    → later_view later.session ≡ opened stored
    → later_env.now later.draws < E.now (suc r.draws) + thirty_days
    → q ≤ limit_of type plan
    → (c : QuotaCheckResult) × ((check_and_reserve later_env later_db
          (record tenant { plan_type = PlanType.pro })
          type
          q
          later).0
        ≡ returned c)
checkout_passes E later_env lawful later_lawful event t stored r later tenant plan type q fresh
      is_checkout no_items short is_new owner pro new_id short_id new_stripe_id range active latest
      earlier found ranges loads kept reopened early fits =
    let (_, after) =
      checkout_grants E lawful event t r tenant plan fresh is_checkout no_items short is_new owner
        pro new_id short_id new_stripe_id range in
    let s = granted_row E event tenant plan r.draws in
    let u = granted_tables E event tenant plan r.draws t in
    opened-Passes later_env later_lawful (record tenant { plan_type = PlanType.pro }) type q u s
      plan later loads (range, ranges) (reopened ∙ ap opened (sym kept ∙ after)) active
      (latest_active-newest s t.subscriptions (granted-is_current E event tenant plan r.draws)
        latest)
      found early
      (period_usage-earlier tenant.id (E.now (suc r.draws)) (E.now (suc r.draws) + thirty_days) type
        u earlier)
      fits
