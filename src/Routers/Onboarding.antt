-- ===== src/Routers/Onboarding.antt =====
-- A tenant that was just created can be metered at once.
use flyrank_backend_capstone.Prelude.{
  ℕ, suc, ◌+◌, ◌≤◌, ◌<◌, ◌≡◌, refl, sym, ap, ◌∙◌, List, [], ◌∷◌, some, none, sum_by, true, false,
  arith, All, ◌==◌, same_text, All-weaken,
}
use flyrank_backend_capstone.Models.{Plan, UsageEvent, EventType, plan_type_value}
use flyrank_backend_capstone.Clock.{max_instant, thirty_days}
use flyrank_backend_capstone.Schemas.{TenantCreate, TenantResponse}
use flyrank_backend_capstone.Store.Schema.{Tables, fits_text, get_plan, subscription_with_id}
use flyrank_backend_capstone.Store.Database.{Database, View, IsLawful, contract, opened}
use flyrank_backend_capstone.Store.Action.{Env, Outcome, returned, Run}
use flyrank_backend_capstone.Store.Scalar.{one_row, scalar_one}
use flyrank_backend_capstone.Quota.{
  QuotaCheckResult, latest_active, later_of, period_usage, check_and_reserve, limit_of, quantity_in,
}
use flyrank_backend_capstone.Quota.Decision.{LoadsAll, EndsInRange}
use flyrank_backend_capstone.Quota.Locking.{IsUnsubscribed-none}
use flyrank_backend_capstone.Routers.Tenants.{tenant_response, create_tenant}
use flyrank_backend_capstone.Routers.Simulated.{Simulates-create_tenant}
use flyrank_backend_capstone.Routers.Unused.{opened-Passes}
use flyrank_backend_capstone.Routers.Creation.{
  new_row, new_period, created_tables, IsNewId, create_tenant-contract,
}

module _ (E : Env) (payload : TenantCreate) (plan : Plan) (t : Tables) (n : ℕ)
    (fresh : IsNewId (E.uuid4 n) t) where
  same_id : (E.uuid4 n == E.uuid4 n) ≡ true
  same_id = ground arith

  -- No event of the new tenant is counted.
  no_usage :
      (start end : ℕ) (type : EventType)
      → period_usage (E.uuid4 n) start end type (created_tables E payload plan n t) ≡ 0
  unfolding period_usage
  no_usage start end type = sum_of_none t.usage_events fresh.events
    where
      sum_of_none :
          (es : List UsageEvent)
          → All (λ (e : UsageEvent). (e.tenant_id == E.uuid4 n) ≡ false) es
          → sum_by (quantity_in (E.uuid4 n) start end type) es ≡ 0
      sum_of_none [] h = refl
      sum_of_none (e ∷ es) h = rw h.0 (omega (arith, sum_of_none es h.1))

  selects_new :
      latest_active (E.uuid4 n) (created_tables E payload plan n t).subscriptions
      ≡ some (new_period E payload plan n)
  unfolding latest_active later_of
  selects_new =
      rw
        (
          same_id,
          IsUnsubscribed-none (E.uuid4 n) t.subscriptions
              (All-weaken t.subscriptions (λ s h. rw h refl) fresh.subscriptions),
        )
        refl

-- A payload whose name fits 255 characters and whose plan type names exactly one plan, the one that
-- its id finds, on a lawful session opened on tables whose periods `datetime` can hold and in which
-- the ids that are drawn are new, thirty days before `datetime.max` at the latest: the reply is the
-- new tenant, one
-- transaction stores it with thirty days of an ACTIVE subscription to the plan, and every check of
-- the tenant in those thirty days, on any lawful session opened on the tables that were stored,
-- passes each request of a quantity within the plan's limit for its type.
pub create_tenant-passes :
    (E later_env : Env) {D later_db : Database} {view : D.Session → View}
    {later_view : later_db.Session → View}
    → IsLawful D view
    → IsLawful later_db later_view
    → (payload : TenantCreate) (plan : Plan) (t stored : Tables) (r : Run D.Session)
      (later : Run later_db.Session) (type : EventType) (q : ℕ)
    → view r.session ≡ opened t
    → scalar_one (λ (p : Plan). same_text p.name (plan_type_value payload.plan_type)) t.plans
      ≡ one_row plan
    → get_plan plan.id t ≡ some plan
    → fits_text 255 payload.name ≡ true
    → IsNewId (E.uuid4 r.draws) t
    → subscription_with_id (E.serial (suc (suc (suc r.draws)))) t ≡ none
    → E.now (suc (suc r.draws)) + thirty_days ≤ max_instant
    → EndsInRange t
    → LoadsAll later_env
    → (view (create_tenant E D payload r).1.session).stored ≡ stored
    → later_view later.session ≡ opened stored
    → later_env.now later.draws < E.now (suc (suc r.draws)) + thirty_days
    → q ≤ limit_of type plan
    → ((create_tenant E D payload r).0 ≡ returned (tenant_response (new_row E payload r.draws)))
      × (stored ≡ created_tables E payload plan r.draws t)
      × ((c : QuotaCheckResult) × ((check_and_reserve later_env later_db
              (new_row E payload r.draws)
              type
              q
              later).0
            ≡ returned c))
create_tenant-passes E later_env {later_db} {view} {later_view} lawful later_lawful payload plan t
      stored r later type q opens selected found short fresh serial range ranges loads kept reopened
      early fits =
    let runs =
      (Simulates-create_tenant E lawful payload).at r
      ∙ ap
          (λ (v : View). create_tenant E contract payload (record { session = v; draws = r.draws }))
          opens
      ∙ create_tenant-contract E payload plan t r.draws selected short fresh serial range in
    let after =
      sym kept ∙ ap (λ (p : Outcome TenantResponse × Run View). p.1.session.stored) runs in
    let view_after = reopened ∙ ap opened after in
    (
      ap (λ (p : Outcome TenantResponse × Run View). p.0) runs,
      after,
      opened-Passes later_env later_lawful (new_row E payload r.draws) type q
          (created_tables E payload plan r.draws t) (new_period E payload plan r.draws) plan later
          loads (range, ranges) view_after refl (selects_new E payload plan t r.draws fresh) found
          early (no_usage E payload plan t r.draws fresh _ _ type) fits,
    )
