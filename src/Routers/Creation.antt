-- ===== src/Routers/Creation.antt =====
-- What the creation of a tenant stores.
use flyrank_backend_capstone.Prelude.{
  ℕ, suc, ◌+◌, ◌≤◌, ◌≡◌, refl, List, [], ◌∷◌, some, none, Bool, String, Option, find, true, false,
  arith, All, ◌==◌, same_text,
}
use flyrank_backend_capstone.Models.{Tenant, Plan, Subscription, UsageEvent, plan_type_value}
use flyrank_backend_capstone.Clock.{max_instant, thirty_days}
use flyrank_backend_capstone.Clock.Laws.{add_timedelta-some}
use flyrank_backend_capstone.Schemas.{TenantCreate}
use flyrank_backend_capstone.Store.Schema.{
  Tables, fits_text, get_tenant, get_plan, is_some, apply_change, apply_changes, insert_tenant,
  insert_subscription, subscription_with_id, tenant_with_customer_id, subscription_with_stripe_id,
  clashes,
}
use flyrank_backend_capstone.Store.Database.{
  contract, opened, view_add, view_flush, view_commit, view_select,
}
use flyrank_backend_capstone.Store.Action.{
  Env, returned, ◌>>=◌, draw, add, flush, commit, pure, query,
}
use flyrank_backend_capstone.Store.Scalar.{one_row, scalar_one, scalar_one-Member, find-Member}
use flyrank_backend_capstone.Routers.Tenants.{
  tenant_row, first_subscription, tenant_response, create_tenant,
}

-- The rows of a tenant that is created by the draws from `n` on.
abbrev pub new_row : Env → TenantCreate → ℕ → Tenant
new_row E payload n = tenant_row payload (E.uuid4 n) (E.now (suc n))

abbrev pub new_period : Env → TenantCreate → Plan → ℕ → Subscription
new_period E payload plan n =
    first_subscription (E.serial (suc (suc (suc n)))) (E.uuid4 n) plan.id (E.now (suc (suc n)))
      (E.now (suc (suc n)) + thirty_days)

abbrev pub created_tables : Env → TenantCreate → Plan → ℕ → Tables → Tables
created_tables E payload plan n t = record t {
  tenants = new_row E payload n ∷ t.tenants;
  subscriptions = new_period E payload plan n ∷ t.subscriptions;
}

-- The identifier is new: no row has it, or refers to it.
pub record IsNewId (id : ℕ) (t : Tables) : Type 0 where
  pub tenant : get_tenant id t ≡ none
  pub subscriptions : All (λ (s : Subscription). (s.tenant_id == id) ≡ false) t.subscriptions
  pub events : All (λ (e : UsageEvent). (e.tenant_id == id) ≡ false) t.usage_events

find-all_false :
    {A : Type 0} (p : A → Bool) (xs : List A) → ((a : A) → p a ≡ false) → find p xs ≡ none
find-all_false p [] h = refl
find-all_false p (x ∷ xs) h = rw (h x) (find-all_false p xs h)

-- NULL clashes with nothing.
clashes-none : (a : Option String) → clashes a none ≡ false
clashes-none none = refl
clashes-none (some a) = refl

no_customer : (t : Tables) → tenant_with_customer_id none t ≡ none
no_customer t = find-all_false _ t.tenants (λ r. clashes-none r.stripe_customer_id)

no_stripe_id : (t : Tables) → subscription_with_stripe_id none t ≡ none
no_stripe_id t = find-all_false _ t.subscriptions (λ r. clashes-none r.stripe_subscription_id)

module _ (E : Env) (payload : TenantCreate) (plan : Plan) (t : Tables) (n : ℕ)
    (selected : scalar_one
        (λ (p : Plan). same_text p.name (plan_type_value payload.plan_type))
        t.plans
      ≡ one_row plan)
    (short : fits_text 255 payload.name ≡ true) (fresh : IsNewId (E.uuid4 n) t)
    (new_serial : subscription_with_id (E.serial (suc (suc (suc n)))) t ≡ none)
    (range : E.now (suc (suc n)) + thirty_days ≤ max_instant) where
  known_plan : is_some (get_plan plan.id t) ≡ true
  known_plan =
      let (m, _) = scalar_one-Member _ t.plans plan selected in
      find-Member _ t.plans plan m (ground arith)

  same_id : (E.uuid4 n == E.uuid4 n) ≡ true
  same_id = ground arith

  pub create_tenant-contract :
      create_tenant E contract payload (record { session = opened t; draws = n }) ≡ (
        returned (tenant_response (new_row E payload n)),
        record {
          session = opened (created_tables E payload plan n t);
          draws = suc (suc (suc (suc n)));
        },
      )
  unfolding create_tenant ◌>>=◌ draw add flush commit pure query view_add view_flush view_commit
      view_select apply_changes apply_change insert_tenant insert_subscription
  create_tenant-contract =
      rw
        (
          selected,
          short,
          fresh.tenant,
          no_customer t,
          add_timedelta-some (E.now (suc (suc n))) thirty_days range,
          new_serial,
          no_stripe_id t,
          same_id,
          known_plan,
        )
        (rw same_id refl)
