-- ===== src/Routers/Tenants.antt =====
-- The endpoints of app/routers/tenants.py.
use flyrank_backend_capstone.Prelude.{ℕ, none, same_text}
use flyrank_backend_capstone.Models.{
  Tenant, TenantStatus, Subscription, SubscriptionStatus, plan_type_value,
}
use flyrank_backend_capstone.Clock.{thirty_days, add_timedelta}
use flyrank_backend_capstone.Schemas.{ErrorCode, HttpException, TenantCreate, TenantResponse}
use flyrank_backend_capstone.Store.Schema.{get_tenant, new_tenant, new_subscription}
use flyrank_backend_capstone.Store.Database.{Database}
use flyrank_backend_capstone.Store.Action.{
  Env, http_exception, overflow_error, invalid_request_error, Action, pure, raise, draw, if_none,
  ◌>>=◌, ◌>>◌, query, add, flush, commit,
}
use flyrank_backend_capstone.Store.Scalar.{scalar_one, or_raise_many}
use flyrank_backend_capstone.Routers.Defs.{plain_detail, not_found}

abbrev pub unknown_plan_type : HttpException
unknown_plan_type = record {
  status_code = 422;
  detail = plain_detail ErrorCode.validation_error;
  retry_after = none;
}

-- The `Tenant(…)` that is added, with the defaults that its INSERT fills in.
abbrev pub tenant_row : TenantCreate → ℕ → ℕ → Tenant
tenant_row payload id created_at = record {
  id = id;
  name = payload.name;
  plan_type = payload.plan_type;
  stripe_customer_id = none;
  status = TenantStatus.active;
  created_at = created_at;
}

abbrev pub first_subscription : ℕ → ℕ → ℕ → ℕ → ℕ → Subscription
first_subscription id tenant_id plan_id now period_end = record {
  id = id;
  tenant_id = tenant_id;
  stripe_subscription_id = none;
  plan_id = plan_id;
  status = SubscriptionStatus.active;
  current_period_start = now;
  current_period_end = period_end;
}

-- `response_model=TenantResponse`, from the row's attributes.
abbrev pub tenant_response : Tenant → TenantResponse
tenant_response tenant = record {
  id = tenant.id;
  name = tenant.name;
  plan_type = tenant.plan_type;
  status = tenant.status;
  stripe_customer_id = tenant.stripe_customer_id;
  created_at = tenant.created_at;
}

module _ (E : Env) (D : Database) where
  -- `db.refresh` reads the row again, and raises if it is gone.
  unfoldable pub create_tenant : TenantCreate → Action D.Session TenantResponse
  unfolding add_timedelta
  create_tenant payload = do
    plans ←
        query D
          (λ t. scalar_one (λ p. same_text p.name (plan_type_value payload.plan_type)) t.plans)
    found ← or_raise_many plans
    if_none found (raise (http_exception unknown_plan_type)) λ plan. do
      id ← draw E.uuid4
      created_at ← draw E.now
      let tenant = tenant_row payload id created_at
      add D (new_tenant tenant)
      flush D
      now ← draw E.now
      if_none (add_timedelta now thirty_days) (raise overflow_error) λ period_end. do
        subscription_id ← draw E.serial
        add D
            (new_subscription (first_subscription subscription_id tenant.id plan.id now period_end))
        commit D
        refreshed ← query D (get_tenant tenant.id)
        if_none refreshed (raise invalid_request_error) λ row. pure (tenant_response row)

module _ (D : Database) where
  -- `get_tenant`
  unfoldable pub read_tenant : ℕ → Action D.Session TenantResponse
  read_tenant tenant_id = do
    found ← query D (get_tenant tenant_id)
    if_none found (raise (http_exception not_found)) λ tenant. pure (tenant_response tenant)
