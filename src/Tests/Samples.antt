-- ===== src/Tests/Samples.antt =====
-- Tables, an environment and sessions for the tests. The instants are small numbers; the seeded
-- plans are those of alembic/versions/0001_initial_schema.py.
use flyrank_backend_capstone.Migration.{seeded_plans}
use flyrank_backend_capstone.Prelude.{ℕ, ◌+◌, ◌*◌, none, some, [], ◌∷◌}
use flyrank_backend_capstone.Models.{
  Tenant, Plan, Subscription, PlanType, TenantStatus, SubscriptionStatus,
}
use flyrank_backend_capstone.Clock.{naive}
use flyrank_backend_capstone.Clock.Laws.{Loads, as_naive}
use flyrank_backend_capstone.Store.Schema.{Tables}
use flyrank_backend_capstone.Store.Database.{View, opened}
use flyrank_backend_capstone.Store.Action.{Env, Run}

-- A clock that advances by a second at each draw.
abbrev pub env : Env
env = record {
  now = λ n. 5000000 + n * 1000000;
  uuid4 = λ n. 100 + n;
  serial = λ n. 200 + n;
  loaded = λ t. naive t;
}

abbrev pub env-LoadsAll : (t : ℕ) → Loads t (env.loaded t)
env-LoadsAll t = as_naive

abbrev pub free_plan : Plan
free_plan = record {
  id = 1;
  name = "free";
  api_call_limit = 1000;
  token_limit = 100000;
  price_cents = 0;
}

abbrev pub pro_plan : Plan
pro_plan = record {
  id = 2;
  name = "pro";
  api_call_limit = 100000;
  token_limit = 10000000;
  price_cents = 4900;
}

-- A plan of one call and 50 tokens.
abbrev pub tight_plan : Plan
tight_plan = record {
  id = 3;
  name = "tight";
  api_call_limit = 1;
  token_limit = 50;
  price_cents = 0;
}

abbrev pub acme : Tenant
acme = record {
  id = 7;
  name = "Acme Inc";
  plan_type = PlanType.free;
  stripe_customer_id = some "cus_acme";
  status = TenantStatus.active;
  created_at = 1000;
}

abbrev pub other : Tenant
other = record {
  id = 8;
  name = "Other Co";
  plan_type = PlanType.free;
  stripe_customer_id = none;
  status = TenantStatus.active;
  created_at = 1000;
}

abbrev pub suspended : Tenant
suspended = record other { status = TenantStatus.suspended }

abbrev pub acme_subscription : Subscription
acme_subscription = record {
  id = 11;
  tenant_id = 7;
  stripe_subscription_id = some "sub_acme";
  plan_id = 3;
  status = SubscriptionStatus.active;
  current_period_start = 1000;
  current_period_end = 60000000;
}

abbrev pub tables : Tables
tables = record {
  tenants = acme ∷ other ∷ [];
  plans = free_plan ∷ pro_plan ∷ tight_plan ∷ [];
  subscriptions = acme_subscription ∷ [];
  usage_events = [];
  idempotency_records = [];
  processed_webhooks = [];
}

-- A new database, with the plans that the migration inserts.
abbrev pub seeded : Tables
seeded = record {
  tenants = [];
  plans = seeded_plans;
  subscriptions = [];
  usage_events = [];
  idempotency_records = [];
  processed_webhooks = [];
}

abbrev pub session : Tables → Run View
session t = record { session = opened t; draws = 0 }
