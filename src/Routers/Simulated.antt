-- ===== src/Routers/Simulated.antt =====
-- Any lawful session runs the endpoints as the contract does.
use flyrank_backend_capstone.Prelude.{ℕ, String}
use flyrank_backend_capstone.Pricing.{Settings, Construction, constructed, value_error}
use flyrank_backend_capstone.Schemas.{UsageEventCreate, TenantCreate}
use flyrank_backend_capstone.Store.Database.{Database, View, IsLawful, contract}
use flyrank_backend_capstone.Store.Action.{Env, Exception}
use flyrank_backend_capstone.Store.Simulation.{Simulates, simulation}
use flyrank_backend_capstone.Store.Scalar.{Simulates-or_raise_many}
use flyrank_backend_capstone.Metering.Outcomes.{Simulates-record_usage}
use flyrank_backend_capstone.Webhooks.Simulated.{Simulates-handle_event}
use flyrank_backend_capstone.Routers.Defs.{
  refuse, or_value_error, token_usage_of, post_usage, get_quota_status,
}
use flyrank_backend_capstone.Routers.Tenants.{create_tenant, read_tenant}
use flyrank_backend_capstone.Routers.Stripe.{
  Verified, verified, signature_verification_error, handle_verified,
}

Simulates-refuse :
    {S : Type 0} {view : S → View} (e : Exception) → Simulates view (refuse e) (refuse e)
unfolding refuse
Simulates-refuse (Exception.quota_exceeded x) = search simulation
Simulates-refuse (Exception.payment_required x) = search simulation
Simulates-refuse _ = search simulation

Simulates-or_value_error :
    {S : Type 0} {view : S → View} (c : Construction)
    → Simulates view (or_value_error c) (or_value_error c)
Simulates-or_value_error (constructed u) = search simulation
Simulates-or_value_error (value_error name) = search simulation

pub Simulates-post_usage :
    (E : Env) {D : Database} {view : D.Session → View}
    → IsLawful D view
    → (settings : Settings) (key : String) (payload : UsageEventCreate)
    → Simulates view
        (post_usage E D settings key payload)
        (post_usage E contract settings key payload)
unfolding post_usage token_usage_of
Simulates-post_usage E lawful settings key payload =
    search (simulation, Simulates-refuse, Simulates-or_value_error, Simulates-record_usage) depth 30

pub Simulates-get_quota_status :
    {D : Database} {view : D.Session → View}
    → IsLawful D view
    → (id : ℕ) → Simulates view (get_quota_status D id) (get_quota_status contract id)
unfolding get_quota_status
Simulates-get_quota_status lawful id = search simulation depth 30

pub Simulates-create_tenant :
    (E : Env) {D : Database} {view : D.Session → View}
    → IsLawful D view
    → (payload : TenantCreate)
    → Simulates view (create_tenant E D payload) (create_tenant E contract payload)
unfolding create_tenant
Simulates-create_tenant E lawful payload = search (simulation, Simulates-or_raise_many) depth 40

pub Simulates-read_tenant :
    {D : Database} {view : D.Session → View}
    → IsLawful D view
    → (id : ℕ) → Simulates view (read_tenant D id) (read_tenant contract id)
unfolding read_tenant
Simulates-read_tenant lawful id = search simulation depth 20

pub Simulates-handle_verified :
    (E : Env) {D : Database} {view : D.Session → View}
    → IsLawful D view
    → (v : Verified) → Simulates view (handle_verified E D v) (handle_verified E contract v)
Simulates-handle_verified E lawful (verified event) = Simulates-handle_event lawful E event
Simulates-handle_verified E lawful Verified.value_error = search simulation
Simulates-handle_verified E lawful signature_verification_error = search simulation
