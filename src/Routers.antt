-- ===== src/Routers.antt =====
-- app/routers: the endpoints over a session.
mod Defs
pub mod Tenants
pub mod Stripe
pub mod Simulated
pub mod Bystanders
pub mod Agreement
pub mod Unused
pub mod Creation
pub mod Onboarding
pub mod Renewal
pub mod Status
unfoldable pub use Defs.*
