-- ===== src/Webhooks.antt =====
-- app/services/stripe_webhooks.py: `StripeWebhookHandler`.
mod Events
mod Defs
pub mod Simulated
pub mod Uncommitted
pub mod Atomic
pub mod Delivery
pub mod Handled
pub mod Customers
pub mod Cancellation
pub mod Updates
pub use Events.*
unfoldable pub use Defs.*
