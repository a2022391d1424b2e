-- ===== src/Pricing.antt =====
-- app/services/pricing.py, with the rates of app/core/config.py.
mod Defs
pub mod Rounding
pub mod Validation
unfoldable pub use Defs.*
pub use flyrank_backend_capstone.Config.{Settings, default_settings}
