-- ===== src/App.antt =====
-- app/main.py: the application that FastAPI makes of the routers.
mod Defs
pub mod Ledger
pub mod Webhooks
pub mod Fresh
pub mod Usage
pub mod Status
unfoldable pub use Defs.*
