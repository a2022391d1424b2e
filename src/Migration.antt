-- ===== src/Migration.antt =====
-- alembic/versions/0001_initial_schema.py: `upgrade` and `downgrade`.
mod Defs
pub mod Seeds
pub mod Labels
pub mod Catalog
pub mod Statements
pub mod Mapped
pub mod Metadata
pub mod Vacant
pub mod Declared
pub mod Upgraded
pub mod Downgraded
unfoldable pub use Defs.*
