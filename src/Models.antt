-- ===== src/Models.antt =====
-- app/models/models.py: the enumerations and the rows of the six tables. A table is a list
-- of rows in `Store`.
mod Enums
mod Rows
pub mod Uuid
unfoldable pub use Enums.*
pub use Rows.*
