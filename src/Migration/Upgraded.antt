-- ===== src/Migration/Upgraded.antt =====
-- How `upgrade` ends.
use flyrank_backend_capstone.Prelude.{◌≡◌, refl, true, none, string_dec}
use flyrank_backend_capstone.Migration.Catalog.{Catalog, execute_all}
use flyrank_backend_capstone.Migration.Statements.{upgrade_statements}
use flyrank_backend_capstone.Migration.Vacant.{IsVacant}

-- On a catalog with nothing by the schema's names, where SQLAlchemy sends an unchecked CREATE TYPE for
-- the ENUMs of a table's columns, `upgrade` ends in an error: it has created the types itself.
pub upgrade-eq-none : (c : Catalog) → IsVacant c → execute_all true upgrade_statements c ≡ none
unfolding execute_all string_dec
upgrade-eq-none c h = rw (h.enums.0, h.enums.1.0, h.enums.1.1.0, h.enums.1.1.1.0) refl
