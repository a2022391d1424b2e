-- ===== src/Tests/MigrationRuns.antt =====
-- The migration on a catalog that has Alembic's own table.
use flyrank_backend_capstone.Prelude.{◌≡◌, refl, true, some, none, [], ◌∷◌, string_dec}
use flyrank_backend_capstone.Migration.Catalog.{varchar, Catalog, execute_all}
use flyrank_backend_capstone.Migration.Statements.{key, upgrade_statements, downgrade_statements}
use flyrank_backend_capstone.Migration.Mapped.{names}
use flyrank_backend_capstone.Migration.Vacant.{IsVacant, with_schema}
use flyrank_backend_capstone.Migration.Upgraded.{upgrade-eq-none}
use flyrank_backend_capstone.Migration.Downgraded.{downgrade-with_schema}

abbrev database : Catalog
database = record {
  extensions = "plpgsql" ∷ [];
  enums = [];
  tables =
      record {
        name = "alembic_version";
        columns = key "version_num" (varchar 32) ∷ [];
        unique_constraints = [];
        checks = [];
      }
      ∷ [];
  indexes = [];
}

database-IsVacant : IsVacant database
unfolding string_dec
database-IsVacant = record {
  tables = (refl, (refl, (refl, (refl, (refl, (refl, tt))))));
  unreferenced = (refl, (refl, (refl, (refl, (refl, (refl, tt))))));
  unindexed = (refl, (refl, (refl, (refl, (refl, (refl, tt))))));
  indexes = (refl, (refl, (refl, (refl, (refl, (refl, (refl, (refl, tt))))))));
  enums = (refl, (refl, (refl, (refl, tt))));
  unused = (refl, (refl, (refl, (refl, tt))));
}

upgrade-eq-none_example : execute_all true upgrade_statements database ≡ none
upgrade-eq-none_example = upgrade-eq-none database database-IsVacant

downgrade-with_schema_example :
    execute_all true downgrade_statements (with_schema names database) ≡ some database
downgrade-with_schema_example = downgrade-with_schema true names database database-IsVacant
