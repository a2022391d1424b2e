-- ===== src/Migration/Declared.antt =====
-- What the statements of `upgrade` declare, against app/models/models.py.
use flyrank_backend_capstone.Prelude.{
  ◌≡◌, refl, ap, String, Bool, true, false, List, [], ◌∷◌, same_text, string_dec,
}
use flyrank_backend_capstone.Models.{
  plan_type_name, tenant_status_name, subscription_status_name, event_type_name, plan_type_value,
  tenant_status_value, subscription_status_value, event_type_value,
}
use flyrank_backend_capstone.Models.Uuid.{postgresql}
use flyrank_backend_capstone.Migration.Catalog.{
  Table, Index, Enum, Statement, create_enum, create_table, create_index, any,
}
use flyrank_backend_capstone.Migration.Mapped.{Texts, names, values}
use flyrank_backend_capstone.Migration.Metadata.{metadata_tables, metadata_indexes}
use flyrank_backend_capstone.Migration.Statements.{upgrade_statements}
use flyrank_backend_capstone.Migration.Vacant.{enums_of}

abbrev created_tables : List Statement → List Table
created_tables [] = []
created_tables (create_table t ∷ ss) = t ∷ created_tables ss
created_tables (_ ∷ ss) = created_tables ss

abbrev created_indexes : List Statement → List Index
created_indexes [] = []
created_indexes (create_index i ∷ ss) = i ∷ created_indexes ss
created_indexes (_ ∷ ss) = created_indexes ss

abbrev created_enums : List Statement → List Enum
created_enums [] = []
created_enums (create_enum e ∷ ss) = e ∷ created_enums ss
created_enums (_ ∷ ss) = created_enums ss

-- The tables, indexes and ENUM types that the statements create are those of the models, with these
-- texts of the members.
pub record Declares (texts : Texts) (ss : List Statement) : Type 0 where
  pub tables : created_tables ss ≡ metadata_tables postgresql texts
  pub indexes : created_indexes ss ≡ metadata_indexes postgresql texts
  pub enums : created_enums ss ≡ enums_of texts

abbrev first_has : String → List Enum → Bool
first_has n [] = false
first_has n (e ∷ es) = any (λ label. same_text label n) e.labels

-- `upgrade` declares every table of the models, with the columns, types, keys, references and
-- constraints of its class, every index and every ENUM type, where the members' texts are their
-- values; it does not declare what the models give, whose texts are the members' names.
pub upgrade-Declares : Declares values upgrade_statements × ¬ (Declares names upgrade_statements)
unfolding string_dec plan_type_name tenant_status_name subscription_status_name event_type_name
    plan_type_value tenant_status_value subscription_status_value event_type_value
upgrade-Declares = (
  record { tables = refl; indexes = refl; enums = refl },
  λ h. let differs : true ≡ false = ap (first_has "free") h.enums in cc,
)
