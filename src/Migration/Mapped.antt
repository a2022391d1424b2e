-- ===== src/Migration/Mapped.antt =====
-- How SQLAlchemy reads a mapped class of app/models/models.py: its columns, constraints and indexes.
use Prim.Native.String.{◌++◌}
use flyrank_backend_capstone.Prelude.{
  String, Bool, true, false, ◌&&◌, not, none, some, List, [], ◌∷◌, map, if◌then◌else◌,
}
use flyrank_backend_capstone.Models.{
  PlanType, TenantStatus, SubscriptionStatus, EventType, plan_type_name, plan_type_value,
  tenant_status_name, tenant_status_value, subscription_status_name, subscription_status_value,
  event_type_name, event_type_value,
}
use flyrank_backend_capstone.Migration.Catalog.{
  ColumnType, cascade, restrict, Reference, Column, Constraint, Check, Table, Index,
}

-- The text of each member of the four enumerations.
pub record Texts : Type 0 where
  pub plan_type : PlanType → String
  pub tenant_status : TenantStatus → String
  pub subscription_status : SubscriptionStatus → String
  pub event_type : EventType → String

-- What SQLAlchemy takes by itself, and what `values_callable` could give.
abbrev pub names : Texts
names = record {
  plan_type = plan_type_name;
  tenant_status = tenant_status_name;
  subscription_status = subscription_status_name;
  event_type = event_type_name;
}

abbrev pub values : Texts
values = record {
  plan_type = plan_type_value;
  tenant_status = tenant_status_value;
  subscription_status = subscription_status_value;
  event_type = event_type_value;
}

-- `mapped_column(…)` with its `index` flag.
pub record MappedColumn : Type 0 where
  pub column : Column
  pub index : Bool

-- A class with its `__table_args__`.
pub record MappedClass : Type 0 where
  pub tablename : String
  pub columns : List MappedColumn
  pub unique_constraints : List Constraint
  pub checks : List Check
  pub indexes : List (String × List String)

-- `mapped_column(type, nullable=False)`
abbrev pub mapped_column : String → ColumnType → MappedColumn
mapped_column name type = record {
  column = record {
    name = name;
    type = type;
    nullable = false;
    primary_key = false;
    autoincrement = false;
    unique = false;
    references = none;
  };
  index = false;
}

-- `mapped_column(type, primary_key=True)`
abbrev pub primary_key : String → ColumnType → MappedColumn
primary_key name type = record (mapped_column name type) {
  column = record (mapped_column name type).column { primary_key = true };
}

abbrev pub autoincrement : String → ColumnType → MappedColumn
autoincrement name type = record (mapped_column name type) {
  column = record (mapped_column name type).column { primary_key = true; autoincrement = true };
}

-- `unique=True`, without and with `index=True`
abbrev pub unique : String → ColumnType → MappedColumn
unique name type = record (mapped_column name type) {
  column = record (mapped_column name type).column { unique = true };
}

abbrev pub nullable_unique_index : String → ColumnType → MappedColumn
nullable_unique_index name type = record {
  column = record (mapped_column name type).column { nullable = true; unique = true };
  index = true;
}

-- `ForeignKey(…)`
abbrev pub foreign_key : String → ColumnType → Reference → Bool → MappedColumn
foreign_key name type reference index = record {
  column = record (mapped_column name type).column { references = some reference };
  index = index;
}

abbrev pub tenants_id : Reference
tenants_id = record { table = "tenants"; column = "id"; on_delete = cascade }

abbrev pub plans_id : Reference
plans_id = record { table = "plans"; column = "id"; on_delete = restrict }

-- A column with both flags has a unique index and no constraint of its own.
abbrev pub column_of : MappedColumn → Column
column_of m = record m.column { unique = m.column.unique && not m.index }

abbrev pub table_of : MappedClass → Table
table_of c = record {
  name = c.tablename;
  columns = map column_of c.columns;
  unique_constraints = c.unique_constraints;
  checks = c.checks;
}

-- SQLAlchemy's name for the index of a column.
abbrev pub column_indexes : String → List MappedColumn → List Index
column_indexes table [] = []
column_indexes table (m ∷ ms) =
    let rest = column_indexes table ms in
    if m.index
    then record {
      name = "ix_" ++ (table ++ ("_" ++ m.column.name));
      table = table;
      columns = m.column.name ∷ [];
      unique = m.column.unique;
    }
      ∷ rest
    else rest

abbrev pub table_indexes : String → List (String × List String) → List Index
table_indexes table [] = []
table_indexes table ((name, columns) ∷ is) =
    record { name = name; table = table; columns = columns; unique = false }
    ∷ table_indexes table is
