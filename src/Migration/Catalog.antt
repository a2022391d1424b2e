-- ===== src/Migration/Catalog.antt =====
-- The database's catalog and the DDL statements that alembic/versions/0001_initial_schema.py sends:
-- an error of a statement, which ends the migration, is `none`.
use flyrank_backend_capstone.Prelude.{
  ℕ, String, Bool, true, false, ◌&&◌, ◌||◌, not, Option, none, some, List, [], ◌∷◌, if◌then◌else◌,
  same_text,
}

pub data ColumnType : Type 0 where
  uuid integer big_integer timestamptz jsonb json : ColumnType
  char varchar : ℕ → ColumnType
  enum : String → List String → ColumnType

pub data OnDelete : Type 0 where
  cascade restrict : OnDelete

pub record Reference : Type 0 where
  pub table : String
  pub column : String
  pub on_delete : OnDelete

-- The defaults of a column are left out: the migration has the server's, the models have Python's.
pub record Column : Type 0 where
  pub name : String
  pub type : ColumnType
  pub nullable : Bool
  pub primary_key : Bool
  pub autoincrement : Bool
  pub unique : Bool
  pub references : Option Reference

pub record Constraint : Type 0 where
  pub name : String
  pub columns : List String

pub record Check : Type 0 where
  pub name : String
  pub condition : String

pub record Table : Type 0 where
  pub name : String
  pub columns : List Column
  pub unique_constraints : List Constraint
  pub checks : List Check

pub record Index : Type 0 where
  pub name : String
  pub table : String
  pub columns : List String
  pub unique : Bool

pub record Enum : Type 0 where
  pub name : String
  pub labels : List String

pub record Catalog : Type 0 where
  pub extensions : List String
  pub enums : List Enum
  pub tables : List Table
  pub indexes : List Index

pub data Statement : Type 0 where
  create_extension : String → Statement
  create_enum : Enum → Statement
  create_table : Table → Statement
  create_index : Index → Statement
  drop_table drop_enum : String → Statement

abbrev pub any {ℓ} : {A : Type ℓ} → (A → Bool) → List A → Bool
any p [] = false
any p (x ∷ xs) = p x || any p xs

-- The items that do not pass the test.
abbrev pub reject {ℓ} : {A : Type ℓ} → (A → Bool) → List A → List A
reject p [] = []
reject p (x ∷ xs) = let rest = reject p xs in if p x then rest else x ∷ rest

abbrev pub has_extension : String → Catalog → Bool
has_extension n c = any (λ e. same_text e n) c.extensions

abbrev pub has_enum : String → Catalog → Bool
has_enum n c = any (λ (e : Enum). same_text e.name n) c.enums

abbrev pub has_table : String → Catalog → Bool
has_table n c = any (λ (t : Table). same_text t.name n) c.tables

abbrev pub has_index : String → Catalog → Bool
has_index n c = any (λ (i : Index). same_text i.name n) c.indexes

abbrev pub has_index_on : String → Catalog → Bool
has_index_on n c = any (λ (i : Index). same_text i.table n) c.indexes

abbrev pub refers_to : String → Option Reference → Bool
refers_to n none = false
refers_to n (some r) = same_text r.table n

abbrev pub is_of_enum : String → ColumnType → Bool
is_of_enum n (enum name labels) = same_text name n
is_of_enum n _ = false

-- Another table has a foreign key to the table.
abbrev pub is_referenced : String → List Table → Bool
is_referenced n = any (λ (t : Table).
    not (same_text t.name n) && any (λ (k : Column). refers_to n k.references) t.columns)

abbrev pub is_used : String → List Table → Bool
is_used n = any (λ (t : Table). any (λ (k : Column). is_of_enum n k.type) t.columns)

-- A foreign key is to the table itself or to one that is there.
abbrev pub has_target : Table → Catalog → Option Reference → Bool
has_target t c none = true
has_target t c (some r) = same_text r.table t.name || has_table r.table c

abbrev pub has_type : Catalog → ColumnType → Bool
has_type c (enum name labels) = has_enum name c
has_type c _ = true

abbrev pub all_fit : Table → Catalog → List Column → Bool
all_fit t c [] = true
all_fit t c (k ∷ ks) = (has_target t c k.references && has_type c k.type) && all_fit t c ks

-- `CREATE TYPE` without a look whether the type is there.
abbrev pub create_type : ColumnType → Catalog → Option Catalog
create_type (enum name labels) c =
    if has_enum name c
    then none
    else some (record c { enums = record { name = name; labels = labels } ∷ c.enums })
create_type _ c = some c

abbrev pub and_then {ℓ κ} : {A : Type ℓ} {B : Type κ} → Option A → (A → Option B) → Option B
and_then none f = none
and_then (some a) f = f a

abbrev pub create_types : List Column → Catalog → Option Catalog
create_types [] c = some c
create_types (k ∷ ks) c = and_then (create_type k.type c) (create_types ks)

abbrev pub add_table : Table → Catalog → Option Catalog
add_table t c =
    if has_table t.name c || not (all_fit t c t.columns)
    then none
    else some (record c { tables = t ∷ c.tables })

-- `emits` says whether SQLAlchemy sends a `CREATE TYPE` for the ENUMs of a table's columns, unchecked,
-- before the table is created.
unfoldable pub execute : (emits : Bool) → Statement → Catalog → Option Catalog
execute emits (create_extension n) c =
    some (record c { extensions = if has_extension n c then c.extensions else n ∷ c.extensions })
execute emits (create_enum e) c =
    some (record c { enums = if has_enum e.name c then c.enums else e ∷ c.enums })
execute emits (create_table t) c =
    if emits then and_then (create_types t.columns c) (add_table t) else add_table t c
execute emits (create_index i) c =
    if has_index i.name c || not (has_table i.table c)
    then none
    else some (record c { indexes = i ∷ c.indexes })
execute emits (drop_table n) c =
    if not (has_table n c) || is_referenced n c.tables
    then none
    else some (record c {
      tables = reject (λ (t : Table). same_text t.name n) c.tables;
      indexes = reject (λ (i : Index). same_text i.table n) c.indexes;
    })
execute emits (drop_enum n) c =
    if not (has_enum n c)
    then some c
    else if is_used n c.tables
    then none
    else some (record c { enums = reject (λ (e : Enum). same_text e.name n) c.enums })

-- The statements in their order; the first error ends the migration.
unfoldable pub execute_all : (emits : Bool) → List Statement → Catalog → Option Catalog
unfolding execute
execute_all emits [] c = some c
execute_all emits (s ∷ ss) c = and_then (execute emits s c) (execute_all emits ss)
