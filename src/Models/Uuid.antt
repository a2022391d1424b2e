-- ===== src/Models/Uuid.antt =====
-- The column type `UUID` of app/models/models.py. Python's `uuid.UUID` is a parameter: its values, `str`
-- of a value, and the constructor on a text, whose ValueError is `none`.
use flyrank_backend_capstone.Prelude.{
  ◌≡◌, refl, sym, ap, ◌∙◌, ◌⊎◌, inl, inr, String, Option, none, some, some-injective,
}

-- What a driver gives for a column: NULL, a value of its own UUID type, or a text.
pub data Column (Uuid : Type 0) : Type 0 where
  null : Column Uuid
  native : Uuid → Column Uuid
  text : String → Column Uuid

-- The value that a row's attribute gets, or the ValueError.
pub data Result (Uuid : Type 0) : Type 0 where
  result : Option Uuid → Result Uuid
  value_error : Result Uuid

-- `load_dialect_impl`: PostgreSQL has its own type, every other dialect has CHAR(36).
pub data Dialect : Type 0 where
  postgresql other : Dialect

pub data Implementation : Type 0 where
  pg_uuid char_36 : Implementation

abbrev pub load_dialect_impl : Dialect → Implementation
load_dialect_impl postgresql = pg_uuid
load_dialect_impl other = char_36

module _ {Uuid : Type 0} (str : Uuid → String) (parse : String → Option Uuid) where
  unfoldable pub process_bind_param : Option Uuid → Dialect → Option String
  process_bind_param none dialect = none
  process_bind_param (some value) postgresql = some (str value)
  process_bind_param (some value) other = some (str value)

  abbrev pub parsed : Option Uuid → Result Uuid
  parsed none = value_error
  parsed (some value) = result (some value)

  unfoldable pub process_result_value : Column Uuid → Dialect → Result Uuid
  process_result_value null dialect = result none
  process_result_value (native value) dialect = result (some value)
  process_result_value (text s) dialect = parsed (parse s)

  -- What a column of that implementation gives back for a text that was bound: the text itself from a
  -- CHAR, and from PostgreSQL the value that the text stands for, as a UUID or as its text.
  abbrev pub Stores : Implementation → Option String → Column Uuid → Type 0
  Stores i none column = column ≡ null
  Stores char_36 (some s) column = column ≡ text s
  Stores pg_uuid (some s) column =
      (value : Uuid) × (parse s ≡ some value)
      × ((column ≡ native value) ⊎ (column ≡ text (str value)))

  -- If the constructor reads back what `str` writes, then whatever value, or None, is bound in
  -- either dialect, and in whichever of the dialect's ways the column gives it back, the attribute
  -- is that value again, and no ValueError is raised.
  pub bind-result :
      ((value : Uuid) → parse (str value) ≡ some value)
      → (value : Option Uuid) (dialect : Dialect) (column : Column Uuid)
      → Stores (load_dialect_impl dialect) (process_bind_param value dialect) column
      → process_result_value column dialect ≡ result value
  unfolding process_bind_param process_result_value
  bind-result reads none dialect column h = rw h refl
  bind-result reads (some value) other column h = rw (h, reads value) refl
  bind-result reads (some value) postgresql column (u, same, inl e) =
      rw e (ap (λ x. result (some x)) (some-injective (sym same ∙ reads value)))
  bind-result reads (some value) postgresql column (u, same, inr e) =
      rw (e, reads u) (ap (λ x. result (some x)) (some-injective (sym same ∙ reads value)))
