-- ===== src/Migration/Statements.antt =====
-- The statements of `upgrade` and `downgrade`, but for the rows of `bulk_insert`.
use flyrank_backend_capstone.Prelude.{String, true, false, Option, none, some, List, [], ◌∷◌}
use flyrank_backend_capstone.Migration.Defs.{
  plan_type_enum, tenant_status_enum, subscription_status_enum, event_type_enum,
}
use flyrank_backend_capstone.Migration.Catalog.{
  ColumnType, uuid, integer, big_integer, timestamptz, jsonb, varchar, enum, cascade, restrict,
  Reference, Column, Table, Statement, create_extension, create_enum, create_table, create_index,
  drop_table, drop_enum,
}

-- `sa.Column(name, type, nullable=False)`
abbrev pub column : String → ColumnType → Column
column name type = record {
  name = name;
  type = type;
  nullable = false;
  primary_key = false;
  autoincrement = false;
  unique = false;
  references = none;
}

-- `sa.Column(name, type, primary_key=True)`
abbrev pub key : String → ColumnType → Column
key name type = record (column name type) { primary_key = true }

-- `ondelete="CASCADE"` and `ondelete="RESTRICT"`
abbrev pub to_tenants : Option Reference
to_tenants = some (record { table = "tenants"; column = "id"; on_delete = cascade })

abbrev pub to_plans : Option Reference
to_plans = some (record { table = "plans"; column = "id"; on_delete = restrict })

abbrev pub index : String → String → List String → Statement
index name table columns =
    create_index (record { name = name; table = table; columns = columns; unique = false })

abbrev pub unique_index : String → String → List String → Statement
unique_index name table columns =
    create_index (record { name = name; table = table; columns = columns; unique = true })

abbrev pub tenants_table : Table
tenants_table = record {
  name = "tenants";
  columns =
      key "id" uuid
      ∷ column "name" (varchar 255)
      ∷ column "plan_type" (enum "plan_type_enum" plan_type_enum)
      ∷ record (column "stripe_customer_id" (varchar 255)) { nullable = true }
      ∷ column "status" (enum "tenant_status_enum" tenant_status_enum)
      ∷ column "created_at" timestamptz
      ∷ [];
  unique_constraints = [];
  checks = [];
}

abbrev pub plans_table : Table
plans_table = record {
  name = "plans";
  columns =
      record (key "id" integer) { autoincrement = true }
      ∷ record (column "name" (varchar 50)) { unique = true }
      ∷ column "api_call_limit" integer
      ∷ column "token_limit" integer
      ∷ column "price_cents" integer
      ∷ [];
  unique_constraints = [];
  checks =
      record { name = "ck_plans_api_call_limit_nonneg"; condition = "api_call_limit >= 0" }
      ∷ record { name = "ck_plans_token_limit_nonneg"; condition = "token_limit >= 0" }
      ∷ record { name = "ck_plans_price_nonneg"; condition = "price_cents >= 0" }
      ∷ [];
}

abbrev pub subscriptions_table : Table
subscriptions_table = record {
  name = "subscriptions";
  columns =
      record (key "id" integer) { autoincrement = true }
      ∷ record (column "tenant_id" uuid) { references = to_tenants }
      ∷ record (column "stripe_subscription_id" (varchar 255)) { nullable = true }
      ∷ record (column "plan_id" integer) { references = to_plans }
      ∷ column "status" (enum "subscription_status_enum" subscription_status_enum)
      ∷ column "current_period_start" timestamptz
      ∷ column "current_period_end" timestamptz
      ∷ [];
  unique_constraints = [];
  checks = [];
}

abbrev pub usage_events_table : Table
usage_events_table = record {
  name = "usage_events";
  columns =
      key "id" uuid
      ∷ record (column "tenant_id" uuid) { references = to_tenants }
      ∷ column "event_type" (enum "event_type_enum" event_type_enum)
      ∷ column "input_tokens" big_integer
      ∷ column "cached_input_tokens" big_integer
      ∷ column "output_tokens" big_integer
      ∷ column "reasoning_tokens" big_integer
      ∷ column "total_quantity" big_integer
      ∷ column "cost_cents" integer
      ∷ column "idempotency_key" (varchar 255)
      ∷ column "timestamp" timestamptz
      ∷ [];
  unique_constraints =
      record { name = "uq_usage_events_idempotency_key"; columns = "idempotency_key" ∷ [] } ∷ [];
  checks = record { name = "ck_usage_events_qty_nonneg"; condition = "total_quantity >= 0" } ∷ [];
}

abbrev pub idempotency_records_table : Table
idempotency_records_table = record {
  name = "idempotency_records";
  columns =
      key "idempotency_key" (varchar 255)
      ∷ record (column "tenant_id" uuid) { references = to_tenants }
      ∷ column "status_code" integer
      ∷ column "response_body" jsonb
      ∷ column "created_at" timestamptz
      ∷ [];
  unique_constraints = [];
  checks = [];
}

abbrev pub processed_webhooks_table : Table
processed_webhooks_table = record {
  name = "processed_webhooks";
  columns =
      key "event_id" (varchar 255)
      ∷ column "event_type" (varchar 100)
      ∷ column "processed_at" timestamptz
      ∷ [];
  unique_constraints = [];
  checks = [];
}

abbrev pub upgrade_statements : List Statement
upgrade_statements =
    create_extension "pgcrypto"
    ∷ create_enum (record { name = "plan_type_enum"; labels = plan_type_enum })
    ∷ create_enum (record { name = "tenant_status_enum"; labels = tenant_status_enum })
    ∷ create_enum (record { name = "subscription_status_enum"; labels = subscription_status_enum })
    ∷ create_enum (record { name = "event_type_enum"; labels = event_type_enum })
    ∷ create_table tenants_table
    ∷ unique_index "ix_tenants_stripe_customer_id" "tenants" ("stripe_customer_id" ∷ [])
    ∷ create_table plans_table
    ∷ create_table subscriptions_table
    ∷ index "ix_subscriptions_tenant_id" "subscriptions" ("tenant_id" ∷ [])
    ∷ unique_index "ix_subscriptions_stripe_subscription_id" "subscriptions"
        ("stripe_subscription_id" ∷ [])
    ∷ index "ix_subscriptions_tenant_status" "subscriptions" ("tenant_id" ∷ "status" ∷ [])
    ∷ create_table usage_events_table
    ∷ index "ix_usage_events_tenant_id" "usage_events" ("tenant_id" ∷ [])
    ∷ index "ix_usage_events_timestamp" "usage_events" ("timestamp" ∷ [])
    ∷ index "ix_usage_events_tenant_timestamp" "usage_events" ("tenant_id" ∷ "timestamp" ∷ [])
    ∷ create_table idempotency_records_table
    ∷ index "ix_idempotency_records_tenant_id" "idempotency_records" ("tenant_id" ∷ [])
    ∷ create_table processed_webhooks_table
    ∷ []

abbrev pub downgrade_statements : List Statement
downgrade_statements =
    drop_table "processed_webhooks"
    ∷ drop_table "idempotency_records"
    ∷ drop_table "usage_events"
    ∷ drop_table "subscriptions"
    ∷ drop_table "plans"
    ∷ drop_table "tenants"
    ∷ drop_enum "event_type_enum"
    ∷ drop_enum "subscription_status_enum"
    ∷ drop_enum "tenant_status_enum"
    ∷ drop_enum "plan_type_enum"
    ∷ []
