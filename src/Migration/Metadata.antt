-- ===== src/Migration/Metadata.antt =====
-- The classes of app/models/models.py, by dialect. An `Enum` over a class has the members' names as its
-- labels, as no `values_callable` is given; they are a parameter here.
use flyrank_backend_capstone.Prelude.{String, true, false, List, [], ◌∷◌, ◌++◌, map}
use flyrank_backend_capstone.Models.{PlanType, TenantStatus, SubscriptionStatus, EventType}
use flyrank_backend_capstone.Models.Uuid.{
  Dialect, postgresql, other, Implementation, pg_uuid, char_36, load_dialect_impl,
}
use flyrank_backend_capstone.Migration.Catalog.{
  ColumnType, uuid, integer, big_integer, timestamptz, jsonb, json, char, varchar, enum, Table,
  Index,
}
use flyrank_backend_capstone.Migration.Mapped.{
  Texts, MappedClass, mapped_column, primary_key, autoincrement, unique, nullable_unique_index,
  foreign_key, tenants_id, plans_id, table_of, column_indexes, table_indexes,
}

module _ (dialect : Dialect) (texts : Texts) where
  -- `UUID()` by its `load_dialect_impl`, and `JSON().with_variant(JSONB, "postgresql")`.
  abbrev pub type_of : Implementation → ColumnType
  type_of pg_uuid = uuid
  type_of char_36 = char 36

  abbrev pub uuid_type : ColumnType
  uuid_type = type_of (load_dialect_impl dialect)

  abbrev pub json_type : Dialect → ColumnType
  json_type postgresql = jsonb
  json_type other = json

  abbrev pub plan_type_labels : List String
  plan_type_labels = map texts.plan_type (PlanType.free ∷ PlanType.pro ∷ [])

  abbrev pub tenant_status_labels : List String
  tenant_status_labels =
      map texts.tenant_status
        (TenantStatus.active ∷ TenantStatus.suspended ∷ TenantStatus.canceled ∷ [])

  abbrev pub subscription_status_labels : List String
  subscription_status_labels = map texts.subscription_status (
      SubscriptionStatus.active ∷ SubscriptionStatus.past_due ∷ SubscriptionStatus.canceled
      ∷ SubscriptionStatus.incomplete ∷ [])

  abbrev pub event_type_labels : List String
  event_type_labels = map texts.event_type (EventType.api_call ∷ EventType.ai_token ∷ [])

  abbrev pub tenant_class : MappedClass
  tenant_class = record {
    tablename = "tenants";
    columns =
        primary_key "id" uuid_type
        ∷ mapped_column "name" (varchar 255)
        ∷ mapped_column "plan_type" (enum "plan_type_enum" plan_type_labels)
        ∷ nullable_unique_index "stripe_customer_id" (varchar 255)
        ∷ mapped_column "status" (enum "tenant_status_enum" tenant_status_labels)
        ∷ mapped_column "created_at" timestamptz
        ∷ [];
    unique_constraints = [];
    checks = [];
    indexes = [];
  }

  abbrev pub plan_class : MappedClass
  plan_class = record {
    tablename = "plans";
    columns =
        autoincrement "id" integer
        ∷ unique "name" (varchar 50)
        ∷ mapped_column "api_call_limit" integer
        ∷ mapped_column "token_limit" integer
        ∷ mapped_column "price_cents" integer
        ∷ [];
    unique_constraints = [];
    checks =
        record { name = "ck_plans_api_call_limit_nonneg"; condition = "api_call_limit >= 0" }
        ∷ record { name = "ck_plans_token_limit_nonneg"; condition = "token_limit >= 0" }
        ∷ record { name = "ck_plans_price_nonneg"; condition = "price_cents >= 0" }
        ∷ [];
    indexes = [];
  }

  abbrev pub subscription_class : MappedClass
  subscription_class = record {
    tablename = "subscriptions";
    columns =
        autoincrement "id" integer
        ∷ foreign_key "tenant_id" uuid_type tenants_id true
        ∷ nullable_unique_index "stripe_subscription_id" (varchar 255)
        ∷ foreign_key "plan_id" integer plans_id false
        ∷ mapped_column "status" (enum "subscription_status_enum" subscription_status_labels)
        ∷ mapped_column "current_period_start" timestamptz
        ∷ mapped_column "current_period_end" timestamptz
        ∷ [];
    unique_constraints = [];
    checks = [];
    indexes = ("ix_subscriptions_tenant_status", "tenant_id" ∷ "status" ∷ []) ∷ [];
  }

  abbrev pub usage_event_class : MappedClass
  usage_event_class = record {
    tablename = "usage_events";
    columns =
        primary_key "id" uuid_type
        ∷ foreign_key "tenant_id" uuid_type tenants_id true
        ∷ mapped_column "event_type" (enum "event_type_enum" event_type_labels)
        ∷ mapped_column "input_tokens" big_integer
        ∷ mapped_column "cached_input_tokens" big_integer
        ∷ mapped_column "output_tokens" big_integer
        ∷ mapped_column "reasoning_tokens" big_integer
        ∷ mapped_column "total_quantity" big_integer
        ∷ mapped_column "cost_cents" integer
        ∷ mapped_column "idempotency_key" (varchar 255)
        ∷ record (mapped_column "timestamp" timestamptz) { index = true }
        ∷ [];
    unique_constraints =
        record { name = "uq_usage_events_idempotency_key"; columns = "idempotency_key" ∷ [] } ∷ [];
    checks = record { name = "ck_usage_events_qty_nonneg"; condition = "total_quantity >= 0" } ∷ [];
    indexes = ("ix_usage_events_tenant_timestamp", "tenant_id" ∷ "timestamp" ∷ []) ∷ [];
  }

  abbrev pub idempotency_record_class : MappedClass
  idempotency_record_class = record {
    tablename = "idempotency_records";
    columns =
        primary_key "idempotency_key" (varchar 255)
        ∷ foreign_key "tenant_id" uuid_type tenants_id true
        ∷ mapped_column "status_code" integer
        ∷ mapped_column "response_body" (json_type dialect)
        ∷ mapped_column "created_at" timestamptz
        ∷ [];
    unique_constraints = [];
    checks = [];
    indexes = [];
  }

  abbrev pub processed_webhook_class : MappedClass
  processed_webhook_class = record {
    tablename = "processed_webhooks";
    columns =
        primary_key "event_id" (varchar 255)
        ∷ mapped_column "event_type" (varchar 100)
        ∷ mapped_column "processed_at" timestamptz
        ∷ [];
    unique_constraints = [];
    checks = [];
    indexes = [];
  }

  abbrev pub classes : List MappedClass
  classes =
      tenant_class ∷ plan_class ∷ subscription_class ∷ usage_event_class ∷ idempotency_record_class
      ∷ processed_webhook_class ∷ []

  abbrev pub metadata_tables : List Table
  metadata_tables = map table_of classes

  abbrev pub metadata_indexes : List Index
  metadata_indexes = all_indexes classes
    where
      all_indexes : List MappedClass → List Index
      all_indexes [] = []
      all_indexes (c ∷ cs) =
          column_indexes c.tablename c.columns
          ++ (table_indexes c.tablename c.indexes ++ all_indexes cs)
