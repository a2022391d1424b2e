-- ===== src/Migration/Vacant.antt =====
-- A catalog that has room for the schema, and the same catalog with the schema of the models.
use flyrank_backend_capstone.Prelude.{◌≡◌, String, false, List, [], ◌∷◌, All}
use flyrank_backend_capstone.Models.Uuid.{postgresql}
use flyrank_backend_capstone.Migration.Catalog.{
  Catalog, Enum, has_table, has_index, has_index_on, has_enum, is_referenced, is_used,
}
use flyrank_backend_capstone.Migration.Mapped.{Texts}
use flyrank_backend_capstone.Migration.Metadata.{
  plan_type_labels, tenant_status_labels, subscription_status_labels, event_type_labels,
  metadata_tables, metadata_indexes,
}

abbrev pub table_names : List String
table_names =
    "tenants" ∷ "plans" ∷ "subscriptions" ∷ "usage_events" ∷ "idempotency_records"
    ∷ "processed_webhooks" ∷ []

abbrev pub index_names : List String
index_names =
    "ix_tenants_stripe_customer_id" ∷ "ix_subscriptions_tenant_id"
    ∷ "ix_subscriptions_stripe_subscription_id" ∷ "ix_subscriptions_tenant_status"
    ∷ "ix_usage_events_tenant_id" ∷ "ix_usage_events_timestamp" ∷ "ix_usage_events_tenant_timestamp"
    ∷ "ix_idempotency_records_tenant_id" ∷ []

abbrev pub enum_names : List String
enum_names =
    "plan_type_enum" ∷ "tenant_status_enum" ∷ "subscription_status_enum" ∷ "event_type_enum" ∷ []

-- The catalog has nothing by the names of the schema, and nothing in it depends on such a name.
pub record IsVacant (c : Catalog) : Type 0 where
  pub tables : All (λ n. has_table n c ≡ false) table_names
  pub unreferenced : All (λ n. is_referenced n c.tables ≡ false) table_names
  pub unindexed : All (λ n. has_index_on n c ≡ false) table_names
  pub indexes : All (λ n. has_index n c ≡ false) index_names
  pub enums : All (λ n. has_enum n c ≡ false) enum_names
  pub unused : All (λ n. is_used n c.tables ≡ false) enum_names

-- The items, each put in front of those before it.
abbrev pub onto {ℓ} : {A : Type ℓ} → List A → List A → List A
onto [] ys = ys
onto (x ∷ xs) ys = onto xs (x ∷ ys)

abbrev pub enums_of : Texts → List Enum
enums_of texts =
    record { name = "plan_type_enum"; labels = plan_type_labels postgresql texts }
    ∷ record { name = "tenant_status_enum"; labels = tenant_status_labels postgresql texts }
    ∷ record {
      name = "subscription_status_enum";
      labels = subscription_status_labels postgresql texts;
    }
    ∷ record { name = "event_type_enum"; labels = event_type_labels postgresql texts }
    ∷ []

-- The catalog with the schema of the models as well, with these texts as the ENUMs' labels.
abbrev pub with_schema : Texts → Catalog → Catalog
with_schema texts c = record {
  extensions = c.extensions;
  enums = onto (enums_of texts) c.enums;
  tables = onto (metadata_tables postgresql texts) c.tables;
  indexes = onto (metadata_indexes postgresql texts) c.indexes;
}
