-- ===== src/Migration/Labels.antt =====
-- The texts that SQLAlchemy sends for an enumeration's member, against the labels of the ENUM types.
use flyrank_backend_capstone.Prelude.{ℕ, ◌≡◌, refl, String, List, string_dec, same_text, count_by}
use flyrank_backend_capstone.Models.{
  PlanType, TenantStatus, SubscriptionStatus, EventType, plan_type_value, plan_type_name,
  tenant_status_value, tenant_status_name, subscription_status_value, subscription_status_name,
  event_type_value, event_type_name,
}
use flyrank_backend_capstone.Migration.Defs.{
  plan_type_enum, tenant_status_enum, subscription_status_enum, event_type_enum,
}

-- How often a text is one of the labels.
abbrev pub occurrences : String → List String → ℕ
occurrences text labels = count_by (λ label. same_text label text) labels

-- The labels hold each member's `.value` once, and no member's `.name`.
abbrev pub LabelsValues : {A : Type 0} → (A → String) → (A → String) → List String → Type 0
LabelsValues value name labels =
    (a : _) → (occurrences (value a) labels ≡ 1) × (occurrences (name a) labels ≡ 0)

-- For each of the four enumerations, the labels of its ENUM type hold the `.value` of each member
-- once, and the `.name` of no member: a column that is sent names takes none of them.
pub enums-LabelsValues :
    LabelsValues plan_type_value plan_type_name plan_type_enum
    × LabelsValues tenant_status_value tenant_status_name tenant_status_enum
    × LabelsValues subscription_status_value subscription_status_name subscription_status_enum
    × LabelsValues event_type_value event_type_name event_type_enum
unfolding string_dec plan_type_value plan_type_name tenant_status_value tenant_status_name
    subscription_status_value subscription_status_name event_type_value event_type_name
enums-LabelsValues = (plans, tenants, subscriptions, events)
  where
    plans : LabelsValues plan_type_value plan_type_name plan_type_enum
    plans PlanType.free = (refl, refl)
    plans PlanType.pro = (refl, refl)

    tenants : LabelsValues tenant_status_value tenant_status_name tenant_status_enum
    tenants TenantStatus.active = (refl, refl)
    tenants TenantStatus.suspended = (refl, refl)
    tenants TenantStatus.canceled = (refl, refl)

    subscriptions :
        LabelsValues subscription_status_value subscription_status_name subscription_status_enum
    subscriptions SubscriptionStatus.active = (refl, refl)
    subscriptions SubscriptionStatus.past_due = (refl, refl)
    subscriptions SubscriptionStatus.canceled = (refl, refl)
    subscriptions SubscriptionStatus.incomplete = (refl, refl)

    events : LabelsValues event_type_value event_type_name event_type_enum
    events EventType.api_call = (refl, refl)
    events EventType.ai_token = (refl, refl)
