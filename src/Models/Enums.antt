-- ===== src/Models/Enums.antt =====
-- The enumerations of app/models/models.py: the members, their names and their
-- `.value` texts, and the comparisons by `==` and `!=`.
use flyrank_backend_capstone.Prelude.{Bool, true, false, String}

pub data PlanType : Type 0 where
  free pro : PlanType

pub data TenantStatus : Type 0 where
  active suspended canceled : TenantStatus

pub data SubscriptionStatus : Type 0 where
  active past_due canceled incomplete : SubscriptionStatus

pub data EventType : Type 0 where
  api_call ai_token : EventType

-- `PlanType(…).value` and `.name`, and so on.
unfoldable pub plan_type_value : PlanType → String
plan_type_value PlanType.free = "free"
plan_type_value PlanType.pro = "pro"

unfoldable pub plan_type_name : PlanType → String
plan_type_name PlanType.free = "FREE"
plan_type_name PlanType.pro = "PRO"

unfoldable pub tenant_status_value : TenantStatus → String
tenant_status_value TenantStatus.active = "active"
tenant_status_value TenantStatus.suspended = "suspended"
tenant_status_value TenantStatus.canceled = "canceled"

unfoldable pub tenant_status_name : TenantStatus → String
tenant_status_name TenantStatus.active = "ACTIVE"
tenant_status_name TenantStatus.suspended = "SUSPENDED"
tenant_status_name TenantStatus.canceled = "CANCELED"

unfoldable pub subscription_status_value : SubscriptionStatus → String
subscription_status_value SubscriptionStatus.active = "active"
subscription_status_value SubscriptionStatus.past_due = "past_due"
subscription_status_value SubscriptionStatus.canceled = "canceled"
subscription_status_value SubscriptionStatus.incomplete = "incomplete"

unfoldable pub subscription_status_name : SubscriptionStatus → String
subscription_status_name SubscriptionStatus.active = "ACTIVE"
subscription_status_name SubscriptionStatus.past_due = "PAST_DUE"
subscription_status_name SubscriptionStatus.canceled = "CANCELED"
subscription_status_name SubscriptionStatus.incomplete = "INCOMPLETE"

unfoldable pub event_type_value : EventType → String
event_type_value EventType.api_call = "api_call"
event_type_value EventType.ai_token = "ai_token"

unfoldable pub event_type_name : EventType → String
event_type_name EventType.api_call = "API_CALL"
event_type_name EventType.ai_token = "AI_TOKEN"

-- `status == TenantStatus.ACTIVE`
abbrev pub is_active_tenant : TenantStatus → Bool
is_active_tenant TenantStatus.active = true
is_active_tenant _ = false

-- `Subscription.status == SubscriptionStatus.ACTIVE`
abbrev pub is_active : SubscriptionStatus → Bool
is_active SubscriptionStatus.active = true
is_active _ = false

-- `event_type == EventType.API_CALL`
abbrev pub is_api_call : EventType → Bool
is_api_call EventType.api_call = true
is_api_call EventType.ai_token = false

-- `event_type == other`
abbrev pub same_event_type : EventType → EventType → Bool
same_event_type EventType.api_call EventType.api_call = true
same_event_type EventType.ai_token EventType.ai_token = true
same_event_type _ _ = false
