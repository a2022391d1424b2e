-- ===== src/Webhooks/Events.antt =====
-- What `handle_event` reads of a verified `stripe.Event`. Stripe decides what an event holds, so each
-- key may be missing or null.
use flyrank_backend_capstone.Prelude.{ℕ, String, Option, none, some, List}

-- A key of a JSON object.
pub data Field (A : Type 0) : Type 0 where
  missing null : Field A
  value : A → Field A

pub record Price : Type 0 where
  pub id : Field String

pub record LineItem : Type 0 where
  pub price : Field Price

pub record LineItems : Type 0 where
  pub items : Field (List LineItem)

-- `event["data"]["object"]` after `to_dict`. The period's ends are POSIX seconds.
pub record StripeObject : Type 0 where
  pub id : Field String
  pub customer : Field String
  pub subscription : Field String
  pub line_items : Field LineItems
  pub status : Field String
  pub current_period_start : Field ℕ
  pub current_period_end : Field ℕ

pub record Event : Type 0 where
  pub id : String
  pub type : String
  pub object : StripeObject

-- `obj.get(key)`
abbrev pub get : {A : Type 0} → Field A → Option A
get missing = none
get null = none
get (value a) = some a

-- The dictionaries that `handle_event` returns.
pub data Reply : Type 0 where
  duplicate_ignored ignored_unhandled_type : String → Reply
  no_matching_tenant no_matching_subscription : Option String → Reply
  no_matching_plan : Reply
  subscription_created subscription_updated subscription_canceled : ℕ → Reply
