-- ===== src/Migration/Defs.antt =====
-- The labels of the four ENUM types, and the plans of `bulk_insert`, whose keys the autoincrement
-- column counts from 1.
use flyrank_backend_capstone.Prelude.{String, List, [], ◌∷◌}
use flyrank_backend_capstone.Models.{Plan}

abbrev pub plan_type_enum : List String
plan_type_enum = "free" ∷ "pro" ∷ []

abbrev pub tenant_status_enum : List String
tenant_status_enum = "active" ∷ "suspended" ∷ "canceled" ∷ []

abbrev pub subscription_status_enum : List String
subscription_status_enum = "active" ∷ "past_due" ∷ "canceled" ∷ "incomplete" ∷ []

abbrev pub event_type_enum : List String
event_type_enum = "api_call" ∷ "ai_token" ∷ []

abbrev pub seeded_free : Plan
seeded_free = record {
  id = 1;
  name = "free";
  api_call_limit = 1000;
  token_limit = 100000;
  price_cents = 0;
}

abbrev pub seeded_pro : Plan
seeded_pro = record {
  id = 2;
  name = "pro";
  api_call_limit = 100000;
  token_limit = 10000000;
  price_cents = 4900;
}

abbrev pub seeded_plans : List Plan
seeded_plans = seeded_free ∷ seeded_pro ∷ []
