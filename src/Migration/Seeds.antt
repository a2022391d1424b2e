-- ===== src/Migration/Seeds.antt =====
-- A tenant that is created over the plans of the migration has the limits of the settings.
use flyrank_backend_capstone.Prelude.{ℕ}
use flyrank_backend_capstone.Config.{Settings}
use flyrank_backend_capstone.Models.{PlanType, EventType}
use flyrank_backend_capstone.Store.Database.{Database}

-- "Plan defaults" of the settings.
abbrev pub limit_setting : Settings → PlanType → EventType → ℕ
limit_setting settings PlanType.free EventType.api_call = settings.free_plan_api_call_limit
limit_setting settings PlanType.free EventType.ai_token = settings.free_plan_token_limit
limit_setting settings PlanType.pro EventType.api_call = settings.pro_plan_api_call_limit
limit_setting settings PlanType.pro EventType.ai_token = settings.pro_plan_token_limit
