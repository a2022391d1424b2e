-- ===== src/Metering/Widths.antt =====
-- The numbers of an accepted event fit the columns of `usage_events`.
use flyrank_backend_capstone.Prelude.{
  ℕ, suc, ◌≤◌, ◌≡◌, refl, sym, subst, ◌∙◌, String, true, Option, some, arith,
}
use flyrank_backend_capstone.Models.{Tenant, EventType, Plan}
use flyrank_backend_capstone.Pricing.{
  TokenUsage, no_tokens, default_settings, total_tokens, calculate_api_call_cost_cents,
}
use flyrank_backend_capstone.Pricing.Rounding.{cost_cents-le_of_tokens}
use flyrank_backend_capstone.Store.Schema.{Tables, get_plan, fits_usage_event, fits_text}
use flyrank_backend_capstone.Store.Database.{Database, View, IsLawful, opened}
use flyrank_backend_capstone.Store.Action.{Env, Exception, Outcome, raised, Run}
use flyrank_backend_capstone.Quota.Decision.{LoadsAll, EndsInRange}
use flyrank_backend_capstone.Metering.Defs.{
  MeteringResult, usage_or_default, requested_quantity, cost_cents, event_row, record_usage,
}
use flyrank_backend_capstone.Metering.Spec.{
  Meters, replayed, recorded, refused_by_check, conflicted, failed,
}
use flyrank_backend_capstone.Metering.Outcomes.{record_usage-Meters}
use flyrank_backend_capstone.Metering.Writing.{IsRefusal, Decides-IsRefusal, raised-injective}
use flyrank_backend_capstone.Metering.Limits.{Room, Decides-Room}

-- The plans' limits are values of their 32-bit columns.
pub record PlansFit (t : Tables) : Type 0 where
  pub at : (id : ℕ) (plan : Plan) → get_plan id t ≡ some plan → plan.token_limit ≤ 2147483647

-- A usage that the request schema lets through: no tokens on an API call.
pub data IsValidUsage : EventType → TokenUsage → Type 0 where
  call : IsValidUsage EventType.api_call no_tokens
  tokens : (u : TokenUsage) → IsValidUsage EventType.ai_token u

fits_tokens :
    (tenant : Tenant) (key : String) (id timestamp : ℕ) (u : TokenUsage)
    → fits_text 255 key ≡ true
    → total_tokens u ≤ 2147483647
    → fits_usage_event (event_row default_settings tenant key EventType.ai_token u id timestamp)
      ≡ true
unfolding requested_quantity cost_cents total_tokens
fits_tokens tenant key id timestamp u short h = ground (arith, cost_cents-le_of_tokens u h)

fits_row :
    (tenant : Tenant) (key : String) {type : EventType} {u : TokenUsage} (id timestamp : ℕ)
    (t : Tables)
    → IsValidUsage type u
    → PlansFit t
    → fits_text 255 key ≡ true
    → Room tenant.id type (requested_quantity type u) t
    → fits_usage_event (event_row default_settings tenant key type u id timestamp) ≡ true
unfolding requested_quantity cost_cents calculate_api_call_cost_cents
fits_row tenant key id timestamp t call fit short room = ground arith
fits_row tenant key id timestamp t (tokens u) fit short (s, plan, selected, found, room) =
    fits_tokens tenant key id timestamp u short (omega (arith, fit.at s.plan_id plan found))

pub Meters-IsRefusal :
    {E : Env} {tenant : Tenant} {key : String} {type : EventType} {u : TokenUsage} {now : ℕ}
    {t : Tables} {o : Outcome MeteringResult} {after : Tables} (x : Exception)
    → Meters E default_settings tenant key type u now t o after
    → IsValidUsage type u
    → PlansFit t
    → fits_text 255 key ≡ true
    → o ≡ raised x
    → IsRefusal x
Meters-IsRefusal x (replayed r _ e _) valid fit short k = cc
Meters-IsRefusal x (recorded c n created_at _ _ _ e _) valid fit short k = cc
Meters-IsRefusal x (refused_by_check y _ d e _) valid fit short k =
    subst IsRefusal (raised-injective (sym e ∙ k)) (Decides-IsRefusal y d refl)
Meters-IsRefusal x (conflicted c n _ _ _ e _) valid fit short k = cc
Meters-IsRefusal {E} {tenant} {key} {t} x (failed c n _ d wide e _) valid fit short k = cc (
  fits_row tenant key (E.uuid4 n) (E.now (suc n)) t valid fit short (Decides-Room c d refl),
  wide,
)

-- With the default rates and plans whose token limits fit their column, on any lawful session opened
-- on such tables: a request with a key of 255 characters at most and a usage that the schema lets
-- through raises nothing but the two
-- errors that the router maps to 429 and 402; in particular no count and no cost overflows its
-- column.
pub record_usage-IsRefusal :
    (E : Env) {D : Database} {view : D.Session → View}
    → IsLawful D view
    → (tenant : Tenant) (key : String) (type : EventType) (token_usage : Option TokenUsage)
      (t : Tables) (r : Run D.Session) (x : Exception)
    → LoadsAll E
    → EndsInRange t
    → view r.session ≡ opened t
    → IsValidUsage type (usage_or_default token_usage)
    → PlansFit t
    → fits_text 255 key ≡ true
    → (record_usage E D default_settings tenant key type token_usage r).0 ≡ raised x
    → IsRefusal x
record_usage-IsRefusal E lawful tenant key type token_usage t r x loads range fresh valid fit short
      ends =
    Meters-IsRefusal x
      (record_usage-Meters E lawful default_settings tenant key type token_usage t r loads range
        fresh)
      valid fit short ends
