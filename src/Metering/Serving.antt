-- ===== src/Metering/Serving.antt =====
-- Any number of usage requests, one after the other, each in a session of its own.
use flyrank_backend_capstone.Prelude.{ℕ, ◌≤◌, ◌≡◌, sym, subst, String, Option, All}
use flyrank_backend_capstone.Models.{Tenant, EventType}
use flyrank_backend_capstone.Pricing.{Settings, TokenUsage}
use flyrank_backend_capstone.Clock.{max_instant}
use flyrank_backend_capstone.Store.Schema.{Tables}
use flyrank_backend_capstone.Store.Database.{Database, View, IsLawful, opened}
use flyrank_backend_capstone.Store.Action.{Env, Outcome, Run}
use flyrank_backend_capstone.Quota.Decision.{LoadsAll, EndsInRange}
use flyrank_backend_capstone.Metering.Defs.{MeteringResult, record_usage}
use flyrank_backend_capstone.Metering.Spec.{Meters}
use flyrank_backend_capstone.Metering.Outcomes.{record_usage-Meters}
use flyrank_backend_capstone.Metering.Ledger.{IsLedger, Meters-IsLedger}
use flyrank_backend_capstone.Metering.Limits.{IsWithin, Meters-IsWithin, Meters-terms}

-- The tables that some sequence of calls leaves, whatever the requests, the environments, the
-- databases and the ways in which the calls end are.
pub data Served (t : Tables) : Tables → Type 1 where
  here : Served t t
  next :
      {u w : Tables}
      → Served t u
      → (E : Env) {D : Database} {view : D.Session → View} → IsLawful D view
      → (settings : Settings) (tenant : Tenant) (key : String) (type : EventType)
        (token_usage : Option TokenUsage) (r : Run D.Session)
      → LoadsAll E
      → view r.session ≡ opened u
      → w ≡ (view (record_usage E D settings tenant key type token_usage r).1.session).stored
      → Served t w

-- A predicate that every described call keeps.
abbrev IsKept : (Tables → Type 0) → Type 0
IsKept P =
    (E : Env) (settings : Settings) (tenant : Tenant) (key : String) (type : EventType)
    (u : TokenUsage) (now : ℕ) (t : Tables) (o : Outcome MeteringResult) (after : Tables)
    → Meters E settings tenant key type u now t o after
    → P t
    → P after

EndsInRange-kept : IsKept EndsInRange
EndsInRange-kept E settings tenant key type u now t o after m range =
    subst (All (λ s. s.current_period_end ≤ max_instant)) (sym (Meters-terms m).0) range

-- What single calls keep, sequences keep.
module _ (P : Tables → Type 0) (kept : IsKept P) where
  Served-kept : {t u : Tables} → Served t u → EndsInRange t → P t → EndsInRange u × P u
  Served-kept here range h = (range, h)
  Served-kept {t}
        (next {u} before E lawful settings tenant key type token_usage r loads fresh stored) range
        h =
      let (ranged, held) = Served-kept before range h in
      let ends =
        record_usage-Meters E lawful settings tenant key type token_usage u r loads ranged fresh in
      (
        subst EndsInRange (sym stored) (EndsInRange-kept _ _ _ _ _ _ _ _ _ _ ends ranged),
        subst P (sym stored) (kept _ _ _ _ _ _ _ _ _ _ ends held),
      )

-- From tables whose periods `datetime` can hold and in which a tenant's usage is within the limits of
-- its selected subscription's plan,
-- no sequence of usage requests, its own and those of other tenants, with fresh and repeated keys,
-- takes the usage of either event type past its limit.
pub Served-IsWithin :
    (id : ℕ) {t u : Tables} → Served t u → EndsInRange t → IsWithin id t → IsWithin id u
Served-IsWithin id served range h =
    (Served-kept (IsWithin id) (λ _ _ _ _ _ _ _ _ _ _ m. Meters-IsWithin id m) served range h).1

-- From tables whose events and stored responses are in step, every sequence of usage requests leaves
-- them in step: no key ever has two events, and each event has its 201 for the retries.
pub Served-IsLedger : {t u : Tables} → Served t u → EndsInRange t → IsLedger t → IsLedger u
Served-IsLedger served range h =
    (Served-kept IsLedger (λ _ _ _ _ _ _ _ _ _ _ m. Meters-IsLedger m) served range h).1
