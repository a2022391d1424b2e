-- ===== src/Metering/Account.antt =====
-- The specification of app/services/metering.py without its tables: an account that keeps a response
-- for each key and the usage of each period, and no rows.
use mathlib.Core.Path.{fun_ext}
use flyrank_backend_capstone.Prelude.{
  ℕ, ◌+◌, ◌≡◌, ◌⊎◌, inl, inr, refl, ap, ◌∙◌, String, true, false, Option, some, none, if◌then◌else◌,
  ◌&&◌, ◌==◌, leb, ltb, same_text, Bool-cases,
}
use flyrank_backend_capstone.Models.{
  Tenant, EventType, IdempotencyRecord, UsageEvent, same_event_type,
}
use flyrank_backend_capstone.Pricing.{Settings, TokenUsage}
use flyrank_backend_capstone.Store.Schema.{Tables, get_idempotency_record}
use flyrank_backend_capstone.Store.Database.{Database, View, IsLawful, opened}
use flyrank_backend_capstone.Store.Action.{Env, Exception, Outcome, returned, raised, Run}
use flyrank_backend_capstone.Quota.{period_usage}
use flyrank_backend_capstone.Quota.Decision.{LoadsAll, EndsInRange}
use flyrank_backend_capstone.Metering.Defs.{
  MeteringResult, replay_of, conflict, usage_or_default, requested_quantity, record_row,
  record_usage,
}
use flyrank_backend_capstone.Metering.Spec.{
  Meters, replayed, recorded, refused_by_check, conflicted, failed, recorded_tables, event_at,
}
use flyrank_backend_capstone.Metering.Outcomes.{record_usage-Meters}

-- A tenant's usage of an event type from a start to an end.
abbrev pub Usage : Type 0
Usage = ℕ → ℕ → ℕ → EventType → ℕ

pub record Account : Type 0 where
  pub responses : String → Option MeteringResult
  pub used : Usage

-- `q` units more in each period that the instant is in.
abbrev pub charge : ℕ → EventType → ℕ → ℕ → Usage → Usage
charge tenant_id type q instant used id start end ty =
    (if (tenant_id == id && (leb start instant && ltb instant end)) && same_event_type type ty
      then q
      else 0)
    + used id start end ty

abbrev pub put :
    String → MeteringResult → (String → Option MeteringResult) → String → Option MeteringResult
put key result responses k = if same_text key k then some result else responses k

-- How an account takes a request for `q` units: it repeats what it knows; or it charges them once and
-- keeps the response; or it takes nothing.
pub data Accounts (tenant_id : ℕ) (key : String) (type : EventType) (q : ℕ) (a : Account)
    (o : Outcome MeteringResult) (after : Account) : Type 0 where
  repeated :
      (result : MeteringResult)
      → a.responses key ≡ some result
      → o ≡ returned result
      → after ≡ a
      → Accounts tenant_id key type q a o after
  charged :
      (result : MeteringResult) (instant : ℕ)
      → a.responses key ≡ none
      → result.replayed ≡ false
      → o ≡ returned result
      → after ≡ record {
        responses = put key (record result { replayed = true }) a.responses;
        used = charge tenant_id type q instant a.used;
      }
      → Accounts tenant_id key type q a o after
  untaken :
      a.responses key ≡ none
      → ((x : Exception) × (o ≡ raised x)) ⊎ (o ≡ returned conflict)
      → after ≡ a
      → Accounts tenant_id key type q a o after

abbrev pub replay_if_some : Option IdempotencyRecord → Option MeteringResult
replay_if_some none = none
replay_if_some (some r) = some (replay_of r)

-- The account that some tables stand for.
abbrev pub account_of : Tables → Account
account_of t = record {
  responses = λ key. replay_if_some (get_idempotency_record key t);
  used = λ id start end type. period_usage id start end type t;
}

-- A new event and its response are one charge and one kept response.
account_of-recorded :
    (e : UsageEvent) (r : IdempotencyRecord) (t : Tables)
    → account_of (recorded_tables e r t) ≡ record {
      responses = put r.idempotency_key (replay_of r) (account_of t).responses;
      used = charge e.tenant_id e.event_type e.total_quantity e.timestamp (account_of t).used;
    }
unfolding period_usage
account_of-recorded e r t = λ i. record {
  responses = fun_ext responses i;
  used = (account_of (recorded_tables e r t)).used;
}
  where
    responses :
        (key : String)
        → (account_of (recorded_tables e r t)).responses key
          ≡ put r.idempotency_key (replay_of r) (account_of t).responses key
    responses key = elim (Bool-cases (same_text r.idempotency_key key)) [
      | inl same ↦ rw same refl
      | inr other ↦ rw other refl
    ]

Meters-Accounts :
    {E : Env} {settings : Settings} {tenant : Tenant} {key : String} {type : EventType}
    {u : TokenUsage} {now : ℕ} {t : Tables} {o : Outcome MeteringResult} {after : Tables}
    → Meters E settings tenant key type u now t o after
    → Accounts tenant.id key type (requested_quantity type u) (account_of t) o (account_of after)
Meters-Accounts (replayed r hit e same) =
    repeated (replay_of r) (ap replay_if_some hit) e (ap account_of same)
Meters-Accounts {E} {settings} {tenant} {key} {type} {u} {t}
      (recorded c n created_at miss d new e after) =
    let row = event_at E settings tenant key type u n in
    charged _ row.timestamp (ap replay_if_some miss) refl e
      (ap account_of after ∙ account_of-recorded row (record_row row c created_at) t)
Meters-Accounts (refused_by_check x miss d e same) =
    untaken (ap replay_if_some miss) (inl (x, e)) (ap account_of same)
Meters-Accounts (conflicted c n miss d clash e same) =
    untaken (ap replay_if_some miss) (inr e) (ap account_of same)
Meters-Accounts (failed c n miss d wide e same) =
    untaken (ap replay_if_some miss) (inl (_, e)) (ap account_of same)

-- On any lawful session that has just been opened on tables whose periods `datetime` can hold,
-- record_usage takes the account of the stored tables
-- as the specification says: a known key is answered with what is kept for it, and charges nothing; a
-- new one is charged its quantity once, in each period that the event's instant is in, and its
-- response is kept; and where an exception or the 409 ends the call, the account is as it was.
pub record_usage-Accounts :
    (E : Env) {D : Database} {view : D.Session → View}
    → IsLawful D view
    → (settings : Settings) (tenant : Tenant) (key : String) (type : EventType)
      (token_usage : Option TokenUsage) (t : Tables) (r : Run D.Session)
    → LoadsAll E
    → EndsInRange t
    → view r.session ≡ opened t
    → let (o, after) = record_usage E D settings tenant key type token_usage r in
      Accounts tenant.id key type
        (requested_quantity type (usage_or_default token_usage))
        (account_of t)
        o
        (account_of (view after.session).stored)
record_usage-Accounts E lawful settings tenant key type token_usage t r loads range fresh =
    Meters-Accounts
      (record_usage-Meters E lawful settings tenant key type token_usage t r loads range fresh)
