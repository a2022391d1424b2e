-- ===== src/Metering/Replay.antt =====
-- The exactly-once promise of app/services/metering.py towards one key.
use flyrank_backend_capstone.Prelude.{
  ℕ, ◌≡◌, refl, ap, ◌∙◌, subst, String, true, false, Option, some, arith, same_text_refl,
}
use flyrank_backend_capstone.Models.{Tenant, EventType, Body, IdempotencyRecord}
use flyrank_backend_capstone.Pricing.{Settings, TokenUsage}
use flyrank_backend_capstone.Store.Schema.{Tables, get_idempotency_record}
use flyrank_backend_capstone.Store.Database.{
  Database, View, IsLawful, contract, opened, view_select,
}
use flyrank_backend_capstone.Store.Action.{Env, Outcome, returned, Run, ◌>>=◌, query}
use flyrank_backend_capstone.Quota.Decision.{LoadsAll, EndsInRange}
use flyrank_backend_capstone.Metering.Defs.{
  MeteringResult, replay_of, record_row, record_usage, conflict,
}
use flyrank_backend_capstone.Metering.Spec.{
  Meters, replayed, recorded, refused_by_check, conflicted, failed, event_at,
}
use flyrank_backend_capstone.Metering.Outcomes.{Simulates-record_usage, record_usage-Meters}

replay-contract :
    (E : Env) (settings : Settings) (tenant : Tenant) (key : String) (type : EventType)
    (token_usage : Option TokenUsage) (t : Tables) (rec : IdempotencyRecord) (n : ℕ)
    → get_idempotency_record key t ≡ some rec
    → record_usage E contract settings tenant key type token_usage
        (record { session = opened t; draws = n })
      ≡ (returned (replay_of rec), record { session = opened t; draws = n })
unfolding record_usage query ◌>>=◌ view_select
replay-contract E settings tenant key type token_usage t rec n hit = rw hit

-- For every lawful session opened on tables that hold a response for the key, whatever the tenant,
-- the event type, the usage and the clock of the request are: it gets that status and body, marked
-- as a replay, and the session's view is as it was.
pub record_usage-replay :
    (E : Env) {D : Database} {view : D.Session → View}
    → IsLawful D view
    → (settings : Settings) (tenant : Tenant) (key : String) (type : EventType)
      (token_usage : Option TokenUsage) (t : Tables) (rec : IdempotencyRecord) (r : Run D.Session)
    → view r.session ≡ opened t
    → get_idempotency_record key t ≡ some rec
    → let (o, after) = record_usage E D settings tenant key type token_usage r in
      (o ≡ returned (replay_of rec)) × (view after.session ≡ opened t)
record_usage-replay E {view} lawful settings tenant key type token_usage t rec r fresh hit =
    let same = (Simulates-record_usage E lawful settings tenant key type token_usage).at r in
    let runs =
      same
      ∙ ap
          (λ (v : View).
            record_usage E contract settings tenant key type token_usage
              (record { session = v; draws = r.draws }))
          fresh
      ∙ replay-contract E settings tenant key type token_usage t rec r.draws hit in
    (
      ap (λ (p : Outcome MeteringResult × Run View). p.0) runs,
      ap (λ (p : Outcome MeteringResult × Run View). p.1.session) runs,
    )

-- After a fresh answer the key's response is stored.
stored_after :
    {E : Env} {settings : Settings} {tenant : Tenant} {key : String} {type : EventType}
    {u : TokenUsage} {now : ℕ} {t : Tables} {o : Outcome MeteringResult} {after : Tables}
    (body : Body)
    → Meters E settings tenant key type u now t o after
    → o ≡ returned (record { status_code = 201; body = body; replayed = false })
    → (rec : IdempotencyRecord) × (get_idempotency_record key after ≡ some rec)
      × (rec.status_code ≡ 201)
      × (rec.response_body ≡ body)
stored_after body (replayed r hit e _) h = cc
stored_after {E} {settings} {tenant} {key} {type} {u} {t} body
      (recorded c n created_at miss d new e after) h =
    (
      record_row (event_at E settings tenant key type u n) c created_at,
      rw after (rw (same_text_refl key)),
      refl,
      ground arith,
    )
stored_after body (refused_by_check x _ _ e _) h = cc
stored_after body (conflicted c n _ _ _ e _) h = unfold conflict in ground arith
stored_after body (failed c n _ _ _ e _) h = cc

-- For every environment and lawful session opened on tables whose periods `datetime` can hold, if a
-- request got a fresh 201, then every later request with the same key, on any lawful session opened on the tables
-- that were stored, for any tenant, event type, usage, settings and clock, gets the same body with
-- 201, marked as a replay, and leaves the stored tables as they are.
pub record_usage_twice :
    (E later_env : Env) {D later_db : Database} {view : D.Session → View}
    {later_view : later_db.Session → View}
    → IsLawful D view
    → IsLawful later_db later_view
    → (settings later_settings : Settings) (tenant later_tenant : Tenant) (key : String)
      (type later_type : EventType) (token_usage later_usage : Option TokenUsage)
      (t stored : Tables) (r : Run D.Session) (later : Run later_db.Session) (body : Body)
    → LoadsAll E
    → EndsInRange t
    → view r.session ≡ opened t
    → (record_usage E D settings tenant key type token_usage r).0
      ≡ returned (record { status_code = 201; body = body; replayed = false })
    → (view (record_usage E D settings tenant key type token_usage r).1.session).stored ≡ stored
    → later_view later.session ≡ opened stored
    → let (o, after) =
        record_usage later_env later_db later_settings later_tenant key later_type later_usage
          later in
      (o ≡ returned (record { status_code = 201; body = body; replayed = true }))
      × ((later_view after.session).stored ≡ stored)
record_usage_twice E later_env lawful later_lawful settings later_settings tenant later_tenant key
      type later_type token_usage later_usage t stored r later body loads range fresh first kept
      reopened =
    let ends =
      record_usage-Meters E lawful settings tenant key type token_usage t r loads range fresh in
    let (rec, hit, status, same) = stored_after body ends first in
    let (again, same_view) =
      record_usage-replay later_env later_lawful later_settings later_tenant key later_type
        later_usage stored rec later reopened
        (subst (λ s. get_idempotency_record key s ≡ some rec) kept hit) in
    (again ∙ cc (status, same), ap (λ (v : View). v.stored) same_view)
