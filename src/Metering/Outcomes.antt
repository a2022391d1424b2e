-- ===== src/Metering/Outcomes.antt =====
-- `MeteringEngine.record_usage` meets its description, over any lawful session.
use flyrank_backend_capstone.Prelude.{
  ℕ, ◌≡◌, refl, sym, ap, subst, String, Option, none, Option-cases, inl, inr, ◌∙◌,
}
use flyrank_backend_capstone.Models.{Tenant, EventType}
use flyrank_backend_capstone.Pricing.{Settings, TokenUsage}
use flyrank_backend_capstone.Store.Schema.{
  Tables, integrity_error, data_error, get_idempotency_record,
}
use flyrank_backend_capstone.Store.Database.{
  Database, View, IsLawful, contract, opened, view_select, view_rollback,
}
use flyrank_backend_capstone.Store.Action.{
  Env, Exception, handle, continue, db_error, Outcome, returned, raised, Run, ◌>>=◌, try_except,
  query, rollback,
}
use flyrank_backend_capstone.Store.Simulation.{Simulates, simulation}
use flyrank_backend_capstone.Quota.{QuotaCheckResult, check_and_reserve}
use flyrank_backend_capstone.Quota.Decision.{
  Simulates-check_and_reserve, check_and_reserve-ReadsOnly, check_and_reserve-contract, Decides,
  LoadsAll, EndsInRange,
}
use flyrank_backend_capstone.Metering.Defs.{
  MeteringResult, usage_or_default, requested_quantity, recover, write_usage, attempt, record_usage,
}
use flyrank_backend_capstone.Metering.Spec.{
  event_at, Meters, replayed, recorded, refused_by_check, conflicted, failed,
}
use flyrank_backend_capstone.Metering.Writing.{
  Writes, written, duplicate, too_large, write_usage-Writes, Decides-IsRefusal, recover-IsRefusal,
}

module _ (E : Env) (settings : Settings) (tenant : Tenant) (key : String) (type : EventType)
    (u : TokenUsage) (now : ℕ) (t : Tables) (miss : get_idempotency_record key t ≡ none) where
  abbrev recovered : Outcome MeteringResult × Run View → Outcome MeteringResult × Run View
  recovered p = handle p.0 (recover contract key) p.1

  abbrev Ends : Outcome MeteringResult × Run View → Type 0
  Ends p = Meters E settings tenant key type u now t p.0 p.1.session.stored

  Writes-Ends :
      (c : QuotaCheckResult) (n : ℕ) (p : Outcome MeteringResult × Run View)
      → Decides tenant type (requested_quantity type u) now t (returned c)
      → Writes (event_at E settings tenant key type u n) c t p
      → Ends (recovered p)
  unfolding recover ◌>>=◌ rollback query view_select view_rollback
  Writes-Ends c n (o, r) d (written created_at new ends after) =
      rw ends (recorded c n created_at miss d new refl after)
  Writes-Ends c n (o, r) d (duplicate clash ends same) =
      rw (ends, same) (conflicted c n miss d clash (rw miss) (rw miss))
  Writes-Ends c n (o, r) d (too_large wide ends same) = rw ends (failed c n miss d wide refl same)

  checked-Ends :
      (o : Outcome QuotaCheckResult) (m : ℕ)
      → Decides tenant type (requested_quantity type u) now t o
      → Ends (
          recovered (
            continue o
              (write_usage E contract settings tenant key type u)
              (record { session = opened t; draws = m })))
  unfolding view_rollback
  checked-Ends (returned c) m d =
      Writes-Ends c m _ d (write_usage-Writes E settings tenant key type u c t m miss)
  checked-Ends (raised x) m d =
      rw
        (recover-IsRefusal key x (record { session = opened t; draws = m })
          (Decides-IsRefusal x d refl))
        (refused_by_check x miss d refl refl)

  attempt-Ends :
      (n : ℕ)
      → Decides tenant type
          (requested_quantity type u)
          now
          t
          (check_and_reserve E contract tenant type
            (requested_quantity type u)
            (record { session = opened t; draws = n })).0
      → Ends
          (attempt E contract settings tenant key type u (record { session = opened t; draws = n }))
  unfolding attempt ◌>>=◌ try_except
  attempt-Ends n d =
      let (o, r) =
        check_and_reserve E contract tenant type (requested_quantity type u)
          (record { session = opened t; draws = n }) in
      let same =
        (check_and_reserve-ReadsOnly E contract tenant type (requested_quantity type u)).at
          (record { session = opened t; draws = n }) in
      subst
        (λ (v : View). Ends (
          recovered (
            continue o (write_usage E contract settings tenant key type u)
              (record { session = v; draws = r.draws }))))
        (sym same) (checked-Ends o r.draws d)

module _ (E : Env) (settings : Settings) (tenant : Tenant) (key : String) (type : EventType)
    (token_usage : Option TokenUsage) (t : Tables) (loads : LoadsAll E)
    (range : EndsInRange t) where
  pub record_usage-contract :
      (n : ℕ)
      → let (o, r) =
          record_usage E contract settings tenant key type token_usage
            (record { session = opened t; draws = n }) in
        Meters E settings tenant key type
          (usage_or_default token_usage)
          (E.now n)
          t
          o
          r.session.stored
  unfolding record_usage query ◌>>=◌ view_select
  record_usage-contract n =
      let u = usage_or_default token_usage in
      elim (Option-cases (get_idempotency_record key t)) [
        | inr (r, hit) ↦ rw hit (replayed r hit refl refl)
        | inl miss ↦ rw miss (
            attempt-Ends E settings tenant key type u (E.now n) t miss n (
              check_and_reserve-contract E tenant type (requested_quantity type u)
                (record { session = opened t; draws = n }) loads range refl))
      ]

Simulates-recover :
    {D : Database} {view : D.Session → View}
    → IsLawful D view
    → (key : String) (e : Exception) → Simulates view (recover D key e) (recover contract key e)
unfolding recover
Simulates-recover lawful key (db_error integrity_error) = search simulation depth 20
Simulates-recover lawful key (db_error data_error) = search simulation
Simulates-recover lawful key _ = search simulation depth 20

pub Simulates-record_usage :
    (E : Env) {D : Database} {view : D.Session → View}
    → IsLawful D view
    → (settings : Settings) (tenant : Tenant) (key : String) (type : EventType)
      (token_usage : Option TokenUsage)
    → Simulates view
        (record_usage E D settings tenant key type token_usage)
        (record_usage E contract settings tenant key type token_usage)
unfolding record_usage recover
Simulates-record_usage E lawful settings tenant key type token_usage =
    search (simulation, Simulates-check_and_reserve, Simulates-recover) depth 20

-- For every environment and lawful session that has just been opened on tables whose periods
-- `datetime` can hold, and for every request, `record_usage` ends in one of five ways: with the stored response if the key has one,
-- and nothing else; with a fresh 201 whose event and idempotency record are the only new rows; with
-- the refusal of the check; with the 409 where the event's row clashes; or with the data error of a
-- number that its column cannot hold. In all but the second the stored tables are as they were.
pub record_usage-Meters :
    (E : Env) {D : Database} {view : D.Session → View}
    → IsLawful D view
    → (settings : Settings) (tenant : Tenant) (key : String) (type : EventType)
      (token_usage : Option TokenUsage) (t : Tables) (r : Run D.Session)
    → LoadsAll E
    → EndsInRange t
    → view r.session ≡ opened t
    → let (o, after) = record_usage E D settings tenant key type token_usage r in
      Meters E settings tenant key type
        (usage_or_default token_usage)
        (E.now r.draws)
        t
        o
        (view after.session).stored
record_usage-Meters E {D} {view} lawful settings tenant key type token_usage t r loads range fresh =
    let same = (Simulates-record_usage E lawful settings tenant key type token_usage).at r in
    subst
      (λ (p : Outcome MeteringResult × Run View).
        Meters E settings tenant key type (usage_or_default token_usage) (E.now r.draws) t p.0
          p.1.session.stored)
      (sym (
        same
        ∙ ap
            (λ (v : View).
              record_usage E contract settings tenant key type token_usage
                (record { session = v; draws = r.draws }))
            fresh))
      (record_usage-contract E settings tenant key type token_usage t loads range r.draws)
