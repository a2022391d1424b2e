-- ===== src/Tests/SessionRuns.antt =====
-- Two sessions at once: two requests of one tenant for the last unit of its quota.
use flyrank_backend_capstone.Prelude.{
  ℕ, ◌≡◌, ◌==◌, refl, none, Bool-cases, inl, inr, string_dec, String,
}
use flyrank_backend_capstone.Models.{EventType}
use flyrank_backend_capstone.Config.{default_settings}
use flyrank_backend_capstone.Pricing.{calculate_api_call_cost_cents}
use flyrank_backend_capstone.Clock.{as_aware_utc}
use flyrank_backend_capstone.Store.Schema.{
  apply_changes, apply_change, insert_usage_event, insert_idempotency_record,
}
use flyrank_backend_capstone.Store.Database.{
  contract-IsLawful, contract, view_select, view_add, view_flush, view_commit, view_rollback,
}
use flyrank_backend_capstone.Store.Action.{
  ◌>>=◌, query, add, flush, commit, rollback, draw, pure, raise,
}
use flyrank_backend_capstone.Quota.{
  period_usage, get_locked_active_subscription, check_subscription, latest_active, sum_period_usage,
  usage_row, retry_after,
}
use flyrank_backend_capstone.Metering.{
  record_usage, get_stored_response, write_usage, recover, requested_quantity, cost_cents,
}
use flyrank_backend_capstone.Metering.Limits.{IsWithin}
use flyrank_backend_capstone.Sessions.{
  Job, idle, asked, ended, World, IsFree, proceed_in, arrives, proceeds, Reaches, here, next,
  lock_of, wanted, replace, proceed,
}
use flyrank_backend_capstone.Sessions.Worlds.{IsUnlocked, Reaches-record_usage}
use flyrank_backend_capstone.Sessions.Interleaved.{interleaved-IsWithin}
use flyrank_backend_capstone.Tests.MeteringRuns.{tables-IsWithin}
use flyrank_backend_capstone.Tests.Samples.{env, acme, tables, session}

abbrev pub job : String → Job
job key = record {
  settings = default_settings;
  tenant = acme;
  key = key;
  type = EventType.api_call;
  token_usage = none;
}

abbrev quiet : World
quiet = record { stored = tables; phases = λ j. idle }

-- Both requests have arrived.
abbrev arrived : World
arrived = record {
  stored = tables;
  phases = replace (replace quiet.phases 0 (asked (job "k1"))) 1 (asked (job "k2"));
}

-- Both have found no stored response.
abbrev looked_up : World
looked_up = proceed_in env 0 1 (proceed_in env 0 0 arrived)

-- The session 0 has checked.
abbrev one_checked : World
one_checked = proceed_in env 0 0 (proceed_in env 0 0 looked_up)

abbrev one_written : World
one_written = proceed_in env 1 0 one_checked

abbrev two_refused : World
two_refused = proceed_in env 2 1 (proceed_in env 2 1 (proceed_in env 2 1 one_written))

-- The one unit is used once.
written_once : period_usage 7 1000 60000000 EventType.api_call two_refused.stored ≡ 1
unfolding proceed period_usage get_stored_response get_locked_active_subscription check_subscription
    latest_active write_usage recover ◌>>=◌ query add flush commit rollback draw pure raise
    view_select view_add view_flush view_commit view_rollback apply_changes apply_change
    insert_usage_event insert_idempotency_record string_dec as_aware_utc requested_quantity
    cost_cents sum_period_usage usage_row retry_after calculate_api_call_cost_cents
written_once = refl

arrived_steps : Reaches quiet arrived
arrived_steps = next (arrives 0 (job "k1") refl) (next (arrives 1 (job "k2") refl) here)

pub wants_none-IsFree : (w : World) (i : ℕ) → wanted w.stored (w.phases i) ≡ none → IsFree w i
wants_none-IsFree w i h id wants j = cc

-- The session 0 takes the lock, which no session has.
looked_up-IsFree : IsFree looked_up 0
unfolding lock_of proceed get_stored_response query view_select string_dec
looked_up-IsFree id wants j = elim (Bool-cases (j == 1)) [
  | inl e ↦ rw e (λ h. cc)
  | inr e ↦
      rw e (elim (Bool-cases (j == 0)) [ inl at ↦ rw at (λ h. cc) | inr at ↦ rw at (λ h. cc) ])
]

written_steps : Reaches quiet one_written
unfolding wanted proceed get_stored_response get_locked_active_subscription check_subscription
    latest_active ◌>>=◌ query draw pure raise view_select string_dec as_aware_utc sum_period_usage
    usage_row requested_quantity
written_steps = next (arrives 0 (job "k1") refl) (
    next (arrives 1 (job "k2") refl) (
      next (proceeds env 0 0 (wants_none-IsFree arrived 0 refl)) (
        next (proceeds env 0 1 (wants_none-IsFree (proceed_in env 0 0 arrived) 1 refl)) (
          next (proceeds env 0 0 looked_up-IsFree) (
            next (proceeds env 0 0 (wants_none-IsFree (proceed_in env 0 0 looked_up) 0 refl))
              (next (proceeds env 1 0 (wants_none-IsFree one_checked 0 refl)) here))))))

quiet_unlocked : (i : ℕ) → lock_of (quiet.phases i) ≡ none
unfolding lock_of
quiet_unlocked i = refl

interleaved-IsWithin_example : IsWithin 7 one_written.stored
interleaved-IsWithin_example = interleaved-IsWithin 7 written_steps quiet_unlocked tables-IsWithin

abbrev one_asked : World
one_asked = record { stored = tables; phases = replace quiet.phases 0 (asked (job "k1")) }

one_asked-IsUnlocked : IsUnlocked one_asked 0
unfolding lock_of
one_asked-IsUnlocked j other = elim (Bool-cases (j == 0)) [
  | inl at ↦ rw at refl
  | inr at ↦ rw at refl
]

Reaches-record_usage_example :
    let (o, after) =
      record_usage env contract default_settings acme "k1" EventType.api_call none
        (session tables) in
    (v : World) × Reaches one_asked v × (v.phases 0 ≡ ended o) × (v.stored ≡ after.session.stored)
Reaches-record_usage_example =
    Reaches-record_usage env contract-IsLawful (job "k1") one_asked 0 (session tables) refl refl
      one_asked-IsUnlocked

-- What the lock is for: were both requests to check before either writes, the usage would pass the
-- limit of 1.
abbrev both_checked : World
both_checked =
    proceed_in env 1 1 (proceed_in env 1 1 (proceed_in env 0 0 (proceed_in env 0 0 looked_up)))

oversold :
    period_usage 7 1000 60000000 EventType.api_call
      (proceed_in env 2 1 (proceed_in env 1 0 both_checked)).stored
    ≡ 2
unfolding proceed period_usage get_stored_response get_locked_active_subscription check_subscription
    latest_active write_usage recover ◌>>=◌ query add flush commit rollback draw pure raise
    view_select view_add view_flush view_commit view_rollback apply_changes apply_change
    insert_usage_event insert_idempotency_record string_dec as_aware_utc requested_quantity
    cost_cents sum_period_usage usage_row retry_after calculate_api_call_cost_cents
oversold = refl
