-- ===== src/Tests/RaceRuns.antt =====
-- Two sessions with one key.
use flyrank_backend_capstone.Prelude.{
  ℕ, true, ◌≡◌, ◌≢◌, ◌==◌, refl, none, Bool-cases, inl, inr, string_dec, [], ◌∷◌,
}
use flyrank_backend_capstone.Models.{EventType, usage}
use flyrank_backend_capstone.Pricing.{calculate_api_call_cost_cents}
use flyrank_backend_capstone.Clock.{as_aware_utc}
use flyrank_backend_capstone.Store.Schema.{
  Tables, apply_changes, apply_change, insert_usage_event, insert_idempotency_record,
}
use flyrank_backend_capstone.Store.Database.{
  view_select, view_add, view_flush, view_commit, view_rollback,
}
use flyrank_backend_capstone.Store.Action.{
  quota_exceeded, Outcome, returned, raised, ◌>>=◌, query, add, flush, commit, rollback, draw, pure,
  raise,
}
use flyrank_backend_capstone.Quota.{
  get_locked_active_subscription, check_subscription, latest_active, sum_period_usage, usage_row,
  retry_after,
}
use flyrank_backend_capstone.Metering.{
  MeteringResult, conflict, get_stored_response, write_usage, recover, requested_quantity,
  cost_cents,
}
use flyrank_backend_capstone.Sessions.{
  idle, asked, ended, World, IsFree, proceed_in, Step, arrives, proceeds, Reaches, here, next,
  lock_of, wanted, replace, proceed,
}
use flyrank_backend_capstone.Sessions.Exactly.{AllFresh, interleaved-ne-conflict}
use flyrank_backend_capstone.Tests.SessionRuns.{job, wants_none-IsFree}
use flyrank_backend_capstone.Tests.Samples.{env, acme_subscription, tables}

-- The tenant is on a plan with more than one call.
abbrev roomy : Tables
roomy = record tables { subscriptions = record acme_subscription { plan_id = 2 } ∷ [] }

abbrev quiet : World
quiet = record { stored = roomy; phases = λ j. idle }

abbrev one_asked : World
one_asked = record quiet { phases = replace quiet.phases 0 (asked (job "k1")) }

abbrev both_asked : World
both_asked = record one_asked { phases = replace one_asked.phases 1 (asked (job "k1")) }

abbrev one_missed : World
one_missed = proceed_in env 0 0 both_asked

abbrev both_missed : World
both_missed = proceed_in env 0 1 one_missed

abbrev one_locked : World
one_locked = proceed_in env 0 0 both_missed

abbrev one_checked : World
one_checked = proceed_in env 0 0 one_locked

abbrev one_ended : World
one_ended = proceed_in env 1 0 one_checked

abbrev two_locked : World
two_locked = proceed_in env 2 1 one_ended

abbrev two_checked : World
two_checked = proceed_in env 2 1 two_locked

abbrev two_refused : World
two_refused = proceed_in env 3 1 two_checked

abbrev two_ended : World
two_ended = proceed_in env 4 1 two_refused

abbrev winner : MeteringResult
winner = record {
  status_code = 201;
  body = usage (record {
    id = 101;
    tenant_id = 7;
    event_type = EventType.api_call;
    total_quantity = 1;
    cost_cents = 0;
    plan_name = "pro";
    idempotency_key = "k1";
  });
  replayed = true;
}

-- The session that lost is answered with the winner's response.
replayed_winner : two_ended.phases 1 ≡ ended (returned winner)
unfolding lock_of wanted proceed get_stored_response get_locked_active_subscription
    check_subscription latest_active write_usage recover ◌>>=◌ query add flush commit rollback draw
    pure raise view_select view_add view_flush view_commit view_rollback apply_changes apply_change
    insert_usage_event insert_idempotency_record string_dec as_aware_utc requested_quantity
    cost_cents sum_period_usage usage_row retry_after calculate_api_call_cost_cents
replayed_winner = refl

unlocked-IsFree : (w : World) (i : ℕ) → ((j : ℕ) → lock_of (w.phases j) ≡ none) → IsFree w i
unlocked-IsFree w i h id wants j e = cc (h j)

-- Each session may go on when it does.
turns :
    IsFree both_asked 0
    × IsFree one_missed 1
    × IsFree both_missed 0
    × IsFree one_locked 0
    × IsFree one_checked 0
    × IsFree one_ended 1
    × IsFree two_locked 1
    × IsFree two_checked 1
    × IsFree two_refused 1
unfolding lock_of wanted proceed get_stored_response get_locked_active_subscription
    check_subscription latest_active write_usage recover ◌>>=◌ query add flush commit rollback draw
    pure raise view_select view_add view_flush view_commit view_rollback apply_changes apply_change
    insert_usage_event insert_idempotency_record string_dec as_aware_utc requested_quantity
    cost_cents sum_period_usage usage_row retry_after calculate_api_call_cost_cents
turns = (
  wants_none-IsFree both_asked 0 refl,
  wants_none-IsFree one_missed 1 refl,
  unlocked-IsFree both_missed 0 (λ j. elim (Bool-cases (j == 1)) [
    | inl e ↦ rw e refl
    | inr e ↦ rw e (elim (Bool-cases (j == 0)) [ inl at ↦ rw at refl | inr at ↦ rw at refl ])
  ]),
  wants_none-IsFree one_locked 0 refl,
  wants_none-IsFree one_checked 0 refl,
  unlocked-IsFree one_ended 1 (λ j. elim (Bool-cases (j == 0)) [
    | inl e ↦ rw e refl
    | inr e ↦ rw e (elim (Bool-cases (j == 1)) [ inl at ↦ rw at refl | inr at ↦ rw at refl ])
  ]),
  wants_none-IsFree two_locked 1 refl,
  wants_none-IsFree two_checked 1 refl,
  wants_none-IsFree two_refused 1 refl,
)

abbrev to_one_asked : Step quiet one_asked
to_one_asked = arrives 0 (job "k1") refl

abbrev to_both_asked : Step one_asked both_asked
to_both_asked = arrives 1 (job "k1") refl

abbrev to_one_missed : Step both_asked one_missed
to_one_missed = proceeds env 0 0 turns.0

abbrev to_both_missed : Step one_missed both_missed
to_both_missed = proceeds env 0 1 turns.1

abbrev to_one_locked : Step both_missed one_locked
to_one_locked = proceeds env 0 0 turns.2

abbrev to_one_checked : Step one_locked one_checked
to_one_checked = proceeds env 0 0 turns.3

abbrev to_one_ended : Step one_checked one_ended
to_one_ended = proceeds env 1 0 turns.4

abbrev to_two_locked : Step one_ended two_locked
to_two_locked = proceeds env 2 1 turns.5

abbrev to_two_checked : Step two_locked two_checked
to_two_checked = proceeds env 2 1 turns.6

abbrev to_two_refused : Step two_checked two_refused
to_two_refused = proceeds env 3 1 turns.7

abbrev to_two_ended : Step two_refused two_ended
to_two_ended = proceeds env 4 1 turns.8

abbrev from_quiet : Reaches quiet two_ended
from_quiet = next to_one_asked (
    next to_both_asked (
      next to_one_missed (
        next to_both_missed (
          next to_one_locked (
            next to_one_checked (
              next to_one_ended (
                next to_two_locked
                  (next to_two_checked (next to_two_refused (next to_two_ended here))))))))))

from_quiet-AllFresh : AllFresh from_quiet
unfolding lock_of wanted proceed get_stored_response get_locked_active_subscription
    check_subscription latest_active write_usage recover ◌>>=◌ query add flush commit rollback draw
    pure raise view_select view_add view_flush view_commit view_rollback apply_changes apply_change
    insert_usage_event insert_idempotency_record string_dec as_aware_utc requested_quantity
    cost_cents sum_period_usage usage_row retry_after calculate_api_call_cost_cents
from_quiet-AllFresh =
    (refl, (refl, (refl, (refl, (refl, (refl, (refl, (refl, (refl, (refl, (refl, tt)))))))))))

interleaved-ne-conflict_example :
    ◌≢◌ {A = Outcome MeteringResult} (returned winner) (returned conflict)
interleaved-ne-conflict_example =
    interleaved-ne-conflict from_quiet 1 (returned winner) from_quiet-AllFresh (λ j. refl)
      (record { distinct = tt; receipts = tt; backed = tt }) replayed_winner

-- On the plan of one call, a duplicate that waited for the lock is refused, although its key has
-- a stored 201 by then: after the lock the stored response is not looked up again.
abbrev late : World
late = proceed_in env 3 1 (
    proceed_in env 2 1 (
      proceed_in env 2 1 (
        proceed_in env 1 0 (
          proceed_in env 0 0 (
            proceed_in env 0 0
              (proceed_in env 0 1 (proceed_in env 0 0 (record both_asked { stored = tables }))))))))

late_duplicate :
    late.phases 1
    ≡ ended (
        raised (
          quota_exceeded (record { limit = 1; used = 1; requested = 1; retry_after_seconds = 53 })))
unfolding lock_of wanted proceed get_stored_response get_locked_active_subscription
    check_subscription latest_active write_usage recover ◌>>=◌ query add flush commit rollback draw
    pure raise view_select view_add view_flush view_commit view_rollback apply_changes apply_change
    insert_usage_event insert_idempotency_record string_dec as_aware_utc requested_quantity
    cost_cents sum_period_usage usage_row retry_after calculate_api_call_cost_cents
late_duplicate = refl
