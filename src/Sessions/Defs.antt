-- ===== src/Sessions/Defs.antt =====
-- Sessions that interleave: `record_usage` cut where another session can commit in between. A phase
-- is what a request has done so far, and `proceed` runs the code up to the next such point, over a
-- transaction that sees what is committed then (READ COMMITTED). `SELECT … FOR UPDATE` waits for
-- the row's lock, which is held to the commit or rollback. Of the reads of `check_subscription` only
-- the usage can change, so they are one step; the two INSERTs and the commit are one step too, as a
-- row of the same key in an open transaction holds up the INSERT until that transaction ends.
use flyrank_backend_capstone.Prelude.{
  ℕ, ◌≡◌, ◌≢◌, String, Option, none, some, not, if◌then◌else◌, ◌==◌,
}
use flyrank_backend_capstone.Models.{
  Tenant, EventType, Subscription, IdempotencyRecord, is_active_tenant,
}
use flyrank_backend_capstone.Pricing.{Settings, TokenUsage}
use flyrank_backend_capstone.Store.Schema.{Tables}
use flyrank_backend_capstone.Store.Database.{View, contract, opened}
use flyrank_backend_capstone.Store.Action.{
  Env, Exception, payment_required, tenant_blocked, no_active_subscription, Outcome, returned,
  raised, Run,
}
use flyrank_backend_capstone.Quota.{
  QuotaCheckResult, latest_active, get_locked_active_subscription, check_subscription,
}
use flyrank_backend_capstone.Metering.{
  MeteringResult, replay_of, usage_or_default, requested_quantity, get_stored_response, recover,
  write_usage,
}

-- The arguments of a call of `record_usage`.
pub record Job : Type 0 where
  pub settings : Settings
  pub tenant : Tenant
  pub key : String
  pub type : EventType
  pub token_usage : Option TokenUsage

-- `usage` and `requested_quantity`
abbrev pub usage_of : Job → TokenUsage
usage_of q = usage_or_default q.token_usage

abbrev pub quantity_of : Job → ℕ
quantity_of q = requested_quantity q.type (usage_of q)

-- Before the lookup; after one that found nothing; with the lock of a row; with the check's result;
-- in the `except` clauses, with the lock until the rollback; ended.
pub data Phase : Type 0 where
  idle : Phase
  asked missed : Job → Phase
  locked : Job → Subscription → Phase
  checked : Job → Subscription → QuotaCheckResult → Phase
  recovering : Option Subscription → Job → Exception → Phase
  ended : Outcome MeteringResult → Phase

abbrev pub on_tables : Tables → ℕ → Run View
on_tables t n = record { session = opened t; draws = n }

abbrev pub after_lookup : Job → Outcome (Option IdempotencyRecord) → Phase
after_lookup q (returned none) = missed q
after_lookup q (returned (some r)) = ended (returned (replay_of r))
after_lookup q (raised e) = ended (raised e)

abbrev pub after_lock : Job → Outcome (Option Subscription) → Phase
after_lock q (returned none) = recovering none q (payment_required no_active_subscription)
after_lock q (returned (some s)) = locked q s
after_lock q (raised e) = recovering none q e

abbrev pub after_check : Job → Subscription → Outcome QuotaCheckResult → Phase
after_check q s (returned c) = checked q s c
after_check q s (raised e) = recovering (some s) q e

abbrev pub after_write : Job → Subscription → Outcome MeteringResult → Phase
after_write q s (returned result) = ended (returned result)
after_write q s (raised e) = recovering (some s) q e

module _ (E : Env) where
  unfoldable pub proceed : Tables → ℕ → Phase → Phase × Run View
  proceed t n idle = (idle, on_tables t n)
  proceed t n (asked q) =
      let (o, r) = get_stored_response contract q.key (on_tables t n) in (after_lookup q o, r)
  proceed t n (missed q) =
      if not (is_active_tenant q.tenant.status)
      then (recovering none q (payment_required (tenant_blocked q.tenant.status)), on_tables t n)
      else (let (o, r) = get_locked_active_subscription contract q.tenant.id (on_tables t n) in
          (after_lock q o, r))
  proceed t n (locked q s) =
      let (o, r) =
        check_subscription E contract q.tenant q.type (quantity_of q) s (on_tables t n) in
      (after_check q s o, r)
  proceed t n (checked q s c) =
      let (o, r) =
        write_usage E contract q.settings q.tenant q.key q.type (usage_of q) c (on_tables t n) in
      (after_write q s o, r)
  proceed t n (recovering lock q e) =
      let (o, r) = recover contract q.key e (on_tables t n) in (ended o, r)
  proceed t n (ended o) = (ended o, on_tables t n)

abbrev pub row_of : Option Subscription → Option ℕ
row_of none = none
row_of (some s) = some s.id

-- The row whose lock a request holds.
unfoldable pub lock_of : Phase → Option ℕ
lock_of (locked q s) = some s.id
lock_of (checked q s c) = some s.id
lock_of (recovering lock q e) = row_of lock
lock_of _ = none

-- The row whose lock the next statement needs.
unfoldable pub wanted : Tables → Phase → Option ℕ
unfolding latest_active
wanted t (missed q) =
    if is_active_tenant q.tenant.status
    then row_of (latest_active q.tenant.id t.subscriptions)
    else none
wanted t _ = none

-- The committed tables, and the request of each session.
pub record World : Type 0 where
  pub stored : Tables
  pub phases : ℕ → Phase

abbrev pub replace : (ℕ → Phase) → ℕ → Phase → ℕ → Phase
replace phases i p j = if j == i then p else phases j

-- No session holds the lock that the session `i` needs next.
abbrev pub IsFree : World → ℕ → Type 0
IsFree w i =
    (id : ℕ) → wanted w.stored (w.phases i) ≡ some id → (j : ℕ) → lock_of (w.phases j) ≢ some id

-- The session `i` runs up to the next point.
abbrev pub proceed_in : Env → ℕ → ℕ → World → World
proceed_in E n i w = record {
  stored = (proceed E w.stored n (w.phases i)).1.session.stored;
  phases = replace w.phases i (proceed E w.stored n (w.phases i)).0;
}

-- A session gets a request, or runs its own up to the next point; the clock and the other draws are
-- whatever they are.
pub data Step (w : World) : World → Type 0 where
  arrives :
      (i : ℕ) (q : Job)
      → w.phases i ≡ idle
      → Step w (record w { phases = replace w.phases i (asked q) })
  proceeds : (E : Env) (n i : ℕ) → IsFree w i → Step w (proceed_in E n i w)

-- Any number of steps, of the sessions in any order.
pub data Reaches : World → World → Type 0 where
  here : {w : World} → Reaches w w
  next : {w u v : World} → Step w u → Reaches u v → Reaches w v
