-- ===== src/Sessions/Serial.antt =====
-- A request that no other session comes between is `record_usage`.
use flyrank_backend_capstone.Prelude.{
  ℕ, zero, suc, ◌≡◌, refl, sym, subst, Option-cases, inl, inr, Bool-cases, none, some, Option,
}
use flyrank_backend_capstone.Models.{Subscription, is_active_tenant}
use flyrank_backend_capstone.Store.Schema.{
  Tables, get_idempotency_record, integrity_error, data_error, pending_rollback_error,
}
use flyrank_backend_capstone.Store.Database.{View, contract, opened, view_select, view_rollback}
use flyrank_backend_capstone.Store.Action.{
  Env, Exception, db_error, quota_exceeded, payment_required, tenant_blocked,
  no_active_subscription, Outcome, returned, raised, Run, ◌>>=◌, try_except, query, rollback,
  handle, continue, raise, pure,
}
use flyrank_backend_capstone.Quota.{
  QuotaCheckResult, check_and_reserve, check_subscription, latest_active,
  get_locked_active_subscription,
}
use flyrank_backend_capstone.Store.ReadsOnly.{ReadsOnly, reads_only}
use flyrank_backend_capstone.Metering.{
  MeteringResult, recover, write_usage, attempt, record_usage, get_stored_response,
}
use flyrank_backend_capstone.Sessions.Defs.{
  Job, usage_of, quantity_of, Phase, asked, missed, locked, recovering, ended, on_tables,
  after_check, after_write, proceed,
}

-- `k` steps of one session, with no other session's in between.
unfoldable pub alone : Env → ℕ → Phase → Run View → Phase × Run View
alone E zero p r = (p, r)
alone E (suc k) p r = let (p', r') = proceed E r.session.stored r.draws p in alone E k p' r'

-- The call has ended with this outcome, and these tables are stored.
abbrev pub Ends : Outcome MeteringResult × Run View → Phase × Run View → Type 0
Ends (o, r) (p, r') = (p ≡ ended o) × (r'.session.stored ≡ r.session.stored)

pub check_subscription-ReadsOnly :
    (E : Env) (q : Job) (s : Subscription)
    → ReadsOnly (check_subscription E contract q.tenant q.type (quantity_of q) s)
unfolding check_subscription
check_subscription-ReadsOnly E q s = search reads_only depth 20

-- The `except` clauses read only what is stored.
recover-stored :
    (q : Job) (e : Exception) (r : Run View)
    → Ends (recover contract q.key e r) (
      ended (recover contract q.key e (on_tables r.session.stored r.draws)).0,
      (recover contract q.key e (on_tables r.session.stored r.draws)).1,
    )
unfolding recover ◌>>=◌ rollback view_rollback query view_select raise pure
recover-stored q (db_error integrity_error) r = (refl, refl)
recover-stored q (db_error data_error) r = (refl, refl)
recover-stored q (db_error pending_rollback_error) r = (refl, refl)
recover-stored q (quota_exceeded x) r = (refl, refl)
recover-stored q (payment_required x) r = (refl, refl)
recover-stored q _ r = (refl, refl)

module _ (E : Env) (q : Job) where
  -- What is left of the `try` statement after the check.
  abbrev rest : Outcome QuotaCheckResult → Run View → Outcome MeteringResult × Run View
  rest o r =
      let (o', r') =
        continue o (write_usage E contract q.settings q.tenant q.key q.type (usage_of q)) r in
      handle o' (recover contract q.key) r'

  ended-Ends :
      (k : ℕ) (o : Outcome MeteringResult) (r r' : Run View)
      → r'.session.stored ≡ r.session.stored
      → Ends (o, r) (alone E k (ended o) r')
  unfolding alone proceed
  ended-Ends zero o r r' h = (refl, h)
  ended-Ends (suc k) o r r' h = ended-Ends k o r (on_tables r'.session.stored r'.draws) h

  recovered-Ends :
      (k : ℕ) (lock : Option Subscription) (e : Exception) (r : Run View)
      → Ends (recover contract q.key e r) (alone E (suc k) (recovering lock q e) r)
  unfolding alone proceed
  recovered-Ends k lock e r =
      let (o, r') = recover contract q.key e r in
      let (same, kept) = recover-stored q e r in
      subst
        (λ (p : Phase).
          Ends (o, r')
            (alone E k p (recover contract q.key e (on_tables r.session.stored r.draws)).1))
        (sym same) (ended-Ends k o r' _ kept)

  written-Ends :
      (s : Subscription) (o : Outcome MeteringResult) (r : Run View)
      → Ends (handle o (recover contract q.key) r) (alone E 1 (after_write q s o) r)
  unfolding alone proceed
  written-Ends s (returned result) r = (refl, refl)
  written-Ends s (raised e) r = recovered-Ends 0 (some s) e r

  module _ (t : Tables) where
    checked-Ends :
        (s : Subscription) (o : Outcome QuotaCheckResult) (r : Run View)
        → r.session ≡ opened t
        → Ends (rest o r) (alone E 2 (after_check q s o) r)
    unfolding alone proceed
    checked-Ends s (returned c) r h = rw h (written-Ends s _ _)
    checked-Ends s (raised e) r h = recovered-Ends 1 (some s) e r

    locked-Ends :
        (s : Subscription) (n : ℕ)
        → let (o, r) =
            check_subscription E contract q.tenant q.type (quantity_of q) s (on_tables t n) in
          Ends (rest o r) (alone E 3 (locked q s) (on_tables t n))
    unfolding alone proceed
    locked-Ends s n = checked-Ends s _ _ ((check_subscription-ReadsOnly E q s).at (on_tables t n))

    missed-Ends :
        (n : ℕ)
        → Ends
            (attempt E contract q.settings q.tenant q.key q.type (usage_of q) (on_tables t n))
            (alone E 4 (missed q) (on_tables t n))
    unfolding alone proceed attempt try_except ◌>>=◌ check_and_reserve
        get_locked_active_subscription query view_select raise
    missed-Ends n = elim (Bool-cases (is_active_tenant q.tenant.status)) [
      | inr off ↦ rw off (
          recovered-Ends 3 none (payment_required (tenant_blocked q.tenant.status)) (on_tables t n))
      | inl on ↦ rw on (elim (Option-cases (latest_active q.tenant.id t.subscriptions)) [
        | inl miss ↦
            rw miss
              (recovered-Ends 2 none (payment_required no_active_subscription) (on_tables t n))
        | inr (s, found) ↦ rw found (locked-Ends s n)
      ])
    ]

    -- Over the contract.
    pub asked-Ends :
        (n : ℕ)
        → Ends
            (record_usage E contract q.settings q.tenant q.key q.type q.token_usage (on_tables t n))
            (alone E 5 (asked q) (on_tables t n))
    unfolding alone proceed record_usage get_stored_response ◌>>=◌ query view_select pure
    asked-Ends n = elim (Option-cases (get_idempotency_record q.key t)) [
      | inl miss ↦ rw miss (missed-Ends n)
      | inr (r, hit) ↦ rw hit (ended-Ends 4 _ (on_tables t n) (on_tables t n) refl)
    ]
