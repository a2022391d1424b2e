-- ===== src/Sessions/Races.antt =====
-- Races for one key: a request whose INSERT is refused finds the response of the one that won.
use flyrank_backend_capstone.Prelude.{
  ℕ, ◌+◌, ◌≡◌, ◌≢◌, inl, inr, arith, refl, sym, ◌∙◌, subst, ap, some, none, Option-cases,
  Bool-cases, true, leb, ltb, same_text,
}
use flyrank_backend_capstone.Models.{IdempotencyRecord, UsageEvent, Subscription, is_active_tenant}
use flyrank_backend_capstone.Clock.{as_aware_utc}
use flyrank_backend_capstone.Store.Schema.{
  Tables, fits_text, DbError, integrity_error, data_error, pending_rollback_error, refused,
  get_idempotency_record, get_tenant, is_some, usage_event_with_id, get_plan, insert_usage_event,
  insert_idempotency_record, apply_changes,
}
use flyrank_backend_capstone.Store.Database.{
  contract, view_select, view_add, view_flush, view_commit, view_rollback,
}
use flyrank_backend_capstone.Store.Action.{
  Env, Exception, db_error, quota_exceeded, payment_required, Outcome, returned, raised, ◌>>=◌,
  query, draw, pure, raise, add, flush, commit, rollback,
}
use flyrank_backend_capstone.Quota.{
  QuotaCheckResult, latest_active, limit_of, sum_period_usage, usage_row, check_subscription,
  get_locked_active_subscription,
}
use flyrank_backend_capstone.Quota.Decision.{used_in}
use flyrank_backend_capstone.Metering.{conflict, get_stored_response, recover, write_usage}
use flyrank_backend_capstone.Metering.Spec.{recorded_tables, event_at}
use flyrank_backend_capstone.Metering.Writing.{
  insert_usage_event-cases, fits_usage_event-key, write_usage-Writes, written, duplicate, too_large,
}
use flyrank_backend_capstone.Metering.Ledger.{IsLedger, no_event}
use flyrank_backend_capstone.Sessions.Defs.{
  Job, usage_of, quantity_of, Phase, idle, asked, missed, locked, checked, recovering, ended,
  on_tables, after_check, after_write, proceed,
}

-- A request's tenant is there; where its INSERT was refused the key has a response; and it does not
-- end in the 409.
abbrev pub Settled : Tables → Phase → Type 0
Settled t idle = Unit
Settled t (asked q) = is_some (get_tenant q.tenant.id t) ≡ true
Settled t (missed q) = is_some (get_tenant q.tenant.id t) ≡ true
Settled t (locked q s) = is_some (get_tenant q.tenant.id t) ≡ true
Settled t (checked q s c) = is_some (get_tenant q.tenant.id t) ≡ true
Settled t (recovering lock q e) =
    e ≡ db_error integrity_error
    → (r : IdempotencyRecord) × (get_idempotency_record q.key t ≡ some r)
Settled t (ended o) = o ≢ returned conflict

-- A new event and its response take nothing away.
pub Settled-recorded :
    (e : UsageEvent) (r : IdempotencyRecord) (t : Tables) (p : Phase)
    → Settled t p
    → Settled (recorded_tables e r t) p
Settled-recorded e r t idle h = tt
Settled-recorded e r t (asked q) h = h
Settled-recorded e r t (missed q) h = h
Settled-recorded e r t (locked q s) h = h
Settled-recorded e r t (checked q s c) h = h
Settled-recorded e r t (recovering lock q x) h = λ refused.
    elim (Bool-cases (same_text r.idempotency_key q.key)) [
      | inl same ↦ rw same (r, refl)
      | inr other ↦ rw other (h refused)
    ]
Settled-recorded e r t (ended o) h = h

module _ (E : Env) (t : Tables) (n : ℕ) where
  -- The check raises no error of the database.
  check_subscription-ne-db_error :
      (q : Job) (s : Subscription) (e : DbError)
      → (check_subscription E contract q.tenant q.type (quantity_of q) s (on_tables t n)).0
        ≢ raised (db_error e)
  unfolding check_subscription sum_period_usage usage_row ◌>>=◌ query draw pure raise view_select
  check_subscription-ne-db_error q s e =
      elim (Option-cases (as_aware_utc (E.loaded s.current_period_end))) [
        | inl bad ↦ rw bad (λ h. cc)
        | inr (period_end, ok) ↦ rw ok (elim (Bool-cases (leb period_end (E.now n))) [
          | inl over ↦ rw over (λ h. cc)
          | inr on ↦ rw on (elim (Option-cases (get_plan s.plan_id t)) [
            | inl missing ↦ rw missing (λ h. cc)
            | inr (plan, found) ↦
                rw found
                  (elim (Bool-cases
                    (ltb (limit_of q.type plan) (used_in q.type q.tenant s t + quantity_of q))) [
                      | inl over ↦ rw over (λ h. cc)
                      | inr fits ↦ rw fits (λ h. cc)
                    ])
          ])
        ])
      ]

  module _ (ledger : IsLedger t) (fresh : usage_event_with_id (E.uuid4 n) t ≡ none) where
    -- A key with no response is free, so its INSERT is not refused.
    insert-ne-refused :
        (q : Job)
        → is_some (get_tenant q.tenant.id t) ≡ true
        → get_idempotency_record q.key t ≡ none
        → insert_usage_event (event_at E q.settings q.tenant q.key q.type (usage_of q) n) t
          ≢ refused integrity_error
    unfolding insert_usage_event
    insert-ne-refused q known miss clash =
        ground (arith, known, fresh, no_event q.key t.usage_events t ledger.receipts miss)

    write_usage-Settled :
        (q : Job) (s : Subscription) (c : QuotaCheckResult)
        → is_some (get_tenant q.tenant.id t) ≡ true
        → Settled t (
            after_write q s
              (write_usage E contract q.settings q.tenant q.key q.type
                (usage_of q)
                c
                (on_tables t n)).0)
    unfolding write_usage ◌>>=◌ add flush commit view_add view_flush view_commit apply_changes
        insert_idempotency_record conflict
    write_usage-Settled q s c known =
        let e = event_at E q.settings q.tenant q.key q.type (usage_of q) n in
        elim (Option-cases (get_idempotency_record q.key t)) [
          | inr (r, hit) ↦ elim (insert_usage_event-cases e t) [
            | inl (new, done) ↦
                let short : fits_text 255 q.key ≡ true = fits_usage_event-key e new.0 in
                rw (done, short, hit) (λ h. (r, hit))
            | inr (inl clash) ↦ rw clash (λ h. (r, hit))
            | inr (inr (wide, big)) ↦ rw big (λ h. cc)
          ]
          | inl miss ↦
              elim (write_usage-Writes E q.settings q.tenant q.key q.type (usage_of q) c t n miss) [
                | written created_at _ e _ ↦
                    subst (λ o. Settled t (after_write q s o)) (sym e) (λ k. cc)
                | duplicate clash _ _ ↦ absurd (insert-ne-refused q known miss clash)
                | too_large _ e _ ↦ subst (λ o. Settled t (after_write q s o)) (sym e) (λ h. cc)
              ]
        ]

    pub proceed-Settled : (p : Phase) → Settled t p → Settled t (proceed E t n p).0
    unfolding proceed get_stored_response get_locked_active_subscription query view_select conflict
        recover ◌>>=◌ rollback view_rollback pure raise
    proceed-Settled idle h = tt
    proceed-Settled (asked q) h = elim (Option-cases (get_idempotency_record q.key t)) [
      | inl miss ↦ rw miss h
      | inr (r, hit) ↦ rw hit (λ k. cc)
    ]
    proceed-Settled (missed q) h = elim (Bool-cases (is_active_tenant q.tenant.status)) [
      | inr off ↦ rw off (λ k. cc)
      | inl on ↦ rw on (elim (Option-cases (latest_active q.tenant.id t.subscriptions)) [
        | inl miss ↦ rw miss (λ k. cc)
        | inr (s, found) ↦ rw found h
      ])
    ]
    proceed-Settled (locked q s) h =
        outcome (check_subscription E contract q.tenant q.type (quantity_of q) s (on_tables t n)).0
          refl
      where
        outcome :
            (o : Outcome QuotaCheckResult)
            → (check_subscription E contract q.tenant q.type (quantity_of q) s (on_tables t n)).0
              ≡ o
            → Settled t (after_check q s o)
        outcome (returned c) e = h
        outcome (raised x) e =
            λ k. absurd (check_subscription-ne-db_error q s integrity_error (e ∙ ap raised k))
    proceed-Settled (checked q s c) h = write_usage-Settled q s c h
    proceed-Settled (recovering lock q e) h = recovered e h
      where
        recovered :
            (e : Exception)
            → Settled t (recovering lock q e)
            → (recover contract q.key e (on_tables t n)).0 ≢ returned conflict
        recovered (db_error integrity_error) h = let (r, hit) = h refl in rw hit (λ k. cc)
        recovered (db_error data_error) h = λ k. cc
        recovered (db_error pending_rollback_error) h = λ k. cc
        recovered (quota_exceeded x) h = λ k. cc
        recovered (payment_required x) h = λ k. cc
        recovered _ h = λ k. cc
    proceed-Settled (ended o) h = h
