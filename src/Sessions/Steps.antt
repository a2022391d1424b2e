-- ===== src/Sessions/Steps.antt =====
-- What one step of a request does to its lock, and to the tables.
use flyrank_backend_capstone.Prelude.{
  ℕ, ◌+◌, ◌≤◌, ◌≡◌, true, ◌⊎◌, inl, inr, arith, refl, ap, some, none, Option-cases, Bool-cases,
  String, ltb, leb,
}
use flyrank_backend_capstone.Models.{Tenant, EventType, Plan, Subscription, is_active_tenant}
use flyrank_backend_capstone.Clock.{as_aware_utc}
use flyrank_backend_capstone.Pricing.{Settings, TokenUsage}
use flyrank_backend_capstone.Store.Schema.{
  Tables, fits_text, get_idempotency_record, get_plan, insert_idempotency_record, apply_changes,
}
use flyrank_backend_capstone.Store.Database.{
  View, contract, view_select, view_add, view_flush, view_commit,
}
use flyrank_backend_capstone.Store.Action.{
  Env, Outcome, returned, raised, ◌>>=◌, query, draw, pure, raise, add, flush, commit,
}
use flyrank_backend_capstone.Quota.{
  QuotaCheckResult, limit_of, period_usage, usage_row, sum_period_usage, check_subscription,
  get_locked_active_subscription, latest_active,
}
use flyrank_backend_capstone.Metering.{write_usage, get_stored_response, record_row, MeteringResult}
use flyrank_backend_capstone.Metering.Spec.{recorded_tables, IsInsertable, event_at}
use flyrank_backend_capstone.Metering.Writing.{
  insert_usage_event-cases, fits_usage_event-key, write_usage-Writes, written, duplicate, too_large,
}
use flyrank_backend_capstone.Quota.Decision.{used_in}
use flyrank_backend_capstone.Metering.Limits.{used_in-eq, Room}
use flyrank_backend_capstone.Metering.Steady.{recover-stored}
use flyrank_backend_capstone.Sessions.Defs.{
  Job, usage_of, quantity_of, Phase, idle, asked, missed, locked, checked, recovering, ended,
  on_tables, after_check, after_write, proceed, lock_of, wanted,
}
use flyrank_backend_capstone.Sessions.Serial.{check_subscription-ReadsOnly}

-- A check that passes found room in the tables that it read.
check_subscription-Room :
    (E : Env) (tenant : Tenant) (type : EventType) (q : ℕ) (s : Subscription) (t : Tables) (n : ℕ)
    (c : QuotaCheckResult)
    → (check_subscription E contract tenant type q s (on_tables t n)).0 ≡ returned c
    → (plan : Plan) × (get_plan s.plan_id t ≡ some plan)
      × (period_usage tenant.id s.current_period_start s.current_period_end type t + q
          ≤ limit_of type plan)
unfolding check_subscription sum_period_usage usage_row ◌>>=◌ query draw pure raise view_select
check_subscription-Room E tenant type q s t n c =
    elim (Option-cases (as_aware_utc (E.loaded s.current_period_end))) [
      | inl bad ↦ rw bad (λ h. cc)
      | inr (period_end, ok) ↦ rw ok (elim (Bool-cases (leb period_end (E.now n))) [
        | inl over ↦ rw over (λ h. cc)
        | inr on ↦ rw on (elim (Option-cases (get_plan s.plan_id t)) [
          | inl missing ↦ rw missing (λ h. cc)
          | inr (plan, found) ↦
              rw found (elim (Bool-cases (ltb (limit_of type plan) (used_in type tenant s t + q))) [
                | inl over ↦ rw over (λ h. cc)
                | inr fits ↦ rw fits (λ h. (plan, refl, ground (arith, used_in-eq type tenant s t)))
              ])
        ])
      ])
    ]

-- A write stores the event and its response, or nothing.
write_usage-cases :
    (E : Env) (settings : Settings) (tenant : Tenant) (key : String) (type : EventType)
    (u : TokenUsage) (c : QuotaCheckResult) (t : Tables) (n : ℕ)
    → let (_, r) = write_usage E contract settings tenant key type u c (on_tables t n) in
      let e = event_at E settings tenant key type u n in
      (r.session.stored ≡ t)
      ⊎ ((created_at : ℕ) × (get_idempotency_record key t ≡ none)
          × IsInsertable e t
          × (r.session.stored ≡ recorded_tables e (record_row e c created_at) t))
unfolding write_usage ◌>>=◌ add flush commit view_add view_flush view_commit apply_changes
    insert_idempotency_record
write_usage-cases E settings tenant key type u c t n =
    elim (Option-cases (get_idempotency_record key t)) [
      | inr (r, hit) ↦ elim (insert_usage_event-cases (event_at E settings tenant key type u n) t) [
        | inl (new, done) ↦
            let short : fits_text 255 key ≡ true =
              fits_usage_event-key (event_at E settings tenant key type u n) new.0 in
            rw (done, short, hit) (inl refl)
        | inr (inl clash) ↦ rw clash (inl refl)
        | inr (inr (wide, big)) ↦ rw big (inl refl)
      ]
      | inl miss ↦ elim (write_usage-Writes E settings tenant key type u c t n miss) [
        | written created_at new _ after ↦ inr (created_at, miss, new, after)
        | duplicate _ _ same ↦ inl same
        | too_large _ _ same ↦ inl same
      ]
    ]

-- What holds of the tables while a request has its lock: the row is the tenant's selected one, and
-- after the check there is room for the request.
abbrev pub Guarded : Tables → Phase → Type 0
Guarded t (locked q s) = latest_active q.tenant.id t.subscriptions ≡ some s
Guarded t (checked q s c) =
    (latest_active q.tenant.id t.subscriptions ≡ some s) × Room q.tenant.id q.type (quantity_of q) t
Guarded t _ = Unit

module _ (E : Env) (t : Tables) (n : ℕ) where
  -- A lock that is held after a step was held before, or free.
  pub proceed-lock :
      (p : Phase) (id : ℕ)
      → lock_of (proceed E t n p).0 ≡ some id
      → (lock_of p ≡ some id) ⊎ (wanted t p ≡ some id)
  unfolding proceed lock_of wanted get_stored_response get_locked_active_subscription query
      view_select
  proceed-lock idle id = inl
  proceed-lock (asked q) id = elim (Option-cases (get_idempotency_record q.key t)) [
    | inl miss ↦ rw miss (λ h. cc)
    | inr (r, hit) ↦ rw hit (λ h. cc)
  ]
  proceed-lock (missed q) id = elim (Bool-cases (is_active_tenant q.tenant.status)) [
    | inr off ↦ rw off (λ h. cc)
    | inl on ↦ rw on (elim (Option-cases (latest_active q.tenant.id t.subscriptions)) [
      | inl miss ↦ rw miss (λ h. cc)
      | inr (s, found) ↦ rw found (λ h. inr h)
    ])
  ]
  proceed-lock (locked q s) id =
      outcome (check_subscription E contract q.tenant q.type (quantity_of q) s (on_tables t n)).0
    where
      outcome :
          (o : Outcome QuotaCheckResult)
          → lock_of (after_check q s o) ≡ some id
          → (some s.id ≡ some id) ⊎ (wanted t (locked q s) ≡ some id)
      outcome (returned c) h = inl h
      outcome (raised e) h = inl h
  proceed-lock (checked q s c) id =
      outcome
        (write_usage E contract q.settings q.tenant q.key q.type (usage_of q) c (on_tables t n)).0
    where
      outcome :
          (o : Outcome MeteringResult)
          → lock_of (after_write q s o) ≡ some id
          → (some s.id ≡ some id) ⊎ (wanted t (checked q s c) ≡ some id)
      outcome (returned c) h = cc
      outcome (raised e) h = inl h
  proceed-lock (recovering lock q e) id = λ h. cc
  proceed-lock (ended o) id = λ h. cc

  -- The write ends what the lock was for.
  pub written-Guarded :
      (u : Tables) (q : Job) (s : Subscription) (c : QuotaCheckResult)
      → Guarded u (proceed E t n (checked q s c)).0
  unfolding proceed
  written-Guarded u q s c =
      outcome
        (write_usage E contract q.settings q.tenant q.key q.type (usage_of q) c (on_tables t n)).0
    where
      outcome : (o : Outcome MeteringResult) → Guarded u (after_write q s o)
      outcome (returned c) = tt
      outcome (raised e) = tt

  pub proceed-Guarded : (p : Phase) → Guarded t p → Guarded t (proceed E t n p).0
  unfolding proceed get_stored_response get_locked_active_subscription query view_select
  proceed-Guarded idle g = tt
  proceed-Guarded (asked q) g = elim (Option-cases (get_idempotency_record q.key t)) [
    | inl miss ↦ rw miss tt
    | inr (r, hit) ↦ rw hit tt
  ]
  proceed-Guarded (missed q) g = elim (Bool-cases (is_active_tenant q.tenant.status)) [
    | inr off ↦ rw off tt
    | inl on ↦ rw on (elim (Option-cases (latest_active q.tenant.id t.subscriptions)) [
      | inl miss ↦ rw miss tt
      | inr (s, found) ↦ rw found found
    ])
  ]
  proceed-Guarded (locked q s) g =
      outcome (check_subscription E contract q.tenant q.type (quantity_of q) s (on_tables t n)).0
        refl
    where
      outcome :
          (o : Outcome QuotaCheckResult)
          → (check_subscription E contract q.tenant q.type (quantity_of q) s (on_tables t n)).0 ≡ o
          → Guarded t (after_check q s o)
      outcome (returned c) e =
          let (plan, found, fits) =
            check_subscription-Room E q.tenant q.type (quantity_of q) s t n c e in
          (g, (s, plan, g, found, fits))
      outcome (raised e) h = tt
  proceed-Guarded (checked q s c) g = written-Guarded t q s c
  proceed-Guarded (recovering lock q e) g = tt
  proceed-Guarded (ended o) g = tt

  -- Only the write changes what is stored.
  pub proceed-stored :
      (p : Phase)
      → ((proceed E t n p).1.session.stored ≡ t)
        ⊎ ((q : Job) × (s : Subscription) × (c : QuotaCheckResult) × (created_at : ℕ) × (p
              ≡ checked q s c)
            × (get_idempotency_record q.key t ≡ none)
            × IsInsertable (event_at E q.settings q.tenant q.key q.type (usage_of q) n) t
            × ((proceed E t n p).1.session.stored
                ≡ recorded_tables
                    (event_at E q.settings q.tenant q.key q.type (usage_of q) n)
                    (record_row
                      (event_at E q.settings q.tenant q.key q.type (usage_of q) n)
                      c
                      created_at)
                    t))
  unfolding proceed get_stored_response get_locked_active_subscription query view_select
  proceed-stored idle = inl refl
  proceed-stored (asked q) = inl refl
  proceed-stored (missed q) = elim (Bool-cases (is_active_tenant q.tenant.status)) [
    | inr off ↦ rw off (inl refl)
    | inl on ↦ rw on (inl refl)
  ]
  proceed-stored (locked q s) =
      inl (ap (λ (v : View). v.stored) ((check_subscription-ReadsOnly E q s).at (on_tables t n)))
  proceed-stored (checked q s c) =
      elim (write_usage-cases E q.settings q.tenant q.key q.type (usage_of q) c t n) [
        | inl same ↦ inl same
        | inr (created_at, miss, new, after) ↦ inr (q, s, c, created_at, refl, miss, new, after)
      ]
  proceed-stored (recovering lock q e) = inl (recover-stored q.key e (on_tables t n))
  proceed-stored (ended o) = inl refl
