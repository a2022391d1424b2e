-- ===== src/Service/Limits.antt =====
-- The quota among deliveries of events and creations of tenants.
use flyrank_backend_capstone.Prelude.{
  ℕ, ◌≡◌, inl, inr, refl, sym, ◌∙◌, ap, subst, some, none, some-injective,
}
use flyrank_backend_capstone.Models.{Subscription}
use flyrank_backend_capstone.Store.Schema.{Tables, get_plan}
use flyrank_backend_capstone.Store.Action.{Env}
use flyrank_backend_capstone.Quota.{latest_active, period_usage}
use flyrank_backend_capstone.Metering.Limits.{IsWithin}
use flyrank_backend_capstone.Sessions.{Phase, locked, checked, lock_of, World, Step}
use flyrank_backend_capstone.Sessions.Steps.{Guarded}
use flyrank_backend_capstone.Sessions.Exclusion.{
  IsOrderly, unlocked-IsOrderly, Step-stored, Step-IsOrderly,
}
use flyrank_backend_capstone.Sessions.Interleaved.{Step-IsWithin}
use flyrank_backend_capstone.Service.Defs.{
  Delivery, waiting, received, flushed, answered, deliver, Service, ServiceStep, requests, creates,
  receives, delivers, Serves, here, next,
}
use flyrank_backend_capstone.Service.Records.{
  received-Marks, flushed-cases, create_tenant-SameRecords,
}

-- The row that is selected for a tenant stays selected, as it is.
abbrev pub StaysSelected : Tables → Tables → Type 0
StaysSelected t u =
    (id : ℕ) (s : Subscription)
    → latest_active id t.subscriptions ≡ some s
    → latest_active id u.subscriptions ≡ some s

-- In a delivery's step or the creation of a tenant.
abbrev pub IsSteadyStep : (w u : Service) → ServiceStep w u → Type 0
IsSteadyStep w u (requests x step) = Unit
IsSteadyStep w u (receives i event at) = Unit
IsSteadyStep w u (creates E n payload) = StaysSelected w.usage.stored u.usage.stored
IsSteadyStep w u (delivers E n i free rows) = StaysSelected w.usage.stored u.usage.stored

-- In each such step of a run.
unfoldable pub IsSteady : {w v : Service} → Serves w v → Type 0
IsSteady here = Unit
IsSteady {w} (next {u} step steps) = IsSteadyStep w u step × IsSteady steps

-- A step of a usage request adds no subscription and changes none.
requests-StaysSelected : (w v : World) → IsOrderly w → Step w v → StaysSelected w.stored v.stored
requests-StaysSelected w v orderly step id s h = elim (Step-stored w v orderly step) [
  | inl same ↦ rw same h
  | inr (_, _, _, _, _, _, _, _, after) ↦ rw after h
]

-- The plans and the usage events are the same.
abbrev SameMeters : Tables → Tables → Type 0
SameMeters t u = (u.plans ≡ t.plans) × (u.usage_events ≡ t.usage_events)

delivered-SameMeters :
    (E : Env) (t : Tables) (n : ℕ) (d : Delivery) → SameMeters t (deliver E t n d).1.session.stored
unfolding deliver
delivered-SameMeters E t n waiting = (refl, refl)
delivered-SameMeters E t n (received event) =
    let same = (received-Marks E t n event).1 in
    (ap (λ (u : Tables). u.plans) same, ap (λ (u : Tables). u.usage_events) same)
delivered-SameMeters E t n (flushed event w) = elim (flushed-cases E t n event w) [
  | inl (x, _, same) ↦ (ap (λ (u : Tables). u.plans) same, ap (λ (u : Tables). u.usage_events) same)
  | inr (reply, _, same) ↦ (same.plans, same.usage_events)
]
delivered-SameMeters E t n (answered event o) = (refl, refl)

module _ (t u : Tables) (same : SameMeters t u) (stays : StaysSelected t u) where
  same_plan : (id : ℕ) → get_plan id u ≡ get_plan id t
  same_plan id = rw same.0 refl

  steady-Guarded : (p : Phase) → Guarded t p → Guarded u p
  unfolding period_usage
  steady-Guarded (locked q s) g = stays q.tenant.id s g
  steady-Guarded (checked q s c) (selected, (s', plan, sel, found, fits)) = (
    stays q.tenant.id s selected,
    (s', plan, stays q.tenant.id s' sel, same_plan s'.plan_id ∙ found, rw same.1 fits),
  )
  steady-Guarded _ g = tt

  steady-IsWithin :
      (id : ℕ) (s : Subscription)
      → latest_active id t.subscriptions ≡ some s
      → IsWithin id t
      → IsWithin id u
  unfolding period_usage
  steady-IsWithin id s selected h = record {
    at = λ s' plan type sel found.
        let row : s ≡ s' = some-injective (sym (stays id s selected) ∙ sel) in
        rw same.1 (
          h.at s' plan type (subst (λ x. latest_active id t.subscriptions ≡ some x) row selected)
            (sym (same_plan s'.plan_id) ∙ found));
  }

steady-IsOrderly :
    (w : World) (u : Tables)
    → SameMeters w.stored u
    → StaysSelected w.stored u
    → IsOrderly w
    → IsOrderly (record w { stored = u })
steady-IsOrderly w u same stays h = record {
  exclusive = h.exclusive;
  guarded = λ i. steady-Guarded w.stored u same stays (w.phases i) (h.guarded i);
}

module _ (id : ℕ) (s : Subscription) where
  -- No tenant's request has checked what does not hold, and the tenant is within its plan.
  abbrev IsLimited : Service → Type 0
  IsLimited w =
      IsOrderly w.usage
      × (latest_active id w.usage.stored.subscriptions ≡ some s)
      × IsWithin id w.usage.stored

  stored-IsLimited :
      (w : Service) (u : Tables) (deliveries : ℕ → Delivery)
      → SameMeters w.usage.stored u
      → StaysSelected w.usage.stored u
      → IsLimited w
      → IsLimited (record { usage = record w.usage { stored = u }; deliveries = deliveries })
  stored-IsLimited w u deliveries same stays (orderly, selected, h) = (
    steady-IsOrderly w.usage u same stays orderly,
    stays id s selected,
    steady-IsWithin w.usage.stored u same stays id s selected h,
  )

  step-IsLimited :
      (w u : Service) (step : ServiceStep w u) → IsSteadyStep w u step → IsLimited w → IsLimited u
  step-IsLimited w u (requests x step) _ (orderly, selected, h) = (
    Step-IsOrderly w.usage x orderly step,
    requests-StaysSelected w.usage x orderly step id s selected,
    Step-IsWithin id w.usage x orderly step h,
  )
  step-IsLimited w u (creates E n payload) stays h =
      let same = create_tenant-SameRecords E w.usage.stored n payload in
      stored-IsLimited w u.usage.stored w.deliveries (same.plans, same.usage_events) stays h
  step-IsLimited w u (receives i event at) stays h = h
  step-IsLimited w u (delivers E n i free rows) stays h =
      stored-IsLimited w u.usage.stored u.deliveries
        (delivered-SameMeters E w.usage.stored n (w.deliveries i)) stays h

  run-IsLimited : {w v : Service} (steps : Serves w v) → IsSteady steps → IsLimited w → IsLimited v
  unfolding IsSteady
  run-IsLimited here steady h = h
  run-IsLimited {w} (next {u} step steps) (stays, steady) h =
      run-IsLimited steps steady (step-IsLimited w u step stays h)

-- From a service in which no request holds a lock, a tenant has a selected subscription, and its
-- usage is within the limits of that subscription's plan: where no delivery and no creation of a
-- tenant changes a row that is selected for a tenant or lets another one take its place, no
-- interleaving of usage requests, creations of tenants and deliveries of Stripe's events, in any
-- number of sessions, takes the tenant's usage of either event type past its limit, and the row is
-- still selected.
pub Serves-IsWithin :
    (id : ℕ) (s : Subscription) {w v : Service} (steps : Serves w v)
    → IsSteady steps
    → ((i : ℕ) → lock_of (w.usage.phases i) ≡ none)
    → latest_active id w.usage.stored.subscriptions ≡ some s
    → IsWithin id w.usage.stored
    → IsWithin id v.usage.stored × (latest_active id v.usage.stored.subscriptions ≡ some s)
Serves-IsWithin id s {w} steps steady unlocked selected h =
    let (_, still, within) =
      run-IsLimited id s steps steady (unlocked-IsOrderly w.usage unlocked, selected, h) in
    (within, still)
