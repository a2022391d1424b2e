-- ===== src/Webhooks/Simulated.antt =====
-- Any lawful session runs the methods of `StripeWebhookHandler` as the contract does.
use flyrank_backend_capstone.Prelude.{
  ◌≡◌, ◌∙◌, ap, List, [], ◌∷◌, String, Bool-cases, inl, inr, same_text,
}
use flyrank_backend_capstone.Store.Schema.{
  Tables, integrity_error, data_error, pending_rollback_error,
}
use flyrank_backend_capstone.Store.Database.{Database, View, IsLawful, contract, opened}
use flyrank_backend_capstone.Store.Action.{Env, Exception, db_error, Action, Run}
use flyrank_backend_capstone.Store.Simulation.{seen, Simulates, Simulates-raise, simulation}
use flyrank_backend_capstone.Store.Scalar.{Simulates-or_raise_many}
use flyrank_backend_capstone.Webhooks.Events.{Field, missing, null, value, Event}
use flyrank_backend_capstone.Webhooks.Defs.{
  at_key, at_head, price_id, required, synced, get_tenant_by_customer_id, get_plan_by_stripe_price,
  get_subscription_by_stripe_id, already_processed, handle_subscription_updated,
  handle_subscription_deleted, mark_processed_or_skip, handle_checkout_completed, dispatch,
  apply_event, handle_event,
}

module _ {S : Type 0} {view : S → View} where
  pub Simulates-at_key :
      {A B : Type 0} (k : Field A) {m m' : Action S B} {n n' : Action View B} {f : A → Action S B}
      {g : A → Action View B}
      → Simulates view m n
      → Simulates view m' n'
      → ((a : A) → Simulates view (f a) (g a))
      → Simulates view (at_key k m m' f) (at_key k n n' g)
  Simulates-at_key missing p q h = p
  Simulates-at_key null p q h = q
  Simulates-at_key (value a) p q h = h a

  pub Simulates-at_head :
      {A B : Type 0} (xs : List A) {f : A → Action S B} {g : A → Action View B}
      → ((a : A) → Simulates view (f a) (g a))
      → Simulates view (at_head xs f) (at_head xs g)
  Simulates-at_head [] h = Simulates-raise _
  Simulates-at_head (a ∷ as_) h = h a

pub ruleset fields = (simulation, Simulates-or_raise_many, Simulates-at_key, Simulates-at_head)

module _ {D : Database} {view : D.Session → View} (lawful : IsLawful D view) where
  Simulates-already_processed :
      (e : Exception) → Simulates view (already_processed D e) (already_processed contract e)
  unfolding already_processed
  Simulates-already_processed (db_error integrity_error) = search simulation
  Simulates-already_processed (db_error data_error) = search simulation
  Simulates-already_processed (db_error pending_rollback_error) = search simulation
  Simulates-already_processed _ = search simulation

  Simulates-updated :
      (event : Event)
      → Simulates view
          (handle_subscription_updated D event)
          (handle_subscription_updated contract event)
  unfolding handle_subscription_updated get_subscription_by_stripe_id required synced
  Simulates-updated event = search fields depth 30

  Simulates-deleted :
      (event : Event)
      → Simulates view
          (handle_subscription_deleted D event)
          (handle_subscription_deleted contract event)
  unfolding handle_subscription_deleted get_subscription_by_stripe_id required
  Simulates-deleted event = search fields depth 30

  module _ (E : Env) where
    pub Simulates-mark :
        (id type : String)
        → Simulates view
            (mark_processed_or_skip E D id type)
            (mark_processed_or_skip E contract id type)
    unfolding mark_processed_or_skip
    Simulates-mark id type = search (simulation, Simulates-already_processed) depth 20

    Simulates-checkout :
        (event : Event)
        → Simulates view
            (handle_checkout_completed E D event)
            (handle_checkout_completed E contract event)
    unfolding handle_checkout_completed get_tenant_by_customer_id get_plan_by_stripe_price price_id
    Simulates-checkout event = search fields depth 40

    Simulates-apply_event :
        (event : Event) → Simulates view (apply_event E D event) (apply_event E contract event)
    unfolding apply_event dispatch
    Simulates-apply_event event =
        elim (Bool-cases (same_text event.type "checkout.session.completed")) [
          | inl p ↦ rw p (search (simulation, Simulates-checkout) depth 20)
          | inr p ↦ rw p (elim (Bool-cases (same_text event.type "customer.subscription.updated")) [
            | inl q ↦ rw q (search (simulation, Simulates-updated) depth 20)
            | inr q ↦
                rw q (elim (Bool-cases (same_text event.type "customer.subscription.deleted")) [
                  | inl s ↦ rw s (search (simulation, Simulates-deleted) depth 20)
                  | inr s ↦ rw s (search simulation depth 20)
                ])
          ])
        ]

    pub Simulates-handle_event :
        (event : Event) → Simulates view (handle_event E D event) (handle_event E contract event)
    unfolding handle_event
    Simulates-handle_event event =
        search (simulation, Simulates-mark, Simulates-apply_event) depth 20

    -- A run from an opened session is the contract's, seen through the view.
    pub handle_event-opened :
        (event : Event) (t : Tables) (r : Run D.Session)
        → view r.session ≡ opened t
        → seen view (handle_event E D event r)
          ≡ handle_event E contract event (record { session = opened t; draws = r.draws })
    handle_event-opened event t r fresh =
        (Simulates-handle_event event).at r
        ∙ ap (λ (v : View). handle_event E contract event (record { session = v; draws = r.draws }))
            fresh
