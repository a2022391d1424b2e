-- ===== src/Webhooks/Updates.antt =====
-- What an update of a subscription at Stripe means for its row and for the quota check of its tenant.
use flyrank_backend_capstone.Prelude.{
  ℕ, suc, String, ◌≡◌, refl, ◌∙◌, ap, sym, subst, ◌∷◌, none, some, true, false, string_dec, arith,
}
use flyrank_backend_capstone.Models.{Tenant, Subscription, TenantStatus, EventType, is_active}
use flyrank_backend_capstone.Store.Schema.{
  Tables, apply_change, apply_changes, insert_processed_webhook, get_processed_webhook, fits_text,
  column_eq, put_subscription,
}
use flyrank_backend_capstone.Store.Database.{
  Database, View, IsLawful, contract, opened, view_add, view_flush, view_commit, view_select,
}
use flyrank_backend_capstone.Store.Action.{
  Env, Run, Outcome, returned, raised, ◌>>=◌, try_except, draw, add, flush, commit, pure, query,
  payment_required, no_active_subscription,
}
use flyrank_backend_capstone.Quota.{check_and_reserve}
use flyrank_backend_capstone.Store.Scalar.{one_row, scalar_one}
use flyrank_backend_capstone.Quota.Locking.{IsUnsubscribed}
use flyrank_backend_capstone.Webhooks.Events.{
  Field, missing, null, value, Event, Reply, subscription_updated, get,
}
use flyrank_backend_capstone.Webhooks.Defs.{
  required, get_subscription_by_stripe_id, mark_processed_or_skip, synced,
  handle_subscription_updated, dispatch, apply_event, handle_event, next_status, from_timestamp,
}
use flyrank_backend_capstone.Webhooks.Simulated.{handle_event-opened}
use flyrank_backend_capstone.Webhooks.Cancellation.{
  IsOnly, put_subscription-IsUnsubscribed, unsubscribed-refused,
}

-- An end of the period after an event with that field: as it was if the event has none, or the
-- event's instant if `datetime` can hold it.
abbrev pub SyncsTo : Field ℕ → ℕ → ℕ → Type 0
SyncsTo missing old new = new ≡ old
SyncsTo null old new = new ≡ old
SyncsTo (value seconds) old new = from_timestamp seconds ≡ some new

synced-SyncsTo :
    (k : Field ℕ) (old new : ℕ) → SyncsTo k old new → synced {S = View} k old ≡ pure new
unfolding synced
synced-SyncsTo missing old new h = rw h refl
synced-SyncsTo null old new h = rw h refl
synced-SyncsTo (value seconds) old new h = rw h refl

-- The row after the event.
abbrev pub updated_row : Event → Subscription → ℕ → ℕ → Subscription
updated_row event s start end = record s {
  status = next_status (get event.object.status) s.status;
  current_period_start = start;
  current_period_end = end;
}

abbrev pub updated_tables : Env → Event → Subscription → ℕ → ℕ → ℕ → Tables → Tables
updated_tables E event s start end n t = record t {
  subscriptions = put_subscription (updated_row event s start end) t.subscriptions;
  processed_webhooks =
      record { event_id = event.id; event_type = event.type; processed_at = E.now n }
      ∷ t.processed_webhooks;
}

module _ (E : Env) (event : Event) (t : Tables) (n : ℕ) (id : String) (s : Subscription)
    (start end : ℕ) (is_updated : event.type ≡ "customer.subscription.updated")
    (names : event.object.id ≡ value id) (fits : fits_text 255 event.id ≡ true)
    (is_new : get_processed_webhook event.id t ≡ none)
    (found : scalar_one
        (λ (r : Subscription). column_eq r.stripe_subscription_id (some id))
        t.subscriptions
      ≡ one_row s)
    (starts : SyncsTo event.object.current_period_start s.current_period_start start)
    (ends : SyncsTo event.object.current_period_end s.current_period_end end) where
  updated-contract : handle_event E contract event (record { session = opened t; draws = n }) ≡ (
    returned (subscription_updated s.id),
    record { session = opened (updated_tables E event s start end n t); draws = suc n },
  )
  unfolding handle_event mark_processed_or_skip apply_event dispatch handle_subscription_updated
      get_subscription_by_stripe_id required ◌>>=◌ try_except draw add flush commit pure query
      view_add view_flush view_commit view_select apply_changes apply_change
      insert_processed_webhook string_dec
  updated-contract =
      rw
        (
          fits,
          is_new,
          is_updated,
          names,
          found,
          synced-SyncsTo event.object.current_period_start s.current_period_start start starts,
          synced-SyncsTo event.object.current_period_end s.current_period_end end ends,
        )
        refl

-- A new update event, on a lawful session opened on tables where exactly one subscription has the
-- Stripe id that it names, whose period ends `datetime` can hold, and whose id fits 255 characters:
-- the reply says updated, and one commit stores the event's id and the row with the status that the event's maps to, and with
-- the event's ends of the period, each where the event has it.
pub updated_syncs :
    (E : Env) {D : Database} {view : D.Session → View}
    → IsLawful D view
    → (event : Event) (t : Tables) (r : Run D.Session) (id : String) (s : Subscription)
      (start end : ℕ)
    → view r.session ≡ opened t
    → event.type ≡ "customer.subscription.updated"
    → event.object.id ≡ value id
    → fits_text 255 event.id ≡ true
    → get_processed_webhook event.id t ≡ none
    → scalar_one
        (λ (x : Subscription). column_eq x.stripe_subscription_id (some id))
        t.subscriptions
      ≡ one_row s
    → SyncsTo event.object.current_period_start s.current_period_start start
    → SyncsTo event.object.current_period_end s.current_period_end end
    → let (o, after) = handle_event E D event r in
      (o ≡ returned (subscription_updated s.id))
      × ((view after.session).stored ≡ updated_tables E event s start end r.draws t)
updated_syncs E lawful event t r id s start end fresh is_updated names fits is_new found starts
      ends =
    let runs =
      handle_event-opened lawful E event t r fresh
      ∙ updated-contract E event t r.draws id s start end is_updated names fits is_new found starts
          ends in
    (
      ap (λ (p : Outcome Reply × Run View). p.0) runs,
      ap (λ (p : Outcome Reply × Run View). p.1.session.stored) runs,
    )

-- A new update event, on a lawful session opened on tables where exactly one subscription has the
-- Stripe id that it names, whose period ends `datetime` can hold, and whose id fits 255 characters:
-- if the status that the event's maps to is not ACTIVE (as for
-- "past_due", "canceled", "unpaid" and "incomplete_expired") and the row is the only ACTIVE one of
-- a tenant, then every later check of that tenant while its status is ACTIVE, for any event type,
-- quantity and clock, on any lawful session opened on the tables that were stored, ends in the 402
-- for a missing subscription.
pub updated_revokes :
    (E later_env : Env) {D later_db : Database} {view : D.Session → View}
    {later_view : later_db.Session → View}
    → IsLawful D view
    → IsLawful later_db later_view
    → (event : Event) (t stored : Tables) (r : Run D.Session) (later : Run later_db.Session)
      (id : String) (s : Subscription) (start end : ℕ) (tenant : Tenant) (type : EventType) (q : ℕ)
    → view r.session ≡ opened t
    → event.type ≡ "customer.subscription.updated"
    → event.object.id ≡ value id
    → fits_text 255 event.id ≡ true
    → get_processed_webhook event.id t ≡ none
    → scalar_one
        (λ (x : Subscription). column_eq x.stripe_subscription_id (some id))
        t.subscriptions
      ≡ one_row s
    → SyncsTo event.object.current_period_start s.current_period_start start
    → SyncsTo event.object.current_period_end s.current_period_end end
    → is_active (next_status (get event.object.status) s.status) ≡ false
    → tenant.status ≡ TenantStatus.active
    → IsOnly tenant.id s t.subscriptions
    → (view (handle_event E D event r).1.session).stored ≡ stored
    → later_view later.session ≡ opened stored
    → (check_and_reserve later_env later_db tenant type q later).0
      ≡ raised (payment_required no_active_subscription)
updated_revokes E later_env lawful later_lawful event t stored r later id s start end tenant type q
      fresh is_updated names fits is_new found starts ends off active only kept reopened =
    let (_, after) =
      updated_syncs E lawful event t r id s start end fresh is_updated names fits is_new found
        starts ends in
    let unsubscribed =
      subst (λ (u : Tables). IsUnsubscribed tenant.id u.subscriptions) (sym after ∙ kept)
        (put_subscription-IsUnsubscribed tenant.id (updated_row event s start end) t.subscriptions
          (ground arith) only) in
    unsubscribed-refused later_env later_lawful tenant type q stored later reopened active
      unsubscribed
