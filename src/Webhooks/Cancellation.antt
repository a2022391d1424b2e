-- ===== src/Webhooks/Cancellation.antt =====
-- What the deletion of a subscription at Stripe means for the quota check of its tenant.
use flyrank_backend_capstone.Prelude.{
  ℕ, String, ◌≡◌, refl, ◌∙◌, ap, sym, subst, List, [], ◌∷◌, none, some, true, false, string_dec,
  arith, Option-cases, Bool-cases, inl, inr, All, ◌==◌,
}
use flyrank_backend_capstone.Models.{
  Tenant, Subscription, TenantStatus, SubscriptionStatus, EventType,
}
use flyrank_backend_capstone.Store.Schema.{
  Tables, apply_change, apply_changes, insert_processed_webhook, get_processed_webhook, fits_text,
  get_tenant, column_eq, put_subscription,
}
use flyrank_backend_capstone.Store.Database.{
  Database, View, IsLawful, contract, opened, view_add, view_flush, view_commit, view_select,
}
use flyrank_backend_capstone.Store.Action.{
  Env, Run, Outcome, returned, raised, ◌>>=◌, try_except, draw, add, flush, commit, pure, query,
  payment_required, no_active_subscription,
}
use flyrank_backend_capstone.Quota.{QuotaCheckResult, is_current, check_and_reserve}
use flyrank_backend_capstone.Quota.Locking.{IsUnsubscribed, IsUnsubscribed-none}
use flyrank_backend_capstone.Quota.Decision.{Simulates-check_and_reserve}
use flyrank_backend_capstone.Store.Scalar.{one_row, scalar_one}
use flyrank_backend_capstone.Webhooks.Events.{value, Event, Reply, subscription_canceled}
use flyrank_backend_capstone.Webhooks.Defs.{
  required, get_subscription_by_stripe_id, mark_processed_or_skip, handle_subscription_deleted,
  dispatch, apply_event, handle_event,
}
use flyrank_backend_capstone.Webhooks.Simulated.{handle_event-opened}

-- Each of the tenant's ACTIVE subscriptions is the row `s`.
abbrev pub IsOnly : ℕ → Subscription → List Subscription → Type 0
IsOnly tenant_id s = All (λ u. is_current tenant_id u ≡ true → (u.id == s.id) ≡ true)

abbrev canceled_row : Subscription → Subscription
canceled_row s = record s { status = SubscriptionStatus.canceled }

module _ (tenant_id : ℕ) where
  pub put_subscription-IsUnsubscribed :
      (s : Subscription) (ss : List Subscription)
      → is_current tenant_id s ≡ false
      → IsOnly tenant_id s ss
      → IsUnsubscribed tenant_id (put_subscription s ss)
  put_subscription-IsUnsubscribed s [] off h = tt
  put_subscription-IsUnsubscribed s (u ∷ us) off h = elim (Bool-cases (u.id == s.id)) [
    | inl e ↦ rw e (off, put_subscription-IsUnsubscribed s us off h.1)
    | inr e ↦ elim (Bool-cases (is_current tenant_id u)) [
      | inl c ↦ absurd (differ (sym e ∙ h.0 c))
      | inr c ↦ rw e (c, put_subscription-IsUnsubscribed s us off h.1)
    ]
  ]
    where
      differ : ¬ (false ≡ true)
      differ p = cc

-- A check for a tenant with no ACTIVE subscription.
refused-contract :
    (E : Env) (tenant : Tenant) (type : EventType) (q : ℕ) (t : Tables) (n : ℕ)
    → tenant.status ≡ TenantStatus.active
    → IsUnsubscribed tenant.id t.subscriptions
    → (check_and_reserve E contract tenant type q (record { session = opened t; draws = n })).0
      ≡ raised (payment_required no_active_subscription)
unfolding check_and_reserve ◌>>=◌ query view_select
refused-contract E tenant type q t n active h =
    rw (active, IsUnsubscribed-none tenant.id t.subscriptions h) refl

pub unsubscribed-refused :
    (E : Env) {D : Database} {view : D.Session → View}
    → IsLawful D view
    → (tenant : Tenant) (type : EventType) (q : ℕ) (t : Tables) (r : Run D.Session)
    → view r.session ≡ opened t
    → tenant.status ≡ TenantStatus.active
    → IsUnsubscribed tenant.id t.subscriptions
    → (check_and_reserve E D tenant type q r).0 ≡ raised (payment_required no_active_subscription)
unsubscribed-refused E lawful tenant type q t r fresh active h =
    ap (λ (p : Outcome QuotaCheckResult × Run View). p.0)
      ((Simulates-check_and_reserve E lawful tenant type q).at r)
    ∙ ap
        (λ (v : View).
          (check_and_reserve E contract tenant type q (record { session = v; draws = r.draws })).0)
        fresh
    ∙ refused-contract E tenant type q t r.draws active h

module _ (E : Env) (event : Event) (t : Tables) (n : ℕ) (id : String) (s : Subscription)
    (is_deleted : event.type ≡ "customer.subscription.deleted") (names : event.object.id ≡ value id)
    (fits : fits_text 255 event.id ≡ true) (is_new : get_processed_webhook event.id t ≡ none)
    (found : scalar_one
        (λ (r : Subscription). column_eq r.stripe_subscription_id (some id))
        t.subscriptions
      ≡ one_row s) where
  abbrev result : Outcome Reply × Run View
  result = handle_event E contract event (record { session = opened t; draws = n })

  deleted-contract :
      (result.0 ≡ returned (subscription_canceled s.id))
      × (result.1.session.stored.subscriptions ≡ put_subscription (canceled_row s) t.subscriptions)
  unfolding handle_event mark_processed_or_skip apply_event dispatch handle_subscription_deleted
      get_subscription_by_stripe_id required ◌>>=◌ try_except draw add flush commit pure query
      view_add view_flush view_commit view_select apply_changes apply_change
      insert_processed_webhook string_dec
  deleted-contract =
      rw (fits, is_new, is_deleted, names, found)
        (elim (Option-cases (get_tenant s.tenant_id t)) [
          | inl missing ↦ rw missing (refl, refl)
          | inr (tenant, owner) ↦ rw owner (refl, refl)
        ])

-- A new deletion event, whose id fits 255 characters, on a lawful session opened on tables where exactly one subscription has the
-- Stripe id that it names and where that row is the only ACTIVE one of a tenant: the reply says
-- canceled, and from then on every check of that tenant while its status is ACTIVE, for any event
-- type, quantity and clock, on any lawful session opened on the tables that were stored, ends in
-- the 402 for a missing subscription.
pub deleted_revokes :
    (E later_env : Env) {D later_db : Database} {view : D.Session → View}
    {later_view : later_db.Session → View}
    → IsLawful D view
    → IsLawful later_db later_view
    → (event : Event) (t stored : Tables) (r : Run D.Session) (later : Run later_db.Session)
      (id : String) (s : Subscription) (tenant : Tenant) (type : EventType) (q : ℕ)
    → view r.session ≡ opened t
    → event.type ≡ "customer.subscription.deleted"
    → event.object.id ≡ value id
    → fits_text 255 event.id ≡ true
    → get_processed_webhook event.id t ≡ none
    → scalar_one
        (λ (x : Subscription). column_eq x.stripe_subscription_id (some id))
        t.subscriptions
      ≡ one_row s
    → tenant.status ≡ TenantStatus.active
    → IsOnly tenant.id s t.subscriptions
    → (view (handle_event E D event r).1.session).stored ≡ stored
    → later_view later.session ≡ opened stored
    → ((handle_event E D event r).0 ≡ returned (subscription_canceled s.id))
      × ((check_and_reserve later_env later_db tenant type q later).0
          ≡ raised (payment_required no_active_subscription))
deleted_revokes E later_env {view} lawful later_lawful event t stored r later id s tenant type q
      fresh is_deleted names fits is_new found active only kept reopened =
    let runs = handle_event-opened lawful E event t r fresh in
    let (reply, rows_after) =
      deleted-contract E event t r.draws id s is_deleted names fits is_new found in
    let same_rows =
      ap (λ (u : Tables). u.subscriptions)
        (sym (ap (λ (p : Outcome Reply × Run View). p.1.session.stored) runs) ∙ kept) in
    let off = subst (IsUnsubscribed tenant.id) (sym rows_after ∙ same_rows) (
      put_subscription-IsUnsubscribed tenant.id (canceled_row s) t.subscriptions (ground arith)
        only) in
    (
      ap (λ (p : Outcome Reply × Run View). p.0) runs ∙ reply,
      unsubscribed-refused later_env later_lawful tenant type q stored later reopened active off,
    )
