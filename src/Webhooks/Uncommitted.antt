-- ===== src/Webhooks/Uncommitted.antt =====
-- The handlers of `StripeWebhookHandler` only read and add: what they do is left to the commit.
use flyrank_backend_capstone.Prelude.{
  ◌≡◌, List, [], ◌∷◌, All, Option, none, some, Bool, true, false, if◌then◌else◌, same_text,
}
use flyrank_backend_capstone.Models.{Tenant, Subscription}
use flyrank_backend_capstone.Store.Schema.{
  Tables, Change, new_subscription, new_usage_event, new_idempotency_record, new_processed_webhook,
  set_tenant, set_subscription,
}
use flyrank_backend_capstone.Store.Kept.{All-append}
use flyrank_backend_capstone.Store.Database.{View, contract, view_add}
use flyrank_backend_capstone.Store.Action.{Env, Action, if_none, add}
use flyrank_backend_capstone.Webhooks.Events.{Field, missing, null, value, Event, Reply}
use flyrank_backend_capstone.Store.Preserves.{Preserves, Preserves-raise, preserves}
use flyrank_backend_capstone.Webhooks.Defs.{
  at_key, at_head, price_id, required, synced, get_tenant_by_customer_id, get_plan_by_stripe_price,
  get_subscription_by_stripe_id, handle_subscription_updated, handle_subscription_deleted,
  handle_checkout_completed, dispatch,
}

-- A change of a tenant or of its subscriptions.
abbrev pub IsHandled : Change → Type 0
IsHandled (new_usage_event e) = ⊥
IsHandled (new_idempotency_record r) = ⊥
IsHandled (new_processed_webhook w) = ⊥
IsHandled _ = Unit

-- The transaction began on `t` and its statements see `u`: nothing is committed, and what was added
-- since, tenants and subscriptions alone, is not flushed.
pub record IsUncommitted (t u : Tables) (v : View) : Type 0 where
  pub stored : v.stored ≡ t
  pub visible : v.visible ≡ u
  pub failed : v.failed ≡ false
  pub pending : All IsHandled v.pending

-- The action commits, flushes and rolls back nothing.
abbrev pub Keeps : Tables → Tables → {A : Type 0} → Action View A → Type 0
Keeps t u m = Preserves (IsUncommitted t u) m

module _ {P : View → Type 0} {A B : Type 0} where
  pub Preserves-at_key :
      (k : Field B) {m m' : Action View A} {f : B → Action View A}
      → Preserves P m
      → Preserves P m'
      → ((b : B) → Preserves P (f b))
      → Preserves P (at_key k m m' f)
  Preserves-at_key missing p q h = p
  Preserves-at_key null p q h = q
  Preserves-at_key (value a) p q h = h a

  pub Preserves-at_head :
      (xs : List B) {f : B → Action View A}
      → ((b : B) → Preserves P (f b))
      → Preserves P (at_head xs f)
  Preserves-at_head [] h = Preserves-raise _
  Preserves-at_head (b ∷ bs) h = h b

pub ruleset handlers = (preserves, Preserves-at_key, Preserves-at_head)

Keeps-add : {t u : Tables} (c : Change) → IsHandled c → Keeps t u (add contract c)
unfolding add view_add
Keeps-add c b = record {
  at = λ r h. record {
    stored = h.stored;
    visible = h.visible;
    failed = h.failed;
    pending = All-append IsHandled r.session.pending (c ∷ []) h.pending (b, tt);
  };
}

Keeps-add_subscription :
    {t u : Tables} (s : Subscription) → Keeps t u (add contract (new_subscription s))
Keeps-add_subscription s = Keeps-add (new_subscription s) tt

Keeps-set_subscription :
    {t u : Tables} (s : Subscription) → Keeps t u (add contract (set_subscription s))
Keeps-set_subscription s = Keeps-add (set_subscription s) tt

Keeps-set_tenant : {t u : Tables} (r : Tenant) → Keeps t u (add contract (set_tenant r))
Keeps-set_tenant r = Keeps-add (set_tenant r) tt

ruleset keeps = (handlers, Keeps-add_subscription, Keeps-set_subscription, Keeps-set_tenant)

module _ (E : Env) {t u : Tables} where
  Keeps-checkout : (event : Event) → Keeps t u (handle_checkout_completed E contract event)
  unfolding handle_checkout_completed get_tenant_by_customer_id get_plan_by_stripe_price price_id
  Keeps-checkout event = search keeps depth 40

  Keeps-updated : (event : Event) → Keeps t u (handle_subscription_updated contract event)
  unfolding handle_subscription_updated get_subscription_by_stripe_id required synced
  Keeps-updated event = search keeps depth 30

  Keeps-deleted : (event : Event) → Keeps t u (handle_subscription_deleted contract event)
  unfolding handle_subscription_deleted get_subscription_by_stripe_id required
  Keeps-deleted event = search keeps depth 30

-- Whatever handler was chosen, it preserves the property.
unfoldable pub AllKeep : (View → Type 0) → Option (Action View Reply) → Type 0
AllKeep P none = Unit
AllKeep P (some handler) = Preserves P handler

module _ (P : View → Type 0) where
  AllKeep-if :
      (b : Bool) (m n : Option (Action View Reply))
      → AllKeep P m
      → AllKeep P n
      → AllKeep P (if b then m else n)
  AllKeep-if true m n p q = p
  AllKeep-if false m n p q = q

  pub AllKeep-dispatch :
      (E : Env) (event : Event)
      → Preserves P (handle_checkout_completed E contract event)
      → Preserves P (handle_subscription_updated contract event)
      → Preserves P (handle_subscription_deleted contract event)
      → AllKeep P (dispatch E contract event)
  unfolding AllKeep dispatch
  AllKeep-dispatch E event checkout updated deleted =
      AllKeep-if (same_text event.type "checkout.session.completed") _ _ checkout (
        AllKeep-if (same_text event.type "customer.subscription.updated") _ _ updated
          (AllKeep-if (same_text event.type "customer.subscription.deleted") _ _ deleted tt))

  pub Preserves-handler :
      (o : Option (Action View Reply)) {m : Action View Reply}
      {f : Action View Reply → Action View Reply}
      → AllKeep P o
      → Preserves P m
      → ((handler : Action View Reply) → Preserves P handler → Preserves P (f handler))
      → Preserves P (if_none o m f)
  unfolding AllKeep
  Preserves-handler none k p q = p
  Preserves-handler (some handler) k p q = q handler k

pub Keeps-dispatch :
    (E : Env) (t u : Tables) (event : Event)
    → AllKeep (IsUncommitted t u) (dispatch E contract event)
Keeps-dispatch E t u event =
    AllKeep-dispatch (IsUncommitted t u) E event (Keeps-checkout E event) (Keeps-updated E event)
      (Keeps-deleted E event)
