-- ===== src/Service/Defs.antt =====
-- Deliveries among the interleaved usage requests: `handle_event` of app/services/stripe_webhooks.py
-- is cut after `_mark_processed_or_skip`, which leaves a transaction open that has flushed the
-- event's id. A flush of the same id in another session waits until that transaction ends, as
-- PostgreSQL's unique indexes have it. What the handler reads, and the commit, are one step, which
-- waits until no usage request holds the lock of a row that it updates.
use flyrank_backend_capstone.Prelude.{
  ℕ, ◌≡◌, ◌≢◌, String, Bool, true, false, Option, none, some, if◌then◌else◌, ◌==◌,
}
use flyrank_backend_capstone.Models.{ProcessedWebhook}
use flyrank_backend_capstone.Store.Schema.{Tables, subscription_with_id}
use flyrank_backend_capstone.Store.Database.{View, contract}
use flyrank_backend_capstone.Store.Action.{Env, Outcome, returned, raised, Run}
use flyrank_backend_capstone.Webhooks.{
  Event, Reply, duplicate_ignored, mark_processed_or_skip, apply_event,
}
use flyrank_backend_capstone.Webhooks.Atomic.{marked, begun}
use flyrank_backend_capstone.Webhooks.Customers.{processed_row}
use flyrank_backend_capstone.Schemas.{TenantCreate}
use flyrank_backend_capstone.Routers.Tenants.{create_tenant}
use flyrank_backend_capstone.Sessions.{World, Step, on_tables, lock_of}

-- Before `_mark_processed_or_skip`; in the transaction that has flushed that row; ended.
pub data Delivery : Type 0 where
  waiting : Delivery
  received : Event → Delivery
  flushed : Event → ProcessedWebhook → Delivery
  answered : Event → Outcome Reply → Delivery

-- `if not is_new: return …`
abbrev pub after_mark : Event → ProcessedWebhook → Outcome Bool → Delivery
after_mark event w (returned true) = flushed event w
after_mark event w (returned false) = answered event (returned (duplicate_ignored event.id))
after_mark event w (raised e) = answered event (raised e)

module _ (E : Env) where
  unfoldable pub deliver : Tables → ℕ → Delivery → Delivery × Run View
  deliver t n waiting = (waiting, on_tables t n)
  deliver t n (received event) =
      let (o, r) = mark_processed_or_skip E contract event.id event.type (on_tables t n) in
      (after_mark event (processed_row E event n) o, r)
  deliver t n (flushed event w) =
      let (o, r) = apply_event E contract event (begun t (marked w t) n) in (answered event o, r)
  deliver t n (answered event o) = (answered event o, on_tables t n)

-- The event's id that an open transaction has flushed.
unfoldable pub holds : Delivery → Option String
holds (flushed event w) = some event.id
holds _ = none

-- The usage requests over the committed tables, and the delivery of each further session.
pub record Service : Type 0 where
  pub usage : World
  pub deliveries : ℕ → Delivery

abbrev pub replace_delivery : (ℕ → Delivery) → ℕ → Delivery → ℕ → Delivery
replace_delivery deliveries i d j = if j == i then d else deliveries j

-- No transaction has flushed the id that the session `i` flushes next.
abbrev pub IsKeyFree : Service → ℕ → Type 0
IsKeyFree w i =
    (event : Event)
    → w.deliveries i ≡ received event
    → (j : ℕ) → holds (w.deliveries j) ≢ some event.id

-- The delivery of the session `i` runs up to its next point.
abbrev pub deliver_in : Env → ℕ → ℕ → Service → Service
deliver_in E n i w = record {
  usage = record w.usage {
    stored = (deliver E w.usage.stored n (w.deliveries i)).1.session.stored;
  };
  deliveries = replace_delivery w.deliveries i (deliver E w.usage.stored n (w.deliveries i)).0;
}

-- No request holds the lock of a subscription that the step of the session `i` changes.
abbrev pub IsRowFree : Env → ℕ → ℕ → Service → Type 0
IsRowFree E n i w =
    (id j : ℕ)
    → lock_of (w.usage.phases j) ≡ some id
    → subscription_with_id id (deliver_in E n i w).usage.stored
      ≡ subscription_with_id id w.usage.stored

-- A request to create a tenant, whose rows are new, is one step.
abbrev pub create_in : Env → ℕ → TenantCreate → Service → Service
create_in E n payload w = record w {
  usage = record w.usage {
    stored = (create_tenant E contract payload (on_tables w.usage.stored n)).1.session.stored;
  };
}

-- A step of the usage requests, the creation of a tenant, the arrival of an event, or a step of a
-- delivery.
pub data ServiceStep (w : Service) : Service → Type 0 where
  requests : (u : World) → Step w.usage u → ServiceStep w (record w { usage = u })
  creates : (E : Env) (n : ℕ) (payload : TenantCreate) → ServiceStep w (create_in E n payload w)
  receives :
      (i : ℕ) (event : Event)
      → w.deliveries i ≡ waiting
      → ServiceStep w (record w { deliveries = replace_delivery w.deliveries i (received event) })
  delivers :
      (E : Env) (n i : ℕ) → IsKeyFree w i → IsRowFree E n i w → ServiceStep w (deliver_in E n i w)

-- Any number of steps, in any order.
pub data Serves : Service → Service → Type 0 where
  here : {w : Service} → Serves w w
  next : {w u v : Service} → ServiceStep w u → Serves u v → Serves w v
