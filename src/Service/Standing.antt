-- ===== src/Service/Standing.antt =====
-- What the committed tables say of a delivery, and two deliveries of each other.

use flyrank_backend_capstone.Prelude.{
  ◌≡◌, ◌≢◌, ◌⊎◌, inl, inr, refl, sym, subst, ap, ◌∙◌, none, some, Bool-cases, same_text,
  same_text-eq,
}
use flyrank_backend_capstone.Models.{ProcessedWebhook}
use flyrank_backend_capstone.Store.Schema.{Tables, get_processed_webhook, is_some}
use flyrank_backend_capstone.Store.Action.{Outcome, returned, raised}
use flyrank_backend_capstone.Webhooks.{Event, Reply, duplicate_ignored}
use flyrank_backend_capstone.Webhooks.Atomic.{marked}
use flyrank_backend_capstone.Webhooks.Delivery.{IsProcessed}
use flyrank_backend_capstone.Webhooks.Handled.{SameRecords}
use flyrank_backend_capstone.Service.Defs.{Delivery, waiting, received, flushed, answered, holds}

-- What the committed tables say of a delivery: an id that is flushed is not committed, and one that
-- was answered is.
abbrev pub Stands : Tables → Delivery → Type 0
Stands t (flushed event w) = (w.event_id ≡ event.id) × (get_processed_webhook event.id t ≡ none)
Stands t (answered event (returned reply)) = IsProcessed event.id t
Stands t _ = Unit

-- Two deliveries of one event are not both applied.
abbrev pub Agree : Delivery → Delivery → Type 0
Agree d d' =
    (event event' : Event) (reply reply' : Reply)
    → d ≡ answered event (returned reply)
    → d' ≡ answered event' (returned reply')
    → event.id ≡ event'.id
    → (reply ≡ duplicate_ignored event.id) ⊎ (reply' ≡ duplicate_ignored event'.id)

-- The tables matter by their processed events.
pub Stands-same :
    (t u : Tables) (d : Delivery)
    → u.processed_webhooks ≡ t.processed_webhooks
    → Stands t d
    → Stands u d
Stands-same t u d e h =
    subst (λ ws. Stands (record u { processed_webhooks = ws }) d) (sym e) (again d h)
  where
    again :
        (d : Delivery)
        → Stands t d
        → Stands (record u { processed_webhooks = t.processed_webhooks }) d
    again waiting h = tt
    again (received event) h = tt
    again (flushed event w) h = h
    again (answered event (returned reply)) h = h
    again (answered event (raised x)) h = tt

-- A commit of another event's id.
pub Stands-marked :
    (t u : Tables) (w : ProcessedWebhook) (d : Delivery)
    → SameRecords (marked w t) u
    → holds d ≢ some w.event_id
    → Stands t d
    → Stands u d
unfolding holds
Stands-marked t u w d same other h =
    Stands-same (marked w t) u d same.processed_webhooks (added d other h)
  where
    added : (d : Delivery) → holds d ≢ some w.event_id → Stands t d → Stands (marked w t) d
    added waiting other h = tt
    added (received event) other h = tt
    added (flushed event x) other h = elim (Bool-cases (same_text w.event_id event.id)) [
      | inl e ↦ absurd (other (ap some (sym (same_text-eq w.event_id event.id e))))
      | inr e ↦ (h.0, rw e h.1)
    ]
    added (answered event (returned reply)) other h =
        elim (Bool-cases (same_text w.event_id event.id)) [ inl e ↦ rw e refl | inr e ↦ rw e h ]
    added (answered event (raised x)) other h = tt

pub Agree-sym : (d d' : Delivery) → Agree d d' → Agree d' d
Agree-sym d d' h event event' reply reply' e e' same =
    elim (h event' event reply' reply e' e (sym same)) [ inl x ↦ inr x | inr x ↦ inl x ]

-- A delivery without a reply agrees with every other, and so does a duplicate.
pub Agree-unanswered :
    (d d' : Delivery)
    → ((event : Event) (reply : Reply) → d ≢ answered event (returned reply))
    → Agree d d'
Agree-unanswered d d' h event event' reply reply' e e' same = absurd (h event reply e)

pub Agree-duplicate :
    (event : Event) (d : Delivery)
    → Agree (answered event (returned (duplicate_ignored event.id))) d
Agree-duplicate event d x x' reply reply' e e' same = inl (cc)

-- An event whose id was not committed has no answer yet.
pub Agree-new :
    (t : Tables) (event : Event) (o : Outcome Reply) (d : Delivery)
    → get_processed_webhook event.id t ≡ none
    → Stands t d
    → Agree (answered event o) d
Agree-new t event o d miss h x x' reply reply' e e' same =
    let known : IsProcessed x'.id t = subst (Stands t) e' h in
    let id : event.id ≡ x'.id = cc in
    cc (ap (λ id. is_some (get_processed_webhook id t)) id ∙ known, miss)
