-- ===== src/Service/Once.antt =====
-- Of several deliveries of one event at once, one at most is applied.

use flyrank_backend_capstone.Prelude.{ℕ, ◌≡◌, ◌≢◌, ◌⊎◌, inl, inr, refl, sym, subst, ap, ◌∙◌}
use flyrank_backend_capstone.Store.Schema.{Tables}
use flyrank_backend_capstone.Store.Action.{returned}
use flyrank_backend_capstone.Webhooks.{Event, Reply, duplicate_ignored}
use flyrank_backend_capstone.Webhooks.Delivery.{IsProcessed}
use flyrank_backend_capstone.Sessions.{World, Step, arrives, proceeds}
use flyrank_backend_capstone.Sessions.Steps.{proceed-stored}
use flyrank_backend_capstone.Service.Defs.{
  waiting, received, answered, holds, Service, create_in, ServiceStep, requests, creates, receives,
  delivers, Serves, here, next,
}
use flyrank_backend_capstone.Service.Records.{create_tenant-SameRecords}
use flyrank_backend_capstone.Service.Standing.{Stands, Stands-same, Agree-unanswered}
use flyrank_backend_capstone.Service.Moves.{
  IsServed, IsMove-IsServed, deliver-IsMove, arrived-IsMove,
}

-- A usage request leaves the processed events as they are.
Step-processed_webhooks :
    (w v : World) → Step w v → v.stored.processed_webhooks ≡ w.stored.processed_webhooks
Step-processed_webhooks w v (arrives i q at) = refl
Step-processed_webhooks w v (proceeds E n i free) =
    elim (proceed-stored E w.stored n (w.phases i)) [
      | inl same ↦ ap (λ (t : Tables). t.processed_webhooks) same
      | inr (q, s, c, created_at, _, _, _, after) ↦ ap (λ (t : Tables). t.processed_webhooks) after
    ]

ServiceStep-IsServed : (w v : Service) → ServiceStep w v → IsServed w → IsServed v
ServiceStep-IsServed w v (requests u step) h = record {
  exclusive = h.exclusive;
  stands = λ i.
      Stands-same w.usage.stored u.stored (w.deliveries i) (Step-processed_webhooks w.usage u step)
        (h.stands i);
  agree = h.agree;
}
ServiceStep-IsServed w v (creates E n payload) h = record {
  exclusive = h.exclusive;
  stands = λ i.
      Stands-same w.usage.stored (create_in E n payload w).usage.stored (w.deliveries i)
        (create_tenant-SameRecords E w.usage.stored n payload).processed_webhooks (h.stands i);
  agree = h.agree;
}
ServiceStep-IsServed w v (receives i event at) h =
    IsMove-IsServed w h i (received event) w.usage.stored (arrived-IsMove w h i event)
ServiceStep-IsServed w v (delivers E n i free rows) h =
    IsMove-IsServed w h i _ _ (deliver-IsMove w h E n i free (w.deliveries i) refl)

Serves-IsServed : {w v : Service} → Serves w v → IsServed w → IsServed v
Serves-IsServed here h = h
Serves-IsServed {w} (next {u} step steps) h =
    Serves-IsServed steps (ServiceStep-IsServed w u step h)

waiting-IsServed : (w : Service) → ((i : ℕ) → w.deliveries i ≡ waiting) → IsServed w
unfolding holds
waiting-IsServed w idle = record {
  exclusive = λ i j id a b. cc (idle i);
  stands = λ i. subst (Stands w.usage.stored) (sym (idle i)) tt;
  agree =
      λ i j other. Agree-unanswered (w.deliveries i) (w.deliveries j) (λ x reply e. cc (idle i));
}

-- From a service with no delivery at work, in every interleaving of usage requests, creations of
-- tenants and deliveries of Stripe's events, in any number of sessions, with any clocks and contents: of two deliveries of
-- events with one id that have got a reply, one at most is not answered as a duplicate, and the id
-- is stored.
pub delivered_once :
    {w v : Service}
    → Serves w v
    → ((i : ℕ) → w.deliveries i ≡ waiting)
    → (i j : ℕ) (event later_event : Event) (reply later_reply : Reply) → i ≢ j
    → v.deliveries i ≡ answered event (returned reply)
    → v.deliveries j ≡ answered later_event (returned later_reply)
    → later_event.id ≡ event.id
    → ((reply ≡ duplicate_ignored event.id) ⊎ (later_reply ≡ duplicate_ignored event.id))
      × IsProcessed event.id v.usage.stored
delivered_once {w} {v} steps idle i j event later_event reply later_reply other first second same =
    let served = Serves-IsServed steps (waiting-IsServed w idle) in
    (
      elim (served.agree i j other event later_event reply later_reply first second (sym same)) [
        | inl e ↦ inl e
        | inr e ↦ inr (e ∙ ap (λ id. duplicate_ignored id) same)
      ],
      subst (Stands v.usage.stored) first (served.stands i),
    )
