-- ===== src/Service/Ledger.antt =====
-- Deliveries among the usage requests leave the events in step with the stored responses.
use flyrank_backend_capstone.Prelude.{ℕ, inl, inr, sym, subst}
use flyrank_backend_capstone.Store.Schema.{Tables}
use flyrank_backend_capstone.Metering.Ledger.{IsLedger, SameUsage-IsLedger}
use flyrank_backend_capstone.Store.Action.{Env}
use flyrank_backend_capstone.Sessions.Interleaved.{Step-IsLedger}
use flyrank_backend_capstone.Service.Defs.{
  Delivery, waiting, received, flushed, answered, deliver, Service, requests, creates, receives,
  delivers, Serves, here, next,
}
use flyrank_backend_capstone.Service.Records.{
  received-Marks, flushed-cases, create_tenant-SameRecords,
}

deliver-IsLedger :
    (E : Env) (t : Tables) (n : ℕ) (d : Delivery)
    → IsLedger t
    → IsLedger (deliver E t n d).1.session.stored
unfolding deliver
deliver-IsLedger E t n waiting h = h
deliver-IsLedger E t n (received event) h = subst IsLedger (sym (received-Marks E t n event).1) h
deliver-IsLedger E t n (flushed event w) h = elim (flushed-cases E t n event w) [
  | inl (x, _, same) ↦ subst IsLedger (sym same) h
  | inr (reply, _, same) ↦ SameUsage-IsLedger t _ (same.usage_events, same.idempotency_records) h
]
deliver-IsLedger E t n (answered event o) h = h

-- From a service whose usage events and stored responses are in step, every interleaving of usage
-- requests, creations of tenants and deliveries of Stripe's events, in any number of sessions,
-- wherever each of them is and whichever locks it holds, with any clocks, keys and contents, reaches
-- only ones in which they are in step: no key ever has two events, each event has its stored 201, and
-- each stored response its event.
pub Serves-IsLedger :
    {w v : Service} → Serves w v → IsLedger w.usage.stored → IsLedger v.usage.stored
Serves-IsLedger here h = h
Serves-IsLedger {w} (next (requests u step) steps) h =
    Serves-IsLedger steps (Step-IsLedger w.usage u step h)
Serves-IsLedger {w} (next (creates E n payload) steps) h =
    let same = create_tenant-SameRecords E w.usage.stored n payload in
    Serves-IsLedger steps
      (SameUsage-IsLedger w.usage.stored _ (same.usage_events, same.idempotency_records) h)
Serves-IsLedger (next (receives i event at) steps) h = Serves-IsLedger steps h
Serves-IsLedger {w} (next (delivers E n i free rows) steps) h =
    Serves-IsLedger steps (deliver-IsLedger E w.usage.stored n (w.deliveries i) h)
