-- ===== src/Sessions/Interleaved.antt =====
-- What every interleaving of usage requests keeps: the limits of the plans, and the events in step with
-- the stored responses.
use flyrank_backend_capstone.Prelude.{ℕ, ◌≡◌, inl, inr, refl, sym, subst, none}
use flyrank_backend_capstone.Metering.{record_row}
use flyrank_backend_capstone.Metering.Spec.{event_at}
use flyrank_backend_capstone.Metering.Limits.{IsWithin, recorded-IsWithin}
use flyrank_backend_capstone.Metering.Ledger.{IsLedger, recorded_tables-IsLedger}
use flyrank_backend_capstone.Sessions.Defs.{
  usage_of, quantity_of, lock_of, World, Step, arrives, proceeds, Reaches, here, next,
}
use flyrank_backend_capstone.Sessions.Steps.{proceed-stored}
use flyrank_backend_capstone.Sessions.Exclusion.{
  IsOrderly, unlocked-IsOrderly, Writes, Step-stored, Step-IsOrderly,
}

Writes-IsWithin : (id : ℕ) (w v : World) → Writes w v → IsWithin id w.stored → IsWithin id v.stored
Writes-IsWithin id w v (E, q, n, created_at, c, _, _, room, after) h =
    let e = event_at E q.settings q.tenant q.key q.type (usage_of q) n in
    subst (IsWithin id) (sym after) (
      recorded-IsWithin id q.tenant q.type (quantity_of q) e (record_row e c created_at) w.stored
        refl refl refl room h)

pub Step-IsWithin :
    (id : ℕ) (w v : World) → IsOrderly w → Step w v → IsWithin id w.stored → IsWithin id v.stored
Step-IsWithin id w v orderly step h = elim (Step-stored w v orderly step) [
  | inl same ↦ subst (IsWithin id) (sym same) h
  | inr writes ↦ Writes-IsWithin id w v writes h
]

Reaches-IsWithin :
    (id : ℕ) {w v : World} → Reaches w v → IsOrderly w → IsWithin id w.stored → IsWithin id v.stored
Reaches-IsWithin id here orderly h = h
Reaches-IsWithin id {w} (next {u} step steps) orderly h =
    Reaches-IsWithin id steps (Step-IsOrderly w u orderly step)
      (Step-IsWithin id w u orderly step h)

-- A step keeps the two in step, whoever holds a lock.
pub Step-IsLedger : (w v : World) → Step w v → IsLedger w.stored → IsLedger v.stored
Step-IsLedger w v (arrives i q at) h = h
Step-IsLedger w v (proceeds E n i free) h = elim (proceed-stored E w.stored n (w.phases i)) [
  | inl same ↦ subst IsLedger (sym same) h
  | inr (q, s, c, created_at, _, miss, new, after) ↦
      let e = event_at E q.settings q.tenant q.key q.type (usage_of q) n in
      subst IsLedger (sym after) (
        recorded_tables-IsLedger e (record_row e c created_at) w.stored refl miss new.2
          (c.plan.name, refl, refl) h)
]

-- From a world in which no session holds a lock and a tenant's usage is within the limits of its
-- selected subscription's plan, no interleaving of any number of usage requests in any number of
-- sessions, with any clocks, keys and tenants, reaches a world in which the tenant's usage of either
-- event type is past its limit: two requests never pass the check on the same remaining quota.
pub interleaved-IsWithin :
    (id : ℕ) {w v : World}
    → Reaches w v
    → ((i : ℕ) → lock_of (w.phases i) ≡ none)
    → IsWithin id w.stored
    → IsWithin id v.stored
interleaved-IsWithin id {w} steps unlocked h =
    Reaches-IsWithin id steps (unlocked-IsOrderly w unlocked) h

-- From a world whose events and stored responses are in step, wherever its requests are and whichever
-- locks they hold, every interleaving of usage requests, also of several with the same key, reaches
-- only worlds in which they are in step: no key ever has two events.
pub interleaved-IsLedger : {w v : World} → Reaches w v → IsLedger w.stored → IsLedger v.stored
interleaved-IsLedger here h = h
interleaved-IsLedger {w} (next {u} step steps) h =
    interleaved-IsLedger steps (Step-IsLedger w u step h)
