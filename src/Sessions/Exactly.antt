-- ===== src/Sessions/Exactly.antt =====
-- No interleaving ends in the 409 for a key that another request has.
use flyrank_backend_capstone.Prelude.{ℕ, ◌≡◌, ◌≢◌, ◌⊎◌, inl, inr, sym, subst, ap, true, none}
use flyrank_backend_capstone.Store.Schema.{get_tenant, is_some, usage_event_with_id}
use flyrank_backend_capstone.Store.Action.{Outcome, returned}
use flyrank_backend_capstone.Metering.{MeteringResult, conflict, record_row}
use flyrank_backend_capstone.Metering.Spec.{event_at}
use flyrank_backend_capstone.Metering.Ledger.{IsLedger}
use flyrank_backend_capstone.Sessions.Defs.{
  Phase, idle, asked, ended, usage_of, proceed, lock_of, World, replace, Step, arrives, proceeds,
  Reaches, here, next,
}
use flyrank_backend_capstone.Sessions.Worlds.{replace-cases}
use flyrank_backend_capstone.Sessions.Exclusion.{
  IsOrderly, unlocked-IsOrderly, Writes, Step-stored, Step-IsOrderly,
}
use flyrank_backend_capstone.Sessions.Interleaved.{Step-IsLedger}
use flyrank_backend_capstone.Sessions.Races.{Settled, Settled-recorded, proceed-Settled}

-- A request that arrives is one of a stored tenant, and no event has the identifier that `uuid4` gives.
abbrev pub IsFresh : {w v : World} → Step w v → Type 0
IsFresh {w} (arrives i q at) = is_some (get_tenant q.tenant.id w.stored) ≡ true
IsFresh {w} (proceeds E n i free) = usage_event_with_id (E.uuid4 n) w.stored ≡ none

abbrev pub AllFresh : {w v : World} → Reaches w v → Type 0
AllFresh here = Unit
AllFresh (next step steps) = IsFresh step × AllFresh steps

abbrev AllSettled : World → Type 0
AllSettled w = (i : ℕ) → Settled w.stored (w.phases i)

replaced-Settled :
    (w : World) (i : ℕ) (p : Phase)
    → AllSettled w
    → Settled w.stored p
    → (j : ℕ) → Settled w.stored (replace w.phases i p j)
replaced-Settled w i p h new j = elim (replace-cases w.phases i p j) [
  | inl (_, e) ↦ subst (Settled w.stored) (sym e) new
  | inr (_, e) ↦ subst (Settled w.stored) (sym e) (h j)
]

grown-Settled :
    (w v : World) (p : Phase)
    → (v.stored ≡ w.stored) ⊎ Writes w v
    → Settled w.stored p
    → Settled v.stored p
grown-Settled w v p (inl same) h = subst (λ t. Settled t p) (sym same) h
grown-Settled w v p (inr (E, q, n, created_at, c, _, _, _, after)) h =
    let e = event_at E q.settings q.tenant q.key q.type (usage_of q) n in
    subst (λ t. Settled t p) (sym after)
      (Settled-recorded e (record_row e c created_at) w.stored p h)

Step-AllSettled :
    (w v : World)
    → IsOrderly w
    → IsLedger w.stored
    → (step : Step w v) → IsFresh step
    → AllSettled w
    → AllSettled v
Step-AllSettled w v orderly ledger (arrives i q at) known h j =
    replaced-Settled w i (asked q) h known j
Step-AllSettled w v orderly ledger (proceeds E n i free) fresh h j =
    grown-Settled w v (v.phases j) (Step-stored w v orderly (proceeds E n i free)) (
      replaced-Settled w i (proceed E w.stored n (w.phases i)).0 h
        (proceed-Settled E w.stored n ledger fresh (w.phases i) (h i)) j)

Reaches-AllSettled :
    {w v : World} (steps : Reaches w v)
    → AllFresh steps
    → IsOrderly w
    → IsLedger w.stored
    → AllSettled w
    → AllSettled v
Reaches-AllSettled here fresh orderly ledger h = h
Reaches-AllSettled {w} (next {u} step steps) fresh orderly ledger h =
    Reaches-AllSettled steps fresh.1 (Step-IsOrderly w u orderly step)
      (Step-IsLedger w u step ledger) (Step-AllSettled w u orderly ledger step fresh.0 h)

-- From a world in which every session is idle and whose events and stored responses are in step, where
-- the requests that arrive are of stored tenants and the identifiers from `uuid4` are new, in no
-- interleaving of any number of requests does one end in the 409 of a conflict.
pub interleaved-ne-conflict :
    {w v : World} (steps : Reaches w v) (i : ℕ) (o : Outcome MeteringResult)
    → AllFresh steps
    → ((j : ℕ) → w.phases j ≡ idle)
    → IsLedger w.stored
    → v.phases i ≡ ended o
    → o ≢ returned conflict
unfolding lock_of
interleaved-ne-conflict {w} {v} steps i o fresh quiet ledger ends = subst (Settled v.stored) ends (
    Reaches-AllSettled steps fresh (unlocked-IsOrderly w (λ j. ap lock_of (quiet j))) ledger
      (λ j. subst (Settled w.stored) (sym (quiet j)) tt) i)
