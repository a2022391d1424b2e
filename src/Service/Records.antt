-- ===== src/Service/Records.antt =====
-- What one step of a delivery does to the committed tables.
use flyrank_backend_capstone.Prelude.{
  ℕ, ◌≡◌, ◌⊎◌, inl, inr, refl, none, true, ◌&&◌, Option-cases, Bool-cases, ap,
}
use flyrank_backend_capstone.Models.{ProcessedWebhook}
use flyrank_backend_capstone.Store.Schema.{
  Tables, fits_text, get_processed_webhook, is_some, apply_change, apply_changes,
  insert_processed_webhook,
}
use flyrank_backend_capstone.Store.Database.{contract, view_add, view_flush, view_rollback}
use flyrank_backend_capstone.Store.Action.{
  Env, Exception, returned, raised, ◌>>=◌, try_except, draw, add, flush, pure, rollback,
}
use flyrank_backend_capstone.Webhooks.{
  Event, Reply, duplicate_ignored, already_processed, mark_processed_or_skip,
}
use flyrank_backend_capstone.Webhooks.Atomic.{
  stored, rolled_back, marked, begun, begun-IsUncommitted, apply_event-Ends,
}
use flyrank_backend_capstone.Webhooks.Handled.{
  SameRecords, apply_changes-SameRecords, IsHandling, opened-IsHandling, handling,
}
use flyrank_backend_capstone.Store.Preserves.{Preserves}
use flyrank_backend_capstone.Schemas.{TenantCreate}
use flyrank_backend_capstone.Routers.Tenants.{create_tenant}
use flyrank_backend_capstone.Sessions.{on_tables}
use flyrank_backend_capstone.Service.Defs.{Delivery, received, flushed, answered, deliver}

-- How `_mark_processed_or_skip` ends on the committed tables `t`, which it leaves as they are: the
-- id's row is flushed, as no committed row has it; or one has; or the row is refused.
pub data Marks (event : Event) (t : Tables) (d : Delivery) : Type 0 where
  new :
      (w : ProcessedWebhook)
      → d ≡ flushed event w
      → w.event_id ≡ event.id
      → get_processed_webhook event.id t ≡ none
      → Marks event t d
  known :
      d ≡ answered event (returned (duplicate_ignored event.id))
      → is_some (get_processed_webhook event.id t) ≡ true
      → Marks event t d
  failed : (x : Exception) → d ≡ answered event (raised x) → Marks event t d

module _ (E : Env) (t : Tables) (n : ℕ) (event : Event) where
  pub received-Marks :
      let (d, r) = deliver E t n (received event) in Marks event t d × (r.session.stored ≡ t)
  unfolding deliver mark_processed_or_skip already_processed ◌>>=◌ try_except draw add flush pure
      rollback view_add view_flush view_rollback apply_changes apply_change insert_processed_webhook
  received-Marks = elim (Bool-cases (fits_text 255 event.id && fits_text 100 event.type)) [
    | inl fits ↦ elim (Option-cases (get_processed_webhook event.id t)) [
      | inl miss ↦ rw (fits, miss) (new _ refl refl miss, refl)
      | inr (w, hit) ↦ rw (fits, hit) (known refl (rw hit refl), refl)
    ]
    | inr long ↦ rw long (failed _ refl, refl)
  ]

  -- A handler rolls back, or commits the id's row with its changes.
  pub flushed-cases :
      (w : ProcessedWebhook)
      → let (d, r) = deliver E t n (flushed event w) in
        ((x : Exception) × (d ≡ answered event (raised x)) × (r.session.stored ≡ t))
        ⊎ ((reply : Reply) × (d ≡ answered event (returned reply))
            × SameRecords (marked w t) r.session.stored)
  unfolding deliver
  flushed-cases w =
      elim (apply_event-Ends E event (begun t (marked w t) n)
        (begun-IsUncommitted t (marked w t) n)) [
          | rolled_back x e same ↦ inl (x, ap (λ o. answered event o) e, same)
          | stored reply changes b e done ↦ inr (
            reply,
            ap (λ o. answered event o) e,
            apply_changes-SameRecords changes (marked w t) _ b done,
          )
        ]

create_tenant-IsHandling :
    {t : Tables} (E : Env) (payload : TenantCreate)
    → Preserves (IsHandling t) (create_tenant E contract payload)
unfolding create_tenant
create_tenant-IsHandling E payload = search handling depth 40

-- The creation of a tenant.
pub create_tenant-SameRecords :
    (E : Env) (t : Tables) (n : ℕ) (payload : TenantCreate)
    → SameRecords t (create_tenant E contract payload (on_tables t n)).1.session.stored
create_tenant-SameRecords E t n payload =
    ((create_tenant-IsHandling E payload).at (on_tables t n) (opened-IsHandling t)).stored
