-- ===== src/Webhooks/Delivery.antt =====
-- Stripe delivers an event at least once; `StripeWebhookHandler` applies it at most once.
use flyrank_backend_capstone.Prelude.{
  ◌≡◌, refl, ◌∙◌, ap, sym, subst, List, [], ◌∷◌, String, true, ◌&&◌, same_text_refl, arith, inl,
  inr,
}
use flyrank_backend_capstone.Store.Schema.{
  Tables, fits_text, Change, new_tenant, new_subscription, new_usage_event, new_idempotency_record,
  new_processed_webhook, set_tenant, set_subscription, applied, apply_change, apply_changes,
  insert_tenant, insert_subscription, insert_usage_event, insert_idempotency_record,
  insert_processed_webhook, get_processed_webhook, is_some,
}
use flyrank_backend_capstone.Store.Database.{Database, View, IsLawful, opened}
use flyrank_backend_capstone.Store.Kept.{Applied-cases, and_then-applied, and_then-refused}
use flyrank_backend_capstone.Store.Action.{Env, Run, Outcome, returned}
use flyrank_backend_capstone.Webhooks.Events.{Event, Reply, duplicate_ignored}
use flyrank_backend_capstone.Webhooks.Defs.{handle_event}
use flyrank_backend_capstone.Webhooks.Atomic.{
  marked, Delivers, ignored, too_long, rolled_back, processed, handle_event-Delivers,
}

-- The event's id is stored.
abbrev pub IsProcessed : String → Tables → Type 0
IsProcessed id t = is_some (get_processed_webhook id t) ≡ true

-- No change takes a processed event back.
apply_change-IsProcessed :
    (id : String) (c : Change) (t u : Tables)
    → apply_change c t ≡ applied u
    → IsProcessed id t
    → IsProcessed id u
unfolding apply_change insert_tenant insert_subscription insert_usage_event
    insert_idempotency_record insert_processed_webhook
apply_change-IsProcessed id (new_tenant r) t u e h = ground arith
apply_change-IsProcessed id (new_subscription r) t u e h = ground arith
apply_change-IsProcessed id (new_usage_event r) t u e h = ground arith
apply_change-IsProcessed id (new_idempotency_record r) t u e h = ground arith
apply_change-IsProcessed id (new_processed_webhook r) t u e h = ground arith
apply_change-IsProcessed id (set_tenant r) t u e h = ground arith
apply_change-IsProcessed id (set_subscription r) t u e h = ground arith

apply_changes-IsProcessed :
    (id : String) (cs : List Change) (t u : Tables)
    → apply_changes cs t ≡ applied u
    → IsProcessed id t
    → IsProcessed id u
unfolding apply_changes
apply_changes-IsProcessed id [] t u e h = ground arith
apply_changes-IsProcessed id (c ∷ cs) t u e h = elim (Applied-cases (apply_change c t)) [
  | inl (v, p) ↦
      apply_changes-IsProcessed id cs v u (and_then-applied (λ x. apply_changes cs x) p e)
        (apply_change-IsProcessed id c t v p h)
  | inr (x, p) ↦ absurd (and_then-refused (λ x. apply_changes cs x) p e)
]

-- A delivery with a reply leaves the event's id stored.
returned-IsProcessed :
    {event : Event} {t : Tables} {o : Outcome Reply} {after : Tables} (reply : Reply)
    → Delivers event t o after
    → o ≡ returned reply
    → IsProcessed event.id after
returned-IsProcessed reply (ignored hit e same) h = rw same hit
returned-IsProcessed reply (too_long long e same) h = cc
returned-IsProcessed reply (rolled_back x miss e same) h = cc
returned-IsProcessed {event} {t} {o} {after} reply (processed w r changes miss same b e done) h =
    apply_changes-IsProcessed event.id changes (marked w t) after done
      (rw same (rw (same_text_refl event.id) refl))

-- A delivery of a stored event is ignored.
IsProcessed-ignored :
    {event : Event} {t : Tables} {o : Outcome Reply} {after : Tables}
    → Delivers event t o after
    → (fits_text 255 event.id && fits_text 100 event.type) ≡ true
    → IsProcessed event.id t
    → (o ≡ returned (duplicate_ignored event.id)) × (after ≡ t)
IsProcessed-ignored (too_long long e same) short h = cc
IsProcessed-ignored (ignored hit e same) short h = (e, same)
IsProcessed-ignored (rolled_back x miss e same) short h = ground arith
IsProcessed-ignored (processed w r changes miss same b e done) short h = ground arith

-- For every environment and lawful session opened on some tables, if a delivery of an event got a
-- reply, whatever the reply was, then every later delivery with the same event id, on any lawful
-- session opened on the tables that were stored, with any contents whose id and type fit their
-- columns, is answered as a duplicate and leaves the stored tables as they are.
pub handle_event_twice :
    (E later_env : Env) {D later_db : Database} {view : D.Session → View}
    {later_view : later_db.Session → View}
    → IsLawful D view
    → IsLawful later_db later_view
    → (event later_event : Event) (t stored : Tables) (r : Run D.Session)
      (later : Run later_db.Session) (reply : Reply)
    → view r.session ≡ opened t
    → (handle_event E D event r).0 ≡ returned reply
    → (view (handle_event E D event r).1.session).stored ≡ stored
    → later_event.id ≡ event.id
    → (fits_text 255 later_event.id && fits_text 100 later_event.type) ≡ true
    → later_view later.session ≡ opened stored
    → let (o, after) = handle_event later_env later_db later_event later in
      (o ≡ returned (duplicate_ignored event.id)) × ((later_view after.session).stored ≡ stored)
handle_event_twice E later_env lawful later_lawful event later_event t stored r later reply fresh
      first kept same short reopened =
    let known =
      subst (IsProcessed event.id) kept
        (returned-IsProcessed reply (handle_event-Delivers E lawful event t r fresh) first) in
    let (again, unchanged) =
      IsProcessed-ignored
        (handle_event-Delivers later_env later_lawful later_event stored later reopened) short
        (subst (λ id. IsProcessed id stored) (sym same) known) in
    (again ∙ ap (λ id. returned (duplicate_ignored id)) same, unchanged)
