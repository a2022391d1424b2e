-- ===== src/Webhooks/Atomic.antt =====
-- One delivery of an event to `handle_event` is all or nothing.
use flyrank_backend_capstone.Prelude.{
  ℕ, suc, ◌≡◌, refl, sym, subst, List, [], ◌∷◌, All, none, true, false, ◌&&◌, Option-cases,
  Bool-cases, inl, inr,
}
use flyrank_backend_capstone.Models.{ProcessedWebhook}
use flyrank_backend_capstone.Store.Schema.{
  Tables, Change, Applied, applied, refused, apply_change, apply_changes, insert_processed_webhook,
  get_processed_webhook, is_some, fits_text, data_error,
}
use flyrank_backend_capstone.Store.Database.{
  Database, View, IsLawful, contract, committed, opened, view_add, view_commit, view_flush,
  view_rollback,
}
use flyrank_backend_capstone.Store.Action.{
  Env, Exception, Action, Run, Outcome, returned, raised, pure, draw, ◌>>=◌, add, commit, continue,
  db_error, raise_if_some, try_except, flush, rollback,
}
use flyrank_backend_capstone.Webhooks.Events.{Event, Reply, duplicate_ignored}
use flyrank_backend_capstone.Webhooks.Defs.{
  already_processed, mark_processed_or_skip, dispatch, apply_event, handle_event,
}
use flyrank_backend_capstone.Webhooks.Simulated.{handle_event-opened}
use flyrank_backend_capstone.Webhooks.Uncommitted.{
  IsHandled, IsUncommitted, Keeps, AllKeep, Keeps-dispatch,
}

-- How the rest of a delivery ends that sees `u` in a transaction begun on `t`: an exception leaves
-- `t` stored, and a reply comes with `u` and some changes of tenants and subscriptions stored.
pub data Ends (t u : Tables) (o : Outcome Reply) (after : Tables) : Type 0 where
  rolled_back : (x : Exception) → o ≡ raised x → after ≡ t → Ends t u o after
  stored :
      (reply : Reply) (changes : List Change)
      → All IsHandled changes
      → o ≡ returned reply
      → apply_changes changes u ≡ applied after
      → Ends t u o after

module _ {t u : Tables} where
  committed-Ends :
      (reply : Reply) (changes : List Change) (a : Applied) (v : View) (n : ℕ)
      → All IsHandled changes
      → apply_changes changes u ≡ a
      → v.stored ≡ t
      → let (x, s) = committed a v in
        let (o, r) = raise_if_some x tt (record { session = s; draws = n }) in
        let (o', r') = continue o (λ _. pure reply) r in Ends t u o' r'.session.stored
  unfolding pure
  committed-Ends reply changes (applied w) v n b e h = stored reply changes b refl e
  committed-Ends reply changes (refused x) v n b e h = rolled_back (db_error x) refl h

  -- The commit that ends a delivery.
  commit-Ends :
      (reply : Reply) (r : Run View)
      → IsUncommitted t u r.session
      → let (o, after) = (commit contract >>= λ _. pure reply) r in Ends t u o after.session.stored
  unfolding commit ◌>>=◌ view_commit
  commit-Ends reply r h =
      rw (h.failed, h.visible)
        (committed-Ends reply r.session.pending (apply_changes r.session.pending u) _ r.draws
          h.pending refl h.stored)

  handled-Ends :
      (handler : Action View Reply) (r : Run View)
      → Keeps t u handler
      → IsUncommitted t u r.session
      → let (o, after) = (handler >>= λ result. commit contract >>= λ _. pure result) r in
        Ends t u o after.session.stored
  unfolding ◌>>=◌
  handled-Ends handler r k h = let (o, r') = handler r in after_handler o r' (k.at r h)
    where
      after_handler :
          (o : Outcome Reply) (r' : Run View)
          → IsUncommitted t u r'.session
          → let (o', after) = continue o (λ result. commit contract >>= λ _. pure result) r' in
            Ends t u o' after.session.stored
      after_handler (returned reply) r' h' = commit-Ends reply r' h'
      after_handler (raised x) r' h' = rolled_back x refl h'.stored

  pub apply_event-Ends :
      (E : Env) (event : Event) (r : Run View)
      → IsUncommitted t u r.session
      → let (o, after) = apply_event E contract event r in Ends t u o after.session.stored
  unfolding apply_event AllKeep
  apply_event-Ends E event r h = elim (Option-cases (dispatch E contract event)) [
    | inl p ↦ rw p (commit-Ends _ r h)
    | inr (handler, p) ↦ rw p (
        handled-Ends handler r (subst (AllKeep (IsUncommitted t u)) p (Keeps-dispatch E t u event))
          h)
  ]

-- The transaction that has flushed only what `u` shows.
abbrev pub begun : Tables → Tables → ℕ → Run View
begun t u n = record {
  session = record { stored = t; visible = u; pending = []; failed = false };
  draws = n;
}

pub begun-IsUncommitted : (t u : Tables) (n : ℕ) → IsUncommitted t u (begun t u n).session
begun-IsUncommitted t u n = record { stored = refl; visible = refl; failed = refl; pending = tt }

-- The tables with the event marked as processed.
abbrev pub marked : ProcessedWebhook → Tables → Tables
marked w t = record t { processed_webhooks = w ∷ t.processed_webhooks }

-- How a delivery ends on the tables `t`: the outcome `o`, and the tables stored `after` it.
pub data Delivers (event : Event) (t : Tables) (o : Outcome Reply) (after : Tables) : Type 0 where
  ignored :
      is_some (get_processed_webhook event.id t) ≡ true
      → o ≡ returned (duplicate_ignored event.id)
      → after ≡ t
      → Delivers event t o after
  too_long :
      (fits_text 255 event.id && fits_text 100 event.type) ≡ false
      → o ≡ raised (db_error data_error)
      → after ≡ t
      → Delivers event t o after
  rolled_back :
      (x : Exception)
      → get_processed_webhook event.id t ≡ none
      → o ≡ raised x
      → after ≡ t
      → Delivers event t o after
  processed :
      (w : ProcessedWebhook) (reply : Reply) (changes : List Change)
      → get_processed_webhook event.id t ≡ none
      → w.event_id ≡ event.id
      → All IsHandled changes
      → o ≡ returned reply
      → apply_changes changes (marked w t) ≡ applied after
      → Delivers event t o after

module _ (E : Env) (event : Event) (t : Tables) (n : ℕ) where
  abbrev result : Outcome Reply × Run View
  result = handle_event E contract event (record { session = opened t; draws = n })

  Ends-Delivers :
      (w : ProcessedWebhook)
      → get_processed_webhook event.id t ≡ none
      → w.event_id ≡ event.id
      → {o : Outcome Reply} {after : Tables} → Ends t (marked w t) o after
      → Delivers event t o after
  Ends-Delivers w miss same (rolled_back x e h) = rolled_back x miss e h
  Ends-Delivers w miss same (stored reply changes b e h) = processed w reply changes miss same b e h

  handle_event-contract : Delivers event t result.0 result.1.session.stored
  unfolding handle_event mark_processed_or_skip already_processed ◌>>=◌ try_except draw add flush
      pure rollback view_add view_flush view_rollback apply_changes apply_change
      insert_processed_webhook
  handle_event-contract = elim (Bool-cases (fits_text 255 event.id && fits_text 100 event.type)) [
    | inl fits ↦ elim (Option-cases (get_processed_webhook event.id t)) [
      | inl miss ↦
          rw (fits, miss)
            (Ends-Delivers _ miss refl
              (apply_event-Ends E event _ (begun-IsUncommitted t _ (suc n))))
      | inr (w, hit) ↦ rw (fits, hit) (ignored (rw hit refl) refl refl)
    ]
    | inr long ↦ rw long (too_long long refl refl)
  ]

-- For every environment and lawful session that has just been opened on some tables, a delivery
-- ends in one of four ways: it is ignored, as the event's id is stored already, and nothing
-- changes; the event's id or type does not fit its column, the delivery raises the database's
-- error, and nothing is stored; the id is new, the delivery raises an exception, and nothing is stored; or the id is
-- new, the delivery replies, and the id is stored together with the handler's changes, which are
-- changes of tenants and subscriptions alone, in one commit.
pub handle_event-Delivers :
    (E : Env) {D : Database} {view : D.Session → View}
    → IsLawful D view
    → (event : Event) (t : Tables) (r : Run D.Session) → view r.session ≡ opened t
    → let (o, after) = handle_event E D event r in Delivers event t o (view after.session).stored
handle_event-Delivers E lawful event t r fresh =
    subst (λ (p : Outcome Reply × Run View). Delivers event t p.0 p.1.session.stored)
      (sym (handle_event-opened lawful E event t r fresh)) (handle_event-contract E event t r.draws)
