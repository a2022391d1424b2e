-- ===== src/Service/Alone.antt =====
-- The two steps of a delivery that no other one gets between are `handle_event`.
use flyrank_backend_capstone.Prelude.{
  ℕ, ◌≡◌, ◌≢◌, ◌==◌, inl, inr, refl, sym, ap, ◌∙◌, some, true, false, ◌&&◌, arith, Option-cases,
  Bool-cases, Bool,
}
use flyrank_backend_capstone.Models.{ProcessedWebhook}
use flyrank_backend_capstone.Store.Schema.{
  Tables, fits_text, get_processed_webhook, apply_change, apply_changes, insert_processed_webhook,
  subscription_with_id,
}
use flyrank_backend_capstone.Store.Database.{
  Database, View, IsLawful, contract, opened, view_add, view_flush, view_rollback,
}
use flyrank_backend_capstone.Store.Action.{
  Env, Outcome, returned, raised, Run, ◌>>=◌, try_except, draw, add, flush, pure, rollback,
}
use flyrank_backend_capstone.Webhooks.{
  Event, Reply, already_processed, mark_processed_or_skip, handle_event,
}
use flyrank_backend_capstone.Webhooks.Simulated.{handle_event-opened}
use flyrank_backend_capstone.Sessions.{on_tables, lock_of}
use flyrank_backend_capstone.Service.Defs.{
  Delivery, received, answered, after_mark, deliver, holds, Service, replace_delivery, IsKeyFree,
  deliver_in, delivers, Serves, here, next,
}
use flyrank_backend_capstone.Service.Records.{received-Marks}

two_steps :
    (E : Env) (event : Event) (t : Tables) (n : ℕ)
    → let (d, r) = deliver E t n (received event) in
      let (d', r') = deliver E r.session.stored r.draws d in
      let (o, after) = handle_event E contract event (on_tables t n) in
      (d' ≡ answered event o) × (r'.session.stored ≡ after.session.stored)
unfolding deliver handle_event mark_processed_or_skip already_processed ◌>>=◌ try_except draw add
    flush pure rollback view_add view_flush view_rollback apply_changes apply_change
    insert_processed_webhook
two_steps E event t n = elim (Bool-cases (fits_text 255 event.id && fits_text 100 event.type)) [
  | inl fits ↦ elim (Option-cases (get_processed_webhook event.id t)) [
    | inl miss ↦ rw (fits, miss) (refl, refl)
    | inr (w, hit) ↦ rw (fits, hit) (refl, refl)
  ]
  | inr long ↦ rw long (refl, refl)
]

two_steps_at :
    (E : Env) (event : Event) (t : Tables) (n : ℕ) (d d₁ : Delivery)
    → d ≡ received event
    → d₁ ≡ (deliver E t n d).0
    → let (_, r) = deliver E t n d in
      let (d', r') = deliver E r.session.stored r.draws d₁ in
      let (o, after) = handle_event E contract event (on_tables t n) in
      (d' ≡ answered event o) × (r'.session.stored ≡ after.session.stored)
two_steps_at E event t n d d₁ at marks = rw marks (rw at (two_steps E event t n))

after_mark-ne_received :
    (event : Event) (w : ProcessedWebhook) (o : Outcome Bool) (e : Event)
    → after_mark event w o ≢ received e
after_mark-ne_received event w (returned true) e = λ h. cc
after_mark-ne_received event w (returned false) e = λ h. cc
after_mark-ne_received event w (raised x) e = λ h. cc

replace_delivery-same : (ds : ℕ → Delivery) (i : ℕ) (d : Delivery) → replace_delivery ds i d i ≡ d
replace_delivery-same ds i d = let same : (i == i) ≡ true = ground arith in rw same refl

replace_delivery-ne_received :
    (E : Env) (event : Event) (w : Service) (n i : ℕ) (x : Event)
    → w.deliveries i ≡ received event
    → (deliver_in E n i w).deliveries i ≢ received x
unfolding deliver
replace_delivery-ne_received E event w n i x at e = after_mark-ne_received event _ _ x (
    ap (λ d. (deliver E w.usage.stored n d).0) (sym at)
    ∙ sym (replace_delivery-same w.deliveries i _)
    ∙ e)

-- A delivery that has just been received, while no other transaction has flushed its id and no
-- request holds the lock of a subscription that `handle_event` changes, can reach its end with the
-- outcome and the stored tables of `handle_event` on any lawful session that is opened on the same
-- tables.
pub Serves-handle_event :
    (E : Env) {D : Database} {view : D.Session → View}
    → IsLawful D view
    → (event : Event) (w : Service) (i : ℕ) (r : Run D.Session)
    → view r.session ≡ opened w.usage.stored
    → w.deliveries i ≡ received event
    → ((j : ℕ) → holds (w.deliveries j) ≢ some event.id)
    → ((id j : ℕ)
        → lock_of (w.usage.phases j) ≡ some id
        → subscription_with_id id (view (handle_event E D event r).1.session).stored
          ≡ subscription_with_id id w.usage.stored)
    → let (o, after) = handle_event E D event r in
      (v : Service) × Serves w v
      × (v.deliveries i ≡ answered event o)
      × (v.usage.stored ≡ (view after.session).stored)
Serves-handle_event E {D = D} {view = view} lawful event w i r fresh at free unlocked =
    let runs = handle_event-opened lawful E event w.usage.stored r fresh in
    let n = r.draws in
    let u = deliver_in E n i w in
    let (d, r') = deliver E w.usage.stored n (w.deliveries i) in
    let marks : u.deliveries i ≡ d = replace_delivery-same w.deliveries i d in
    let (ends, same) =
      two_steps_at E event w.usage.stored n (w.deliveries i) (u.deliveries i) at marks in
    let v = deliver_in E r'.draws i u in
    let kept : u.usage.stored ≡ w.usage.stored =
      ap (λ x. (deliver E w.usage.stored n x).1.session.stored) at
      ∙ (received-Marks E w.usage.stored n event).1 in
    let stored : v.usage.stored ≡ (view (handle_event E D event r).1.session).stored =
      same ∙ sym (ap (λ (p : Outcome Reply × Run View). p.1.session.stored) runs) in
    let first : IsKeyFree w i =
      (λ x e j busy. let same_id : x.id ≡ event.id = cc in free j (busy ∙ ap some same_id)) in
    (
      v,
      next (delivers E n i first (λ id j busy. ap (subscription_with_id id) kept)) (
          next
            (delivers E r'.draws i
              (λ x e. absurd (replace_delivery-ne_received E event w n i x at e))
              (λ id j busy.
                ap (subscription_with_id id) stored
                ∙ unlocked id j busy
                ∙ sym (ap (subscription_with_id id) kept)))
            here),
      replace_delivery-same u.deliveries i _
          ∙ ends
          ∙ sym (ap (λ (p : Outcome Reply × Run View). answered event p.0) runs),
      stored,
    )
