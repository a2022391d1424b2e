-- ===== src/App/Webhooks.antt =====
-- `POST /v1/webhooks/stripe` from the raw body to the response.
use flyrank_backend_capstone.Prelude.{◌≡◌, ◌≢◌, refl, sym, ap, ◌∙◌, String, none, true, ◌&&◌}
use flyrank_backend_capstone.Pricing.{Settings}
use flyrank_backend_capstone.Store.Schema.{Tables, fits_text}
use flyrank_backend_capstone.Store.Database.{Database, View, IsLawful, opened}
use flyrank_backend_capstone.Store.Action.{
  Env, http_exception, Outcome, returned, raised, Run, raise,
}
use flyrank_backend_capstone.Store.Request.{get_db-opened}
use flyrank_backend_capstone.Webhooks.{Event, Reply, duplicate_ignored, handle_event}
use flyrank_backend_capstone.Webhooks.Delivery.{handle_event_twice}
use flyrank_backend_capstone.Routers.Stripe.{
  Verified, verified, signature_invalid, handle_verified, stripe_webhook,
}
use flyrank_backend_capstone.App.Defs.{
  post_v1_webhooks_stripe, webhook_body, detail, Response, ok, respond, answer, serve,
}

abbrev pub webhook_response : Reply → Response
webhook_response reply = ok 200 (webhook_body reply)

-- What `construct_event` does not verify.
abbrev pub IsForged : Verified → Type 0
IsForged v = (event : Event) → v ≢ verified event

module _ {D : Database} {view : D.Session → View} (lawful : IsLawful D view) (E : Env) where
  forged :
      (v : Verified) (r : Run D.Session)
      → IsForged v
      → handle_verified E D v r ≡ (raised (http_exception signature_invalid), r)
  unfolding raise
  forged (verified event) r h = absurd (h event refl)
  forged Verified.value_error r h = refl
  forged Verified.signature_verification_error r h = refl

  -- A request whose body, signature and secret `construct_event` does not verify is answered with
  -- the 400 for an invalid signature, whatever the body says, and nothing is stored.
  pub serve_webhook_forged :
      (settings : Settings) (construct_event : String → String → String → Verified)
      (body signature : String) (t : Tables) (r : Run D.Session)
      → view r.session ≡ opened t
      → IsForged (construct_event body signature settings.stripe_webhook_secret)
      → let (response, after) =
          serve E D settings construct_event (post_v1_webhooks_stripe body signature) r in
        (response ≡ record {
          status_code = 400;
          content = detail signature_invalid.detail;
          retry_after = none;
        })
        × (view after.session ≡ opened t)
  unfolding serve answer stripe_webhook
  serve_webhook_forged settings construct_event body signature t r fresh h =
      let endpoint =
        handle_verified E D (construct_event body signature settings.stripe_webhook_secret) in
      let (same, closed) = get_db-opened lawful endpoint r in
      let refused = forged (construct_event body signature settings.stripe_webhook_secret) r h in
      (
        ap (respond webhook_response)
            (same ∙ ap (λ (p : Outcome Reply × Run D.Session). p.0) refused),
        closed
            ∙ ap (λ (p : Outcome Reply × Run D.Session). opened (view p.1.session).stored) refused
            ∙ ap (λ (v : View). opened v.stored) fresh,
      )

  -- The delivery of a verified event over a session of `get_db`.
  served_event :
      (settings : Settings) (construct_event : String → String → String → Verified)
      (body signature : String) (event : Event) (t : Tables) (r : Run D.Session)
      → view r.session ≡ opened t
      → construct_event body signature settings.stripe_webhook_secret ≡ verified event
      → let (response, after) =
          serve E D settings construct_event (post_v1_webhooks_stripe body signature) r in
        (response ≡ respond webhook_response (handle_event E D event r).0)
        × (view after.session ≡ opened (view (handle_event E D event r).1.session).stored)
  unfolding serve answer stripe_webhook
  served_event settings construct_event body signature event t r fresh known =
      let (same, closed) = get_db-opened lawful (handle_event E D event) r in
      rw known (ap (respond webhook_response) same, closed)

-- Only a returned reply is answered with it.
responded-returned :
    (o : Outcome Reply) (reply : Reply)
    → respond webhook_response o ≡ webhook_response reply
    → o ≡ returned reply
responded-returned (returned a) reply e = cc
responded-returned (raised (http_exception x)) reply e = cc
responded-returned (raised _) reply e = cc

-- If a verified delivery was answered with a reply, then every later delivery whose body and signature
-- are verified as an event of the same id, which with its type fits their columns, on any lawful session opened on the tables that were
-- stored, with any secrets and clocks, is answered with 200 and the reply for a duplicate, and the
-- stored tables are as they were.
pub serve_webhook_twice :
    (E later_env : Env) {D later_db : Database} {view : D.Session → View}
    {later_view : later_db.Session → View}
    → IsLawful D view
    → IsLawful later_db later_view
    → (settings later_settings : Settings) (construct_event : String → String → String → Verified)
      (body signature later_body later_signature : String) (event later_event : Event)
      (t stored : Tables) (r : Run D.Session) (later : Run later_db.Session) (reply : Reply)
    → view r.session ≡ opened t
    → construct_event body signature settings.stripe_webhook_secret ≡ verified event
    → construct_event later_body later_signature later_settings.stripe_webhook_secret
      ≡ verified later_event
    → later_event.id ≡ event.id
    → (fits_text 255 later_event.id && fits_text 100 later_event.type) ≡ true
    → (serve E D settings construct_event (post_v1_webhooks_stripe body signature) r).0
      ≡ webhook_response reply
    → (view
        (serve E D settings construct_event
          (post_v1_webhooks_stripe body signature)
          r).1.session).stored
      ≡ stored
    → later_view later.session ≡ opened stored
    → let (response, after) =
        serve later_env later_db later_settings construct_event
          (post_v1_webhooks_stripe later_body later_signature)
          later in
      (response ≡ webhook_response (duplicate_ignored event.id))
      × ((later_view after.session).stored ≡ stored)
serve_webhook_twice E later_env {D} {later_db} {view} {later_view} lawful later_lawful settings
      later_settings construct_event body signature later_body later_signature event later_event t
      stored r later reply fresh known later_known same short first kept reopened =
    let (answered, left) =
      served_event lawful E settings construct_event body signature event t r fresh known in
    let (later_answered, later_left) =
      served_event later_lawful later_env later_settings construct_event later_body later_signature
        later_event stored later reopened later_known in
    let (again, unchanged) =
      handle_event_twice E later_env lawful later_lawful event later_event t stored r later reply
        fresh (responded-returned (handle_event E D event r).0 reply (sym answered ∙ first))
        (sym (ap (λ (v : View). v.stored) left) ∙ kept) same short reopened in
    (
      later_answered ∙ ap (respond webhook_response) again,
      ap (λ (v : View). v.stored) later_left ∙ unchanged,
    )
