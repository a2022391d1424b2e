-- ===== src/Routers/Stripe.antt =====
-- The endpoint `stripe_webhook` of app/routers/webhooks.py. `stripe.Webhook.construct_event` belongs to
-- Stripe's library: it is a parameter.
use flyrank_backend_capstone.Prelude.{String, none}
use flyrank_backend_capstone.Schemas.{ErrorCode, HttpException}
use flyrank_backend_capstone.Store.Database.{Database}
use flyrank_backend_capstone.Store.Action.{Env, http_exception, Action, raise}
use flyrank_backend_capstone.Webhooks.{Event, Reply, handle_event}
use flyrank_backend_capstone.Routers.Defs.{plain_detail}

-- What `construct_event` gives: the event, or one of the two exceptions that the endpoint handles.
pub data Verified : Type 0 where
  verified : Event → Verified
  value_error signature_verification_error : Verified

abbrev pub signature_invalid : HttpException
signature_invalid = record {
  status_code = 400;
  detail = plain_detail ErrorCode.webhook_signature_invalid;
  retry_after = none;
}

module _ (E : Env) (D : Database) where
  abbrev pub handle_verified : Verified → Action D.Session Reply
  handle_verified (verified event) = handle_event E D event
  handle_verified value_error = raise (http_exception signature_invalid)
  handle_verified signature_verification_error = raise (http_exception signature_invalid)

  -- `construct_event` takes the raw body, the header and the secret.
  unfoldable pub stripe_webhook :
      (construct_event : String → String → String → Verified)
      → String
      → String
      → String
      → Action D.Session Reply
  stripe_webhook construct_event secret raw_body stripe_signature =
      handle_verified (construct_event raw_body stripe_signature secret)
