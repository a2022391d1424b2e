-- ===== src/App/Defs.antt =====
-- What a client gets: the endpoint's reply, FastAPI's answer to an `HTTPException`, or the envelope of
-- one of the two exception handlers of app/main.py.
use Prim.Native.String.{count}
use flyrank_backend_capstone.Prelude.{
  ℕ, String, Option, none, Bool, ◌&&◌, leb, if◌then◌else◌, List, [], ◌∷◌,
}
use flyrank_backend_capstone.Models.{Body}
use flyrank_backend_capstone.Schemas.{
  ErrorDetail, UsageEventCreate, QuotaStatus, TenantCreate, TenantResponse, is_accepted,
}
use flyrank_backend_capstone.Pricing.{Settings}
use flyrank_backend_capstone.Store.Database.{Database}
use flyrank_backend_capstone.Store.Action.{
  Env, http_exception, value_error, Outcome, returned, raised, Run, Action, if_none, raise,
}
use flyrank_backend_capstone.Store.Request.{get_db}
use flyrank_backend_capstone.Webhooks.{Reply}
use flyrank_backend_capstone.Routers.{UsageReply, post_usage, get_quota_status}
use flyrank_backend_capstone.Routers.Tenants.{create_tenant, read_tenant}
use flyrank_backend_capstone.Routers.Stripe.{Verified, stripe_webhook}

-- The `code` of an envelope.
pub data EnvelopeCode : Type 0 where
  validation_error internal_error : EnvelopeCode

-- `{"error": {…}}` of the handlers; `{"detail": {…}}` is what FastAPI makes of an `HTTPException`.
pub data Content : Type 0 where
  usage_body : Body → Content
  quota_body : QuotaStatus → Content
  tenant_body : TenantResponse → Content
  webhook_body : Reply → Content
  health_body : String → Content
  detail : ErrorDetail → Content
  error : EnvelopeCode → Content

pub record Response : Type 0 where
  pub status_code : ℕ
  pub content : Content
  pub retry_after : Option ℕ

abbrev pub ok : ℕ → Content → Response
ok status_code content = record { status_code = status_code; content = content; retry_after = none }

abbrev pub validation_exception_handler : Response
validation_exception_handler = ok 422 (error validation_error)

abbrev pub unhandled_exception_handler : Response
unhandled_exception_handler = ok 500 (error internal_error)

-- The response to an outcome.
abbrev pub respond : {A : Type 0} → (A → Response) → Outcome A → Response
respond reply (returned a) = reply a
respond reply (raised (http_exception x)) = record {
  status_code = x.status_code;
  content = detail x.detail;
  retry_after = x.retry_after;
}
respond reply (raised e) = unhandled_exception_handler

-- A request that FastAPI has parsed; the paths are those of the routers. Their `tenant_id` has
-- no type, so FastAPI passes its text on: it is the UUID that the text stands for, or none for a
-- malformed one.
pub data Request : Type 0 where
  post_v1_usage : String → UsageEventCreate → Request
  get_v1_tenant_quota : Option ℕ → Request
  post_v1_tenants : TenantCreate → Request
  get_v1_tenant : Option ℕ → Request
  post_v1_webhooks_stripe : String → String → Request
  get_health : Request

-- A malformed id is refused by `uuid.UUID` when the endpoint's SELECT binds it.
abbrev pub with_tenant_id : {S A : Type 0} → Option ℕ → (ℕ → Action S A) → Action S A
with_tenant_id tenant_id endpoint = if_none tenant_id (raise value_error) endpoint

-- `Header(…, min_length=1, max_length=255)`
abbrev pub fits_header : String → Bool
fits_header key = leb 1 (count key) && leb (count key) 255

module _ (E : Env) (D : Database) (settings : Settings)
    (construct_event : String → String → String → Verified) where
  -- One request, over a session of `get_db`.
  unfoldable pub answer :
      {A : Type 0} → (A → Response) → Action D.Session A → Run D.Session → Response × Run D.Session
  unfolding get_db
  answer reply endpoint r = let (o, r') = get_db D endpoint r in (respond reply o, r')

  unfoldable pub serve : Request → Run D.Session → Response × Run D.Session
  unfolding answer
  serve (post_v1_usage key payload) r =
      if fits_header key && is_accepted payload
      then answer (λ (reply : UsageReply). ok reply.status_code (usage_body reply.body))
          (post_usage E D settings key payload) r
      else (validation_exception_handler, r)
  serve (get_v1_tenant_quota tenant_id) r =
      answer (λ status. ok 200 (quota_body status)) (with_tenant_id tenant_id (get_quota_status D))
        r
  serve (post_v1_tenants payload) r =
      answer (λ tenant. ok 201 (tenant_body tenant)) (create_tenant E D payload) r
  serve (get_v1_tenant tenant_id) r =
      answer (λ tenant. ok 200 (tenant_body tenant)) (with_tenant_id tenant_id (read_tenant D)) r
  serve (post_v1_webhooks_stripe raw_body stripe_signature) r =
      answer (λ reply. ok 200 (webhook_body reply))
        (stripe_webhook E D construct_event settings.stripe_webhook_secret raw_body
          stripe_signature)
        r
  serve get_health r = (ok 200 (health_body settings.app_name), r)

  -- The requests of a process, one after the other on a pooled connection.
  unfoldable pub serve_all : List Request → Run D.Session → List Response × Run D.Session
  serve_all [] r = ([], r)
  serve_all (q ∷ qs) r =
      let (response, r') = serve q r in
      let (responses, r'') = serve_all qs r' in (response ∷ responses, r'')
