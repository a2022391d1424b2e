-- ===== src/App/Ledger.antt =====
-- Whatever requests the application serves, the usage events and the stored responses stay in step.
use flyrank_backend_capstone.Prelude.{
  ℕ, ◌≡◌, refl, sym, subst, ap, ◌∙◌, String, some, Option-cases, inl, inr, List, [], ◌∷◌, Bool,
  true, false, ◌&&◌, if◌then◌else◌, none,
}
use flyrank_backend_capstone.Pricing.{Settings, Construction, constructed, value_error, post_init}
use flyrank_backend_capstone.Models.{Tenant}
use flyrank_backend_capstone.Schemas.{UsageEventCreate, is_accepted}
use flyrank_backend_capstone.Store.Schema.{Tables, get_tenant}
use flyrank_backend_capstone.Store.Database.{
  Database, View, IsLawful, contract, opened, view_select,
}
use flyrank_backend_capstone.Store.Action.{
  value_error, Env, Exception, Outcome, returned, raised, Run, Action, ◌>>=◌, try_except, query,
  raise, pure, handle, continue,
}
use flyrank_backend_capstone.Store.Simulation.{Simulates-raise, Simulates}
use flyrank_backend_capstone.Store.Preserves.{Preserves}
use flyrank_backend_capstone.Store.Bystander.{IsBystander, opened-IsBystander}
use flyrank_backend_capstone.Store.Request.{get_db, get_db-opened}
use flyrank_backend_capstone.Metering.{MeteringResult, record_usage}
use flyrank_backend_capstone.Metering.Ledger.{IsLedger, SameUsage-IsLedger}
use flyrank_backend_capstone.Metering.Steady.{record_usage-opened-IsLedger}
use flyrank_backend_capstone.Routers.{reply_of, refuse, or_value_error, token_usage_of, post_usage}
use flyrank_backend_capstone.Routers.Stripe.{Verified, stripe_webhook}
use flyrank_backend_capstone.Routers.Simulated.{
  Simulates-post_usage, Simulates-get_quota_status, Simulates-create_tenant, Simulates-read_tenant,
  Simulates-handle_verified,
}
use flyrank_backend_capstone.Routers.Bystanders.{
  get_quota_status-IsBystander, read_tenant-IsBystander, create_tenant-IsBystander,
  handle_verified-IsBystander,
}
use flyrank_backend_capstone.App.Defs.{
  Request, post_v1_usage, get_v1_tenant_quota, post_v1_tenants, get_v1_tenant,
  post_v1_webhooks_stripe, get_health, Response, answer, fits_header, serve, serve_all,
}

-- The `except` clauses of the endpoint only raise.
refuse-run : (x : Exception) (r : Run View) → (refuse x r).1 ≡ r
unfolding refuse raise
refuse-run (Exception.quota_exceeded x) r = refl
refuse-run (Exception.payment_required x) r = refl
refuse-run _ r = refl

replied-run :
    (o : Outcome MeteringResult) (r : Run View)
    → let (o', r') = handle o refuse r in (continue o' (λ result. pure (reply_of result)) r').1 ≡ r
unfolding pure
replied-run (returned result) r = refl
replied-run (raised x) r = continued (refuse x r).0 (refuse x r).1 (refuse-run x r)
  where
    continued :
        (o : Outcome MeteringResult) (r' : Run View)
        → r' ≡ r
        → (continue o (λ result. pure (reply_of result)) r').1 ≡ r
    continued (returned a) r' h = h
    continued (raised e) r' h = h

post_usage-opened-IsLedger :
    (E : Env) (settings : Settings) (key : String) (payload : UsageEventCreate) (t : Tables) (n : ℕ)
    → IsLedger t
    → IsLedger
        (post_usage E contract settings key payload
          (record { session = opened t; draws = n })).1.session.stored
unfolding post_usage token_usage_of ◌>>=◌ try_except query view_select raise pure
post_usage-opened-IsLedger E settings key payload t n ledger =
    elim (Option-cases (get_tenant payload.tenant_id t)) [
      | inl miss ↦ rw miss ledger
      | inr (tenant, found) ↦ rw found (
          usage tenant (
            post_init payload.input_tokens payload.cached_input_tokens payload.output_tokens
              payload.reasoning_tokens))
    ]
  where
    usage :
        (tenant : Tenant) (c : Construction)
        → IsLedger
            ((or_value_error c >>= λ u.
                try_except
                  (record_usage E contract settings tenant key payload.event_type (some u))
                  refuse
                >>= λ result. pure (reply_of result))
              (record { session = opened t; draws = n })).1.session.stored
    usage tenant (constructed u) =
        let (o, r) =
          record_usage E contract settings tenant key payload.event_type (some u)
            (record { session = opened t; draws = n }) in
        subst (λ (r' : Run View). IsLedger r'.session.stored) (sym (replied-run o r))
          (record_usage-opened-IsLedger E settings tenant key payload.event_type (some u) t n
            ledger)
    usage tenant (value_error name) = ledger

bystander-IsLedger :
    {A : Type 0} (m : Action View A) (t : Tables) (n : ℕ)
    → Preserves (IsBystander t) m
    → IsLedger t
    → IsLedger (m (record { session = opened t; draws = n })).1.session.stored
bystander-IsLedger m t n p h =
    SameUsage-IsLedger t _
      (p.at (record { session = opened t; draws = n }) (opened-IsBystander t)).stored h

-- A session that was opened on tables that are in step.
abbrev pub OpenedLedger : View → Type 0
OpenedLedger v = (t : Tables) × (v ≡ opened t) × IsLedger t

module _ {D : Database} {view : D.Session → View} (lawful : IsLawful D view) where
  -- A request over a session of `get_db`, from what its endpoint does over the contract.
  answer-OpenedLedger :
      {A : Type 0} (m : Action D.Session A) (n : Action View A) (r : Run D.Session)
      → Simulates view m n
      → ((t : Tables) (k : ℕ)
          → IsLedger t
          → IsLedger (n (record { session = opened t; draws = k })).1.session.stored)
      → OpenedLedger (view r.session)
      → OpenedLedger (view (get_db D m r).1.session)
  answer-OpenedLedger m n r same keeps (t, fresh, ledger) =
      let after = (n (record { session = opened t; draws = r.draws })).1.session.stored in
      let stored =
        ap (λ (p : Outcome _ × Run View). p.1.session.stored)
          (same.at r ∙ ap (λ (v : View). n (record { session = v; draws = r.draws })) fresh) in
      (after, (get_db-opened lawful m r).1 ∙ ap opened stored, keeps t r.draws ledger)

  OpenedLedger-if :
      (b : Bool) (p q : Response × Run D.Session)
      → OpenedLedger (view p.1.session)
      → OpenedLedger (view q.1.session)
      → OpenedLedger (view (if b then p else q).1.session)
  OpenedLedger-if true p q x y = x
  OpenedLedger-if false p q x y = y

  module _ (E : Env) (settings : Settings)
      (construct_event : String → String → String → Verified) where
    serve-OpenedLedger :
        (q : Request) (r : Run D.Session)
        → OpenedLedger (view r.session)
        → OpenedLedger (view (serve E D settings construct_event q r).1.session)
    unfolding serve answer stripe_webhook raise
    serve-OpenedLedger (post_v1_usage key payload) r h =
        OpenedLedger-if (fits_header key && is_accepted payload) _ _
          (answer-OpenedLedger _ _ r (Simulates-post_usage E lawful settings key payload)
            (post_usage-opened-IsLedger E settings key payload) h)
          h
    serve-OpenedLedger (get_v1_tenant_quota none) r h =
        answer-OpenedLedger _ _ r (Simulates-raise value_error) (λ t k ledger. ledger) h
    serve-OpenedLedger (get_v1_tenant_quota (some id)) r h =
        answer-OpenedLedger _ _ r (Simulates-get_quota_status lawful id)
          (λ t k. bystander-IsLedger _ t k (get_quota_status-IsBystander id)) h
    serve-OpenedLedger (post_v1_tenants payload) r h =
        answer-OpenedLedger _ _ r (Simulates-create_tenant E lawful payload)
          (λ t k. bystander-IsLedger _ t k (create_tenant-IsBystander E payload)) h
    serve-OpenedLedger (get_v1_tenant none) r h =
        answer-OpenedLedger _ _ r (Simulates-raise value_error) (λ t k ledger. ledger) h
    serve-OpenedLedger (get_v1_tenant (some id)) r h =
        answer-OpenedLedger _ _ r (Simulates-read_tenant lawful id)
          (λ t k. bystander-IsLedger _ t k (read_tenant-IsBystander id)) h
    serve-OpenedLedger (post_v1_webhooks_stripe body signature) r h =
        let v = construct_event body signature settings.stripe_webhook_secret in
        answer-OpenedLedger _ _ r (Simulates-handle_verified E lawful v)
          (λ t k. bystander-IsLedger _ t k (handle_verified-IsBystander E v)) h
    serve-OpenedLedger get_health r h = h

    -- From a session opened on tables whose events and stored responses are in step, whatever
    -- requests the application serves one after the other, to any endpoint, with any contents and
    -- signatures, and however they end: the session is again one opened on tables that are in step.
    -- No key ever has two events, each event has its stored 201, and each response its event.
    pub serve_all-OpenedLedger :
        (qs : List Request) (r : Run D.Session)
        → OpenedLedger (view r.session)
        → OpenedLedger (view (serve_all E D settings construct_event qs r).1.session)
    unfolding serve_all
    serve_all-OpenedLedger [] r h = h
    serve_all-OpenedLedger (q ∷ qs) r h =
        let (_, r') = serve E D settings construct_event q r in
        serve_all-OpenedLedger qs r' (serve-OpenedLedger q r h)
