-- ===== src/App/Usage.antt =====
-- `POST /v1/usage` answers a retried request with the response that it gave.
use flyrank_backend_capstone.Prelude.{
  ℕ, ◌≡◌, refl, sym, ap, ◌∙◌, String, some, inl, inr, true, false, arith, Bool, Bool-cases, ◌&&◌,
}
use flyrank_backend_capstone.Models.{Body}
use flyrank_backend_capstone.Pricing.{Settings}
use flyrank_backend_capstone.Schemas.{UsageEventCreate, is_accepted}
use flyrank_backend_capstone.Store.Schema.{Tables, get_tenant, is_some}
use flyrank_backend_capstone.Store.Database.{
  Database, View, IsLawful, contract, contract-IsLawful, opened,
}
use flyrank_backend_capstone.Store.Action.{Env, http_exception, Outcome, returned, raised, Run}
use flyrank_backend_capstone.Store.Request.{get_db-opened}
use flyrank_backend_capstone.Quota.Decision.{LoadsAll, EndsInRange}
use flyrank_backend_capstone.Metering.Replay.{record_usage_twice}
use flyrank_backend_capstone.Routers.{UsageReply, post_usage}
use flyrank_backend_capstone.Routers.Stripe.{Verified}
use flyrank_backend_capstone.Routers.Simulated.{Simulates-post_usage}
use flyrank_backend_capstone.App.Defs.{
  post_v1_usage, usage_body, Response, ok, respond, answer, fits_header, serve,
}
use flyrank_backend_capstone.App.Fresh.{fresh_reply, endpoint, post_usage-fresh, post_usage-replays}

both : (a b : Bool) {c : Bool} → (a && b) ≡ true → c ≡ true → (a && c) ≡ true
both true b h e = e
both false b h e = cc

abbrev usage_response : UsageReply → Response
usage_response reply = ok reply.status_code (usage_body reply.body)

responded-fresh :
    (o : Outcome UsageReply) (body : Body)
    → respond usage_response o ≡ ok 201 (usage_body body)
    → o ≡ returned (fresh_reply body)
responded-fresh (returned reply) body e = cc
responded-fresh (raised (http_exception x)) body e = cc
responded-fresh (raised _) body e = cc

module _ {D : Database} {view : D.Session → View} (lawful : IsLawful D view) (E : Env)
    (settings : Settings) (construct_event : String → String → String → Verified) (key : String)
    (payload : UsageEventCreate) (t : Tables) (r : Run D.Session)
    (fresh : view r.session ≡ opened t) where
  abbrev served : Response × Run D.Session
  served = serve E D settings construct_event (post_v1_usage key payload) r

  -- A request that is accepted, from what its endpoint does over the contract.
  served_usage :
      (fits_header key && is_accepted payload) ≡ true
      → let (o, after) = endpoint E settings key payload t r.draws in
        (served.0 ≡ respond usage_response o)
        × (view served.1.session ≡ opened after.session.stored)
  unfolding serve answer
  served_usage accepted =
      let (same, closed) = get_db-opened lawful (post_usage E D settings key payload) r in
      let runs =
        (Simulates-post_usage E lawful settings key payload).at r
        ∙ ap
            (λ (v : View).
              post_usage E contract settings key payload (record { session = v; draws = r.draws }))
            fresh in
      rw accepted (
        ap (respond usage_response) (same ∙ ap (λ (p : Outcome UsageReply × Run View). p.0) runs),
        closed ∙ ap (λ (p : Outcome UsageReply × Run View). opened p.1.session.stored) runs,
      )

  -- A 201 is the answer to such a request.
  served-accepted :
      (body : Body)
      → served.0 ≡ ok 201 (usage_body body)
      → (fits_header key && is_accepted payload) ≡ true
  unfolding serve
  served-accepted body = elim (Bool-cases (fits_header key && is_accepted payload)) [
    | inl accepted ↦ λ e. accepted
    | inr refused ↦ rw refused (λ e.
        let status : ◌≡◌ {A = ℕ} 422 201 = ap (λ (x : Response). x.status_code) e in
        absurd (omega (arith, status)))
  ]

-- If a request to `POST /v1/usage`, on a lawful session opened on tables whose periods `datetime` can
-- hold, was answered with a 201, then every later request with the same key, on any lawful session
-- opened on the tables that were stored, with any settings, secrets and clocks, and with any payload
-- that the schema accepts for any stored tenant, is answered with 200 and the same body, and the
-- stored tables are as they were.
pub serve_usage_twice :
    (E later_env : Env) {D later_db : Database} {view : D.Session → View}
    {later_view : later_db.Session → View}
    → IsLawful D view
    → IsLawful later_db later_view
    → (settings later_settings : Settings) (construct_event : String → String → String → Verified)
      (key : String) (payload later_payload : UsageEventCreate) (t stored : Tables)
      (r : Run D.Session) (later : Run later_db.Session) (body : Body)
    → LoadsAll E
    → EndsInRange t
    → view r.session ≡ opened t
    → (serve E D settings construct_event (post_v1_usage key payload) r).0
      ≡ ok 201 (usage_body body)
    → (view (serve E D settings construct_event (post_v1_usage key payload) r).1.session).stored
      ≡ stored
    → later_view later.session ≡ opened stored
    → is_accepted later_payload ≡ true
    → is_some (get_tenant later_payload.tenant_id stored) ≡ true
    → let (response, after) =
        serve later_env later_db later_settings construct_event
          (post_v1_usage key later_payload)
          later in
      (response ≡ ok 200 (usage_body body)) × ((later_view after.session).stored ≡ stored)
serve_usage_twice E later_env lawful later_lawful settings later_settings construct_event key
      payload later_payload t stored r later body loads range fresh first kept reopened accepted
      known =
    let passes =
      served-accepted lawful E settings construct_event key payload t r fresh body first in
    let (answered, left) =
      served_usage lawful E settings construct_event key payload t r fresh passes in
    let (tenant, u, engine_first, engine_kept) =
      post_usage-fresh E settings key payload t r.draws body
        (responded-fresh _ body (sym answered ∙ first)) in
    let (replayed, unchanged) =
      post_usage-replays later_env later_settings key later_payload stored later.draws body accepted
        known
        (λ later_tenant later_usage.
          record_usage_twice E later_env contract-IsLawful contract-IsLawful settings later_settings
            tenant later_tenant key payload.event_type later_payload.event_type (some u)
            (some later_usage) t stored (record { session = opened t; draws = r.draws })
            (record { session = opened stored; draws = later.draws }) body loads range refl
            engine_first (engine_kept ∙ sym (ap (λ (v : View). v.stored) left) ∙ kept) refl) in
    let (later_answered, later_left) =
      served_usage later_lawful later_env later_settings construct_event key later_payload stored
        later reopened (both (fits_header key) (is_accepted payload) passes accepted) in
    (
      later_answered ∙ ap (respond usage_response) replayed,
      ap (λ (v : View). v.stored) later_left ∙ unchanged,
    )
