-- ===== src/App/Fresh.antt =====
-- What a 201 of `POST /v1/usage` comes from, and what the endpoint makes of a replay.
use flyrank_backend_capstone.Prelude.{
  ℕ, ◌≡◌, refl, sym, ap, String, some, Option-cases, inl, inr, true, false, arith, Bool, ◌&&◌, ◌==◌,
  if◌then◌else◌,
}
use flyrank_backend_capstone.Models.{Tenant, Body}
use flyrank_backend_capstone.Pricing.{
  Settings, TokenUsage, Construction, constructed, value_error, post_init,
}
use flyrank_backend_capstone.Schemas.{UsageEventCreate, is_accepted}
use flyrank_backend_capstone.Store.Schema.{Tables, get_tenant, is_some}
use flyrank_backend_capstone.Store.Database.{View, contract, opened, view_select}
use flyrank_backend_capstone.Store.Action.{
  Env, quota_exceeded, payment_required, Outcome, returned, raised, Run, ◌>>=◌, try_except, query,
  handle, continue, pure, raise,
}
use flyrank_backend_capstone.Metering.{MeteringResult, record_usage}
use flyrank_backend_capstone.Routers.{
  UsageReply, reply_of, refuse, or_value_error, token_usage_of, post_usage,
}
use flyrank_backend_capstone.Routers.Status.{accepted-constructed}

abbrev pub fresh_reply : Body → UsageReply
fresh_reply body = record { status_code = 201; body = body }

abbrev replied : Outcome MeteringResult → Run View → Outcome UsageReply × Run View
replied o r = let (o', r') = handle o refuse r in continue o' (λ result. pure (reply_of result)) r'

fresh_status :
    (replayed : Bool) (status_code : ℕ)
    → (if replayed && status_code == 201 then 200 else status_code) ≡ 201
    → (status_code ≡ 201) × (replayed ≡ false)
fresh_status true status_code h = ground arith
fresh_status false status_code h = (h, refl)

reply_of-fresh :
    (result : MeteringResult) (body : Body)
    → reply_of result ≡ fresh_reply body
    → result ≡ record { status_code = 201; body = body; replayed = false }
reply_of-fresh result body e =
    let (status, fresh) =
      fresh_status result.replayed result.status_code (ap (λ (x : UsageReply). x.status_code) e) in
    let same = ap (λ (x : UsageReply). x.body) e in rw (status, fresh, same) refl

returned-injective :
    {a b : UsageReply} → ◌≡◌ {A = Outcome UsageReply} (returned a) (returned b) → a ≡ b
returned-injective e = cc

-- Only a fresh 201 of the engine is answered with 201.
replied-fresh :
    (o : Outcome MeteringResult) (r : Run View) (body : Body)
    → (replied o r).0 ≡ returned (fresh_reply body)
    → (o ≡ returned (record { status_code = 201; body = body; replayed = false }))
      × ((replied o r).1 ≡ r)
unfolding refuse raise pure
replied-fresh (returned result) r body e =
    (ap (λ x. returned x) (reply_of-fresh result body (returned-injective e)), refl)
replied-fresh (raised (quota_exceeded x)) r body e = cc
replied-fresh (raised (payment_required x)) r body e = cc
replied-fresh (raised _) r body e = cc

module _ (E : Env) (settings : Settings) (key : String) (payload : UsageEventCreate) (t : Tables)
    (n : ℕ) where
  abbrev pub engine : Tenant → TokenUsage → Outcome MeteringResult × Run View
  engine tenant u =
      record_usage E contract settings tenant key payload.event_type (some u)
        (record { session = opened t; draws = n })

  abbrev pub endpoint : Outcome UsageReply × Run View
  endpoint = post_usage E contract settings key payload (record { session = opened t; draws = n })

  -- The endpoint after the tenant is found.
  abbrev found_endpoint : Tenant → Construction → Outcome UsageReply × Run View
  found_endpoint tenant c =
      (or_value_error c >>= λ u.
      try_except (record_usage E contract settings tenant key payload.event_type (some u)) refuse
      >>= λ result. pure (reply_of result))
        (record { session = opened t; draws = n })

  -- The engine has answered with a fresh 201 of that body, and nothing else is stored.
  abbrev pub FreshFrom : Body → Tables → Type 0
  FreshFrom body after =
      (tenant : Tenant) × (u : TokenUsage) × ((engine tenant u).0
        ≡ returned (record { status_code = 201; body = body; replayed = false }))
      × ((engine tenant u).1.session.stored ≡ after)

  found-fresh :
      (tenant : Tenant) (c : Construction) (body : Body)
      → (found_endpoint tenant c).0 ≡ returned (fresh_reply body)
      → FreshFrom body (found_endpoint tenant c).1.session.stored
  unfolding ◌>>=◌ try_except pure raise
  found-fresh tenant (constructed u) body e =
      let (o, r) = engine tenant u in
      let (first, same) = replied-fresh o r body e in
      (tenant, u, first, ap (λ (x : Run View). x.session.stored) (sym same))
  found-fresh tenant (value_error name) body e = cc

  pub post_usage-fresh :
      (body : Body)
      → endpoint.0 ≡ returned (fresh_reply body)
      → FreshFrom body endpoint.1.session.stored
  unfolding post_usage token_usage_of ◌>>=◌ try_except query view_select raise
  post_usage-fresh body = elim (Option-cases (get_tenant payload.tenant_id t)) [
    | inl miss ↦ rw miss (λ e. cc)
    | inr (tenant, found) ↦ rw found (
        found-fresh tenant
          (post_init payload.input_tokens payload.cached_input_tokens payload.output_tokens
            payload.reasoning_tokens)
          body)
  ]

  -- The answer where the engine replays a 201 for every tenant and usage.
  pub post_usage-replays :
      (body : Body)
      → is_accepted payload ≡ true
      → is_some (get_tenant payload.tenant_id t) ≡ true
      → ((tenant : Tenant) (u : TokenUsage)
          → ((engine tenant u).0
              ≡ returned (record { status_code = 201; body = body; replayed = true }))
            × ((engine tenant u).1.session.stored ≡ t))
      → (endpoint.0 ≡ returned (record { status_code = 200; body = body }))
        × (endpoint.1.session.stored ≡ t)
  unfolding post_usage token_usage_of ◌>>=◌ try_except query view_select pure
  post_usage-replays body accepted known replays =
      let (u, made, _) = accepted-constructed payload accepted in
      elim (Option-cases (get_tenant payload.tenant_id t)) [
        | inl miss ↦ cc (ap is_some miss, known)
        | inr (tenant, found) ↦
            let (again, same) = replays tenant u in rw (found, made) (rw again (refl, same))
      ]
