-- ===== src/Routers/Status.antt =====
-- The status codes that `POST /v1/usage` answers with, against the contract that
-- app/routers/usage.py opens with.
use flyrank_backend_capstone.Prelude.{
  ℕ, ◌≡◌, ◌≢◌, refl, sym, subst, ◌∙◌, ap, String, true, none, some, arith, Option-cases,
  some-injective, inl, inr, Bool-cases, Bool, List, [], ◌∷◌, All, find,
}
use flyrank_backend_capstone.Prelude.Int.{ℤ, pos, negsuc}
use flyrank_backend_capstone.Models.{Tenant, EventType, Body}
use flyrank_backend_capstone.Schemas.{UsageEventCreate, is_accepted}
use flyrank_backend_capstone.Pricing.{
  TokenUsage, no_tokens, default_settings, constructed, post_init,
}
use flyrank_backend_capstone.Store.Schema.{
  Tables, fits_text, get_tenant, is_some, usage_event_with_id,
}
use flyrank_backend_capstone.Store.Database.{
  Database, View, IsLawful, contract, opened, view_select,
}
use flyrank_backend_capstone.Store.Action.{
  Env, Exception, QuotaExceeded, http_exception, Outcome, returned, raised, Run, ◌>>=◌, try_except,
  query, handle, continue, pure, raise,
}
use flyrank_backend_capstone.Quota.Decision.{LoadsAll, EndsInRange}
use flyrank_backend_capstone.Metering.{MeteringResult, conflict}
use flyrank_backend_capstone.Metering.Spec.{
  Meters, replayed, recorded, refused_by_check, conflicted, failed,
}
use flyrank_backend_capstone.Metering.Writing.{IsRefusal}
use flyrank_backend_capstone.Metering.Outcomes.{record_usage-contract}
use flyrank_backend_capstone.Metering.Ledger.{IsLedger, Backed, Meters-ne-conflict}
use flyrank_backend_capstone.Metering.Widths.{
  PlansFit, IsValidUsage, call, tokens, Meters-IsRefusal,
}
use flyrank_backend_capstone.Routers.Simulated.{Simulates-post_usage}
use flyrank_backend_capstone.Routers.Defs.{
  UsageReply, not_found, payment_required_response, quota_exceeded_response, reply_of, refuse,
  token_usage_of, post_usage,
}

-- The answers of the contract, 422 aside, which the payload's schema gives.
pub data IsPromised (o : Outcome UsageReply) : Type 0 where
  created : (body : Body) → o ≡ returned (record { status_code = 201; body = body }) → IsPromised o
  replayed_ok :
      (body : Body) → o ≡ returned (record { status_code = 200; body = body }) → IsPromised o
  unknown_tenant : o ≡ raised (http_exception not_found) → IsPromised o
  unpaid : o ≡ raised (http_exception payment_required_response) → IsPromised o
  over_limit :
      (x : QuotaExceeded) → o ≡ raised (http_exception (quota_exceeded_response x)) → IsPromised o

accepted :
    (id : ℕ) (type : EventType) (a b c d : ℤ)
    → is_accepted (record {
      tenant_id = id;
      event_type = type;
      input_tokens = a;
      cached_input_tokens = b;
      output_tokens = c;
      reasoning_tokens = d;
    })
      ≡ true
    → (u : TokenUsage) × (post_init a b c d ≡ constructed u) × IsValidUsage type u
unfolding is_accepted post_init
accepted id EventType.ai_token (pos a) (pos b) (pos c) (pos d) h = (_, refl, tokens _)
accepted id EventType.api_call (pos a) (pos b) (pos c) (pos d) h =
    let zero : (a ≡ 0) × (b ≡ 0) × (c ≡ 0) × (d ≡ 0) =
      (ground arith, ground arith, ground arith, ground arith) in
    (no_tokens, rw (zero.0, zero.1, zero.2, zero.3) refl, call)
accepted id type (negsuc a) b c d h = cc
accepted id type (pos a) (negsuc b) c d h = cc
accepted id type (pos a) (pos b) (negsuc c) d h = cc
accepted id type (pos a) (pos b) (pos c) (negsuc d) h = cc

-- What the schema accepts is constructed, and is a valid usage.
pub accepted-constructed :
    (p : UsageEventCreate)
    → is_accepted p ≡ true
    → (u : TokenUsage) × (post_init p.input_tokens p.cached_input_tokens p.output_tokens
          p.reasoning_tokens
        ≡ constructed u)
      × IsValidUsage p.event_type u
accepted-constructed p h =
    accepted p.tenant_id p.event_type p.input_tokens p.cached_input_tokens p.output_tokens
      p.reasoning_tokens h

refuse-IsPromised :
    (x : Exception) (r : Run View)
    → IsRefusal x
    → let (o, r') = refuse x r in
      let (o', _) = continue o (λ result. pure (reply_of result)) r' in IsPromised o'
unfolding refuse raise pure
refuse-IsPromised x r (inl (y, e)) = rw e (over_limit y refl)
refuse-IsPromised x r (inr (y, e)) = rw e (unpaid refl)

-- A row that a search finds has what all rows have.
All-find :
    {A : Type 0} (P : A → Type 0) (p : A → Bool) (xs : List A) (a : A)
    → All P xs
    → find p xs ≡ some a
    → P a
All-find P p [] a h e = cc
All-find P p (x ∷ xs) a h e = elim (Bool-cases (p x)) [
  | inl q ↦ subst P (some-injective (sym (rw q refl) ∙ e)) h.0
  | inr q ↦ All-find P p xs a h.1 (sym (rw q refl) ∙ e)
]

find-passes : {A : Type 0} (p : A → Bool) (xs : List A) (a : A) → find p xs ≡ some a → p a ≡ true
find-passes p [] a e = cc
find-passes p (x ∷ xs) a e = elim (Bool-cases (p x)) [
  | inl q ↦ subst (λ y. p y ≡ true) (some-injective (sym (rw q refl) ∙ e)) q
  | inr q ↦ find-passes p xs a (sym (rw q refl) ∙ e)
]

get_tenant-known :
    (id : ℕ) (t : Tables) (tenant : Tenant)
    → get_tenant id t ≡ some tenant
    → is_some (get_tenant tenant.id t) ≡ true
get_tenant-known id t tenant found =
    let same : tenant.id ≡ id = ground (arith, find-passes _ t.tenants tenant found) in
    rw (same, found) refl

returned-injective :
    {a b : MeteringResult} → ◌≡◌ {A = Outcome MeteringResult} (returned a) (returned b) → a ≡ b
returned-injective e = cc

module _ {E : Env} {tenant : Tenant} {key : String} {type : EventType} {u : TokenUsage} {now : ℕ}
    {t : Tables} where
  Meters-reply :
      {o : Outcome MeteringResult} {after : Tables} (result : MeteringResult)
      → Meters E default_settings tenant key type u now t o after
      → IsLedger t
      → o ≢ returned conflict
      → o ≡ returned result
      → IsPromised (returned (reply_of result))
  Meters-reply result (replayed rec hit e _) ledger other h =
      let (_, _, (_, status, _)) =
        All-find (Backed t) _ t.idempotency_records rec ledger.backed hit in
      rw⁻¹ (returned-injective (sym e ∙ h)) (replayed_ok rec.response_body (rw status refl))
  Meters-reply result (recorded c n created_at _ _ _ e _) ledger other h =
      rw⁻¹ (returned-injective (sym e ∙ h)) (created _ refl)
  Meters-reply result (refused_by_check x _ _ e _) ledger other h = cc
  Meters-reply result (conflicted c n _ _ _ e _) ledger other h = absurd (other e)
  Meters-reply result (failed c n _ _ _ e _) ledger other h = cc

  Meters-IsPromised :
      (o : Outcome MeteringResult) (after : Run View)
      → Meters E default_settings tenant key type u now t o after.session.stored
      → IsValidUsage type u
      → PlansFit t
      → fits_text 255 key ≡ true
      → IsLedger t
      → is_some (get_tenant tenant.id t) ≡ true
      → ((n : ℕ) → usage_event_with_id (E.uuid4 n) t ≡ none)
      → let (o1, r1) = handle o refuse after in
        let (o2, r2) = continue o1 (λ result. pure (reply_of result)) r1 in IsPromised o2
  unfolding pure
  Meters-IsPromised (raised x) after m valid fit short ledger known fresh =
      refuse-IsPromised x after (Meters-IsRefusal x m valid fit short refl)
  Meters-IsPromised (returned result) after m valid fit short ledger known fresh =
      Meters-reply result m ledger (Meters-ne-conflict m ledger known fresh) refl

module _ (E : Env) (key : String) (payload : UsageEventCreate) (t : Tables) (loads : LoadsAll E)
    (range : EndsInRange t) (valid : is_accepted payload ≡ true) (fit : PlansFit t)
    (short : fits_text 255 key ≡ true) (ledger : IsLedger t)
    (fresh : (n : ℕ) → usage_event_with_id (E.uuid4 n) t ≡ none) where
  post_usage-contract :
      (n : ℕ)
      → IsPromised
          (post_usage E contract default_settings key payload
            (record { session = opened t; draws = n })).0
  unfolding post_usage token_usage_of ◌>>=◌ try_except query view_select raise
  post_usage-contract n =
      let (u, made, usage) = accepted-constructed payload valid in
      elim (Option-cases (get_tenant payload.tenant_id t)) [
        | inl miss ↦ rw miss (unknown_tenant refl)
        | inr (tenant, found) ↦
            rw (found, made)
              (Meters-IsPromised _ _
                (record_usage-contract E default_settings tenant key payload.event_type (some u) t
                  loads range n)
                usage fit short ledger (get_tenant-known payload.tenant_id t tenant found) fresh)
      ]

-- With the default rates, on any lawful session opened on tables that are in step, whose plans'
-- limits fit their column and whose periods `datetime` can hold, and with identifiers from `uuid4`
-- that no event has yet: every payload that the schema accepts, with any key of 255 characters at
-- most, is answered with a
-- fresh 201, the 200 of a replay, the 404 of an unknown tenant, a 402, or a 429 whose Retry-After
-- is that of its detail. No other exception reaches the client, and no 409.
pub post_usage-IsPromised :
    (E : Env) {D : Database} {view : D.Session → View}
    → IsLawful D view
    → (key : String) (payload : UsageEventCreate) (t : Tables) (r : Run D.Session) → LoadsAll E
    → EndsInRange t
    → view r.session ≡ opened t
    → is_accepted payload ≡ true
    → PlansFit t
    → fits_text 255 key ≡ true
    → IsLedger t
    → ((n : ℕ) → usage_event_with_id (E.uuid4 n) t ≡ none)
    → IsPromised (post_usage E D default_settings key payload r).0
post_usage-IsPromised E lawful key payload t r loads range opens valid fit short ledger fresh =
    subst IsPromised
      (sym (
        ap (λ (p : Outcome UsageReply × Run View). p.0)
          ((Simulates-post_usage E lawful default_settings key payload).at r)
        ∙ ap
            (λ (v : View).
              (post_usage E contract default_settings key payload
                (record { session = v; draws = r.draws })).0)
            opens))
      (post_usage-contract E key payload t loads range valid fit short ledger fresh r.draws)
