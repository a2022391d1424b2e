-- ===== src/Sessions/Exclusion.antt =====
-- The row lock: two sessions never hold the same one, and what a session has checked still holds when
-- it writes.

use mathlib.Core.Path.{subst₂}
use mathlib.Core.Option.{some-injective}
use flyrank_backend_capstone.Prelude.{
  ℕ, ◌≡◌, ◌≢◌, ◌⊎◌, inl, inr, arith, refl, sym, ◌∙◌, subst, ap, some, none,
}
use flyrank_backend_capstone.Models.{UsageEvent, IdempotencyRecord, Subscription}
use flyrank_backend_capstone.Store.Schema.{Tables, get_idempotency_record}
use flyrank_backend_capstone.Store.Action.{Env}
use flyrank_backend_capstone.Quota.{QuotaCheckResult, period_usage, latest_active}
use flyrank_backend_capstone.Metering.{record_row}
use flyrank_backend_capstone.Metering.Spec.{recorded_tables, IsInsertable, event_at}
use flyrank_backend_capstone.Metering.Limits.{Room, quantity_in-ne_tenant}
use flyrank_backend_capstone.Sessions.Defs.{
  Job, usage_of, quantity_of, Phase, asked, locked, checked, proceed, lock_of, World, replace,
  proceed_in, Step, arrives, proceeds,
}
use flyrank_backend_capstone.Sessions.Worlds.{replace-cases}
use flyrank_backend_capstone.Sessions.Steps.{
  Guarded, proceed-lock, proceed-Guarded, written-Guarded, proceed-stored,
}

pub record IsOrderly (w : World) : Type 0 where
  pub exclusive :
      (i j id : ℕ) → lock_of (w.phases i) ≡ some id → lock_of (w.phases j) ≡ some id → i ≡ j
  pub guarded : (i : ℕ) → Guarded w.stored (w.phases i)

unlocked-Guarded : (t : Tables) (p : Phase) → lock_of p ≡ none → Guarded t p
unfolding lock_of
unlocked-Guarded t (locked q s) h = cc
unlocked-Guarded t (checked q s c) h = cc
unlocked-Guarded t _ h = tt

-- Where no lock is held.
pub unlocked-IsOrderly : (w : World) → ((i : ℕ) → lock_of (w.phases i) ≡ none) → IsOrderly w
unlocked-IsOrderly w h = record {
  exclusive = λ i j id a b. cc (h i);
  guarded = λ i. unlocked-Guarded w.stored (w.phases i) (h i);
}

-- The event of another tenant takes no room.
Guarded-recorded :
    (t : Tables) (e : UsageEvent) (r : IdempotencyRecord) (p : Phase)
    → ((q : Job) (s : Subscription) (c : QuotaCheckResult)
        → p ≡ checked q s c
        → e.tenant_id ≢ q.tenant.id)
    → Guarded t p
    → Guarded (recorded_tables e r t) p
unfolding period_usage
Guarded-recorded t e r (checked q s c) other (selected, (s', plan, sel, found, fits)) = (
  selected,
  (
    s',
    plan,
    sel,
    found,
    omega (
      arith,
      fits,
      quantity_in-ne_tenant q.tenant.id s'.current_period_start s'.current_period_end q.type e
          (other q s c refl),
    ),
  ),
)
Guarded-recorded t e r (locked q s) other g = g
Guarded-recorded t e r _ other g = tt

module _ (w : World) (h : IsOrderly w) where
  replaced-exclusive :
      (i : ℕ) (p : Phase)
      → ((id : ℕ)
          → lock_of p ≡ some id
          → (lock_of (w.phases i) ≡ some id) ⊎ ((j : ℕ) → lock_of (w.phases j) ≢ some id))
      → (j k id : ℕ) → lock_of (replace w.phases i p j) ≡ some id
      → lock_of (replace w.phases i p k) ≡ some id
      → j ≡ k
  replaced-exclusive i p had j k id a b = elim (replace-cases w.phases i p j) [
    | inl (at, e) ↦ elim (replace-cases w.phases i p k) [
      | inl (at', _) ↦ at ∙ sym at'
      | inr (_, e') ↦ at ∙ stays k id (sym (ap lock_of e) ∙ a) (sym (ap lock_of e') ∙ b)
    ]
    | inr (_, e) ↦ elim (replace-cases w.phases i p k) [
      | inl (at', e') ↦ sym (at' ∙ stays j id (sym (ap lock_of e') ∙ b) (sym (ap lock_of e) ∙ a))
      | inr (_, e') ↦ h.exclusive j k id (sym (ap lock_of e) ∙ a) (sym (ap lock_of e') ∙ b)
    ]
  ]
    where
      stays : (k id : ℕ) → lock_of p ≡ some id → lock_of (w.phases k) ≡ some id → i ≡ k
      stays k id new held = elim (had id new) [
        | inl before ↦ h.exclusive i k id before held
        | inr free ↦ absurd (free k held)
      ]

  -- Two sessions that hold the locks of one tenant's selected row are the same.
  same_session :
      (i j : ℕ) (q q' : Job) (s s' : Subscription) (c c' : QuotaCheckResult)
      → w.phases i ≡ checked q s c
      → w.phases j ≡ checked q' s' c'
      → q.tenant.id ≡ q'.tenant.id
      → i ≡ j
  unfolding lock_of
  same_session i j q q' s s' c c' a b same =
      let selected : latest_active q.tenant.id w.stored.subscriptions ≡ some s =
        (subst (Guarded w.stored) a (h.guarded i)).0 in
      let selected' : latest_active q'.tenant.id w.stored.subscriptions ≡ some s' =
        (subst (Guarded w.stored) b (h.guarded j)).0 in
      let row : s ≡ s' =
        some-injective s s'
          (sym selected ∙ ap (λ x. latest_active x w.stored.subscriptions) same ∙ selected') in
      h.exclusive i j s.id (ap lock_of a)
        (ap lock_of b ∙ ap (λ (x : Subscription). some x.id) (sym row))

-- A step stores nothing, or the event and the response of a request that has its room.
abbrev pub Writes : World → World → Type 0
Writes w v =
    (E : Env) × (q : Job) × (n : ℕ) × (created_at : ℕ) × (c : QuotaCheckResult)
    × (get_idempotency_record q.key w.stored ≡ none)
    × IsInsertable (event_at E q.settings q.tenant q.key q.type (usage_of q) n) w.stored
    × Room q.tenant.id q.type (quantity_of q) w.stored
    × (v.stored
        ≡ recorded_tables (event_at E q.settings q.tenant q.key q.type (usage_of q) n)
            (record_row (event_at E q.settings q.tenant q.key q.type (usage_of q) n) c created_at)
            w.stored)

pub Step-stored : (w v : World) → IsOrderly w → Step w v → (v.stored ≡ w.stored) ⊎ Writes w v
Step-stored w v h (arrives i q at) = inl refl
Step-stored w v h (proceeds E n i free) = elim (proceed-stored E w.stored n (w.phases i)) [
  | inl same ↦ inl same
  | inr (q, s, c, created_at, at, miss, new, after) ↦
      inr (E, q, n, created_at, c, miss, new, (subst (Guarded w.stored) at (h.guarded i)).1, after)
]

-- What every session has checked holds after a step of the session `i`.
proceeds-Guarded :
    (w : World)
    → IsOrderly w
    → (E : Env) (n i j : ℕ) → Guarded (proceed_in E n i w).stored ((proceed_in E n i w).phases j)
proceeds-Guarded w h E n i j = elim (proceed-stored E w.stored n (w.phases i)) [
  | inl same ↦
      subst (λ t. Guarded t (u.phases j)) (sym same) (at_once (replace-cases w.phases i _ j))
  | inr (q, s, c, created_at, at, _, _, after) ↦
      written q s c created_at at after (replace-cases w.phases i _ j)
]
  where
    u : World
    u = proceed_in E n i w

    at_once :
        ((j ≡ i) × (u.phases j ≡ (proceed E w.stored n (w.phases i)).0))
          ⊎ ((j ≢ i) × (u.phases j ≡ w.phases j))
        → Guarded w.stored (u.phases j)
    at_once (inl (_, e)) =
        subst (Guarded w.stored) (sym e) (proceed-Guarded E w.stored n (w.phases i) (h.guarded i))
    at_once (inr (_, e)) = subst (Guarded w.stored) (sym e) (h.guarded j)

    written :
        (q : Job) (s : Subscription) (c : QuotaCheckResult) (created_at : ℕ)
        → w.phases i ≡ checked q s c
        → u.stored
          ≡ recorded_tables
              (event_at E q.settings q.tenant q.key q.type (usage_of q) n)
              (record_row (event_at E q.settings q.tenant q.key q.type (usage_of q) n) c created_at)
              w.stored
        → ((j ≡ i) × (u.phases j ≡ (proceed E w.stored n (w.phases i)).0))
          ⊎ ((j ≢ i) × (u.phases j ≡ w.phases j))
        → Guarded u.stored (u.phases j)
    written q s c created_at at after (inl (_, e)) =
        subst (Guarded u.stored) (sym (e ∙ ap (λ p. (proceed E w.stored n p).0) at))
          (written-Guarded E w.stored n u.stored q s c)
    written q s c created_at at after (inr (other, e)) = subst₂ Guarded (sym after) (sym e) (
        Guarded-recorded w.stored _ _ (w.phases j)
          (λ q' s' c' at' same. other (sym (same_session w h i j q q' s s' c c' at at' same)))
          (h.guarded j))

pub Step-IsOrderly : (w v : World) → IsOrderly w → Step w v → IsOrderly v
unfolding lock_of
Step-IsOrderly w v h (arrives i q at) = record {
  exclusive = replaced-exclusive w h i (asked q) (λ id e. cc);
  guarded = λ j. elim (replace-cases w.phases i (asked q) j) [
    | inl (_, e) ↦ subst (Guarded w.stored) (sym e) tt
    | inr (_, e) ↦ subst (Guarded w.stored) (sym e) (h.guarded j)
  ];
}
Step-IsOrderly w v h (proceeds E n i free) = record {
  exclusive = replaced-exclusive w h i (proceed E w.stored n (w.phases i)).0 (λ id e.
      elim (proceed-lock E w.stored n (w.phases i) id e) [
        | inl held ↦ inl held
        | inr wants ↦ inr (free id wants)
      ]);
  guarded = λ j. proceeds-Guarded w h E n i j;
}
