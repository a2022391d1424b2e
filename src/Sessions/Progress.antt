-- ===== src/Sessions/Progress.antt =====
-- No deadlock: some session can go on until every request has ended.
use native.Mathlib.Decide.{ℕ_discrete}
use mathlib.Core.Option.{some-injective}
use flyrank_backend_capstone.Prelude.{
  ℕ, zero, suc, ◌≤◌, ◌<◌, ◌≡◌, ◌≢◌, ◌⊎◌, inl, inr, arith, refl, sym, ap, ◌∙◌, some, Option-cases,
  Bool-cases, ltb,
}
use flyrank_backend_capstone.Models.{is_active_tenant}
use flyrank_backend_capstone.Store.Schema.{Tables, get_idempotency_record}
use flyrank_backend_capstone.Store.Database.{contract, view_select}
use flyrank_backend_capstone.Store.Action.{Env, Outcome, returned, raised, query}
use flyrank_backend_capstone.Quota.{
  QuotaCheckResult, latest_active, check_subscription, get_locked_active_subscription,
}
use flyrank_backend_capstone.Metering.{MeteringResult, get_stored_response, write_usage}
use flyrank_backend_capstone.Sessions.Defs.{
  usage_of, quantity_of, Phase, idle, asked, missed, locked, checked, recovering, ended, on_tables,
  after_check, after_write, proceed, lock_of, wanted, World, IsFree,
}
use flyrank_backend_capstone.Sessions.Worlds.{wanted-unlocked}

-- The most steps that a request still takes.
unfoldable pub steps_left : Phase → ℕ
steps_left idle = 0
steps_left (asked q) = 5
steps_left (missed q) = 4
steps_left (locked q s) = 3
steps_left (checked q s c) = 2
steps_left (recovering lock q e) = 1
steps_left (ended o) = 0

-- Every step of a request that has not ended takes it nearer to its end.
pub proceed-nearer :
    (E : Env) (t : Tables) (n : ℕ) (p : Phase)
    → steps_left p ≢ 0
    → steps_left (proceed E t n p).0 < steps_left p
unfolding proceed steps_left get_stored_response get_locked_active_subscription query view_select
proceed-nearer E t n idle h = absurd (h refl)
proceed-nearer E t n (asked q) h = elim (Option-cases (get_idempotency_record q.key t)) [
  | inl miss ↦ rw miss (omega arith)
  | inr (r, hit) ↦ rw hit (omega arith)
]
proceed-nearer E t n (missed q) h = elim (Bool-cases (is_active_tenant q.tenant.status)) [
  | inr off ↦ rw off (omega arith)
  | inl on ↦ rw on (elim (Option-cases (latest_active q.tenant.id t.subscriptions)) [
    | inl miss ↦ rw miss (omega arith)
    | inr (s, found) ↦ rw found (omega arith)
  ])
]
proceed-nearer E t n (locked q s) h =
    outcome (check_subscription E contract q.tenant q.type (quantity_of q) s (on_tables t n)).0
  where
    outcome : (o : Outcome QuotaCheckResult) → steps_left (after_check q s o) < 3
    outcome (returned c) = omega arith
    outcome (raised e) = omega arith
proceed-nearer E t n (checked q s c) h =
    outcome
      (write_usage E contract q.settings q.tenant q.key q.type (usage_of q) c (on_tables t n)).0
  where
    outcome : (o : Outcome MeteringResult) → steps_left (after_write q s o) < 2
    outcome (returned c) = omega arith
    outcome (raised e) = omega arith
proceed-nearer E t n (recovering lock q e) h = omega arith
proceed-nearer E t n (ended o) h = absurd (h refl)

-- A session with a lock waits for none, and has not ended.
locked-IsFree : (w : World) (i id : ℕ) → lock_of (w.phases i) ≡ some id → IsFree w i
locked-IsFree w i id held id' wants j = cc (held, wanted-unlocked w.stored (w.phases i) id' wants)

locked-ne-ended : (p : Phase) (id : ℕ) → lock_of p ≡ some id → steps_left p ≢ 0
unfolding lock_of steps_left
locked-ne-ended (locked q s) id h = λ e. cc
locked-ne-ended (checked q s c) id h = λ e. cc
locked-ne-ended (recovering lock q x) id h = λ e. cc
locked-ne-ended _ id h = cc

pub lt_or_le : (m n : ℕ) → (m < n) ⊎ (n ≤ m)
lt_or_le m n = elim (Bool-cases (ltb m n)) [
  | inl less ↦ inl (ground arith)
  | inr more ↦ inr (ground arith)
]

-- The session that holds a row's lock, among the first `count`.
holder :
    (count id : ℕ) (phases : ℕ → Phase)
    → ((j : ℕ) → j < count → lock_of (phases j) ≢ some id)
      ⊎ ((j : ℕ) × (lock_of (phases j) ≡ some id))
holder zero id phases = inl (λ j h. absurd (omega (arith, h)))
holder (suc count) id phases = elim (holder count id phases) [
  | inr found ↦ inr found
  | inl free ↦ elim (Option-cases (lock_of (phases count))) [
    | inl unlocked ↦ inl (λ j h e. elim (ℕ_discrete j count) [
      | yes same ↦ cc (unlocked, e, same)
      | no other ↦ free j (omega (arith, h, other)) e
    ])
    | inr (id', held) ↦ elim (ℕ_discrete id' id) [
      | yes same ↦ inr (count, held ∙ ap some same)
      | no differs ↦ inl (λ j h e. elim (ℕ_discrete j count) [
        | yes same ↦ absurd (
            differs
              (some-injective id' id (sym held ∙ ap (λ x. lock_of (phases x)) (sym same) ∙ e)))
        | no other ↦ free j (omega (arith, h, other)) e
      ])
    ]
  ]
]

-- Every session from `count` on is idle.
abbrev pub IsIdleFrom : ℕ → World → Type 0
IsIdleFrom count w = (j : ℕ) → count ≤ j → w.phases j ≡ idle

module _ (w : World) (count : ℕ) (rest : IsIdleFrom count w) where
  pub unended-lt : (j : ℕ) → steps_left (w.phases j) ≢ 0 → j < count
  unfolding steps_left
  unended-lt j h = elim (lt_or_le j count) [
    | inl less ↦ less
    | inr more ↦ absurd (h (ap steps_left (rest j more)))
  ]

  -- If a request has not ended, then it or the holder of the lock that it waits for can go on.
  pub progress :
      (i : ℕ) → steps_left (w.phases i) ≢ 0 → (j : ℕ) × (steps_left (w.phases j) ≢ 0) × IsFree w j
  unfolding lock_of
  progress i h = elim (Option-cases (wanted w.stored (w.phases i))) [
    | inl content ↦ (i, h, λ id wants. cc)
    | inr (id, needs) ↦ elim (holder count id w.phases) [
      | inr (j, held) ↦ (j, locked-ne-ended (w.phases j) id held, locked-IsFree w j id held)
      | inl free ↦ (
        i,
        h,
        λ id' wants j e. elim (lt_or_le j count) [
          | inl less ↦ free j less (e ∙ sym wants ∙ needs)
          | inr more ↦ cc (ap lock_of (rest j more), e)
        ],
      )
    ]
  ]
