-- ===== src/Quota/Locking.antt =====
-- What the locked SELECT of `QuotaEnforcer` returns: the tenant's ACTIVE subscription with the
-- latest period end.
use flyrank_backend_capstone.Prelude.{
  ℕ, ◌≤◌, ◌≡◌, inl, inr, refl, sym, subst, if◌then◌else◌, Option, true, false, none, some, List, [],
  ◌∷◌, arith, ltb, Bool-cases, Option-cases, All, All-apply, Member, All-weaken,
}
use flyrank_backend_capstone.Models.{Subscription}
use flyrank_backend_capstone.Quota.Defs.{is_current, later_of, latest_active}

-- `s` is one of the tenant's ACTIVE subscriptions, and none of them ends later.
abbrev pub IsLatest : ℕ → List Subscription → Subscription → Type 0
IsLatest tenant_id subscriptions s =
    Member s subscriptions
    × (is_current tenant_id s ≡ true)
    × All (λ u. is_current tenant_id u ≡ true → u.current_period_end ≤ s.current_period_end)
        subscriptions

-- The statement returns `s`, which is such a subscription.
abbrev pub IsSelected : ℕ → List Subscription → Subscription → Type 0
IsSelected tenant_id subscriptions s =
    (latest_active tenant_id subscriptions ≡ some s) × IsLatest tenant_id subscriptions s

-- What the statement returns on a table: no row if no subscription qualifies, or the latest one.
abbrev pub Selects : ℕ → List Subscription → Option Subscription → Type 0
Selects tenant_id subscriptions none = All (λ u. is_current tenant_id u ≡ false) subscriptions
Selects tenant_id subscriptions (some s) = IsLatest tenant_id subscriptions s

later_of-none : (x : Subscription) → later_of x none ≡ x
unfolding later_of
later_of-none x = refl

module _ (x s : Subscription) where
  later_of-less : ltb x.current_period_end s.current_period_end ≡ true → later_of x (some s) ≡ s
  unfolding later_of
  later_of-less h = ground arith

  pub later_of-more :
      ltb x.current_period_end s.current_period_end ≡ false → later_of x (some s) ≡ x
  unfolding later_of
  later_of-more h = ground arith

module _ (tenant_id : ℕ) where
  Selects-cons :
      (x : Subscription) (ss : List Subscription) (rest : Option Subscription)
      → Selects tenant_id ss rest
      → Selects tenant_id (x ∷ ss) (if is_current tenant_id x then some (later_of x rest) else rest)
  Selects-cons x ss none h = elim (Bool-cases (is_current tenant_id x)) [
    | inl e ↦
        rw (e, later_of-none x)
          (inl refl, e, (λ _. omega arith, All-weaken ss (λ u n c. cc (n, c)) h))
    | inr e ↦ rw e (e, h)
  ]
  Selects-cons x ss (some s) h = elim (Bool-cases (is_current tenant_id x)) [
    | inl e ↦ elim (Bool-cases (ltb x.current_period_end s.current_period_end)) [
      | inl less ↦ rw e (
          subst (IsLatest tenant_id (x ∷ ss)) (sym (later_of-less x s less))
            (inr h.0, h.1, (λ _. ground arith, h.2)))
      | inr more ↦ rw e (
          subst (IsLatest tenant_id (x ∷ ss)) (sym (later_of-more x s more))
            (inl refl, e, (λ _. omega arith, All-weaken ss (λ u f c. ground (arith, f c)) h.2)))
    ]
    | inr e ↦ rw e (inr h.0, h.1, (λ c. cc (c, e), h.2))
  ]

  -- On every table of subscriptions, the statement selects no row exactly when the tenant has no
  -- ACTIVE subscription, and otherwise an ACTIVE one of the tenant with the latest period end.
  pub latest_active-Selects :
      (ss : List Subscription) → Selects tenant_id ss (latest_active tenant_id ss)
  unfolding latest_active
  latest_active-Selects [] = tt
  latest_active-Selects (x ∷ ss) =
      Selects-cons x ss (latest_active tenant_id ss) (latest_active-Selects ss)

-- The tenant has no ACTIVE subscription.
abbrev pub IsUnsubscribed : ℕ → List Subscription → Type 0
IsUnsubscribed tenant_id = All (λ u. is_current tenant_id u ≡ false)

module _ (tenant_id : ℕ) where
  pub IsUnsubscribed-none :
      (ss : List Subscription) → IsUnsubscribed tenant_id ss → latest_active tenant_id ss ≡ none
  IsUnsubscribed-none ss h = elim (Option-cases (latest_active tenant_id ss)) [
    | inl e ↦ e
    | inr (s, e) ↦
        let latest = subst (Selects tenant_id ss) e (latest_active-Selects tenant_id ss) in
        let off = All-apply (λ u. is_current tenant_id u ≡ false) ss h latest.0 in
        cc (off, latest.1)
  ]
