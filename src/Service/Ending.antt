-- ===== src/Service/Ending.antt =====
-- No lock and no id holds up a service for ever.
use flyrank_backend_capstone.Prelude.{
  refl, ℕ, zero, suc, ◌≤◌, ◌<◌, ◌≡◌, inl, inr, ap, subst, ◌∙◌, none, arith,
}
use flyrank_backend_capstone.Store.Action.{Env}
use flyrank_backend_capstone.Sessions.{
  Phase, idle, asked, missed, locked, checked, recovering, ended, lock_of,
}
use flyrank_backend_capstone.Sessions.Progress.{IsIdleFrom, steps_left, lt_or_le}
use flyrank_backend_capstone.Sessions.Ending.{Reaches-ended}
use flyrank_backend_capstone.Service.Defs.{waiting, holds, Service, Serves}
use flyrank_backend_capstone.Service.Leads.{
  deliver_left, Serves-trans, Reaches-Serves, left-holds, Leads, Leads-refl, Leads-trans,
  Leads-left, Leads-holds, IsUnlocked, Leads-IsUnlocked, Delivery-cases, flushed-ne_quiet,
  flushed-ends, received-ends,
}

-- One more session than the first `k`.
up_to : {P : ℕ → Type 0} (k : ℕ) → ((j : ℕ) → j < k → P j) → P k → (j : ℕ) → j < suc k → P j
up_to {P} k before at j less = elim (lt_or_le j k) [
  | inl earlier ↦ before j earlier
  | inr from ↦ let same : k ≡ j = omega (arith, less, from) in subst P same at
]

module _ (E : Env) where
  -- The transactions of the first sessions end, and their ids are free.
  release :
      (k : ℕ) (w : Service)
      → IsUnlocked w
      → (v : Service) × Leads w v × ((j : ℕ) → j < k → holds (v.deliveries j) ≡ none)
  unfolding holds
  release zero w unlocked = (w, Leads-refl w, λ j less. absurd (omega (arith, less)))
  release (suc k) w unlocked =
      let (u, leads, free) = release k w unlocked in
      elim (Delivery-cases (u.deliveries k)) [
        | inl (event, at) ↦ (u, leads, up_to k free (ap holds at))
        | inr (inl (event, x, at)) ↦
            let (v, more, ends) =
              flushed-ends E u k event x at (Leads-IsUnlocked w u leads unlocked) in
            (
              v,
              Leads-trans w u v leads more,
              up_to k (λ j before. Leads-holds u v more j (free j before))
                  (left-holds (v.deliveries k) ends),
            )
        | inr (inr ends) ↦ (u, leads, up_to k free (left-holds (u.deliveries k) ends))
      ]

  -- Where no id is flushed, the first deliveries end.
  settle :
      (k : ℕ) (w : Service)
      → IsUnlocked w
      → ((j : ℕ) → holds (w.deliveries j) ≡ none)
      → (v : Service) × Leads w v × ((j : ℕ) → j < k → deliver_left (v.deliveries j) ≡ 0)
  settle zero w unlocked quiet = (w, Leads-refl w, λ j less. absurd (omega (arith, less)))
  settle (suc k) w unlocked quiet =
      let (u, leads, done) = settle k w unlocked quiet in
      let still : (j : ℕ) → holds (u.deliveries j) ≡ none =
        (λ j. Leads-holds w u leads j (quiet j)) in
      elim (Delivery-cases (u.deliveries k)) [
        | inl (event, at) ↦
            let (v, more, ends) =
              received-ends E u k event at (Leads-IsUnlocked w u leads unlocked) still in
            (
              v,
              Leads-trans w u v leads more,
              up_to k (λ j before. Leads-left u v more j (done j before)) ends,
            )
        | inr (inl (event, x, at)) ↦ absurd (flushed-ne_quiet (u.deliveries k) event x at (still k))
        | inr (inr ends) ↦ (u, leads, up_to k done ends)
      ]

-- A request that has ended holds no lock.
ended-lock_of : (p : Phase) → steps_left p ≡ 0 → lock_of p ≡ none
unfolding steps_left lock_of
ended-lock_of idle h = refl
ended-lock_of (asked q) h = refl
ended-lock_of (missed q) h = refl
ended-lock_of (locked q s) h = cc
ended-lock_of (checked q s c) h = cc
ended-lock_of (recovering lock q e) h = cc
ended-lock_of (ended o) h = refl

-- From every service with finitely many sessions at work, wherever their requests and deliveries are
-- and whichever locks and ids they hold, the sessions can go on until every request has ended and
-- every delivery has been answered: none waits for ever.
pub Serves-ended :
    (E : Env) (count : ℕ) (w : Service)
    → IsIdleFrom count w.usage
    → ((j : ℕ) → count ≤ j → w.deliveries j ≡ waiting)
    → (v : Service) × Serves w v
      × ((i : ℕ) → steps_left (v.usage.phases i) ≡ 0)
      × ((i : ℕ) → deliver_left (v.deliveries i) ≡ 0)
Serves-ended E count w quiescent rest =
    let (x, steps, finished) = Reaches-ended E count w.usage quiescent in
    let y : Service = record { usage = x; deliveries = w.deliveries } in
    let unlocked : IsUnlocked y = (λ j. ended-lock_of (x.phases j) (finished j)) in
    let (u, leads, free) = release E count y unlocked in
    let quiet : (j : ℕ) → holds (u.deliveries j) ≡ none = (λ j. elim (lt_or_le j count) [
      | inl before ↦ free j before
      | inr from ↦
          left-holds (u.deliveries j) (Leads-left y u leads j (ap deliver_left (rest j from)))
    ]) in
    let (v, more, done) = settle E count u (Leads-IsUnlocked y u leads unlocked) quiet in
    (
      v,
      Serves-trans (Reaches-Serves w.deliveries steps) (Serves-trans leads.0 more.0),
      λ i. ap (λ (phases : ℕ → Phase). steps_left (phases i)) (more.1 ∙ leads.1) ∙ finished i,
      λ j. elim (lt_or_le j count) [
        | inl before ↦ done j before
        | inr from ↦ Leads-left u v more j (Leads-left y u leads j (ap deliver_left (rest j from)))
      ],
    )
