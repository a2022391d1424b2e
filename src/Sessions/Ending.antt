-- ===== src/Sessions/Ending.antt =====
-- Every request can be brought to its end: the steps that are left in all sessions get fewer.
use native.Mathlib.Decide.{ℕ_discrete}
use flyrank_backend_capstone.Prelude.{
  ℕ, zero, suc, ◌+◌, ◌≤◌, ◌<◌, ◌≡◌, ◌≢◌, ◌⊎◌, inl, inr, arith, refl, ap, ◌∙◌,
}
use flyrank_backend_capstone.Store.Action.{Env}
use flyrank_backend_capstone.Sessions.Defs.{
  Phase, proceed, World, replace, proceed_in, Step, proceeds, Reaches, here, next,
}
use flyrank_backend_capstone.Sessions.Worlds.{replace-cases}
use flyrank_backend_capstone.Sessions.Progress.{
  steps_left, proceed-nearer, lt_or_le, IsIdleFrom, unended-lt, progress,
}

-- The steps that are left in the first `count` sessions.
total : ℕ → (ℕ → Phase) → ℕ
total zero phases = 0
total (suc count) phases = steps_left (phases count) + total count phases

unended :
    (count : ℕ) (phases : ℕ → Phase)
    → ((j : ℕ) → j < count → steps_left (phases j) ≡ 0) ⊎ ((i : ℕ) × (steps_left (phases i) ≢ 0))
unended zero phases = inl (λ j h. absurd (omega (arith, h)))
unended (suc count) phases = elim (ℕ_discrete (steps_left (phases count)) 0) [
  | no left ↦ inr (count, left)
  | yes done ↦ elim (unended count phases) [
    | inr found ↦ inr found
    | inl all ↦ inl (λ j h. elim (ℕ_discrete j count) [
      | yes same ↦ ap (λ x. steps_left (phases x)) same ∙ done
      | no other ↦ all j (omega (arith, h, other))
    ])
  ]
]

total-outside :
    (count j : ℕ) (p : Phase) (phases : ℕ → Phase)
    → count ≤ j
    → total count (replace phases j p) ≡ total count phases
unfolding total
total-outside zero j p phases h = refl
total-outside (suc count) j p phases h = elim (replace-cases phases j p count) [
  | inl (same, _) ↦ absurd (omega (arith, h, same))
  | inr (_, e) ↦ omega (arith, ap steps_left e, total-outside count j p phases (omega (arith, h)))
]

total-nearer :
    (count j : ℕ) (p : Phase) (phases : ℕ → Phase)
    → j < count
    → steps_left p < steps_left (phases j)
    → total count (replace phases j p) < total count phases
unfolding total
total-nearer zero j p phases h nearer = absurd (omega (arith, h))
total-nearer (suc count) j p phases h nearer = elim (replace-cases phases j p count) [
  | inl (same, e) ↦ omega (
    arith,
    nearer,
    ap steps_left e,
    ap (λ x. steps_left (phases x)) same,
    total-outside count j p phases (omega (arith, same)),
  )
  | inr (other, e) ↦
      omega (arith, ap steps_left e, total-nearer count j p phases (omega (arith, h, other)) nearer)
]

-- Every request has ended, or a step leaves fewer.
nearer_world :
    (E : Env) (count : ℕ) (w : World)
    → IsIdleFrom count w
    → ((i : ℕ) → steps_left (w.phases i) ≡ 0)
      ⊎ ((u : World) × Step w u
          × IsIdleFrom count u
          × (total count u.phases < total count w.phases))
unfolding steps_left
nearer_world E count w rest = elim (unended count w.phases) [
  | inl all ↦ inl (λ i. elim (lt_or_le i count) [
    | inl less ↦ all i less
    | inr more ↦ ap steps_left (rest i more)
  ])
  | inr (i, left) ↦
      let (j, goes, free) = progress w count rest i left in
      let p = (proceed E w.stored 0 (w.phases j)).0 in
      let less = unended-lt w count rest j goes in
      inr (
        proceed_in E 0 j w,
        proceeds E 0 j free,
        (λ k more. elim (replace-cases w.phases j p k) [
          | inl (same, _) ↦ absurd (omega (arith, less, more, same))
          | inr (_, e) ↦ e ∙ rest k more
        ]),
        total-nearer count j p w.phases less (proceed-nearer E w.stored 0 (w.phases j) goes),
      )
]

Reaches-ended_within :
    (E : Env) (k count : ℕ) (w : World)
    → IsIdleFrom count w
    → total count w.phases ≤ k
    → (v : World) × Reaches w v × ((i : ℕ) → steps_left (v.phases i) ≡ 0)
Reaches-ended_within E zero count w rest h = elim (nearer_world E count w rest) [
  | inl all ↦ (w, here, all)
  | inr (u, _, _, less) ↦ absurd (omega (arith, h, less))
]
Reaches-ended_within E (suc k) count w rest h = elim (nearer_world E count w rest) [
  | inl all ↦ (w, here, all)
  | inr (u, step, rest', less) ↦
      let (v, steps, done) = Reaches-ended_within E k count u rest' (omega (arith, h, less)) in
      (v, next step steps, done)
]

-- From every world with finitely many sessions at work, wherever their requests are and whichever
-- locks they hold, the sessions can go on until every request has ended: none waits for ever.
pub Reaches-ended :
    (E : Env) (count : ℕ) (w : World)
    → IsIdleFrom count w
    → (v : World) × Reaches w v × ((i : ℕ) → steps_left (v.phases i) ≡ 0)
Reaches-ended E count w rest =
    Reaches-ended_within E (total count w.phases) count w rest (omega arith)
