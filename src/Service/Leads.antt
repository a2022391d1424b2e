-- ===== src/Service/Leads.antt =====
-- Steps that bring a delivery to its end and leave the others as they are.
use flyrank_backend_capstone.Prelude.{ℕ, ◌≡◌, ◌≢◌, ◌⊎◌, inl, inr, refl, sym, ap, subst, ◌∙◌, none}
use flyrank_backend_capstone.Models.{ProcessedWebhook}
use flyrank_backend_capstone.Store.Action.{Env}
use flyrank_backend_capstone.Webhooks.{Event}
use flyrank_backend_capstone.Sessions.{World, Reaches, Phase, lock_of}
use flyrank_backend_capstone.Service.Defs.{
  Delivery, waiting, received, flushed, answered, deliver, holds, Service, IsKeyFree, IsRowFree,
  deliver_in, requests, delivers, Serves, here, next,
}
use flyrank_backend_capstone.Service.Records.{Marks, new, known, failed, received-Marks}
use flyrank_backend_capstone.Service.Moves.{replace_delivery-cases}

-- The steps that a delivery still has to take.
abbrev pub deliver_left : Delivery → ℕ
deliver_left (received event) = 2
deliver_left (flushed event w) = 1
deliver_left _ = 0

pub Serves-trans : {w u v : Service} → Serves w u → Serves u v → Serves w v
Serves-trans here steps = steps
Serves-trans (next step first) steps = next step (Serves-trans first steps)

-- The steps of the usage requests are steps of the service.
pub Reaches-Serves :
    {u v : World} (deliveries : ℕ → Delivery)
    → Reaches u v
    → Serves
        (record { usage = u; deliveries = deliveries })
        (record { usage = v; deliveries = deliveries })
Reaches-Serves deliveries Reaches.here = here
Reaches-Serves deliveries (Reaches.next {u = x} step steps) =
    next (requests x step) (Reaches-Serves deliveries steps)

pub left-holds : (d : Delivery) → deliver_left d ≡ 0 → holds d ≡ none
unfolding holds
left-holds waiting h = refl
left-holds (received event) h = cc
left-holds (flushed event w) h = cc
left-holds (answered event o) h = refl

-- What other deliveries are is kept, or they are at their end.
abbrev pub Leads : Service → Service → Type 0
Leads w v =
    Serves w v
    × (v.usage.phases ≡ w.usage.phases)
    × ((j : ℕ) → (v.deliveries j ≡ w.deliveries j) ⊎ (deliver_left (v.deliveries j) ≡ 0))

pub Leads-trans : (w u v : Service) → Leads w u → Leads u v → Leads w v
Leads-trans w u v (a, e, f) (b, g, h) = (
  Serves-trans a b,
  g ∙ e,
  λ j. elim (h j) [
    | inr ended ↦ inr ended
    | inl same ↦ elim (f j) [
      | inl before ↦ inl (same ∙ before)
      | inr ended ↦ inr (ap deliver_left same ∙ ended)
    ]
  ],
)

pub Leads-refl : (w : Service) → Leads w w
Leads-refl w = (here, refl, λ j. inl refl)

-- A delivery at its end stays there, and no id is flushed anew.
pub Leads-left :
    (w v : Service)
    → Leads w v
    → (j : ℕ) → deliver_left (w.deliveries j) ≡ 0
    → deliver_left (v.deliveries j) ≡ 0
Leads-left w v leads j h = elim (leads.2 j) [
  | inl same ↦ ap deliver_left same ∙ h
  | inr ended ↦ ended
]

pub Leads-holds :
    (w v : Service)
    → Leads w v
    → (j : ℕ) → holds (w.deliveries j) ≡ none
    → holds (v.deliveries j) ≡ none
Leads-holds w v leads j h = elim (leads.2 j) [
  | inl same ↦ ap holds same ∙ h
  | inr ended ↦ left-holds (v.deliveries j) ended
]

pub Delivery-cases :
    (d : Delivery)
    → ((event : Event) × (d ≡ received event))
      ⊎ ((event : Event) × (x : ProcessedWebhook) × (d ≡ flushed event x))
      ⊎ (deliver_left d ≡ 0)
Delivery-cases waiting = inr (inr refl)
Delivery-cases (received event) = inl (event, refl)
Delivery-cases (flushed event x) = inr (inl (event, x, refl))
Delivery-cases (answered event o) = inr (inr refl)

pub flushed-ne_quiet :
    (d : Delivery) (event : Event) (x : ProcessedWebhook) → d ≡ flushed event x → holds d ≢ none
unfolding holds
flushed-ne_quiet d event x at h = cc (ap holds (sym at) ∙ h)

-- No request holds a lock.
abbrev pub IsUnlocked : Service → Type 0
IsUnlocked w = (j : ℕ) → lock_of (w.usage.phases j) ≡ none

pub Leads-IsUnlocked : (w v : Service) → Leads w v → IsUnlocked w → IsUnlocked v
Leads-IsUnlocked w v (_, phases, _) unlocked j =
    ap (λ (p : ℕ → Phase). lock_of (p j)) phases ∙ unlocked j

unlocked-IsRowFree : (E : Env) (n i : ℕ) (w : Service) → IsUnlocked w → IsRowFree E n i w
unlocked-IsRowFree E n i w unlocked id j busy = cc (unlocked j, busy)

module _ (E : Env) where
  -- A step that ends a delivery.
  ending-Leads :
      (w : Service) (i : ℕ)
      → IsUnlocked w
      → IsKeyFree w i
      → deliver_left (deliver E w.usage.stored 0 (w.deliveries i)).0 ≡ 0
      → Leads w (deliver_in E 0 i w) × (deliver_left ((deliver_in E 0 i w).deliveries i) ≡ 0)
  ending-Leads w i unlocked free ends =
      let d = (deliver E w.usage.stored 0 (w.deliveries i)).0 in
      (
        (
          next (delivers E 0 i free (unlocked-IsRowFree E 0 i w unlocked)) here,
          refl,
          λ j. elim (replace_delivery-cases w.deliveries i d j) [
            | inl (_, e) ↦ inr (ap deliver_left e ∙ ends)
            | inr (_, e) ↦ inl e
          ],
        ),
        elim (replace_delivery-cases w.deliveries i d i) [
          | inl (_, e) ↦ ap deliver_left e ∙ ends
          | inr (other, _) ↦ absurd (other refl)
        ],
      )

  -- A transaction that has flushed its id can end at once.
  pub flushed-ends :
      (w : Service) (i : ℕ) (event : Event) (x : ProcessedWebhook)
      → w.deliveries i ≡ flushed event x
      → IsUnlocked w
      → (v : Service) × Leads w v × (deliver_left (v.deliveries i) ≡ 0)
  unfolding deliver
  flushed-ends w i event x at unlocked =
      let (leads, ends) =
        ending-Leads w i unlocked (λ y e j busy. cc (at, e))
          (ap (λ d. deliver_left (deliver E w.usage.stored 0 d).0) at) in
      (deliver_in E 0 i w, leads, ends)

  -- A delivery ends if no id is flushed.
  pub received-ends :
      (w : Service) (i : ℕ) (event : Event)
      → w.deliveries i ≡ received event
      → IsUnlocked w
      → ((j : ℕ) → holds (w.deliveries j) ≡ none)
      → (v : Service) × Leads w v × (deliver_left (v.deliveries i) ≡ 0)
  received-ends w i event at unlocked quiet =
      let free : IsKeyFree w i = (λ y e j busy. cc (quiet j, busy)) in
      let d = (deliver E w.usage.stored 0 (w.deliveries i)).0 in
      let marks : Marks event w.usage.stored d =
        subst (λ x. Marks event w.usage.stored (deliver E w.usage.stored 0 x).0) (sym at)
          (received-Marks E w.usage.stored 0 event).0 in
      elim marks [
        | known e hit ↦
            let (leads, ends) = ending-Leads w i unlocked free (ap deliver_left e) in
            (deliver_in E 0 i w, leads, ends)
        | failed x e ↦
            let (leads, ends) = ending-Leads w i unlocked free (ap deliver_left e) in
            (deliver_in E 0 i w, leads, ends)
        | new x e _ _ ↦
            let u = deliver_in E 0 i w in
            let there : u.deliveries i ≡ flushed event x =
              (elim (replace_delivery-cases w.deliveries i d i) [
                | inl (_, f) ↦ f ∙ e
                | inr (other, _) ↦ absurd (other refl)
              ]) in
            let (v, (steps, phases, others), ends) = flushed-ends u i event x there unlocked in
            (
              v,
              (
                next (delivers E 0 i free (unlocked-IsRowFree E 0 i w unlocked)) steps,
                phases,
                λ j. elim (others j) [
                  | inr ended ↦ inr ended
                  | inl same ↦ elim (replace_delivery-cases w.deliveries i d j) [
                    | inl (j_at, _) ↦
                        inr (subst (λ k. deliver_left (v.deliveries k) ≡ 0) (sym j_at) ends)
                    | inr (_, f) ↦ inl (same ∙ f)
                  ]
                ],
              ),
              ends,
            )
      ]
