-- ===== src/Service/Moves.antt =====
-- A step of one delivery, among the others.
use mathlib.Core.Path.{subst₂}
use flyrank_backend_capstone.Prelude.{
  ℕ, ◌≡◌, ◌≢◌, ◌==◌, ◌⊎◌, inl, inr, refl, sym, subst, ap, ◌∙◌, none, some, arith, String,
  Bool-cases, some-injective, same_text_refl,
}
use flyrank_backend_capstone.Models.{ProcessedWebhook}
use flyrank_backend_capstone.Store.Schema.{Tables}
use flyrank_backend_capstone.Store.Action.{Env, returned}
use flyrank_backend_capstone.Webhooks.{Event}
use flyrank_backend_capstone.Webhooks.Atomic.{marked}
use flyrank_backend_capstone.Service.Defs.{
  Delivery, waiting, received, flushed, answered, deliver, holds, Service, replace_delivery,
  IsKeyFree,
}
use flyrank_backend_capstone.Service.Records.{
  Marks, new, known, failed, received-Marks, flushed-cases,
}
use flyrank_backend_capstone.Service.Standing.{
  Stands, Agree, Stands-same, Stands-marked, Agree-sym, Agree-unanswered, Agree-duplicate,
  Agree-new,
}

-- Distinct open transactions have flushed distinct ids, and what was answered stands.
pub record IsServed (w : Service) : Type 0 where
  pub exclusive :
      (i j : ℕ) (id : String)
      → holds (w.deliveries i) ≡ some id
      → holds (w.deliveries j) ≡ some id
      → i ≡ j
  pub stands : (i : ℕ) → Stands w.usage.stored (w.deliveries i)
  pub agree : (i j : ℕ) → i ≢ j → Agree (w.deliveries i) (w.deliveries j)

-- What a step of the session `i` must do, to the delivery `d` over the tables `t`.
pub record IsMove (w : Service) (i : ℕ) (d : Delivery) (t : Tables) : Type 0 where
  stands : Stands t d
  others : (j : ℕ) → j ≢ i → Stands t (w.deliveries j)
  had :
      (id : String)
      → holds d ≡ some id
      → (holds (w.deliveries i) ≡ some id) ⊎ ((j : ℕ) → holds (w.deliveries j) ≢ some id)
  agree : (j : ℕ) → j ≢ i → Agree d (w.deliveries j)

pub replace_delivery-cases :
    (ds : ℕ → Delivery) (i : ℕ) (d : Delivery) (j : ℕ)
    → ((j ≡ i) × (replace_delivery ds i d j ≡ d)) ⊎ ((j ≢ i) × (replace_delivery ds i d j ≡ ds j))
replace_delivery-cases ds i d j = elim (Bool-cases (j == i)) [
  | inl same ↦ inl (ground arith, rw same refl)
  | inr other ↦ inr (ground arith, rw other refl)
]

module _ (w : Service) (h : IsServed w) (i : ℕ) (d : Delivery) (t : Tables)
    (move : IsMove w i d t) where
  abbrev moved : ℕ → Delivery
  moved = replace_delivery w.deliveries i d

  only_there : (k : ℕ) (id : String) → holds d ≡ some id → holds (w.deliveries k) ≡ some id → i ≡ k
  only_there k id held other = elim (move.had id held) [
    | inl before ↦ h.exclusive i k id before other
    | inr free ↦ absurd (free k other)
  ]

  moved-exclusive :
      (j k : ℕ) (id : String) → holds (moved j) ≡ some id → holds (moved k) ≡ some id → j ≡ k
  moved-exclusive j k id a b = elim (replace_delivery-cases w.deliveries i d j) [
    | inl (j_at, e) ↦ elim (replace_delivery-cases w.deliveries i d k) [
      | inl (k_at, f) ↦ j_at ∙ sym k_at
      | inr (_, f) ↦ j_at ∙ only_there k id (ap holds (sym e) ∙ a) (ap holds (sym f) ∙ b)
    ]
    | inr (_, e) ↦ elim (replace_delivery-cases w.deliveries i d k) [
      | inl (k_at, f) ↦
          sym (only_there j id (ap holds (sym f) ∙ b) (ap holds (sym e) ∙ a)) ∙ sym k_at
      | inr (_, f) ↦ h.exclusive j k id (ap holds (sym e) ∙ a) (ap holds (sym f) ∙ b)
    ]
  ]

  moved-Agree : (j k : ℕ) → j ≢ k → Agree (moved j) (moved k)
  moved-Agree j k other = elim (replace_delivery-cases w.deliveries i d j) [
    | inl (j_at, e) ↦ elim (replace_delivery-cases w.deliveries i d k) [
      | inl (k_at, f) ↦ absurd (other (j_at ∙ sym k_at))
      | inr (away, f) ↦ subst₂ Agree (sym e) (sym f) (move.agree k away)
    ]
    | inr (away, e) ↦ elim (replace_delivery-cases w.deliveries i d k) [
      | inl (k_at, f) ↦
          subst₂ Agree (sym e) (sym f) (Agree-sym d (w.deliveries j) (move.agree j away))
      | inr (_, f) ↦ subst₂ Agree (sym e) (sym f) (h.agree j k other)
    ]
  ]

  pub IsMove-IsServed :
      IsServed (record { usage = record w.usage { stored = t }; deliveries = moved })
  IsMove-IsServed = record {
    exclusive = moved-exclusive;
    stands = λ j. elim (replace_delivery-cases w.deliveries i d j) [
      | inl (_, e) ↦ subst (Stands t) (sym e) move.stands
      | inr (away, e) ↦ subst (Stands t) (sym e) (move.others j away)
    ];
    agree = moved-Agree;
  }

module _ (w : Service) (h : IsServed w) (E : Env) (n i : ℕ) (free : IsKeyFree w i) where
  abbrev t : Tables
  t = w.usage.stored

  -- A step that stores nothing and ends the delivery, or leaves it where it is.
  stays-IsMove :
      (d : Delivery)
      → Stands t d
      → holds d ≡ none
      → ((j : ℕ) → Agree d (w.deliveries j))
      → IsMove w i d t
  stays-IsMove d stands held agree = record {
    stands = stands;
    others = λ j away. h.stands j;
    had = λ id e. cc;
    agree = λ j away. agree j;
  }

  received-IsMove :
      (event : Event) (d : Delivery)
      → w.deliveries i ≡ received event
      → Marks event t d
      → IsMove w i d t
  unfolding holds
  received-IsMove event d at (new x e same miss) = record {
    stands = subst (Stands t) (sym e) (same, miss);
    others = λ j away. h.stands j;
    had = λ id held.
        let own : event.id ≡ id = some-injective (sym (ap holds e) ∙ held) in
        inr (λ j busy. free event at j (busy ∙ ap some (sym own)));
    agree = λ j away. Agree-unanswered d (w.deliveries j) (λ x' reply at'. cc);
  }
  received-IsMove event d at (known e hit) =
      stays-IsMove d (subst (Stands t) (sym e) hit) (ap holds e) (λ j.
        subst (λ d'. Agree d' (w.deliveries j)) (sym e) (Agree-duplicate event (w.deliveries j)))
  received-IsMove event d at (failed x e) =
      stays-IsMove d (subst (Stands t) (sym e) tt) (ap holds e)
        (λ j. Agree-unanswered d (w.deliveries j) (λ x' reply at'. cc))

  flushed-IsMove :
      (event : Event) (x : ProcessedWebhook)
      → w.deliveries i ≡ flushed event x
      → let (d, r) = deliver E t n (flushed event x) in IsMove w i d r.session.stored
  unfolding holds
  flushed-IsMove event x at =
      let (same_id, miss) : Stands t (flushed event x) = subst (Stands t) at (h.stands i) in
      let (d, r) = deliver E t n (flushed event x) in
      elim (flushed-cases E t n event x) [
        | inl (y, e, same) ↦ subst (IsMove w i d) (sym same) (
            stays-IsMove d (subst (Stands t) (sym e) tt) (ap holds e)
              (λ j. Agree-unanswered d (w.deliveries j) (λ x' reply at'. cc)))
        | inr (reply, e, same) ↦ record {
          stands = subst (Stands r.session.stored) (sym e) (
              Stands-same (marked x t) r.session.stored (answered event (returned reply))
                same.processed_webhooks (rw same_id (rw (same_text_refl event.id) refl)));
          others = λ j away.
              Stands-marked t r.session.stored x (w.deliveries j) same
                (λ busy. away (h.exclusive j i event.id (busy ∙ ap some same_id) (ap holds at)))
                (h.stands j);
          had = λ id held. cc;
          agree = λ j away.
              subst (λ d'. Agree d' (w.deliveries j)) (sym e)
                (Agree-new t event (returned reply) (w.deliveries j) miss (h.stands j));
        }
      ]

  -- Waiting and answered deliveries stay as they are.
  still-IsMove : IsMove w i (w.deliveries i) t
  still-IsMove = record {
    stands = h.stands i;
    others = λ j away. h.stands j;
    had = λ id held. inl held;
    agree = λ j away. h.agree i j (λ e. away (sym e));
  }

  pub deliver-IsMove :
      (d : Delivery)
      → w.deliveries i ≡ d
      → let (d', r) = deliver E t n d in IsMove w i d' r.session.stored
  unfolding deliver
  deliver-IsMove waiting at = subst (λ d. IsMove w i d t) at still-IsMove
  deliver-IsMove (received event) at =
      let (marks, same) = received-Marks E t n event in
      let d = (deliver E t n (received event)).0 in
      subst (IsMove w i d) (sym same) (received-IsMove event d at marks)
  deliver-IsMove (flushed event x) at = flushed-IsMove event x at
  deliver-IsMove (answered event o) at = subst (λ d. IsMove w i d t) at still-IsMove

-- An event that arrives.
pub arrived-IsMove :
    (w : Service)
    → IsServed w
    → (i : ℕ) (event : Event) → IsMove w i (received event) w.usage.stored
unfolding holds
arrived-IsMove w h i event = record {
  stands = tt;
  others = λ j away. h.stands j;
  had = λ id held. cc;
  agree = λ j away. Agree-unanswered (received event) (w.deliveries j) (λ x reply e. cc);
}
