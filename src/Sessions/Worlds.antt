-- ===== src/Sessions/Worlds.antt =====
-- Worlds: the phase of a session is replaced, and a session whose lock no other one holds proceeds.
use native.Mathlib.Decide.{ℕ_discrete}
use flyrank_backend_capstone.Prelude.{
  ℕ, zero, suc, ◌≡◌, ◌≢◌, ◌==◌, ◌⊎◌, inl, inr, arith, refl, sym, ap, ◌∙◌, some, none, Bool-cases,
}
use flyrank_backend_capstone.Store.Schema.{Tables}
use flyrank_backend_capstone.Store.Database.{Database, View, IsLawful, contract, opened}
use flyrank_backend_capstone.Store.Action.{Env, Outcome, Run}
use flyrank_backend_capstone.Metering.{MeteringResult, record_usage}
use flyrank_backend_capstone.Metering.Outcomes.{Simulates-record_usage}
use flyrank_backend_capstone.Sessions.Defs.{
  Job, Phase, asked, missed, ended, on_tables, proceed, lock_of, wanted, World, replace, IsFree,
  proceed_in, proceeds, Reaches, here, next,
}
use flyrank_backend_capstone.Sessions.Serial.{alone, asked-Ends}

-- A request that waits for a lock holds none.
pub wanted-unlocked : (t : Tables) (p : Phase) (id : ℕ) → wanted t p ≡ some id → lock_of p ≡ none
unfolding wanted lock_of
wanted-unlocked t (missed q) id h = refl
wanted-unlocked t _ id h = cc

pub replace-cases :
    (phases : ℕ → Phase) (i : ℕ) (p : Phase) (j : ℕ)
    → ((j ≡ i) × (replace phases i p j ≡ p)) ⊎ ((j ≢ i) × (replace phases i p j ≡ phases j))
replace-cases phases i p j = elim (Bool-cases (j == i)) [
  | inl same ↦ inl (ground arith, rw same refl)
  | inr other ↦ inr (ground arith, rw other refl)
]

pub replace-same : (phases : ℕ → Phase) (i : ℕ) (p : Phase) → replace phases i p i ≡ p
replace-same phases i p = elim (replace-cases phases i p i) [
  | inl (_, e) ↦ e
  | inr (other, _) ↦ absurd (other refl)
]

-- The other sessions hold no lock.
abbrev pub IsUnlocked : World → ℕ → Type 0
IsUnlocked w i = (j : ℕ) → j ≢ i → lock_of (w.phases j) ≡ none

IsUnlocked-IsFree : (w : World) (i : ℕ) → IsUnlocked w i → IsFree w i
IsUnlocked-IsFree w i h id wants j = elim (ℕ_discrete j i) [
  | yes same ↦ cc (wanted-unlocked w.stored (w.phases i) id wants, same)
  | no other ↦ cc (h j other)
]

IsUnlocked-replace :
    (w : World) (i : ℕ) (p : Phase) (t : Tables)
    → IsUnlocked w i
    → IsUnlocked (record { stored = t; phases = replace w.phases i p }) i
IsUnlocked-replace w i p t h j other = elim (replace-cases w.phases i p j) [
  | inl (same, _) ↦ absurd (other same)
  | inr (_, e) ↦ ap lock_of e ∙ h j other
]

-- The steps of `alone` are steps of the world.
alone-Reaches :
    (E : Env) (i k : ℕ) (w : World) (p : Phase) (r : Run View)
    → w.stored ≡ r.session.stored
    → w.phases i ≡ p
    → IsUnlocked w i
    → let (p', r') = alone E k p r in
      (v : World) × Reaches w v × (v.phases i ≡ p') × (v.stored ≡ r'.session.stored)
unfolding alone
alone-Reaches E i zero w p r h at unlocked = (w, here, at, h)
alone-Reaches E i (suc k) w p r h at unlocked =
    let same : proceed E w.stored r.draws (w.phases i) ≡ proceed E r.session.stored r.draws p =
      cc (h, at) in
    let u = proceed_in E r.draws i w in
    let (p', r') = proceed E r.session.stored r.draws p in
    let (v, steps, ends, kept) =
      alone-Reaches E i k u p' r' (ap (λ (x : Phase × Run View). x.1.session.stored) same)
        (replace-same w.phases i _ ∙ ap (λ (x : Phase × Run View). x.0) same)
        (IsUnlocked-replace w i (proceed E w.stored r.draws (w.phases i)).0 u.stored unlocked) in
    (v, next (proceeds E r.draws i (IsUnlocked-IsFree w i unlocked)) steps, ends, kept)

-- A session that has just got a request, while no other one holds a lock, can reach the end of the
-- request, with the outcome and the stored tables of `record_usage` on any lawful session that is
-- opened on the same tables: the phases are `record_usage`, cut at the points between statements.
pub Reaches-record_usage :
    (E : Env) {D : Database} {view : D.Session → View}
    → IsLawful D view
    → (q : Job) (w : World) (i : ℕ) (r : Run D.Session) → view r.session ≡ opened w.stored
    → w.phases i ≡ asked q
    → IsUnlocked w i
    → let (o, after) = record_usage E D q.settings q.tenant q.key q.type q.token_usage r in
      (v : World) × Reaches w v × (v.phases i ≡ ended o) × (v.stored ≡ (view after.session).stored)
Reaches-record_usage E lawful q w i r fresh at unlocked =
    let runs =
      (Simulates-record_usage E lawful q.settings q.tenant q.key q.type q.token_usage).at r
      ∙ ap
          (λ (x : View).
            record_usage E contract q.settings q.tenant q.key q.type q.token_usage
              (record { session = x; draws = r.draws }))
          fresh in
    let (v, steps, phase, kept) =
      alone-Reaches E i 5 w (asked q) (on_tables w.stored r.draws) refl at unlocked in
    let (ends, same) = asked-Ends E q w.stored r.draws in
    (
      v,
      steps,
      phase ∙ ends ∙ sym (ap (λ (x : Outcome MeteringResult × Run View). ended x.0) runs),
      kept ∙ same ∙ sym (ap (λ (x : Outcome MeteringResult × Run View). x.1.session.stored) runs),
    )
