-- ===== src/Store/ReadsOnly.antt =====
-- Actions that send nothing to the database: whatever the session is, they leave it as it was.
use flyrank_backend_capstone.Prelude.{
  ℕ, ◌≡◌, refl, ◌∙◌, Bool, true, false, Option, none, some, if◌then◌else◌,
}
use flyrank_backend_capstone.Store.Schema.{Tables}
use flyrank_backend_capstone.Store.Database.{Database, Answer, rows, fails}
use flyrank_backend_capstone.Store.Action.{
  Run, Outcome, returned, raised, Exception, Action, pure, raise, draw, if_none, ◌>>=◌, query,
  continue, answered,
}

pub record ReadsOnly {S A : Type 0} (m : Action S A) : Type 0 where
  pub at : (r : Run S) → (m r).1.session ≡ r.session

module _ {S A : Type 0} where
  pub ReadsOnly-pure : (a : A) → ReadsOnly {S = S} (pure a)
  unfolding pure
  ReadsOnly-pure a = record { at = λ r. refl }

  pub ReadsOnly-raise : (e : Exception) → ReadsOnly {S = S} {A = A} (raise e)
  unfolding raise
  ReadsOnly-raise e = record { at = λ r. refl }

  pub ReadsOnly-draw : (source : ℕ → A) → ReadsOnly {S = S} (draw source)
  unfolding draw
  ReadsOnly-draw source = record { at = λ r. refl }

  pub ReadsOnly-if :
      (b : Bool) {m n : Action S A} → ReadsOnly m → ReadsOnly n → ReadsOnly (if b then m else n)
  ReadsOnly-if true p q = p
  ReadsOnly-if false p q = q

  pub ReadsOnly-if_none :
      {B : Type 0} (o : Option B) {m : Action S A} {f : B → Action S A}
      → ReadsOnly m
      → ((b : B) → ReadsOnly (f b))
      → ReadsOnly (if_none o m f)
  ReadsOnly-if_none none p q = p
  ReadsOnly-if_none (some b) p q = q b

module _ {S A B : Type 0} where
  continue-session :
      (f : A → Action S B)
      → ((a : A) → ReadsOnly (f a))
      → (o : Outcome A) (r : Run S) → (continue o f r).1.session ≡ r.session
  continue-session f q (returned a) r = (q a).at r
  continue-session f q (raised e) r = refl

  pub ReadsOnly-bind :
      {m : Action S A} {f : A → Action S B}
      → ReadsOnly m
      → ((a : A) → ReadsOnly (f a))
      → ReadsOnly (m >>= f)
  unfolding ◌>>=◌
  ReadsOnly-bind {m} {f} p q = record {
    at = λ r. let (o, r') = m r in continue-session f q o r' ∙ p.at r;
  }

answered-session :
    {S A : Type 0} (a : Answer) (f : Tables → A) (r : Run S)
    → (answered a f r).1.session ≡ r.session
answered-session (rows t) f r = refl
answered-session (fails e) f r = refl

pub ReadsOnly-query : (D : Database) {A : Type 0} (f : Tables → A) → ReadsOnly (query D f)
unfolding query
ReadsOnly-query D f = record { at = λ r. answered-session (D.select r.session) f r }

pub ruleset reads_only = (
  ReadsOnly-pure, ReadsOnly-raise, ReadsOnly-draw, ReadsOnly-if, ReadsOnly-if_none, ReadsOnly-bind,
  ReadsOnly-query,
)
