-- ===== src/Store/Preserves.antt =====
-- Properties of the view that an action over the contract preserves: one rule for each way to build an
-- action that sends nothing, for every property.
use flyrank_backend_capstone.Prelude.{ℕ, Bool, true, false, Option, none, some, if◌then◌else◌}
use flyrank_backend_capstone.Store.Schema.{Tables}
use flyrank_backend_capstone.Store.Database.{View, contract, Answer, rows, fails, view_select}
use flyrank_backend_capstone.Store.Action.{
  Run, Outcome, returned, raised, Exception, Action, pure, raise, draw, if_none, ◌>>=◌, try_except,
  query, handle, continue, answered,
}
use flyrank_backend_capstone.Store.Scalar.{Scalar, no_row, many_rows, one_row, or_raise_many}

-- A view with the property before the action has it after, however the action ends.
pub record Preserves (P : View → Type 0) {A : Type 0} (m : Action View A) : Type 0 where
  pub at : (r : Run View) → P r.session → P (m r).1.session

answered-Preserves :
    (P : View → Type 0) {A : Type 0} (a : Answer) (f : Tables → A) (r : Run View)
    → P r.session
    → P (answered a f r).1.session
answered-Preserves P (rows t) f r p = p
answered-Preserves P (fails e) f r p = p

module _ {P : View → Type 0} {A : Type 0} where
  pub Preserves-pure : (a : A) → Preserves P (pure a)
  unfolding pure
  Preserves-pure a = record { at = λ r h. h }

  pub Preserves-raise : (e : Exception) → Preserves P {A = A} (raise e)
  unfolding raise
  Preserves-raise e = record { at = λ r h. h }

  pub Preserves-draw : (source : ℕ → A) → Preserves P (draw source)
  unfolding draw
  Preserves-draw source = record { at = λ r h. h }

  pub Preserves-if :
      (b : Bool) {m n : Action View A}
      → Preserves P m
      → Preserves P n
      → Preserves P (if b then m else n)
  Preserves-if true p q = p
  Preserves-if false p q = q

  pub Preserves-if_none :
      {B : Type 0} (o : Option B) {m : Action View A} {f : B → Action View A}
      → Preserves P m
      → ((b : B) → Preserves P (f b))
      → Preserves P (if_none o m f)
  Preserves-if_none none p q = p
  Preserves-if_none (some b) p q = q b

  handle-Preserves :
      (h : Exception → Action View A)
      → ((e : Exception) → Preserves P (h e))
      → (o : Outcome A) (r : Run View) → P r.session
      → P (handle o h r).1.session
  handle-Preserves h q (returned a) r p = p
  handle-Preserves h q (raised e) r p = (q e).at r p

  pub Preserves-try_except :
      {m : Action View A} {h : Exception → Action View A}
      → Preserves P m
      → ((e : Exception) → Preserves P (h e))
      → Preserves P (try_except m h)
  unfolding try_except
  Preserves-try_except {m} {h} p q = record {
    at = λ r x. let (o, r') = m r in handle-Preserves h q o r' (p.at r x);
  }

  pub Preserves-query : (f : Tables → A) → Preserves P (query contract f)
  unfolding query
  Preserves-query f = record { at = λ r p. answered-Preserves P (view_select r.session) f r p }

module _ {P : View → Type 0} {A B : Type 0} where
  continue-Preserves :
      (f : A → Action View B)
      → ((a : A) → Preserves P (f a))
      → (o : Outcome A) (r : Run View) → P r.session
      → P (continue o f r).1.session
  continue-Preserves f q (returned a) r p = (q a).at r p
  continue-Preserves f q (raised e) r p = p

  pub Preserves-bind :
      {m : Action View A} {f : A → Action View B}
      → Preserves P m
      → ((a : A) → Preserves P (f a))
      → Preserves P (m >>= f)
  unfolding ◌>>=◌
  Preserves-bind {m} {f} p q = record {
    at = λ r x. let (o, r') = m r in continue-Preserves f q o r' (p.at r x);
  }

pub Preserves-or_raise_many :
    {P : View → Type 0} {A : Type 0} (s : Scalar A) → Preserves P (or_raise_many s)
Preserves-or_raise_many no_row = Preserves-pure _
Preserves-or_raise_many (one_row a) = Preserves-pure _
Preserves-or_raise_many many_rows = Preserves-raise _

pub ruleset preserves = (
  Preserves-pure, Preserves-raise, Preserves-draw, Preserves-if, Preserves-if_none, Preserves-bind,
  Preserves-try_except, Preserves-query, Preserves-or_raise_many,
)
