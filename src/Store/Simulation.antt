-- ===== src/Store/Simulation.antt =====
-- Any lawful session runs an action as the contract does: one rule for each way to build an action.
use flyrank_backend_capstone.Prelude.{
  ℕ, ◌≡◌, refl, ap, ◌∙◌, Bool, true, false, Option, none, some, if◌then◌else◌,
}
use flyrank_backend_capstone.Store.Schema.{Tables, Change, DbError}
use flyrank_backend_capstone.Store.Database.{
  Database, View, IsLawful, contract, view_select, Answer, rows, fails,
}
use flyrank_backend_capstone.Store.Action.{
  Run, Outcome, returned, raised, Exception, Action, pure, raise, draw, if_none, ◌>>=◌, try_except,
  query, add, flush, commit, rollback, handle, continue, answered, raise_if_some,
}

-- The run of a session, seen through its view.
abbrev pub through : {S : Type 0} → (S → View) → Run S → Run View
through view r = record { session = view r.session; draws = r.draws }

-- An outcome and the run after it, seen through the session's view.
abbrev pub seen : {S A : Type 0} → (S → View) → Outcome A × Run S → Outcome A × Run View
seen view (o, r) = (o, through view r)

-- From every run, the action and its counterpart over views have the same outcome and the same view.
pub record Simulates {S A : Type 0} (view : S → View) (m : Action S A) (n : Action View A)
    : Type 0 where
  pub at : (r : Run S) → seen view (m r) ≡ n (through view r)

module _ {S A : Type 0} {view : S → View} where
  pub Simulates-pure : (a : A) → Simulates view (pure a) (pure a)
  unfolding pure
  Simulates-pure a = record { at = λ r. refl }

  pub Simulates-raise : (e : Exception) → Simulates view (raise {A = A} e) (raise e)
  unfolding raise
  Simulates-raise e = record { at = λ r. refl }

  pub Simulates-draw : (source : ℕ → A) → Simulates view (draw source) (draw source)
  unfolding draw
  Simulates-draw source = record { at = λ r. refl }

  pub Simulates-if :
      (b : Bool) {m m' : Action S A} {n n' : Action View A}
      → Simulates view m n
      → Simulates view m' n'
      → Simulates view (if b then m else m') (if b then n else n')
  Simulates-if true p q = p
  Simulates-if false p q = q

  pub Simulates-if_none :
      {B : Type 0} (o : Option B) {m : Action S A} {n : Action View A} {f : B → Action S A}
      {g : B → Action View A}
      → Simulates view m n
      → ((b : B) → Simulates view (f b) (g b))
      → Simulates view (if_none o m f) (if_none o n g)
  Simulates-if_none none p q = p
  Simulates-if_none (some b) p q = q b

  handle-Simulates :
      (h : Exception → Action S A) (k : Exception → Action View A)
      → ((e : Exception) → Simulates view (h e) (k e))
      → (o : Outcome A) (r : Run S) → seen view (handle o h r) ≡ handle o k (through view r)
  handle-Simulates h k q (returned a) r = refl
  handle-Simulates h k q (raised e) r = (q e).at r

  pub Simulates-try_except :
      {m : Action S A} {n : Action View A} {h : Exception → Action S A}
      {k : Exception → Action View A}
      → Simulates view m n
      → ((e : Exception) → Simulates view (h e) (k e))
      → Simulates view (try_except m h) (try_except n k)
  unfolding try_except
  Simulates-try_except {m} {n} {h} {k} p q = record {
    at = λ r.
        let (o, r') = m r in
        handle-Simulates h k q o r' ∙ ap (λ (x : Outcome A × Run View). handle x.0 k x.1) (p.at r);
  }

module _ {S A B : Type 0} {view : S → View} where
  continue-Simulates :
      (f : A → Action S B) (g : A → Action View B)
      → ((a : A) → Simulates view (f a) (g a))
      → (o : Outcome A) (r : Run S) → seen view (continue o f r) ≡ continue o g (through view r)
  continue-Simulates f g q (returned a) r = (q a).at r
  continue-Simulates f g q (raised e) r = refl

  pub Simulates-bind :
      {m : Action S A} {n : Action View A} {f : A → Action S B} {g : A → Action View B}
      → Simulates view m n
      → ((a : A) → Simulates view (f a) (g a))
      → Simulates view (m >>= f) (n >>= g)
  unfolding ◌>>=◌
  Simulates-bind {m} {n} {f} {g} p q = record {
    at = λ r.
        let (o, r') = m r in
        continue-Simulates f g q o r'
        ∙ ap (λ (x : Outcome A × Run View). continue x.0 g x.1) (p.at r);
  }

module _ {S A : Type 0} (view : S → View) where
  answered-Simulates :
      (a : Answer) (f : Tables → A) (r : Run S)
      → seen view (answered a f r) ≡ answered a f (through view r)
  answered-Simulates (rows t) f r = refl
  answered-Simulates (fails e) f r = refl

  raise_if_some-Simulates :
      (e : Option DbError) (a : A) (r : Run S)
      → seen view (raise_if_some e a r) ≡ raise_if_some e a (through view r)
  raise_if_some-Simulates none a r = refl
  raise_if_some-Simulates (some e) a r = refl

module _ {D : Database} {view : D.Session → View} (lawful : IsLawful D view) where
  pub Simulates-query :
      {A : Type 0} (f : Tables → A) → Simulates view (query D f) (query contract f)
  unfolding query
  Simulates-query f = record {
    at = λ r.
        rw (lawful.select_lem r.session)
          (answered-Simulates view (view_select (view r.session)) f r);
  }

  pub Simulates-add : (c : Change) → Simulates view (add D c) (add contract c)
  unfolding add
  Simulates-add c = record { at = λ r. rw (lawful.add_lem c r.session) }

  pub Simulates-flush : Simulates view (flush D) (flush contract)
  unfolding flush
  Simulates-flush = record {
    at = λ r.
        let s = (D.flush r.session).1 in
        rw (raise_if_some-Simulates view (D.flush r.session).0 tt (record r { session = s }))
          (rw (lawful.flush_error r.session, lawful.flush_view r.session));
  }

  pub Simulates-commit : Simulates view (commit D) (commit contract)
  unfolding commit
  Simulates-commit = record {
    at = λ r.
        let s = (D.commit r.session).1 in
        rw (raise_if_some-Simulates view (D.commit r.session).0 tt (record r { session = s }))
          (rw (lawful.commit_error r.session, lawful.commit_view r.session));
  }

  pub Simulates-rollback : Simulates view (rollback D) (rollback contract)
  unfolding rollback
  Simulates-rollback = record { at = λ r. rw (lawful.rollback_view r.session) }

pub ruleset simulation = (
  Simulates-pure, Simulates-raise, Simulates-draw, Simulates-if, Simulates-if_none, Simulates-bind,
  Simulates-try_except, Simulates-query, Simulates-add, Simulates-flush, Simulates-commit,
  Simulates-rollback,
)
