-- ===== src/Store/Action.antt =====
-- Requests as actions: a session and the draws from the environment are passed along, and a raise
-- keeps what was done before it.
use flyrank_backend_capstone.Prelude.{ℕ, suc, Option, none, some}
use flyrank_backend_capstone.Models.{TenantStatus}
use flyrank_backend_capstone.Schemas.{HttpException}
use flyrank_backend_capstone.Clock.{Datetime}
use flyrank_backend_capstone.Store.Schema.{Tables, Change, DbError}
use flyrank_backend_capstone.Store.Database.{Database, Answer, rows, fails}

-- What a process draws from outside, by the number of earlier draws: the clock, `uuid.uuid4`, the
-- sequence of an autoincrement key, and how the driver returns a stored instant.
pub record Env : Type 0 where
  pub now : ℕ → ℕ
  pub uuid4 : ℕ → ℕ
  pub serial : ℕ → ℕ
  pub loaded : ℕ → Datetime

-- The four texts of `PaymentRequiredError` in app/services/quota.py, in their order.
pub data Reason : Type 0 where
  tenant_blocked : TenantStatus → Reason
  no_active_subscription period_ended unknown_plan : Reason

-- `QuotaExceededError`
pub record QuotaExceeded : Type 0 where
  pub limit : ℕ
  pub used : ℕ
  pub requested : ℕ
  pub retry_after_seconds : ℕ

pub data Exception : Type 0 where
  db_error : DbError → Exception
  quota_exceeded : QuotaExceeded → Exception
  payment_required : Reason → Exception
  overflow_error index_error key_error attribute_error type_error lookup_error : Exception
  multiple_results_found value_error invalid_request_error : Exception
  http_exception : HttpException → Exception

pub data Outcome (A : Type 0) : Type 0 where
  returned : A → Outcome A
  raised : Exception → Outcome A

pub record Run (S : Type 0) : Type 0 where
  pub session : S
  pub draws : ℕ

abbrev pub Action : Type 0 → Type 0 → Type 0
Action S A = Run S → Outcome A × Run S

module _ {S A : Type 0} where
  unfoldable pub pure : A → Action S A
  pure a r = (returned a, r)

  unfoldable pub raise : Exception → Action S A
  raise e r = (raised e, r)

  -- `if x is None: …` with the rest of the function in the other branch.
  abbrev pub if_none : {B : Type 0} → Option B → Action S A → (B → Action S A) → Action S A
  if_none none m f = m
  if_none (some b) m f = f b

  -- A value that the clock, `uuid4` or a sequence gives.
  unfoldable pub draw : (ℕ → A) → Action S A
  draw source r = (returned (source r.draws), record r { draws = suc r.draws })

module _ {S A B : Type 0} where
  abbrev pub continue : Outcome A → (A → Action S B) → Run S → Outcome B × Run S
  continue (returned a) f r = f a r
  continue (raised e) f r = (raised e, r)

  infixl 5 ◌>>=◌ ◌>>◌
  unfoldable pub ◌>>=◌ : Action S A → (A → Action S B) → Action S B
  unfolding pure raise draw
  ◌>>=◌ m f r = let (o, r') = m r in continue o f r'

  abbrev pub ◌>>◌ : Action S A → Action S B → Action S B
  m >> n = m >>= λ _. n

-- The outcome after a `finally` block: an exception of the block takes the place of what was.
abbrev pub after_finally : {A B : Type 0} → Outcome A → Outcome B → Outcome A
after_finally o (returned b) = o
after_finally o (raised e) = raised e

module _ {S A : Type 0} where
  abbrev pub handle : Outcome A → (Exception → Action S A) → Run S → Outcome A × Run S
  handle (returned a) h r = (returned a, r)
  handle (raised e) h r = h e r

  -- `try: m` with the `except` clauses as a function; it raises again what it does not handle.
  unfoldable pub try_except : Action S A → (Exception → Action S A) → Action S A
  try_except m h r = let (o, r') = m r in handle o h r'

  -- `try: m` with a `finally` block.
  unfoldable pub finally : {B : Type 0} → Action S A → Action S B → Action S A
  finally m n r = let (o, r') = m r in let (o', r'') = n r' in (after_finally o o', r'')

  abbrev pub raise_if_some : Option DbError → A → Action S A
  raise_if_some none a r = (returned a, r)
  raise_if_some (some e) a r = (raised (db_error e), r)

  abbrev pub answered : Answer → (Tables → A) → Action S A
  answered (rows t) f r = (returned (f t), r)
  answered (fails e) f r = (raised (db_error e), r)

module _ (D : Database) where
  -- One SELECT: `f` is what the statement computes from the tables.
  unfoldable pub query : {A : Type 0} → (Tables → A) → Action D.Session A
  query f r = answered (D.select r.session) f r

  unfoldable pub add : Change → Action D.Session (Unit {0})
  add c r = (returned tt, record r { session = D.add c r.session })

  unfoldable pub flush : Action D.Session (Unit {0})
  flush r = let (e, s) = D.flush r.session in raise_if_some e tt (record r { session = s })

  unfoldable pub commit : Action D.Session (Unit {0})
  commit r = let (e, s) = D.commit r.session in raise_if_some e tt (record r { session = s })

  unfoldable pub rollback : Action D.Session (Unit {0})
  rollback r = (returned tt, record r { session = D.rollback r.session })

  unfoldable pub close : Action D.Session (Unit {0})
  close r = (returned tt, record r { session = D.close r.session })
