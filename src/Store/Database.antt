-- ===== src/Store/Database.antt =====
-- The database session (SQLAlchemy's `AsyncSession` over PostgreSQL or SQLite) as an interface.
-- The library is not part of the repository: it is a parameter, and `IsLawful` names what the
-- program relies on, by the view that a session's statements have of the tables.
use flyrank_backend_capstone.Prelude.{
  refl, ◌≡◌, Bool, true, false, Option, none, some, List, [], ◌∷◌, ◌++◌, if◌then◌else◌,
}
use flyrank_backend_capstone.Store.Schema.{
  Tables, Change, DbError, pending_rollback_error, Applied, applied, refused, apply_changes,
}

-- A statement's answer: the tables that it reads, or the error that it raises.
pub data Answer : Type 0 where
  rows : Tables → Answer
  fails : DbError → Answer

pub record Database : Type 1 where
  pub Session : Type 0
  -- the tables that a SELECT of this session reads
  pub select : Session → Answer
  -- `session.add(row)`, and the assignment of an attribute of a loaded row
  pub add : Change → Session → Session
  pub flush : Session → Option DbError × Session
  pub commit : Session → Option DbError × Session
  pub rollback : Session → Session
  -- `session.close()`: what was not committed is gone, and the connection goes back to the pool
  pub close : Session → Session

-- What a session shows: the committed tables, those with its own flushed changes, the changes that
-- are not flushed yet (the session is opened with `autoflush=False`), and whether a flush failed.
pub record View : Type 0 where
  pub stored : Tables
  pub visible : Tables
  pub pending : List Change
  pub failed : Bool

-- The contract of each operation, for a session that no other one interferes with.
unfoldable pub view_select : View → Answer
view_select v = if v.failed then fails pending_rollback_error else rows v.visible

unfoldable pub view_add : Change → View → View
view_add c v = record v { pending = v.pending ++ c ∷ [] }

abbrev pub flushed : Applied → View → Option DbError × View
flushed (applied t) v = (none, record v { visible = t; pending = [] })
flushed (refused e) v = (some e, record v { failed = true })

unfoldable pub view_flush : View → Option DbError × View
view_flush v =
    if v.failed
    then (some pending_rollback_error, v)
    else flushed (apply_changes v.pending v.visible) v

abbrev pub committed : Applied → View → Option DbError × View
committed (applied t) v = (none, record v { stored = t; visible = t; pending = [] })
committed (refused e) v = (some e, record v { failed = true })

unfoldable pub view_commit : View → Option DbError × View
view_commit v =
    if v.failed
    then (some pending_rollback_error, v)
    else committed (apply_changes v.pending v.visible) v

unfoldable pub view_rollback : View → View
view_rollback v = record { stored = v.stored; visible = v.stored; pending = []; failed = false }

unfoldable pub view_close : View → View
view_close v = record { stored = v.stored; visible = v.stored; pending = []; failed = false }

-- The contract itself is a database.
abbrev pub contract : Database
contract = record {
  Session = View;
  select = view_select;
  add = view_add;
  flush = view_flush;
  commit = view_commit;
  rollback = view_rollback;
  close = view_close;
}

-- A session type meets the contract through a view.
pub record IsLawful (D : Database) (view : D.Session → View) : Type 0 where
  pub select_lem : (s : D.Session) → D.select s ≡ view_select (view s)
  pub add_lem : (c : Change) (s : D.Session) → view (D.add c s) ≡ view_add c (view s)
  pub flush_error : (s : D.Session) → (D.flush s).0 ≡ (view_flush (view s)).0
  pub flush_view : (s : D.Session) → view (D.flush s).1 ≡ (view_flush (view s)).1
  pub commit_error : (s : D.Session) → (D.commit s).0 ≡ (view_commit (view s)).0
  pub commit_view : (s : D.Session) → view (D.commit s).1 ≡ (view_commit (view s)).1
  pub rollback_view : (s : D.Session) → view (D.rollback s) ≡ view_rollback (view s)
  pub close_view : (s : D.Session) → view (D.close s) ≡ view_close (view s)

-- The contract meets itself.
pub contract-IsLawful : IsLawful contract (λ v. v)
contract-IsLawful = record {
  select_lem = λ s. refl;
  add_lem = λ c s. refl;
  flush_error = λ s. refl;
  flush_view = λ s. refl;
  commit_error = λ s. refl;
  commit_view = λ s. refl;
  rollback_view = λ s. refl;
  close_view = λ s. refl;
}

-- A session that has just been opened on some tables.
abbrev pub opened : Tables → View
opened t = record { stored = t; visible = t; pending = []; failed = false }
