-- ===== src/Store/Request.antt =====
-- `get_db` of app/db/session.py: one session for each request, rolled back on an exception and closed.
use flyrank_backend_capstone.Prelude.{◌≡◌, refl}
use flyrank_backend_capstone.Store.Database.{
  Database, View, IsLawful, opened, view_rollback, view_close,
}
use flyrank_backend_capstone.Store.Action.{
  Run, Outcome, returned, raised, Action, raise, ◌>>=◌, ◌>>◌, try_except, finally, rollback, close,
  handle,
}

-- The request `m` with its session from `get_db`.
unfoldable pub get_db : {A : Type 0} (D : Database) → Action D.Session A → Action D.Session A
get_db D m = finally (try_except m (λ e. rollback D >> raise e)) (close D)

module _ {A : Type 0} {D : Database} {view : D.Session → View} (lawful : IsLawful D view) where
  closed_view :
      (o : Outcome A) (r : Run D.Session)
      → view (D.close (handle o (λ e. rollback D >> raise e) r).1.session)
        ≡ opened (view r.session).stored
  unfolding rollback raise ◌>>=◌ view_rollback view_close
  closed_view (returned a) r = rw (lawful.close_view r.session) refl
  closed_view (raised e) r =
      rw (lawful.close_view (D.rollback r.session), lawful.rollback_view r.session) refl

  same_outcome :
      (o : Outcome A) (r : Run D.Session) → (handle o (λ e. rollback D >> raise e) r).0 ≡ o
  unfolding rollback raise ◌>>=◌
  same_outcome (returned a) r = refl
  same_outcome (raised e) r = refl

  -- Whatever a request does and however it ends, its outcome is passed on, and the session that
  -- `get_db` leaves is a new one on the tables that the request committed: no change that was
  -- added or flushed but not committed is left, and no failed flush.
  pub get_db-opened :
      (m : Action D.Session A) (r : Run D.Session)
      → ((get_db D m r).0 ≡ (m r).0)
        × (view (get_db D m r).1.session ≡ opened (view (m r).1.session).stored)
  unfolding get_db finally try_except close
  get_db-opened m r = let (o, r') = m r in (same_outcome o r', closed_view o r')
