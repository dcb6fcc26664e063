-- ===== src/Store/Session.antt =====
-- pkg/services/sqlstore/shared.go: sessions. The database may refuse to begin a transaction, any
-- statement, and the commit; whether it does is an argument.
use worldping_api.Prelude.{Bool, if◌then◌else◌, Outcome, ok, err}

pub data DbError : Type 0 where
  begin_failed statement_failed : DbError

-- A public function of the store: newSession(true, …), the work, sess.Complete(), and the deferred
-- sess.Cleanup(), which rolls back what has not been committed. Complete drops the commit's error.
unfoldable pub transact :
    {Db A : Type 0} → Bool → Bool → (Db → Outcome DbError (A × Db)) → Db → Outcome DbError A × Db
transact begins commits work db =
    if begins
    then (elim (work db) [
      | err e ↦ (err e, db)
      | ok (a, db') ↦ (ok a, if commits then db' else db)
    ])
    else (err begin_failed, db)
