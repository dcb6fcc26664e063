-- ===== src/Store/Probes/Sessions/Refines.antt =====
-- pkg/services/sqlstore/probe.go: the sessions refine a map from sockets to the probes and instances that
-- they belong to.
use mathlib.Core.Path.{fun_ext}
use worldping_api.Prelude.{
  ℕ, ◌<◌, String, ◌≡◌, refl, sym, ap, ◌∙◌, false, List, [], ◌∷◌, map, select, All, All-impl,
}
use worldping_api.Store.Probes.{SessionRow}
use worldping_api.Store.Probes.Sessions.{
  SessionDb, add_session, is_socket, update_session, is_wanted, get_sessions, delete_session,
  delete_each, clear_sessions, patch_session, patch_session,
}
use worldping_api.Store.Probes.Sessions.Online.{
  IsConsistent, DistinctSessions, FlagIs, has_session, add_session-IsConsistent,
  delete_found-IsConsistent,
}
use worldping_api.Store.Probes.Sessions.Trace.{
  SessionOp, connects, beats, disconnects, clears, session_step, session_run, view, unless,
  connected_step, replay, SameSocket, Admits, AdmitsAll,
}
use worldping_api.Store.Probes.Sessions.Views.{
  view-add, view-delete, view-delete_each, any_wanted, patch-SameSocket, view-map,
}

is_socket-SameSocket :
    (s t : SessionRow) → SameSocket s t → (o : ℕ) (k : String) → is_socket o k s ≡ is_socket o k t
unfolding is_socket
is_socket-SameSocket s t a o k = rw (a.org, a.socket) refl

module _ (f : SessionRow → SessionRow) where
  has_session-map :
      (id : ℕ) (ss : List SessionRow)
      → All (λ t. SameSocket (f t) t) ss
      → has_session id (map f ss) ≡ has_session id ss
  has_session-map id [] a = refl
  has_session-map id (s ∷ ss) a = rw (a.0.probe, has_session-map id ss a.1) refl

  none_here-map :
      (o : ℕ) (k : String) (ss : List SessionRow)
      → All (λ t. SameSocket (f t) t) ss
      → All (λ t. is_socket o k t ≡ false) ss
      → All (λ t. is_socket o k t ≡ false) (map f ss)
  none_here-map o k [] a d = tt
  none_here-map o k (s ∷ ss) a d =
      (is_socket-SameSocket (f s) s a.0 o k ∙ d.0, none_here-map o k ss a.1 d.1)

  distinct-map :
      (ss : List SessionRow)
      → All (λ t. SameSocket (f t) t) ss
      → DistinctSessions ss
      → DistinctSessions (map f ss)
  distinct-map [] a d = tt
  distinct-map (s ∷ ss) a d = (
    rw (a.0.org, a.0.socket) (none_here-map s.org_id s.socket_id ss a.1 d.0),
    distinct-map ss a.1 d.1,
  )

  positive-map :
      (ss : List SessionRow)
      → All (λ t. SameSocket (f t) t) ss
      → All (λ s. 0 < s.probe_id) ss
      → All (λ s. 0 < s.probe_id) (map f ss)
  positive-map [] a d = tt
  positive-map (s ∷ ss) a d = (rw a.0.probe d.0, positive-map ss a.1 d.1)

beat-SameSocket :
    (s : SessionRow) (now : ℕ) (ss : List SessionRow)
    → All (λ t. t.id ≡ s.id → SameSocket s t) ss
    → All (λ t. SameSocket (patch_session (record s { updated = now }) t) t) ss
beat-SameSocket s now ss same =
    All-impl (λ t. t.id ≡ s.id → SameSocket s t)
      (λ t. SameSocket (patch_session (record s { updated = now }) t) t) ss
      (λ t e.
        patch-SameSocket (record s { updated = now }) t
          (λ at. record {
            org = (e at).org;
            probe = (e at).probe;
            socket = (e at).socket;
            instance_is = (e at).instance_is;
          }))
      same

update_session-IsConsistent :
    (s : SessionRow) (now : ℕ) (db : SessionDb)
    → IsConsistent db
    → All (λ t. t.id ≡ s.id → SameSocket s t) db.sessions
    → IsConsistent (update_session (record s { updated = now }) db)
unfolding update_session
update_session-IsConsistent s now db c same =
    let f = patch_session (record s { updated = now }) in
    let kept = beat-SameSocket s now db.sessions same in
    record {
      flags =
          All-impl (FlagIs db.sessions) (FlagIs (map f db.sessions)) db.probes
            (λ p e. e ∙ sym (has_session-map f p.id db.sessions kept)) c.flags;
      distinct = distinct-map f db.sessions kept c.distinct;
      positive = positive-map f db.sessions kept c.positive;
    }

delete_each-IsConsistent :
    (now : ℕ) (rows : List SessionRow) (db : SessionDb)
    → IsConsistent db
    → IsConsistent (delete_each now rows db)
unfolding delete_each delete_session
delete_each-IsConsistent now [] db c = c
delete_each-IsConsistent now (s ∷ rows) db c =
    delete_each-IsConsistent now rows (delete_session now s.org_id s.socket_id db)
      (delete_found-IsConsistent now s.org_id s.socket_id db _ c refl)

session_step-IsConsistent :
    (op : SessionOp) (db : SessionDb)
    → IsConsistent db
    → Admits op db
    → IsConsistent (session_step op db)
unfolding session_step delete_session clear_sessions
session_step-IsConsistent (connects now s) db c a = add_session-IsConsistent now s db c a.0 a.1
session_step-IsConsistent (beats now s) db c a = update_session-IsConsistent s now db c a
session_step-IsConsistent (disconnects now o k) db c a =
    delete_found-IsConsistent now o k db _ c refl
session_step-IsConsistent (clears now i) db c a =
    delete_each-IsConsistent now (get_sessions 0 i 0 db) db c

view-step :
    (op : SessionOp) (db : SessionDb) (o : ℕ) (k : String)
    → IsConsistent db
    → Admits op db
    → view (session_step op db).sessions o k ≡ connected_step op (view db.sessions) o k
unfolding session_step connected_step add_session update_session delete_session clear_sessions
    get_sessions
view-step (connects now s) db o k c a =
    view-add db.sessions (record s { id = db.next_session; updated = now }) o k a.1
view-step (beats now s) db o k c a =
    view-map (patch_session (record s { updated = now })) db.sessions o k
      (beat-SameSocket s now db.sessions a)
view-step (disconnects now org socket) db o k c a = view-delete now org socket db _ o k refl
view-step (clears now i) db o k c a =
    view-delete_each now (select (is_wanted 0 i 0) db.sessions) db o k
    ∙ ap (λ b. unless b (view db.sessions o k)) (any_wanted o k i db.sessions c.distinct)

-- After any run of connections, heartbeats, disconnections and clearings from consistent tables, the tables are
-- consistent: each probe is marked online exactly where some session is of it. The sessions are the map from
-- sockets to probes and instances that the same run makes of the map at the start. A socket that connects
-- must not have a session, its probe has an id above zero, and a heartbeat says what its row says.
pub session_run_refines :
    (ops : List SessionOp) (db : SessionDb)
    → IsConsistent db
    → AdmitsAll ops db
    → IsConsistent (session_run ops db)
      × (view (session_run ops db).sessions ≡ replay ops (view db.sessions))
unfolding session_run replay
session_run_refines [] db c a = (c, refl)
session_run_refines (op ∷ ops) db c a =
    let next =
      session_run_refines ops (session_step op db) (session_step-IsConsistent op db c a.0) a.1 in
    let step : view (session_step op db).sessions ≡ connected_step op (view db.sessions) =
      fun_ext (λ o. fun_ext (λ k. view-step op db o k c a.0)) in
    (next.0, next.1 ∙ ap (replay ops) step)
