-- ===== src/Store/Probes/Sessions/Size.antt =====
-- pkg/services/sqlstore/probe.go, deleteProbeSession: the number of probes, and whose they are.
use worldping_api.Prelude.{
  ℕ, String, ◌≡◌, refl, false, not, Option, none, some, select, Bool-cases, inl, inr, length,
  length-map, true, any, arith,
}
use worldping_api.Store.Probes.Writes.Named.{is_of, any-map_kept}
use worldping_api.Store.Probes.{SessionRow}
use worldping_api.Store.Probes.Sessions.{
  SessionDb, find_session, set_online, is_empty, get_sessions, is_socket, delete_found,
  delete_session,
}

length-delete_found :
    (now org : ℕ) (socket : String) (d : SessionDb) (found : Option SessionRow)
    → length (delete_found now org socket d found).probes ≡ length d.probes
unfolding delete_found
length-delete_found now org socket d none = refl
length-delete_found now org socket d (some s) =
    elim (Bool-cases (
      is_empty (
        get_sessions s.probe_id "" 0
          (record d { sessions = select (λ t. not (is_socket org socket t)) d.sessions })))) [
            | inl e ↦ rw (e) (length-map (λ p. set_online false now s.probe_id p) d.probes)
            | inr e ↦ rw (e) refl
          ]

pub length-delete_session :
    (now org : ℕ) (socket : String) (d : SessionDb)
    → length (delete_session now org socket d).probes ≡ length d.probes
unfolding delete_session
length-delete_session now org socket d =
    length-delete_found now org socket d (find_session org socket d.sessions)

any-delete_found :
    (now org id owner : ℕ) (socket name : String) (d : SessionDb) (found : Option SessionRow)
    → any (is_of id owner name) d.probes ≡ true
    → any (is_of id owner name) (delete_found now org socket d found).probes ≡ true
unfolding delete_found set_online
any-delete_found now org id owner socket name d none h = h
any-delete_found now org id owner socket name d (some s) h =
    elim (Bool-cases (
      is_empty (
        get_sessions s.probe_id "" 0
          (record d { sessions = select (λ t. not (is_socket org socket t)) d.sessions })))) [
            | inl e ↦ rw (e) (
                any-map_kept (is_of id owner name) (set_online false now s.probe_id) d.probes
                  (λ r k. ground arith) h)
            | inr e ↦ rw (e) h
          ]

pub any-delete_session :
    (now org id owner : ℕ) (socket name : String) (d : SessionDb)
    → any (is_of id owner name) d.probes ≡ true
    → any (is_of id owner name) (delete_session now org socket d).probes ≡ true
unfolding delete_session
any-delete_session now org id owner socket name d =
    any-delete_found now org id owner socket name d (find_session org socket d.sessions)
