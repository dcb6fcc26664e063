-- ===== src/Store/Probes/Sessions.antt =====
-- pkg/services/sqlstore/probe.go: the sessions of the probes, and the flag of a probe that says whether
-- it has one. The events that are published are collected, oldest first.
pub mod Online
pub mod Refines
mod Samples
pub mod Size
pub mod Trace
pub mod Views
use text.Mathlib.Text.{◌==◌ as str_eq}
use worldping_api.Prelude.{
  ℕ, zero, suc, String, Bool, true, false, not, ◌&&◌, ◌||◌, Option, none, some, List, [], ◌∷◌, ◌++◌,
  map, select, ltb, ◌==◌, if◌then◌else◌,
}
use worldping_api.Store.Probes.{ProbeRow, SessionRow, kept_number, kept_string}

-- ProbeSessionCreated and ProbeSessionDeleted.
pub data SessionEvent : Type 0 where
  session_created session_deleted : SessionRow → SessionEvent

-- The tables probe and probe_session, the id that the next session gets, and what has been published.
pub record SessionDb : Type 0 where
  pub probes : List ProbeRow
  pub sessions : List SessionRow
  pub next_session : ℕ
  pub published : List SessionEvent

-- UPDATE probe set online=?, online_change=? where id=?
unfoldable pub set_online : Bool → ℕ → ℕ → ProbeRow → ProbeRow
set_online online now id p =
    if p.id == id then record p { online = online; online_change = now } else p

unfoldable pub add_session : ℕ → SessionRow → SessionDb → SessionDb
add_session now s db =
    let s' : SessionRow = record s { id = db.next_session; updated = now } in
    record {
      probes = map (λ p. set_online true now s.probe_id p) db.probes;
      sessions = db.sessions ++ s' ∷ [];
      next_session = suc db.next_session;
      published = db.published ++ session_created s' ∷ [];
    }

-- WHERE org_id=? AND socket_id=?
unfoldable pub is_socket : ℕ → String → SessionRow → Bool
is_socket org socket s = s.org_id == org && str_eq s.socket_id socket

pub patch_session : SessionRow → SessionRow → SessionRow
unfolding kept_number kept_string
patch_session p s =
    if s.id == p.id
    then record {
      id = s.id;
      org_id = kept_number p.org_id s.org_id;
      probe_id = kept_number p.probe_id s.probe_id;
      socket_id = kept_string p.socket_id s.socket_id;
      version = kept_string p.version s.version;
      instance_id = kept_string p.instance_id s.instance_id;
      remote_ip = kept_string p.remote_ip s.remote_ip;
      updated = kept_number p.updated s.updated;
    }
    else s

unfoldable pub update_session : SessionRow → SessionDb → SessionDb
unfolding patch_session
update_session p db = record db { sessions = map (patch_session p) db.sessions }

-- The conditions of getProbeSessions: a probe, an instance and a time, each unless it is zero.
unfoldable pub is_wanted : ℕ → String → ℕ → SessionRow → Bool
is_wanted probe instance since s =
    (probe == 0 || s.probe_id == probe)
    && ((str_eq instance "" || str_eq s.instance_id instance)
        && (since == 0 || ltb since s.updated))

unfoldable pub get_sessions : ℕ → String → ℕ → SessionDb → List SessionRow
unfolding is_wanted
get_sessions probe instance since db = select (is_wanted probe instance since) db.sessions

-- The row that sess.Get finds.
unfoldable pub find_session : ℕ → String → List SessionRow → Option SessionRow
find_session org socket [] = none
find_session org socket (s ∷ ss) =
    let rest = find_session org socket ss in if is_socket org socket s then some s else rest

pub is_empty : List SessionRow → Bool
is_empty [] = true
is_empty (s ∷ ss) = false

-- deleteProbeSession behind the search. The row that was found is deleted, so that some row is.
pub delete_found : ℕ → ℕ → String → SessionDb → Option SessionRow → SessionDb
unfolding is_empty
delete_found now org socket db none = db
delete_found now org socket db (some existing) =
    let db' : SessionDb = record db {
      sessions = select (λ s. not (is_socket org socket s)) db.sessions;
    } in
    record db' {
      probes =
          if is_empty (get_sessions existing.probe_id "" 0 db')
          then map (λ p. set_online false now existing.probe_id p) db.probes
          else db.probes;
      published = db.published ++ session_deleted existing ∷ [];
    }

unfoldable pub delete_session : ℕ → ℕ → String → SessionDb → SessionDb
unfolding delete_found
delete_session now org socket db =
    delete_found now org socket db (find_session org socket db.sessions)

pub delete_each : ℕ → List SessionRow → SessionDb → SessionDb
delete_each now [] db = db
delete_each now (s ∷ ss) db = delete_each now ss (delete_session now s.org_id s.socket_id db)

-- clearProbeSessions
unfoldable pub clear_sessions : ℕ → String → SessionDb → SessionDb
unfolding delete_each
clear_sessions now instance db = delete_each now (get_sessions 0 instance 0 db) db
