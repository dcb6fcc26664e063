-- ===== src/Store/Probes/Sessions/Trace.antt =====
-- pkg/services/sqlstore/probe.go: runs of the operations on sessions, and what they do to the map from
-- sockets to the probes and instances that they belong to.
use text.Mathlib.Text.{◌==◌ as str_eq}
use worldping_api.Prelude.{
  ℕ, ◌<◌, String, ◌≡◌, Bool, true, false, ◌&&◌, ◌||◌, Option, none, some, List, [], ◌∷◌, All, ◌==◌,
  if◌then◌else◌,
}
use worldping_api.Store.Probes.{SessionRow}
use worldping_api.Store.Probes.Sessions.{
  SessionDb, add_session, update_session, find_session, delete_session, clear_sessions,
}

-- The operations of the store on sessions, each with the reading of the clock.
pub data SessionOp : Type 0 where
  connects : ℕ → SessionRow → SessionOp
  beats : ℕ → SessionRow → SessionOp
  disconnects : ℕ → ℕ → String → SessionOp
  clears : ℕ → String → SessionOp

-- A heartbeat writes the session of the connection with a new time.
unfoldable pub session_step : SessionOp → SessionDb → SessionDb
session_step (connects now s) db = add_session now s db
session_step (beats now s) db = update_session (record s { updated = now }) db
session_step (disconnects now org socket) db = delete_session now org socket db
session_step (clears now instance) db = clear_sessions now instance db

unfoldable pub session_run : List SessionOp → SessionDb → SessionDb
session_run [] db = db
session_run (op ∷ ops) db = session_run ops (session_step op db)

-- Who is connected: the probe and the instance of a socket of an organisation.
abbrev pub Connected : Type 0
Connected = ℕ → String → Option (ℕ × String)

abbrev pub owner : Option SessionRow → Option (ℕ × String)
owner none = none
owner (some s) = some (s.probe_id, s.instance_id)

unfoldable pub view : List SessionRow → Connected
view ss org socket = owner (find_session org socket ss)

abbrev pub unless : Bool → Option (ℕ × String) → Option (ℕ × String)
unless true o = none
unless false o = o

abbrev pub is_of : String → Option (ℕ × String) → Bool
is_of instance none = false
is_of instance (some (probe, i)) = str_eq instance "" || str_eq i instance

-- The same operations on the map.
unfoldable pub connected_step : SessionOp → Connected → Connected
connected_step (connects now s) f org socket =
    if s.org_id == org && str_eq s.socket_id socket
    then some (s.probe_id, s.instance_id)
    else f org socket
connected_step (beats now s) f org socket = f org socket
connected_step (disconnects now o k) f org socket =
    unless (o == org && str_eq k socket) (f org socket)
connected_step (clears now instance) f org socket =
    unless (is_of instance (f org socket)) (f org socket)

unfoldable pub replay : List SessionOp → Connected → Connected
replay [] f = f
replay (op ∷ ops) f = replay ops (connected_step op f)

-- Two rows that say the same of a socket.
pub record SameSocket (s t : SessionRow) : Type 0 where
  pub org : s.org_id ≡ t.org_id
  pub probe : s.probe_id ≡ t.probe_id
  pub socket : s.socket_id ≡ t.socket_id
  pub instance_is : s.instance_id ≡ t.instance_id

-- A socket that connects is not connected, and its probe has an id; a heartbeat says what its row says.
abbrev pub Admits : SessionOp → SessionDb → Type 0
Admits (connects now s) db =
    (0 < s.probe_id) × (find_session s.org_id s.socket_id db.sessions ≡ none)
Admits (beats now s) db = All (λ t. t.id ≡ s.id → SameSocket s t) db.sessions
Admits (disconnects now o k) db = Unit
Admits (clears now i) db = Unit

abbrev pub AdmitsAll : List SessionOp → SessionDb → Type 0
AdmitsAll [] db = Unit
AdmitsAll (op ∷ ops) db = Admits op db × AdmitsAll ops (session_step op db)
