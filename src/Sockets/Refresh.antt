-- ===== src/Sockets/Refresh.antt =====
-- pkg/api/sockets/probe.go, ProbeSocket.Refresh and OnDisconnection: which checks a probe's socket is
-- sent, and the flags that keep one refresh of a socket at a time.
-- What the database returns, the clock and the parsed version are arguments; the two kinds of payload
-- carry the same checks, and are told apart by a flag.
pub mod Shards
pub mod Single
mod Samples
use text.Mathlib.Text.{◌==◌ as str_eq}
use worldping_api.Prelude.{
  ℕ, zero, suc, ◌%◌, String, Bool, true, false, not, ◌&&◌, ◌||◌, Option, none, some, List, [], ◌∷◌,
  ◌++◌, length, select, ◌==◌, if◌then◌else◌,
}

-- m.ProbeSession
pub record ProbeSession : Type 0 where
  pub probe_id : ℕ
  pub socket_id : String

-- m.CheckWithSlug: the columns that decide where a check goes.
pub record CheckWithSlug : Type 0 where
  pub id : ℕ
  pub enabled : Bool
  pub slug : String

-- The payload of a "refresh" event: MonitorDTOs for a probe before 0.9.1, checks for the others.
pub data Payload : Type 0 where
  monitors checks : List CheckWithSlug → Payload

-- `check.Check.Id%totalSessions == int64(pos)` for an enabled check.
unfoldable pub is_assigned : ℕ → ℕ → CheckWithSlug → Bool
is_assigned total pos c = c.enabled && c.id % total == pos

-- The loop over the checks.
unfoldable pub assigned : ℕ → ℕ → List CheckWithSlug → List CheckWithSlug
unfolding is_assigned
assigned total pos = select (is_assigned total pos)

-- `v.LessThan(newVer)` on a version that was not parsed is a nil dereference.
pub data Sent : Type 0 where
  emitted : Payload → Sent
  nothing panicked : Sent

send_checks : Option Bool → List CheckWithSlug → Sent
send_checks none cs = panicked
send_checks (some true) cs = emitted (monitors cs)
send_checks (some false) cs = emitted (checks cs)

-- The body of the loop over the sessions, for the session of this socket. A nil version panics at the
-- first use, which is in the loop over the checks or behind it.
on_own_session : Option Bool → ℕ → ℕ → Option (List CheckWithSlug) → Sent
unfolding send_checks
on_own_session version total pos none = nothing
on_own_session version total pos (some cs) = send_checks version (assigned total pos cs)

-- The loop over the sessions from position `pos`, up to the first session of this socket.
refresh_from : String → Option Bool → ℕ → ℕ → List ProbeSession → Option (List CheckWithSlug) → Sent
unfolding on_own_session
refresh_from socket version total pos [] db_checks = nothing
refresh_from socket version total pos (sess ∷ rest) db_checks =
    let later = refresh_from socket version total (suc pos) rest db_checks in
    if str_eq sess.socket_id socket then on_own_session version total pos db_checks else later

-- Refresh behind its guards: `db_sessions` and `db_checks` are what GetProbeSessions and
-- GetProbeChecksWithEndpointSlug return, `none` for an error. The test for no sessions is the empty
-- loop.
unfoldable pub send_refresh :
    String → Option Bool → Option (List ProbeSession) → Option (List CheckWithSlug) → Sent
unfolding refresh_from
send_refresh socket version none db_checks = nothing
send_refresh socket version (some sessions) db_checks =
    refresh_from socket version (length sessions) 0 sessions db_checks

-- The flags of a ProbeSocket. `done_closed` says whether the channel done has been closed.
pub record Flags : Type 0 where
  pub closed : Bool
  pub refreshing : Bool
  pub last_refresh : ℕ
  pub done_closed : Bool

-- The part of Refresh under the first lock: whether the refresh goes on.
unfoldable pub begin_refresh : ℕ → Flags → Bool × Flags
begin_refresh now p =
    if p.closed
    then (false, p)
    else if p.refreshing
    then (false, p)
    else (true, record p { refreshing = true; last_refresh = now })

-- The deferred function.
unfoldable pub end_refresh : Flags → Flags
end_refresh p = record p { refreshing = false }

-- The flags in OnDisconnection. Closing a closed channel panics: `none`.
unfoldable pub disconnect : Flags → Option Flags
disconnect p =
    if not p.closed
    then (if p.done_closed then none else some (record p { closed = true; done_closed = true }))
    else some p
