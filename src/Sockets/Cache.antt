-- ===== src/Sockets/Cache.antt =====
-- pkg/api/sockets/sockets.go: the cache of the sockets that are connected to this process, and the
-- loop that gathers requests for a refresh. The locks make each operation one step. The iteration
-- order of the map is that of its list.
pub mod Queue
mod Samples
use text.Mathlib.Text.{◌==◌ as str_eq}
use worldping_api.Prelude.{
  ℕ, suc, String, Bool, true, false, Option, none, some, List, [], ◌∷◌, ◌++◌, map, select, ◌==◌,
  if◌then◌else◌,
}
use worldping_api.Prelude.Int.{ℤ, pos, ◌+ℤ◌, ◌-ℤ◌}
use worldping_api.Prelude.Assoc.{Assoc, lookup, insert, without}
use worldping_api.Prelude.Sets.{enter}

-- A ProbeSocket, by the parts of its probe that the cache reads or writes.
pub record CachedSocket : Type 0 where
  pub probe_id : ℕ
  pub probe_slug : String

-- The sockets by their ids, and the gauge ProbesConnected.
pub record SocketCache : Type 0 where
  pub sockets : Assoc CachedSocket
  pub connected : ℤ

unfoldable pub set_socket : String → CachedSocket → SocketCache → SocketCache
set_socket id sock c = record {
  sockets = insert id sock c.sockets;
  connected = c.connected +ℤ pos 1;
}

unfoldable pub remove_socket : String → SocketCache → SocketCache
remove_socket id c = record { sockets = without id c.sockets; connected = c.connected -ℤ pos 1 }

-- The counters of Emit.
pub record EmitCounters : Type 0 where
  pub updates_sent : ℕ
  pub creates_sent : ℕ
  pub removes_sent : ℕ

unfoldable pub count_event : String → EmitCounters → EmitCounters
count_event event n =
    if str_eq event "updated"
    then record n { updates_sent = suc n.updates_sent }
    else if str_eq event "created"
    then record n { creates_sent = suc n.creates_sent }
    else if str_eq event "removed"
    then record n { removes_sent = suc n.removes_sent }
    else n

emit_to :
    Option CachedSocket → String → String → EmitCounters → List (String × String) × EmitCounters
unfolding count_event
emit_to none id event n = ([], n)
emit_to (some sock) id event n = ((id, event) ∷ [], count_event event n)

-- Emit: the messages to sockets, each with the id of the socket.
unfoldable pub emit :
    String → String → SocketCache → EmitCounters → List (String × String) × EmitCounters
unfolding emit_to
emit id event c n = emit_to (lookup id c.sockets) id event n

-- refresh: the sockets on which Refresh is called.
unfoldable pub refresh_probe : ℕ → SocketCache → List String
refresh_probe id c = map (λ e. e.0) (select (λ e. e.1.probe_id == id) c.sockets)

-- UpdateProbe: the sockets of the probe are given it, and a ready event each.
unfoldable pub update_probe : CachedSocket → SocketCache → List String × SocketCache
update_probe probe c = (
  map (λ e. e.0) (select (λ e. e.1.probe_id == probe.probe_id) c.sockets),
  record c {
    sockets = map (λ e. (e.0, if e.1.probe_id == probe.probe_id then probe else e.1)) c.sockets;
  },
)

-- The state of refreshQueue; `refreshed` lists the probes for which refresh has been called, oldest
-- first.
pub record RefreshQueue : Type 0 where
  pub buffer : List ℕ
  pub refreshed : List ℕ

-- A case of the select loop: a request from the channel, or the ticker.
pub data QueueEvent : Type 0 where
  requested : ℕ → QueueEvent
  ticked : QueueEvent

process : List ℕ → RefreshQueue → RefreshQueue
process [] q = q
process (id ∷ ids) q = record { buffer = []; refreshed = q.refreshed ++ enter ◌==◌ (id ∷ ids) [] }

unfoldable pub queue_step : QueueEvent → RefreshQueue → RefreshQueue
unfolding process
queue_step (requested id) q = record q { buffer = q.buffer ++ id ∷ [] }
queue_step ticked q = process q.buffer q

unfoldable pub queue_run : List QueueEvent → RefreshQueue → RefreshQueue
queue_run [] q = q
queue_run (e ∷ es) q = queue_run es (queue_step e q)
