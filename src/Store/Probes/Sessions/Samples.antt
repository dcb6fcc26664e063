-- ===== src/Store/Probes/Sessions/Samples.antt =====
-- A probe that connects twice, beats once, and loses both connections, the second as its instance stops.
use worldping_api.Prelude.{◌≡◌, refl, true, false, List, [], ◌∷◌, arith}
use worldping_api.Store.Probes.{ProbeRow, SessionRow}
use worldping_api.Store.Probes.Sessions.{
  SessionDb, add_session, is_socket, update_session, patch_session, find_session,
}
use worldping_api.Store.Probes.Sessions.Online.{IsConsistent}
use worldping_api.Store.Probes.Sessions.Trace.{
  SessionOp, connects, beats, disconnects, clears, session_step, session_run, view, replay,
  AdmitsAll,
}
use worldping_api.Store.Probes.Sessions.Refines.{session_run_refines}

abbrev oslo : ProbeRow
oslo = record {
  id = 4;
  org_id = 1;
  name = "oslo";
  slug = "oslo";
  enabled = true;
  enabled_change = 5;
  public = true;
  online = false;
  online_change = 6;
  created = 3;
  updated = 3;
}

abbrev quiet : SessionDb
quiet = record { probes = oslo ∷ []; sessions = []; next_session = 1; published = [] }

abbrev first : SessionRow
first = record {
  id = 1;
  org_id = 1;
  probe_id = 4;
  socket_id = "s";
  version = "1";
  instance_id = "a";
  remote_ip = "10.0.0.1";
  updated = 7;
}

abbrev second : SessionRow
second = record first { id = 2; socket_id = "t"; instance_id = "b" }

abbrev trace : List SessionOp
trace =
    connects 7 first ∷ connects 8 second ∷ beats 9 first ∷ disconnects 10 1 "s" ∷ clears 11 "b" ∷ []

quiet-IsConsistent : IsConsistent quiet
quiet-IsConsistent = record { flags = (refl, tt); distinct = tt; positive = tt }

trace_admitted : AdmitsAll trace quiet
unfolding session_step add_session update_session patch_session find_session is_socket
trace_admitted = (
  (omega arith, refl),
  (
    (omega arith, refl),
    (
      (
        λ e. record { org = refl; probe = refl; socket = refl; instance_is = refl },
        (λ e. absurd (omega (arith, e)), tt),
      ),
      (tt, (tt, tt)),
    ),
  ),
)

session_run_refines_example :
    IsConsistent (session_run trace quiet)
    × (view (session_run trace quiet).sessions ≡ replay trace (view quiet.sessions))
session_run_refines_example = session_run_refines trace quiet quiet-IsConsistent trace_admitted
