-- ===== src/Sockets/Events/Samples.antt =====
-- An endpoint whose check moves from one probe to another and which gets a second check, and the session
-- that is told.
use worldping_api.Prelude.{
  ℕ, String, ◌≡◌, ◌↔◌, refl, inl, true, false, Option, none, some, List, [], ◌∷◌, Outcome, ok,
}
use worldping_api.Models.Route.{ids}
use worldping_api.Store.Routing.{RoutedCheck}
use worldping_api.Sockets.Refresh.{CheckWithSlug, send_refresh}
use worldping_api.Sockets.Refresh.Shards.{In, DistinctSockets, checks_of}
use worldping_api.Sockets.Events.{
  EndpointPayload, Emission, old_checks, put_check, find_check, is_known, handle_endpoint_updated,
  handle_endpoint_created, handle_endpoint_deleted, changed_checks, new_checks, is_current, is_seen,
  each_check, emit_changed, emit_to_probes, emit_each, emit_one, emit_dropped, on_probes, and_then,
  after, done,
}
use worldping_api.Sockets.Events.Emitted.{apply, DistinctIds}
use worldping_api.Sockets.Events.Applied.{
  Unchanged, should_run, runs_now, handle_endpoint_updated_lem,
}
use worldping_api.Sockets.Events.Session.{
  LiveSession, emit_check_event, socket_of, sockets, emit_check_event-send_refresh,
}

abbrev routed : ℕ → ℕ → RoutedCheck
routed id probe = record {
  id = id;
  org_id = 1;
  endpoint_id = probe;
  enabled = true;
  route = record { type = "byIds"; config = ("ids", ids (probe ∷ [])) ∷ [] };
}

-- The probe of a check stands for its route.
abbrev probes_of : RoutedCheck → Outcome String (List ℕ)
probes_of c = ok (c.endpoint_id ∷ [])

abbrev no_error : Emission → Option String
no_error e = none

abbrev before : EndpointPayload
before = record {
  slug = "site";
  updated = 5;
  checks =
      record { check = routed 7 1; updated = 5 } ∷ record { check = routed 9 1; updated = 4 } ∷ [];
}

abbrev now : EndpointPayload
now = record {
  slug = "site";
  updated = 8;
  checks =
      record { check = routed 7 2; updated = 8 }
      ∷ record { check = routed 8 1; updated = 8 }
      ∷ record { check = routed 9 1; updated = 4 }
      ∷ [];
}

now-DistinctIds : DistinctIds now.checks
unfolding is_known
now-DistinctIds = (refl, (refl, (refl, tt)))

now-Unchanged : Unchanged probes_of no_error now (old_checks before.checks [])
unfolding old_checks put_check find_check
now-Unchanged = (
  (λ e f. absurd (no_both e f)),
  (
    (λ e f. absurd (no_both e f)),
    ((λ e f. (record { check = routed 9 1; updated = 4 }, refl, refl)), tt),
  ),
)
  where
    no_both : true ≡ true → false ≡ true → ⊥
    no_both e f = cc

not_failed : (handle_endpoint_updated probes_of no_error now before).failed ≡ none
unfolding handle_endpoint_updated old_checks put_check find_check is_known changed_checks new_checks
    is_current is_seen each_check emit_changed emit_to_probes emit_each emit_one emit_dropped
    on_probes and_then after done
not_failed = refl

handle_endpoint_updated_lem_example :
    apply
      (handle_endpoint_updated probes_of no_error now before).emitted
      2
      7
      (should_run probes_of no_error 2 7 (old_checks before.checks []))
    ≡ runs_now probes_of no_error 2 (find_check 7 now.checks)
handle_endpoint_updated_lem_example =
    handle_endpoint_updated_lem probes_of no_error now before 2 7 now-DistinctIds now-Unchanged
      not_failed

abbrev first : LiveSession
first = record {
  socket = record { probe_id = 1; socket_id = "a" };
  instance_id = "x";
  before_checks = some false;
}

abbrev second : LiveSession
second = record first { socket = record { probe_id = 1; socket_id = "b" } }

abbrev host : CheckWithSlug
host = record { id = 3; enabled = true; slug = "host" }

two_sockets : DistinctSockets (sockets (first ∷ second ∷ []))
two_sockets = ((refl, tt), (tt, tt))

emit_check_event-send_refresh_example :
    (socket_of (emit_check_event "x" (some (first ∷ second ∷ [])) 3) ≡ some "b")
    ↔ In host (
        checks_of
          (send_refresh "b" (some false) (some (sockets (first ∷ second ∷ []))) (some (host ∷ []))))
emit_check_event-send_refresh_example =
    emit_check_event-send_refresh "x" (first ∷ second ∷ []) (host ∷ []) host 1 second false
      two_sockets refl refl refl (inl refl) refl

created_whole : (handle_endpoint_created probes_of no_error now).failed ≡ none
unfolding handle_endpoint_created each_check emit_to_probes emit_each emit_one on_probes and_then
    after done
created_whole = refl

deleted_whole : (handle_endpoint_deleted probes_of no_error now).failed ≡ none
unfolding handle_endpoint_deleted each_check emit_to_probes emit_each emit_one on_probes and_then
    after done
deleted_whole = refl
