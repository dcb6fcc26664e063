-- ===== src/Sockets/Refresh/Samples.antt =====
-- A probe with two sessions and three checks, and the life of one socket.
use worldping_api.Prelude.{
  ℕ, ◌≤◌, ◌≡◌, refl, inl, inr, true, false, some, List, [], ◌∷◌, arith, get_elem?,
}
use worldping_api.Sockets.Refresh.{ProbeSession, CheckWithSlug, send_refresh}
use worldping_api.Sockets.Refresh.Shards.{In, DistinctSockets, checks_of, send_refresh-covers}
use worldping_api.Sockets.Refresh.Single.{
  SocketEvent, Life, refresh_called, refresh_ends, disconnected, new_life, events_run,
  events_run-single,
}

abbrev two_sessions : List ProbeSession
two_sessions =
    record { probe_id = 1; socket_id = "a" } ∷ record { probe_id = 1; socket_id = "b" } ∷ []

abbrev third_check : CheckWithSlug
third_check = record { id = 3; enabled = true; slug = "host" }

abbrev three_checks : List CheckWithSlug
three_checks =
    record { id = 1; enabled = false; slug = "host" }
    ∷ record { id = 2; enabled = true; slug = "host" }
    ∷ third_check
    ∷ []

two_distinct : DistinctSockets two_sessions
two_distinct = ((refl, tt), (tt, tt))

third_listed : In third_check three_checks
third_listed = inr (inr (inl refl))

send_refresh-covers_example :
    ((p : ℕ) × (sess : ProbeSession) × (get_elem? two_sessions p ≡ some sess)
      × In third_check (
          checks_of
            (send_refresh sess.socket_id (some false) (some two_sessions) (some three_checks))))
    × ((p q : ℕ) (s t : ProbeSession)
        → get_elem? two_sessions p ≡ some s
        → get_elem? two_sessions q ≡ some t
        → In third_check (
            checks_of
              (send_refresh s.socket_id (some false) (some two_sessions) (some three_checks)))
        → In third_check (
            checks_of
              (send_refresh t.socket_id (some false) (some two_sessions) (some three_checks)))
        → p ≡ q)
send_refresh-covers_example =
    send_refresh-covers false two_sessions three_checks third_check two_distinct (ground (arith))
      third_listed refl

abbrev some_events : List SocketEvent
some_events = refresh_called 1 ∷ refresh_called 2 ∷ refresh_ends ∷ disconnected ∷ disconnected ∷ []

events_run-single_example :
    (final : Life) × (events_run some_events new_life ≡ some final)
    × (final.flags.done_closed ≡ final.flags.closed)
    × (final.running ≤ 1)
events_run-single_example = events_run-single some_events
