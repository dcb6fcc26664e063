-- ===== src/Sockets/Refresh/Single.antt =====
-- pkg/api/sockets/probe.go: the flags of a socket over its life, for any order of refreshes, ends of
-- refreshes and disconnections.
use worldping_api.Prelude.{
  ℕ, zero, suc, ◌≤◌, ◌≡◌, ◌⊎◌, refl, ◌∙◌, inl, inr, Bool, true, false, Option, none, some, List, [],
  ◌∷◌, arith, Bool-cases,
}
use worldping_api.Sockets.Refresh.{Flags, begin_refresh, end_refresh, disconnect}

-- What happens to a socket: Refresh is called at a time, a refresh that goes on returns, the
-- connection is lost.
pub data SocketEvent : Type 0 where
  refresh_called : ℕ → SocketEvent
  refresh_ends disconnected : SocketEvent

-- The flags with the number of refreshes that have gone on and not returned.
pub record Life : Type 0 where
  pub flags : Flags
  pub running : ℕ

abbrev pub new_life : Life
new_life = record {
  flags = record { closed = false; refreshing = false; last_refresh = 0; done_closed = false };
  running = 0;
}

count_began : ℕ → Bool × Flags → Life
count_began running (true, p) = record { flags = p; running = suc running }
count_began running (false, p) = record { flags = p; running = running }

with_flags : ℕ → Option Flags → Option Life
with_flags running none = none
with_flags running (some p) = some (record { flags = p; running = running })

-- A return needs a refresh that is running.
refresh_returns : ℕ → Flags → Life
unfolding end_refresh
refresh_returns zero p = record { flags = p; running = zero }
refresh_returns (suc running) p = record { flags = end_refresh p; running = running }

-- `none` is a panic.
unfoldable pub event_step : SocketEvent → Life → Option Life
unfolding count_began with_flags refresh_returns begin_refresh disconnect
event_step (refresh_called now) l = some (count_began l.running (begin_refresh now l.flags))
event_step refresh_ends l = some (refresh_returns l.running l.flags)
event_step disconnected l = with_flags l.running (disconnect l.flags)

then_events : Option Life → (Life → Option Life) → Option Life
then_events none k = none
then_events (some l) k = k l

pub events_run : List SocketEvent → Life → Option Life
unfolding then_events
events_run [] l = some l
events_run (e ∷ es) l = then_events (event_step e l) (λ next. events_run es next)

-- The channel is closed exactly when the socket is, and the flag refreshing counts the refreshes.
abbrev pub Sound : Life → Type 0
Sound l =
    (l.flags.done_closed ≡ l.flags.closed)
    × (((l.flags.refreshing ≡ true) × (l.running ≡ 1))
        ⊎ ((l.flags.refreshing ≡ false) × (l.running ≡ 0)))

event_step-Sound :
    (e : SocketEvent) (l next : Life) → Sound l → event_step e l ≡ some next → Sound next
unfolding event_step
event_step-Sound (refresh_called now) l next h eq = ground (arith)
event_step-Sound refresh_ends l next h eq = ground (arith)
event_step-Sound disconnected l next h eq = ground (arith)

event_step-some :
    (e : SocketEvent) (l : Life) → Sound l → (next : Life) × (event_step e l ≡ some next)
unfolding event_step
event_step-some (refresh_called now) l h = (_, refl)
event_step-some refresh_ends l h = (_, refl)
event_step-some disconnected l h = elim (Bool-cases l.flags.closed) [
  | inl e ↦ rw e (_, refl)
  | inr e ↦ rw (e, h.0 ∙ e) (_, refl)
]

events_run-Sound :
    (es : List SocketEvent) (l : Life)
    → Sound l
    → (final : Life) × (events_run es l ≡ some final) × Sound final
unfolding events_run
events_run-Sound [] l h = (l, refl, h)
events_run-Sound (e ∷ es) l h =
    let next = event_step-some e l h in
    let rest = events_run-Sound es next.0 (event_step-Sound e l next.0 h next.1) in
    (rest.0, rw next.1 rest.1, rest.2)

-- Whatever is done to a new socket, nothing panics (its channel is closed once at most, and exactly
-- when it counts as closed), and no two refreshes of it run at the same time.
pub events_run-single :
    (es : List SocketEvent)
    → (final : Life) × (events_run es new_life ≡ some final)
      × (final.flags.done_closed ≡ final.flags.closed)
      × (final.running ≤ 1)
events_run-single es =
    let r = events_run-Sound es new_life (refl, inr (refl, refl)) in
    (r.0, r.1, r.2.0, ground (arith, r.2.1))
