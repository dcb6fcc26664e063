-- ===== src/Sockets/Events/Session.antt =====
-- pkg/api/socketio.go, EmitCheckEvent: the session that an event of a check goes to is the one whose refresh
-- has the check.
use text.Mathlib.Text.{◌==◌ as str_eq}
use text.Mathlib.TextEquality.{eq_iff}
use mathlib.Core.Option.{some-injective}
use native.Mathlib.Nat.{mod-lt}
use worldping_api.Prelude.{
  ℕ, zero, suc, ◌%◌, String, ◌≡◌, ◌↔◌, refl, sym, ap, ◌∙◌, inl, inr, Bool, true, false, Option,
  none, some, List, [], ◌∷◌, map, length, get_elem?, arith, Bool-cases, if◌then◌else◌,
}
use worldping_api.Sockets.Refresh.{ProbeSession, CheckWithSlug, send_refresh}
use worldping_api.Sockets.Refresh.Shards.{
  In, DistinctSockets, checks_of, send_refresh-shards, get_elem_lt, All-get_elem,
}

-- m.ProbeSession as GetProbeSessions returns it: the socket, the instance that holds it, and whether the
-- version of the probe is before 0.9.1, `none` for a version that is not parsed.
pub record LiveSession : Type 0 where
  pub socket : ProbeSession
  pub open socket use *
  pub instance_id : String
  pub before_checks : Option Bool

-- What sockets.Emit is called with: the socket, and a MonitorDTO or the event as it is. A nil version is
-- a panic.
pub data EventSent : Type 0 where
  sent_monitor sent_check : String → EventSent
  not_sent event_panicked sessions_failed : EventSent

send_event : String → Option Bool → EventSent
send_event socket none = event_panicked
send_event socket (some true) = sent_monitor socket
send_event socket (some false) = sent_check socket

to_instance : String → Option LiveSession → EventSent
unfolding send_event
to_instance instance none = event_panicked
to_instance instance (some s) =
    if str_eq s.instance_id instance then send_event s.socket_id s.before_checks else not_sent

-- The event is a CheckWithSlug, as in every call.
unfoldable pub emit_check_event : String → Option (List LiveSession) → ℕ → EventSent
unfolding to_instance
emit_check_event instance none check_id = sessions_failed
emit_check_event instance (some []) check_id = not_sent
emit_check_event instance (some (s ∷ ss)) check_id =
    to_instance instance (get_elem? (s ∷ ss) (check_id % length (s ∷ ss)))

abbrev pub socket_of : EventSent → Option String
socket_of (sent_monitor s) = some s
socket_of (sent_check s) = some s
socket_of _ = none

socket_of-send_event :
    (socket : String) (b : Bool) → socket_of (send_event socket (some b)) ≡ some socket
unfolding send_event
socket_of-send_event socket true = refl
socket_of-send_event socket false = refl

send_event-socket :
    (socket : String) (o : Option Bool) (s : String)
    → socket_of (send_event socket o) ≡ some s
    → socket ≡ s
unfolding send_event
send_event-socket socket none s h = absurd cc
send_event-socket socket (some true) s h = some-injective socket s h
send_event-socket socket (some false) s h = some-injective socket s h

abbrev pub sockets : List LiveSession → List ProbeSession
sockets = map λ s. s.socket

get_elem-sockets :
    (ss : List LiveSession) (p : ℕ) (s : LiveSession)
    → get_elem? ss p ≡ some s
    → get_elem? (sockets ss) p ≡ some s.socket
get_elem-sockets [] p s h = absurd cc
get_elem-sockets (x ∷ ss) zero s h = ap (λ o. elim o [ none ↦ none | some y ↦ some y.socket ]) h
get_elem-sockets (x ∷ ss) (suc p) s h = get_elem-sockets ss p s h

length-sockets : (ss : List LiveSession) → length (sockets ss) ≡ length ss
length-sockets [] = refl
length-sockets (s ∷ ss) = ap suc (length-sockets ss)

apart : {a b : String} → a ≡ b → str_eq a b ≡ false → ⊥
apart {a} {b} e f = ground (arith, eq_iff a b)

own_socket :
    (instance : String) (t : LiveSession) (s : String)
    → socket_of (to_instance instance (some t)) ≡ some s
    → t.socket_id ≡ s
unfolding to_instance
own_socket instance t s h = elim (Bool-cases (str_eq t.instance_id instance)) [
  | inl e ↦ send_event-socket t.socket_id t.before_checks s (rw e at h)
  | inr e ↦ absurd (let bad : none ≡ some s = rw e at h in cc)
]

sends :
    (instance : String) (s : LiveSession) (old : Bool)
    → s.instance_id ≡ instance
    → s.before_checks ≡ some old
    → socket_of (to_instance instance (some s)) ≡ some s.socket_id
unfolding to_instance
sends instance s old here parsed =
    rw ((eq_iff s.instance_id instance).1 here, parsed) (socket_of-send_event s.socket_id old)

one_position :
    (ss : List ProbeSession) (p q : ℕ) (s t : ProbeSession)
    → DistinctSockets ss
    → get_elem? ss p ≡ some s
    → get_elem? ss q ≡ some t
    → s.socket_id ≡ t.socket_id
    → p ≡ q
one_position [] p q s t d hs ht e = absurd cc
one_position (x ∷ ss) zero zero s t d hs ht e = refl
one_position (x ∷ ss) (suc p) (suc q) s t d hs ht e = ap suc (one_position ss p q s t d.1 hs ht e)
one_position (x ∷ ss) zero (suc q) s t d hs ht e =
    let at : x ≡ s = some-injective x s hs in
    let other = All-get_elem (λ u. str_eq x.socket_id u.socket_id ≡ false) ss q d.0 ht in
    absurd (apart (ap (λ u. u.socket_id) at ∙ e) other)
one_position (x ∷ ss) (suc p) zero s t d hs ht e =
    let at : x ≡ t = some-injective x t ht in
    let other = All-get_elem (λ u. str_eq x.socket_id u.socket_id ≡ false) ss p d.0 hs in
    absurd (apart (ap (λ u. u.socket_id) at ∙ sym e) other)

-- An event of an enabled check goes to the socket of a session of this instance, whose version is parsed, exactly where
-- the refresh of that socket has the check. The sessions are for different sockets, the refresh is
-- made of the same sessions, and the check is one that the database returns for the probe.
pub emit_check_event-send_refresh :
    (instance : String) (ss : List LiveSession) (db_checks : List CheckWithSlug) (c : CheckWithSlug)
    (p : ℕ) (s : LiveSession) (old : Bool)
    → DistinctSockets (sockets ss)
    → get_elem? ss p ≡ some s
    → s.instance_id ≡ instance
    → s.before_checks ≡ some old
    → In c db_checks
    → c.enabled ≡ true
    → (socket_of (emit_check_event instance (some ss) c.id) ≡ some s.socket_id)
      ↔ In c (checks_of (send_refresh s.socket_id (some old) (some (sockets ss)) (some db_checks)))
unfolding emit_check_event
emit_check_event-send_refresh instance [] db c p s old d at here parsed listed enabled = absurd cc
emit_check_event-send_refresh instance (x ∷ ss) db c p s old d at here parsed listed enabled =
    let all = x ∷ ss in
    let shards =
      send_refresh-shards old (sockets all) db p s.socket c d (get_elem-sockets all p s at) in
    let total = length-sockets all in
    let (t, there) = get_elem_lt all (c.id % length all) (mod-lt c.id (omega arith)) in
    (
      λ sent.
          let found : socket_of (to_instance instance (some t)) ≡ some s.socket_id =
            rw there at sent in
          let position =
            one_position (sockets all) (c.id % length all) p t.socket s.socket d
              (get_elem-sockets all _ t there) (get_elem-sockets all p s at)
              (own_socket instance t s.socket_id found) in
          shards.1 (listed, enabled, rw total position),
      λ has.
          let position : c.id % length all ≡ p = rw (← total) ((shards.0 has).2) in
          rw (ap (get_elem? all) position ∙ at) (sends instance s old here parsed),
    )
