-- ===== src/Sockets/Refresh/Shards.antt =====
-- pkg/api/sockets/probe.go, Refresh: the enabled checks of a probe are divided among its sessions.
use text.Mathlib.Text.{◌==◌ as str_eq}
use text.Mathlib.TextEquality.{eq_iff}
use mathlib.Core.Path.{subst}
use mathlib.Core.Option.{some-injective}
use native.Mathlib.Nat.{mod-lt}
use worldping_api.Prelude.{
  ℕ, zero, suc, ◌+◌, ◌%◌, ◌<◌, ◌≡◌, ◌⊎◌, ◌↔◌, refl, ap, sym, ◌∙◌, inl, inr, Bool, true, false,
  Option, some, List, [], ◌∷◌, All, length, select, get_elem?, arith, Bool-cases,
}
use worldping_api.Sockets.Refresh.{
  ProbeSession, CheckWithSlug, monitors, checks, Sent, emitted, nothing, panicked, is_assigned,
  assigned, send_checks, on_own_session, refresh_from, send_refresh,
}

-- The element is in the list.
abbrev pub In : {A : Type 0} → A → List A → Type 0
In x [] = ⊥
In x (y ∷ ys) = (x ≡ y) ⊎ In x ys

abbrev pub checks_of : Sent → List CheckWithSlug
checks_of (emitted (monitors cs)) = cs
checks_of (emitted (checks cs)) = cs
checks_of nothing = []
checks_of panicked = []

-- No two sessions are for the same socket.
abbrev pub DistinctSockets : List ProbeSession → Type 0
DistinctSockets [] = Unit
DistinctSockets (s ∷ ss) = All (λ t. str_eq s.socket_id t.socket_id ≡ false) ss × DistinctSockets ss

no_both : {b : Bool} → b ≡ true → b ≡ false → ⊥
no_both e f = cc

In-select :
    {A : Type 0} (p : A → Bool) (x : A) (xs : List A)
    → In x (select p xs) ↔ (In x xs × (p x ≡ true))
In-select p x [] = (λ h. absurd h, λ h. h.0)
In-select p x (y ∷ ys) =
    let ih = In-select p x ys in
    elim (Bool-cases (p y)) [
      | inl e ↦ rw e (
        λ h. elim h [ inl q ↦ (inl q, ap p q ∙ e) | inr m ↦ (inr (ih.0 m).0, (ih.0 m).1) ],
        λ h. elim h.0 [ inl q ↦ inl q | inr m ↦ inr (ih.1 (m, h.1)) ],
      )
      | inr e ↦ rw e (
        λ m. (inr (ih.0 m).0, (ih.0 m).1),
        λ h. elim h.0 [ inl q ↦ absurd (no_both (sym (ap p q) ∙ h.1) e) | inr m ↦ ih.1 (m, h.1) ],
      )
    ]

some_of : {A : Type 0} (P : A → Type 0) (y x : A) → some y ≡ some x → P y → P x
some_of P y x e h = subst P (some-injective y x e) h

pub All-get_elem :
    {A : Type 0} (P : A → Type 0) (xs : List A) (i : ℕ) {x : A}
    → All P xs
    → get_elem? xs i ≡ some x
    → P x
All-get_elem P [] i h e = cc
All-get_elem P (y ∷ ys) zero {x} h e = some_of P y x e h.0
All-get_elem P (y ∷ ys) (suc i) h e = All-get_elem P ys i h.1 e

pub get_elem_lt :
    {A : Type 0} (xs : List A) (i : ℕ) → i < length xs → (x : A) × (get_elem? xs i ≡ some x)
get_elem_lt [] i h = absurd (omega arith)
get_elem_lt (x ∷ xs) zero h = (x, refl)
get_elem_lt (x ∷ xs) (suc i) h = get_elem_lt xs i (omega arith)

omega_zero : (pos : ℕ) → pos + 0 ≡ pos
omega_zero pos = omega arith

step_pos : (pos p : ℕ) → pos + suc p ≡ suc pos + p
step_pos pos p = omega arith

refresh_from-own :
    (version : Option Bool) (total pos : ℕ) (sessions : List ProbeSession) (p : ℕ)
    (sess : ProbeSession) (db_checks : Option (List CheckWithSlug))
    → DistinctSockets sessions
    → get_elem? sessions p ≡ some sess
    → refresh_from sess.socket_id version total pos sessions db_checks
      ≡ on_own_session version total (pos + p) db_checks
unfolding refresh_from
refresh_from-own version total pos [] p sess db d e = cc
refresh_from-own version total pos (s ∷ ss) zero sess db d e =
    let same : s ≡ sess = some-injective s sess e in
    rw ((eq_iff s.socket_id sess.socket_id).1 (ap (λ t. t.socket_id) same), omega_zero pos) refl
refresh_from-own version total pos (s ∷ ss) (suc p) sess db d e =
    let ih = refresh_from-own version total (suc pos) ss p sess db d.1 e in
    let other = All-get_elem (λ t. str_eq s.socket_id t.socket_id ≡ false) ss p d.0 e in
    rw (other, step_pos pos p) ih

checks_of-send_checks :
    (old : Bool) (cs : List CheckWithSlug) → checks_of (send_checks (some old) cs) ≡ cs
unfolding send_checks
checks_of-send_checks true cs = refl
checks_of-send_checks false cs = refl

zero_plus : (p : ℕ) → 0 + p ≡ p
zero_plus p = omega arith

checks_of-on_own :
    (old : Bool) (total p : ℕ) (db : List CheckWithSlug)
    → checks_of (on_own_session (some old) total (0 + p) (some db))
      ≡ select (is_assigned total p) db
unfolding on_own_session assigned
checks_of-on_own old total p db =
    rw (zero_plus p) (checks_of-send_checks old (select (is_assigned total p) db))

is_assigned_iff :
    (total pos : ℕ) (c : CheckWithSlug)
    → (is_assigned total pos c ≡ true) ↔ ((c.enabled ≡ true) × (c.id % total ≡ pos))
unfolding is_assigned
is_assigned_iff total pos c = ground (arith)

-- When the sessions of a probe are for different sockets, the socket of the session at position p is
-- sent a check if and only if the check is one of those the database returned, is enabled, and its id
-- leaves the remainder p on division by the number of sessions.
pub send_refresh-shards :
    (old : Bool) (sessions : List ProbeSession) (db_checks : List CheckWithSlug) (p : ℕ)
    (sess : ProbeSession) (c : CheckWithSlug)
    → DistinctSockets sessions
    → get_elem? sessions p ≡ some sess
    → In c (checks_of (send_refresh sess.socket_id (some old) (some sessions) (some db_checks)))
      ↔ (In c db_checks × (c.enabled ≡ true) × (c.id % length sessions ≡ p))
unfolding send_refresh assigned
send_refresh-shards old sessions db p sess c d e =
    let total = length sessions in
    let iff = In-select (is_assigned total p) c db in
    let own = is_assigned_iff total p c in
    rw
      (
        refresh_from-own (some old) total 0 sessions p sess (some db) d e,
        checks_of-on_own old total p db,
      )
      (
        λ h. ((iff.0 h).0, (own.0 (iff.0 h).1).0, (own.0 (iff.0 h).1).1),
        λ h. iff.1 (h.0, own.1 (h.1, h.2)),
      )

-- When the sessions of a probe are for different sockets and there is one at least, every enabled
-- check that the database returned is sent to the socket of some session, and two sessions whose
-- sockets are sent the same check are at the same position.
pub send_refresh-covers :
    (old : Bool) (sessions : List ProbeSession) (db_checks : List CheckWithSlug) (c : CheckWithSlug)
    → DistinctSockets sessions
    → 0 < length sessions
    → In c db_checks
    → c.enabled ≡ true
    → ((p : ℕ) × (sess : ProbeSession) × (get_elem? sessions p ≡ some sess)
        × In c
            (checks_of (send_refresh sess.socket_id (some old) (some sessions) (some db_checks))))
      × ((p q : ℕ) (s t : ProbeSession)
          → get_elem? sessions p ≡ some s
          → get_elem? sessions q ≡ some t
          → In c (checks_of (send_refresh s.socket_id (some old) (some sessions) (some db_checks)))
          → In c (checks_of (send_refresh t.socket_id (some old) (some sessions) (some db_checks)))
          → p ≡ q)
send_refresh-covers old sessions db c d pos m on =
    let at = get_elem_lt sessions (c.id % length sessions) (mod-lt c.id pos) in
    (
      (
        c.id % length sessions,
        at.0,
        at.1,
        (send_refresh-shards old sessions db _ at.0 c d at.1).1 (m, on, refl),
      ),
      λ p q s t ep eq hp hq.
          sym ((send_refresh-shards old sessions db p s c d ep).0 hp).2
          ∙ ((send_refresh-shards old sessions db q t c d eq).0 hq).2,
    )
