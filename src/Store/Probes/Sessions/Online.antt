-- ===== src/Store/Probes/Sessions/Online.antt =====
-- pkg/services/sqlstore/probe.go: the sessions as a map from sockets to probes, and the flag online.
use text.Mathlib.TextEquality.{eq_iff}
use mathlib.Core.Path.{subst}
use mathlib.Core.Option.{some-injective}
use worldping_api.Prelude.{
  ℕ, ◌<◌, String, ◌≡◌, ◌↔◌, refl, sym, ap, ◌∙◌, Bool, true, false, not, ◌||◌, Option, none, some,
  List, [], ◌∷◌, ◌++◌, any, select, All, All-map, All-impl, All-select, All-append, ◌==◌, ==_iff,
  if◌then◌else◌, arith, Bool-cases, inl, inr,
}
use worldping_api.Store.Probes.{ProbeRow, SessionRow}
use worldping_api.Store.Probes.Sessions.{
  SessionDb, set_online, add_session, is_socket, is_wanted, get_sessions, find_session, is_empty,
  delete_found,
}

-- Whether some session is of the probe.
abbrev pub has_session : ℕ → List SessionRow → Bool
has_session id = any λ s. s.probe_id == id

-- No two sessions are of one socket.
abbrev pub DistinctSessions : List SessionRow → Type 0
DistinctSessions [] = Unit
DistinctSessions (s ∷ ss) =
    All (λ t. is_socket s.org_id s.socket_id t ≡ false) ss × DistinctSessions ss

abbrev pub FlagIs : List SessionRow → ProbeRow → Type 0
FlagIs ss p = p.online ≡ has_session p.id ss

-- The flag of each probe says whether it has a session.
pub record IsConsistent (db : SessionDb) : Type 0 where
  pub flags : All (FlagIs db.sessions) db.probes
  pub distinct : DistinctSessions db.sessions
  pub positive : All (λ s. 0 < s.probe_id) db.sessions

has_session-append :
    (id : ℕ) (xs ys : List SessionRow)
    → has_session id (xs ++ ys) ≡ (has_session id xs || has_session id ys)
has_session-append id [] ys = refl
has_session-append id (x ∷ xs) ys = ground (arith, has_session-append id xs ys)

pub find_session-append :
    (org : ℕ) (socket : String) (xs : List SessionRow) (s : SessionRow)
    → find_session org socket (xs ++ s ∷ []) ≡ (elim (find_session org socket xs) [
      | none ↦ if is_socket org socket s then some s else none
      | some t ↦ some t
    ])
unfolding find_session
find_session-append org socket [] s = refl
find_session-append org socket (x ∷ xs) s = ground (arith, find_session-append org socket xs s)

-- A session of another socket than any that is there keeps the sockets distinct.
distinct-append :
    (xs : List SessionRow) (s : SessionRow)
    → DistinctSessions xs
    → find_session s.org_id s.socket_id xs ≡ none
    → DistinctSessions (xs ++ s ∷ [])
unfolding find_session is_socket
distinct-append [] s d f = (tt, tt)
distinct-append (x ∷ xs) s d f = (
  All-append _ xs (s ∷ []) d.0 (
    ground (
      arith,
      ==_iff x.org_id s.org_id,
      ==_iff s.org_id x.org_id,
      eq_iff x.socket_id s.socket_id,
      eq_iff s.socket_id x.socket_id,
    ),
    tt,
  ),
  distinct-append xs s d.1 (ground (arith)),
)

distinct-select :
    (p : SessionRow → Bool) (xs : List SessionRow)
    → DistinctSessions xs
    → DistinctSessions (select p xs)
distinct-select p [] d = tt
distinct-select p (x ∷ xs) d = elim (Bool-cases (p x)) [
  | inl e ↦ rw e (All-select _ p xs d.0, distinct-select p xs d.1)
  | inr e ↦ rw e (distinct-select p xs d.1)
]

pub set_online_lem :
    (b : Bool) (now id : ℕ) (p : ProbeRow)
    → ((set_online b now id p).id ≡ p.id)
      × ((set_online b now id p).online ≡ (if p.id == id then b else p.online))
unfolding set_online
set_online_lem b now id p = (ground (arith), ground (arith))

pub add_session-IsConsistent :
    (now : ℕ) (s : SessionRow) (db : SessionDb)
    → IsConsistent db
    → 0 < s.probe_id
    → find_session s.org_id s.socket_id db.sessions ≡ none
    → IsConsistent (add_session now s db)
unfolding add_session
add_session-IsConsistent now s db c pos fresh =
    let s' : SessionRow = record s { id = db.next_session; updated = now } in
    record {
      flags =
          All-map (FlagIs db.sessions) (FlagIs (db.sessions ++ s' ∷ []))
            (λ p. set_online true now s.probe_id p) db.probes
            (λ p e.
              let (same, flag) = set_online_lem true now s.probe_id p in
              rw (same, flag, has_session-append p.id db.sessions (s' ∷ []))
                (ground (arith, ==_iff p.id s.probe_id, ==_iff s.probe_id p.id)))
            c.flags;
      distinct = distinct-append db.sessions s' c.distinct fresh;
      positive = All-append _ db.sessions (s' ∷ []) c.positive (pos, tt);
    }

select_kept :
    {A : Type 0} (p : A → Bool) (xs : List A)
    → All (λ x. p x ≡ false) xs
    → select (λ x. not (p x)) xs ≡ xs
select_kept p [] a = refl
select_kept p (x ∷ xs) a = rw (a.0, select_kept p xs a.1) refl

pub is_socket_iff :
    (org : ℕ) (socket : String) (s : SessionRow)
    → (is_socket org socket s ≡ true) ↔ ((s.org_id ≡ org) × (s.socket_id ≡ socket))
unfolding is_socket
is_socket_iff org socket s = ground (arith, ==_iff s.org_id org, eq_iff s.socket_id socket)

-- A deletion takes the found session away and no other.
has_session-deleted :
    (org : ℕ) (socket : String) (ss : List SessionRow) (found : SessionRow) (id : ℕ)
    → DistinctSessions ss
    → find_session org socket ss ≡ some found
    → (found.probe_id == id) ≡ false
    → has_session id (select (λ s. not (is_socket org socket s)) ss) ≡ has_session id ss
unfolding find_session
has_session-deleted org socket [] found id d f other = cc
has_session-deleted org socket (s ∷ ss) found id d f other =
    elim (Bool-cases (is_socket org socket s)) [
      | inl e ↦
          let keys = (is_socket_iff org socket s).0 e in
          let rest : All (λ t. is_socket org socket t ≡ false) ss = rw (← keys.0, ← keys.1) d.0 in
          rw (e, select_kept (is_socket org socket) ss rest) (ground (arith))
      | inr e ↦ ground (arith, has_session-deleted org socket ss found id d.1)
    ]

find_session-All :
    (P : SessionRow → Type 0) (org : ℕ) (socket : String) (ss : List SessionRow)
    (found : SessionRow)
    → All P ss
    → find_session org socket ss ≡ some found
    → P found
unfolding find_session
find_session-All P org socket [] found a f = cc
find_session-All P org socket (s ∷ ss) found a f = elim (Bool-cases (is_socket org socket s)) [
  | inl e ↦ subst P (some-injective s found (rw e at f)) a.0
  | inr e ↦ find_session-All P org socket ss found a.1 (rw e at f)
]

get_sessions-probe :
    (id : ℕ) (ss : List SessionRow)
    → 0 < id
    → is_empty (select (is_wanted id "" 0) ss) ≡ not (has_session id ss)
unfolding is_empty is_wanted
get_sessions-probe id [] pos = refl
get_sessions-probe id (s ∷ ss) pos = ground (arith, get_sessions-probe id ss pos)

pub find_session-has :
    (org : ℕ) (socket : String) (ss : List SessionRow) (found : SessionRow)
    → find_session org socket ss ≡ some found
    → has_session found.probe_id ss ≡ true
unfolding find_session
find_session-has org socket [] found f = cc
find_session-has org socket (s ∷ ss) found f = elim (Bool-cases (is_socket org socket s)) [
  | inl e ↦
      let same : s ≡ found = some-injective s found (rw e at f) in
      ground (arith, ap (λ t. t.probe_id) same)
  | inr e ↦ ground (arith, find_session-has org socket ss found (rw e at f))
]

pub delete_found-IsConsistent :
    (now org : ℕ) (socket : String) (db : SessionDb) (o : Option SessionRow)
    → IsConsistent db
    → find_session org socket db.sessions ≡ o
    → IsConsistent (delete_found now org socket db o)
unfolding delete_found get_sessions
delete_found-IsConsistent now org socket db none c f = c
delete_found-IsConsistent now org socket db (some found) c f =
    let left = select (λ s. not (is_socket org socket s)) db.sessions in
    let pos = find_session-All (λ s. 0 < s.probe_id) org socket db.sessions found c.positive f in
    let has = find_session-has org socket db.sessions found f in
    record {
      flags = elim (Bool-cases (has_session found.probe_id left)) [
        | inl more ↦
            rw (get_sessions-probe found.probe_id left pos, more)
              (All-impl (FlagIs db.sessions) (FlagIs left) db.probes (still more has) c.flags)
        | inr last ↦
            rw (get_sessions-probe found.probe_id left pos, last)
              (All-map (FlagIs db.sessions) (FlagIs left)
                (λ p. set_online false now found.probe_id p) db.probes (gone last) c.flags)
      ];
      distinct = distinct-select _ db.sessions c.distinct;
      positive = All-select _ _ db.sessions c.positive;
    }
  where
    still :
        has_session found.probe_id (select (λ s. not (is_socket org socket s)) db.sessions) ≡ true
        → has_session found.probe_id db.sessions ≡ true
        → (p : ProbeRow) → FlagIs db.sessions p
        → FlagIs (select (λ s. not (is_socket org socket s)) db.sessions) p
    still more has p e = elim (Bool-cases (found.probe_id == p.id)) [
      | inl same ↦
          let id : found.probe_id ≡ p.id = (==_iff _ _).0 same in
          rw (← id) (e ∙ rw (← id) (has ∙ sym more))
      | inr other ↦
          e ∙ sym (has_session-deleted org socket db.sessions found p.id c.distinct f other)
    ]

    gone :
        has_session found.probe_id (select (λ s. not (is_socket org socket s)) db.sessions) ≡ false
        → (p : ProbeRow) → FlagIs db.sessions p
        → FlagIs
            (select (λ s. not (is_socket org socket s)) db.sessions)
            (set_online false now found.probe_id p)
    gone last p e =
        let (same, flag) = set_online_lem false now found.probe_id p in
        elim (Bool-cases (found.probe_id == p.id)) [
          | inl at ↦
              let id : found.probe_id ≡ p.id = (==_iff _ _).0 at in
              let test : (p.id == found.probe_id) ≡ true = (==_iff _ _).1 (sym id) in
              rw (same, flag, test, ← id) (sym last)
          | inr other ↦
              let test : (p.id == found.probe_id) ≡ false = ground (arith) in
              rw (same, flag, test)
                (e ∙ sym (has_session-deleted org socket db.sessions found p.id c.distinct f other))
        ]
