-- ===== src/Store/Probes/Sessions/Views.antt =====
-- pkg/services/sqlstore/probe.go: what each operation on sessions does to the map from sockets.
use text.Mathlib.Text.{◌==◌ as str_eq}
use text.Mathlib.TextEquality.{eq_iff}
use worldping_api.Prelude.{
  ℕ, String, ◌≡◌, refl, ◌∙◌, Bool, false, not, ◌&&◌, ◌||◌, Option, none, some, List, [], ◌∷◌, ◌++◌,
  map, any, select, All, ◌==◌, ==_iff, if◌then◌else◌, arith, Bool-cases, inl, inr,
}
use worldping_api.Store.Probes.{SessionRow, kept_number_same, kept_string_same}
use worldping_api.Store.Probes.Sessions.{
  SessionDb, is_socket, is_wanted, find_session, delete_found, delete_session, delete_each,
  patch_session, patch_session,
}
use worldping_api.Store.Probes.Sessions.Online.{
  DistinctSessions, find_session-append, is_socket_iff,
}
use worldping_api.Store.Probes.Sessions.Trace.{view, unless, is_of, SameSocket}

find_session-deleted :
    (org : ℕ) (socket : String) (ss : List SessionRow) (o : ℕ) (k : String)
    → find_session o k (select (λ s. not (is_socket org socket s)) ss)
      ≡ (if org == o && str_eq socket k then none else find_session o k ss)
unfolding find_session is_socket
find_session-deleted org socket [] o k = ground (arith)
find_session-deleted org socket (s ∷ ss) o k = ground (
  arith,
  find_session-deleted org socket ss o k,
  ==_iff s.org_id org,
  ==_iff s.org_id o,
  ==_iff org o,
  eq_iff s.socket_id socket,
  eq_iff s.socket_id k,
  eq_iff socket k,
)

pub view-add :
    (ss : List SessionRow) (s : SessionRow) (org : ℕ) (socket : String)
    → find_session s.org_id s.socket_id ss ≡ none
    → view (ss ++ s ∷ []) org socket ≡ (
        if s.org_id == org && str_eq s.socket_id socket
        then some (s.probe_id, s.instance_id)
        else view ss org socket)
unfolding view is_socket
view-add ss s org socket fresh = elim (Bool-cases (is_socket org socket s)) [
  | inl e ↦
      let keys = (is_socket_iff org socket s).0 e in
      let none_here : find_session org socket ss ≡ none = rw (← keys.0, ← keys.1) fresh in
      rw (find_session-append org socket ss s, none_here, e) refl
  | inr e ↦ ground (arith, find_session-append org socket ss s)
]

pub view-delete :
    (now org : ℕ) (socket : String) (db : SessionDb) (f : Option SessionRow) (o : ℕ) (k : String)
    → find_session org socket db.sessions ≡ f
    → view (delete_found now org socket db f).sessions o k
      ≡ unless (org == o && str_eq socket k) (view db.sessions o k)
unfolding view delete_found
view-delete now org socket db none o k e = elim (Bool-cases (org == o && str_eq socket k)) [
  | inl same ↦
      let org_is : org ≡ o = ground (arith, ==_iff org o) in
      let socket_is : socket ≡ k = ground (arith, eq_iff socket k) in
      rw (same, ← org_is, ← socket_is, e) refl
  | inr other ↦ rw other refl
]
view-delete now org socket db (some s) o k e = elim (Bool-cases (org == o && str_eq socket k)) [
  | inl same ↦ rw (find_session-deleted org socket db.sessions o k, same) refl
  | inr other ↦ rw (find_session-deleted org socket db.sessions o k, other) refl
]

unless_twice :
    (o : ℕ) (k : String) (s : SessionRow) (rows : List SessionRow) (f : Option (ℕ × String))
    → unless (any (is_socket o k) rows) (unless (s.org_id == o && str_eq s.socket_id k) f)
      ≡ unless (is_socket o k s || any (is_socket o k) rows) f
unfolding is_socket
unless_twice o k s rows f = ground (arith)

pub view-delete_each :
    (now : ℕ) (rows : List SessionRow) (db : SessionDb) (o : ℕ) (k : String)
    → view (delete_each now rows db).sessions o k
      ≡ unless (any (is_socket o k) rows) (view db.sessions o k)
unfolding delete_each delete_session view
view-delete_each now [] db o k = refl
view-delete_each now (s ∷ rows) db o k =
    let after = view-delete now s.org_id s.socket_id db _ o k refl in
    view-delete_each now rows (delete_session now s.org_id s.socket_id db) o k
    ∙ rw after (unless_twice o k s rows (view db.sessions o k))

any_wanted-none :
    (o : ℕ) (k : String) (p : SessionRow → Bool) (ss : List SessionRow)
    → All (λ t. is_socket o k t ≡ false) ss
    → any (is_socket o k) (select p ss) ≡ false
any_wanted-none o k p [] a = refl
any_wanted-none o k p (s ∷ ss) a = elim (Bool-cases (p s)) [
  | inl e ↦ rw (e, a.0) (any_wanted-none o k p ss a.1)
  | inr e ↦ rw e (any_wanted-none o k p ss a.1)
]

-- A socket is among the rows of an instance where the map has it there.
pub any_wanted :
    (o : ℕ) (k instance : String) (ss : List SessionRow)
    → DistinctSessions ss
    → any (is_socket o k) (select (is_wanted 0 instance 0) ss) ≡ is_of instance (view ss o k)
unfolding view find_session is_wanted
any_wanted o k instance [] d = refl
any_wanted o k instance (s ∷ ss) d = elim (Bool-cases (is_socket o k s)) [
  | inl e ↦
      let keys = (is_socket_iff o k s).0 e in
      let none_left : All (λ t. is_socket o k t ≡ false) ss = rw (← keys.0, ← keys.1) d.0 in
      let rest = any_wanted-none o k (is_wanted 0 instance 0) ss none_left in ground (arith, rest)
  | inr e ↦ ground (arith, any_wanted o k instance ss d.1)
]

pub patch-SameSocket :
    (p t : SessionRow) → (t.id ≡ p.id → SameSocket p t) → SameSocket (patch_session p t) t
unfolding patch_session
patch-SameSocket p t same = elim (Bool-cases (t.id == p.id)) [
  | inl e ↦
      let s = same ((==_iff t.id p.id).0 e) in
      rw (e, s.org, s.probe, s.socket, s.instance_is)
        record {
          org = kept_number_same t.org_id;
          probe = kept_number_same t.probe_id;
          socket = kept_string_same t.socket_id;
          instance_is = kept_string_same t.instance_id;
        }
  | inr e ↦ rw e record { org = refl; probe = refl; socket = refl; instance_is = refl }
]

pub view-map :
    (f : SessionRow → SessionRow) (ss : List SessionRow) (o : ℕ) (k : String)
    → All (λ t. SameSocket (f t) t) ss
    → view (map f ss) o k ≡ view ss o k
unfolding view find_session is_socket
view-map f [] o k a = refl
view-map f (s ∷ ss) o k a =
    rw (a.0.org, a.0.socket) (ground (arith, a.0.probe, a.0.instance_is, view-map f ss o k a.1))
