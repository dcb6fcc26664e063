-- ===== src/Sockets/Register/Steps.antt =====
-- pkg/api/socketio.go, register: what its steps do to the number of probes and to a probe that is there.
use text.Mathlib.Text.{◌==◌ as str_eq}
use worldping_api.Prelude.{
  ℕ, String, ◌≡◌, refl, ◌∙◌, any, Bool, true, false, ◌||◌, none, ◌==◌, Bool-cases, inl, inr, ◌⊎◌,
  Outcome, ok, err, ◌>>=◌, ok-injective, length, select, if◌then◌else◌,
}
use worldping_api.Sockets.Register.{
  Connection, RegisterError, RegisterDb, Registered, without_session, replaced, after_update,
  after_lookup, after_quota, after_checks, name_not_provided, version_not_provided,
}
use worldping_api.Store.Probes.Reads.{ProbeDto, ProbeDb, ProbeError, probe_not_found}
use worldping_api.Store.Probes.Sessions.Size.{length-delete_session, any-delete_session}
use worldping_api.Store.Probes.Writes.Named.{is_of}

-- The number of all probes.
abbrev pub size : RegisterDb → ℕ
size s = length s.store.probes

pub size-after_update :
    (s : RegisterDb) (later : RegisterDb → Registered) (o : Outcome ProbeError ProbeDb)
    → ((s' : RegisterDb) → size (later s').0 ≡ size s')
    → ((db : ProbeDb) → o ≡ ok db → length db.probes ≡ size s)
    → size (after_update s later o).0 ≡ size s
unfolding after_update
size-after_update s later (err e) keeps same = refl
size-after_update s later (ok db) keeps same = keeps (record s { store = db }) ∙ same db refl

pub if_ended :
    {n : ℕ} (b : Bool) (a1 a2 : Registered)
    → size a1.0 ≡ n
    → size a2.0 ≡ n
    → size (if b then a1 else a2).0 ≡ n
if_ended true a1 a2 same1 same2 = same1
if_ended false a1 a2 same1 same2 = same2

pub size-replaced :
    (now : ℕ) (instance : String) (c : Connection) (user : ℕ) (p : ProbeDto) (s : RegisterDb)
    → size (replaced now instance c user p s).0 ≡ size s
unfolding replaced without_session
size-replaced now instance c user p s = elim (Bool-cases (str_eq c.last_socket_id "")) [
  | inl e ↦ rw (e) refl
  | inr e ↦ rw (e) (length-delete_session now user c.last_socket_id _)
]

-- The row of an id that is a user's probe of a name is one of the table.
abbrev pub IsThere : ℕ → ℕ → String → RegisterDb → Type 0
IsThere id user name s = any (is_of id user name) s.store.probes ≡ true

pub ended-IsThere :
    (id user : ℕ) (name : String) (b : Bool) (a1 a2 : Registered)
    → IsThere id user name a1.0
    → IsThere id user name a2.0
    → IsThere id user name (if b then a1 else a2).0
ended-IsThere id user name true a1 a2 h1 h2 = h1
ended-IsThere id user name false a1 a2 h1 h2 = h2

pub update-IsThere :
    (id user : ℕ) (name : String) (s : RegisterDb) (later : RegisterDb → Registered)
    (o : Outcome ProbeError ProbeDb)
    → ((s' : RegisterDb) → IsThere id user name s' → IsThere id user name (later s').0)
    → ((db : ProbeDb) → o ≡ ok db → any (is_of id user name) db.probes ≡ true)
    → IsThere id user name s
    → IsThere id user name (after_update s later o).0
unfolding after_update
update-IsThere id user name s later (err e) keeps there h = h
update-IsThere id user name s later (ok db) keeps there h =
    keeps (record s { store = db }) (there db refl)

pub replaced-IsThere :
    (now : ℕ) (instance : String) (c : Connection) (id user owner : ℕ) (name : String)
    (p : ProbeDto) (s : RegisterDb)
    → IsThere id owner name s
    → IsThere id owner name (replaced now instance c user p s).0
unfolding replaced without_session
replaced-IsThere now instance c id user owner name p s h =
    elim (Bool-cases (str_eq c.last_socket_id "")) [
      | inl e ↦ rw (e) h
      | inr e ↦ rw (e) (any-delete_session now user id owner c.last_socket_id name _ h)
    ]

-- What an error, or a probe that is found, does to the number.
pub after_lookup_cases :
    (s : RegisterDb) (later : ProbeDto → RegisterDb → Registered) (create : Registered)
    (o : Outcome ProbeError ProbeDto)
    → ((p : ProbeDto) → size (later p s).0 ≡ size s)
    → (size (after_lookup s later create o).0 ≡ size s)
      ⊎ ((o ≡ err probe_not_found) × (after_lookup s later create o ≡ create))
unfolding after_lookup
after_lookup_cases s later create (err probe_not_found) keeps = inr (refl, refl)
after_lookup_cases s later create (ok p) keeps = inl (keeps p)

pub after_quota_cases :
    (s : RegisterDb) (create : Registered) (reached : Bool)
    → (size (after_quota s create (reached, none)).0 ≡ size s)
      ⊎ ((reached ≡ false) × (after_quota s create (reached, none) ≡ create))
unfolding after_quota
after_quota_cases s create true = inl refl
after_quota_cases s create false = inr (refl, refl)

pub after_checks_cases :
    (s : RegisterDb) (later : ℕ → Registered) (o : Outcome RegisterError ℕ)
    → (size (after_checks s later o).0 ≡ size s)
      ⊎ ((user : ℕ) × (o ≡ ok user) × (after_checks s later o ≡ later user))
unfolding after_checks
after_checks_cases s later (err e) = inl refl
after_checks_cases s later (ok user) = inr (user, refl, refl)

-- The tests behind the authentication return its user.
pub tested_user :
    {V : Type 0} (unnamed unversioned : Bool) (v : Outcome RegisterError V) (u user : ℕ)
    → ◌≡◌ {A = Outcome RegisterError ℕ}
        (if unnamed
          then err name_not_provided
          else if unversioned
          then err version_not_provided
          else (v >>= (λ w. ok u)))
        (ok user)
    → u ≡ user
tested_user true unversioned v u user e = absurd cc
tested_user false true v u user e = absurd cc
tested_user false false (err r) u user e = absurd cc
tested_user false false (ok w) u user e = ok-injective e

pub or_false : (a b : Bool) → (a || b) ≡ false → (a ≡ false) × (b ≡ false)
or_false true b e = absurd cc
or_false false b e = (refl, e)

-- The number of an organisation's probes.
abbrev pub owned : ℕ → RegisterDb → ℕ
owned org s = length (select (λ p. p.org_id == org) s.store.probes)
