-- ===== src/Sockets/Register.antt =====
-- pkg/api/socketio.go, authenticate and register: the socket of a probe that connects. The statements
-- are ones that the database takes; `get_user` is the authentication of a key, `none` for its error,
-- and `new_version` and `less_than` are those of the package version. The place of a probe is not
-- modelled: `place_found` says whether it has none and the database of places has one for its address.
pub mod Limit
mod Samples
pub mod Steps
use text.Mathlib.Text.{◌==◌ as str_eq}
use worldping_api.Prelude.{
  ℕ, String, Bool, true, false, Option, none, some, List, [], ◌∷◌, select, ◌==◌, if◌then◌else◌,
  Outcome, ok, err, ◌>>=◌, length,
}
use worldping_api.Quotas.{Quota, QuotaSettings, QuotaError, quota_reached}
use worldping_api.Store.Probes.{ProbeRow, SessionRow}
use worldping_api.Store.Probes.Reads.{ProbeDto, ProbeDb, ProbeError, get_probe_by_name}
use worldping_api.Store.Probes.Sessions.{SessionDb, SessionEvent, delete_session}
use worldping_api.Store.Probes.Writes.{add_probe, update_probe}

-- The form of the request, the id of the socket, and the address that is parsed, `none` for nil.
pub record Connection : Type 0 where
  pub api_key : String
  pub name : String
  pub last_socket_id : String
  pub version : String
  pub socket_id : String
  pub remote_ip : Option String

pub data RegisterError : Type 0 where
  invalid_credentials name_not_provided version_not_provided invalid_version probe_too_old :
      RegisterError
  quota_restriction : RegisterError
  quota_failed : QuotaError → RegisterError
  probe_failed : ProbeError → RegisterError

-- The tables of the probes, with what is kept for the sessions besides.
pub record RegisterDb : Type 0 where
  pub store : ProbeDb
  pub next_session : ℕ
  pub session_events : List SessionEvent

-- The ends of the function: its error or the session of the new socket.
abbrev pub Registered : Type 0
Registered = RegisterDb × Outcome RegisterError SessionRow

of_user : Option ℕ → Outcome RegisterError ℕ
of_user none = err invalid_credentials
of_user (some user) = ok user

unfoldable pub authenticate : (String → Option ℕ) → String → Outcome RegisterError ℕ
unfolding of_user
authenticate get_user key =
    if str_eq key "" then err invalid_credentials else of_user (get_user key)

-- The probe that register makes of a name that is not found.
pub new_probe : ℕ → ℕ → String → ProbeDto
new_probe now user name = record {
  probe = record {
    id = 0;
    org_id = user;
    name = name;
    slug = "";
    enabled = true;
    enabled_change = 0;
    public = false;
    online = true;
    online_change = now;
    created = 0;
    updated = 0;
  };
  tags = [];
  remote_ip = [];
}

-- What AddProbe leaves in the struct that it is given.
pub inserted : (String → String) → ℕ → ℕ → ProbeDto → ProbeDto
inserted slug_of now id p = record p {
  probe = record p.probe {
    id = id;
    slug = slug_of p.probe.name;
    created = now;
    updated = now;
    online_change = now;
    enabled_change = now;
  };
}

pub without_session : ℕ → ℕ → String → RegisterDb → RegisterDb
without_session now user socket s =
    let d = delete_session now user socket (record {
      probes = s.store.probes;
      sessions = s.store.sessions;
      next_session = s.next_session;
      published = s.session_events;
    }) in
    record s {
      store = record s.store { probes = d.probes; sessions = d.sessions };
      session_events = d.published;
    }

pub or_nowhere : Option String → String
or_nowhere none = "0.0.0.0"
or_nowhere (some ip) = ip

-- The session before this one is deleted, if the probe names it.
pub replaced : ℕ → String → Connection → ℕ → ProbeDto → RegisterDb → Registered
unfolding without_session or_nowhere
replaced now instance c user p s =
    let session : SessionRow = record {
      id = 0;
      org_id = user;
      probe_id = p.probe.id;
      socket_id = c.socket_id;
      version = c.version;
      instance_id = instance;
      remote_ip = or_nowhere c.remote_ip;
      updated = 0;
    } in
    (
      if str_eq c.last_socket_id "" then s else without_session now user c.last_socket_id s,
      ok session,
    )

-- What follows UpdateProbe.
pub after_update : RegisterDb → (RegisterDb → Registered) → Outcome ProbeError ProbeDb → Registered
after_update s later (err e) = (s, err (probe_failed e))
after_update s later (ok db) = later (record s { store = db })

-- What follows the lookup of the name: an error is ErrProbeNotFound, the only one there is.
pub after_lookup :
    RegisterDb
    → (ProbeDto → RegisterDb → Registered)
    → Registered
    → Outcome ProbeError ProbeDto
    → Registered
after_lookup s later create (err e) = create
after_lookup s later create (ok p) = later p s

-- What follows QuotaReached.
pub after_quota : RegisterDb → Registered → Bool × Option QuotaError → Registered
after_quota s create (reached, some e) = (s, err (quota_failed e))
after_quota s create (true, none) = (s, err quota_restriction)
after_quota s create (false, none) = create

-- What follows the tests on the request.
pub after_checks : RegisterDb → (ℕ → Registered) → Outcome RegisterError ℕ → Registered
after_checks s later (err e) = (s, err e)
after_checks s later (ok user) = later user

-- The counts of the table probe, which QuotaReached asks for.
abbrev pub probe_count : ProbeDb → String → ℕ → Option ℕ
probe_count db target org = some (length (select (λ p. p.org_id == org) db.probes))

abbrev pub probe_count_all : ProbeDb → String → Option ℕ
probe_count_all db target = some (length db.probes)

module _ {V : Type 0} (get_user : String → Option ℕ) (new_version : String → Option V)
    (less_than : V → V → Bool) (min_version : V) (place_found : String → ProbeDto → Bool)
    (slug_of : String → String) (settings : QuotaSettings) (quotas : List Quota) (instance : String)
    (now : ℕ) where
  new_enough : Option V → Outcome RegisterError V
  new_enough none = err invalid_version
  new_enough (some v) = if less_than v min_version then err probe_too_old else ok v

  -- The tests before the probe is looked up, in their order.
  pub checked : Connection → Outcome RegisterError ℕ
  unfolding new_enough
  checked c = authenticate get_user c.api_key >>= (λ user.
      if str_eq c.name ""
      then err name_not_provided
      else if str_eq c.version ""
      then err version_not_provided
      else (new_enough (new_version c.version) >>= (λ v. ok user)))

  placed : Option String → ProbeDto → Bool
  placed none p = false
  placed (some ip) p = place_found ip p

  -- The probe's place is stored if it has none and one is found.
  pub located : Connection → ℕ → ProbeDto → RegisterDb → Registered
  unfolding replaced after_update placed
  located c user p s =
      if placed c.remote_ip p
      then after_update s (replaced now instance c user p) (update_probe slug_of now p s.store)
      else replaced now instance c user p s

  pub created : Connection → ℕ → RegisterDb → Registered
  unfolding located
  created c user s =
      let p = new_probe now user c.name in
      located c user (inserted slug_of now s.store.next_probe p)
        (record s { store = add_probe slug_of now p s.store })

  pub identified : Connection → RegisterDb → ℕ → Registered
  unfolding after_lookup after_quota located created
  identified c s user =
      after_lookup s (located c user)
        (after_quota s (created c user s) (
          quota_reached (probe_count s.store) (probe_count_all s.store) quotas user settings
            "probe"))
        (get_probe_by_name c.name user s.store)

  unfoldable pub register : Connection → RegisterDb → Registered
  unfolding after_checks checked identified
  register c s = after_checks s (identified c s) (checked c)
