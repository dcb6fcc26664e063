-- ===== src/Sockets/Register/Samples.antt =====
-- A probe that connects for the first time, while its organisation may have one more.
use text.Mathlib.Text.{◌==◌ as str_eq}
use worldping_api.Prelude.{
  ℕ, suc, String, ◌≡◌, ◌⊎◌, refl, Bool, true, false, Option, none, some, [], any, ltb,
  if◌then◌else◌, ok, err,
}
use worldping_api.Prelude.Int.{pos, negsuc}
use worldping_api.Quotas.{QuotaSettings, limit_or, quota_reached, get_quota_scopes, get_org_quota}
use worldping_api.Quotas.Reached.{is_over}
use worldping_api.Sockets.Register.{
  Connection, RegisterDb, Registered, authenticate, register, new_probe,
}
use worldping_api.Sockets.Register.Limit.{register-quota}
use worldping_api.Sockets.Register.Steps.{size, owned}
use worldping_api.Store.Probes.Reads.{ProbeDto, probe_not_found, get_probe_by_name, to_probe_dto}
use worldping_api.Store.Probes.Writes.{add_probe}
use worldping_api.Store.Probes.Writes.Named.{is_of}

abbrev limits : QuotaSettings
limits = record {
  enabled = true;
  global_endpoint = negsuc 0;
  global_probe = pos 2;
  org_endpoint = pos 1;
  org_probe = pos 1;
  org_download_limit = pos 1024;
}

abbrev keys : String → Option ℕ
keys k = if str_eq k "secret" then some 7 else none

abbrev versions : String → Option ℕ
versions v = if str_eq v "0.2.0" then some 20 else none

abbrev nowhere : String → ProbeDto → Bool
nowhere ip p = false

abbrev slugs : String → String
slugs s = s

abbrev bergen : Connection
bergen = record {
  api_key = "secret";
  name = "bergen";
  last_socket_id = "";
  version = "0.2.0";
  socket_id = "s1";
  remote_ip = some "10.0.0.9";
}

abbrev nobody : RegisterDb
nobody = record {
  store = record {
    probes = [];
    tags = [];
    sessions = [];
    next_probe = 1;
    routed = [];
    published = [];
  };
  next_session = 1;
  session_events = [];
}

abbrev arrive : Connection → RegisterDb → Registered
arrive = register keys versions ltb 14 nowhere slugs limits [] "api1" 50

arrive-grows : size (arrive bergen nobody).0 ≡ 1
unfolding register authenticate get_probe_by_name to_probe_dto quota_reached get_quota_scopes
    get_org_quota limit_or add_probe new_probe
arrive-grows = refl

-- The second probe of the organisation is refused.
arrive-full : size (arrive (record bergen { name = "voss" }) (arrive bergen nobody).0).0 ≡ 1
unfolding register authenticate get_probe_by_name to_probe_dto quota_reached get_quota_scopes
    get_org_quota limit_or add_probe new_probe
arrive-full = refl

register-quota_example :
    (size (arrive bergen nobody).0 ≡ size nobody)
    ⊎ ((user : ℕ) × (authenticate keys "secret" ≡ ok user)
        × (size (arrive bergen nobody).0 ≡ suc (size nobody))
        × (any (is_of 1 user "bergen") (arrive bergen nobody).0.store.probes ≡ true)
        × (get_probe_by_name "bergen" user nobody.store ≡ err probe_not_found)
        × (is_over (pos 2) (size nobody) ≡ false)
        × (is_over (limit_or (pos 1) [] user "probe") (owned user nobody) ≡ false))
register-quota_example =
    register-quota keys versions ltb 14 nowhere slugs limits [] "api1" 50 bergen nobody refl
