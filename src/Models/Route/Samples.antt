-- ===== src/Models/Route/Samples.antt =====
-- A check with a route by ids.
use worldping_api.Prelude.{ℕ, ◌≡◌, ◌↔◌, some, [], ◌∷◌, ltb, leb, ok}
use worldping_api.Prelude.Int.{pos}
use worldping_api.Models.Settings.{Floats, Value, Settings}
use worldping_api.Models.Settings.Fields.{ping_required, ping_optional}
use worldping_api.Models.Route.{RouteValue, CheckRoute, Tables, Check, validate}
use worldping_api.Models.Route.Valid.{IsValid, validate_iff}

abbrev whole_floats : Floats
whole_floats = record { Float = ℕ; of_ℕ = λ n. n; ltb = ltb; leb = leb; to_int = pos }

abbrev by_ids : CheckRoute
by_ids = record { type = "byIds"; config = ("ids", RouteValue.ids (1 ∷ 2 ∷ [])) ∷ [] }

abbrev ping_settings : Settings whole_floats
ping_settings = ("hostname", Value.string "example.org") ∷ []

abbrev ping_check : Check whole_floats
ping_check = record {
  route = some by_ids;
  type = "ping";
  frequency = pos 60;
  settings = ping_settings;
}

abbrev ping_tables : Tables
ping_tables = record { required = ping_required; optional = ping_optional }

validate_iff_example :
    (validate whole_floats ping_tables [] ping_check ≡ some (ok ping_settings))
    ↔ IsValid whole_floats ping_tables [] ping_check ping_settings
validate_iff_example = validate_iff whole_floats ping_tables [] ping_check ping_settings
