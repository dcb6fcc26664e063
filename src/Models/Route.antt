-- ===== src/Models/Route.antt =====
-- pkg/models/endpoint.go: CheckRoute.Validate and Check.Validate. The config of a route is a map whose
-- values are lists of tags or of ids, as UnmarshalJSON leaves it. A route that is missing is a nil
-- pointer, and a use of it a panic: `none`.
pub mod Valid
mod Samples
use text.Mathlib.Text.{◌==◌ as str_eq}
use worldping_api.Prelude.{
  ℕ, String, Bool, true, false, not, ◌&&◌, ◌||◌, Option, none, some, List, [], ◌∷◌, any, length,
  ◌==◌, if◌then◌else◌, Outcome, ok, err, ◌>>=◌, ◌>>◌,
}
use worldping_api.Prelude.Int.{ℤ, pos, eqb_ℤ}
use worldping_api.Prelude.Assoc.{Assoc, lookup}
use worldping_api.Models.Settings.{Floats, OrgQuota, Invalid, Settings, Field}
use worldping_api.Models.Settings.Fields.{
  validate_http_settings, validate_https_settings, validate_ping_settings, validate_dns_settings,
}

pub data RouteValue : Type 0 where
  tags : List String → RouteValue
  ids : List ℕ → RouteValue

pub record CheckRoute : Type 0 where
  pub type : String
  pub config : Assoc RouteValue

pub data CheckInvalid : Type 0 where
  invalid_route_config unknown_route_type invalid_frequency unknown_check_type : CheckInvalid
  settings : Invalid → CheckInvalid

is_present : Option RouteValue → Bool
is_present none = false
is_present (some v) = true

-- The two tests of a case: the size of the map, and its key.
config_with : String → Assoc RouteValue → Outcome CheckInvalid Unit
unfolding is_present
config_with key config =
    if not (length config == 1)
    then err invalid_route_config
    else if not (is_present (lookup key config))
    then err invalid_route_config
    else ok tt

unfoldable pub validate_route : CheckRoute → Outcome CheckInvalid Unit
unfolding config_with
validate_route r =
    if str_eq r.type "byTags"
    then config_with "tags" r.config
    else if str_eq r.type "byIds"
    then config_with "ids" r.config
    else err unknown_route_type

unfoldable pub is_valid_frequency : ℤ → Bool
is_valid_frequency f = any (eqb_ℤ f) (pos 10 ∷ pos 30 ∷ pos 60 ∷ pos 120 ∷ pos 300 ∷ pos 600 ∷ [])

-- The order in which Go ranges over the two tables of a validation.
pub record Tables : Type 0 where
  pub required : List Field
  pub optional : List Field

module _ (fl : Floats) where
  -- The fields of a check that its validation reads.
  pub record Check : Type 0 where
    pub route : Option CheckRoute
    pub type : String
    pub frequency : ℤ
    pub settings : Settings fl

  from_settings : Outcome Invalid (Settings fl) → Outcome CheckInvalid (Settings fl)
  from_settings (ok s) = ok s
  from_settings (err e) = err (CheckInvalid.settings e)

  -- The switch over the type.
  unfoldable pub validate_settings :
      Tables → List OrgQuota → String → Settings fl → Outcome CheckInvalid (Settings fl)
  unfolding from_settings
  validate_settings t quotas type s =
      if str_eq type "http"
      then from_settings (validate_http_settings fl t.required t.optional quotas s)
      else if str_eq type "https"
      then from_settings (validate_https_settings fl t.required t.optional quotas s)
      else if str_eq type "ping"
      then from_settings (validate_ping_settings fl t.required t.optional s)
      else if str_eq type "dns"
      then from_settings (validate_dns_settings fl t.required t.optional s)
      else err unknown_check_type

  validate_with :
      Tables
      → List OrgQuota
      → Option CheckRoute
      → Check
      → Option (Outcome CheckInvalid (Settings fl))
  unfolding validate_settings
  validate_with t quotas none c = none
  validate_with t quotas (some r) c = some (do
    validate_route r
    (if is_valid_frequency c.frequency then ok tt else err invalid_frequency)
    validate_settings t quotas c.type c.settings)

  -- Check.Validate: the error, or the settings that the validation leaves.
  unfoldable pub validate :
      Tables → List OrgQuota → Check → Option (Outcome CheckInvalid (Settings fl))
  unfolding validate_with
  validate t quotas c = validate_with t quotas c.route c
