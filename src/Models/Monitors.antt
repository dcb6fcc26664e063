-- ===== src/Models/Monitors.antt =====
-- pkg/models/v1Api.go and monitor.go, and checkTypeToId of pkg/api/endpoint.go: the settings and types of the
-- monitors of the first API version. strconv's parsers are a parameter: what each returns for a text, which
-- the code takes whether or not there is an error.
pub mod Settled
mod Samples
use text.Mathlib.Text.{◌==◌ as str_eq}
use worldping_api.Prelude.{
  ℕ, String, Bool, true, false, Option, none, some, List, [], ◌∷◌, get_elem?, if◌then◌else◌,
}
use worldping_api.Prelude.Int.{ℤ}
use worldping_api.Prelude.Assoc.{Assoc, lookup, insert}
use worldping_api.Models.Settings.{Value}

-- m.MonitorSettingDTO
pub record MonitorSetting : Type 0 where
  pub variable : String
  pub value : String

pub record Parsers (F : Type 0) : Type 0 where
  pub parse_int : String → ℤ
  pub parse_float : String → F
  pub parse_bool : String → Bool

-- What a case of ToV2Setting makes of the text.
pub data Kind : Type 0 where
  as_text as_int as_float as_bool : Kind

-- The cases of the inner switches, by the variable.
unfoldable pub http_cases : Assoc Kind
http_cases =
    ("host", as_text)
    ∷ ("path", as_text)
    ∷ ("port", as_int)
    ∷ ("method", as_text)
    ∷ ("headers", as_text)
    ∷ ("expectRegex", as_text)
    ∷ ("timeout", as_float)
    ∷ []

unfoldable pub https_cases : Assoc Kind
https_cases =
    ("host", as_text)
    ∷ ("path", as_text)
    ∷ ("port", as_int)
    ∷ ("method", as_text)
    ∷ ("headers", as_text)
    ∷ ("validateCert", as_bool)
    ∷ ("expectRegex", as_text)
    ∷ ("timeout", as_float)
    ∷ []

unfoldable pub ping_cases : Assoc Kind
ping_cases = ("hostname", as_text) ∷ ("timeout", as_float) ∷ []

unfoldable pub dns_cases : Assoc Kind
dns_cases =
    ("name", as_text)
    ∷ ("type", as_text)
    ∷ ("server", as_text)
    ∷ ("port", as_int)
    ∷ ("protocol", as_text)
    ∷ ("timeout", as_float)
    ∷ []

-- The outer switch.
unfoldable pub cases_of : String → Assoc Kind
unfolding http_cases https_cases ping_cases dns_cases
cases_of t =
    if str_eq t "http"
    then http_cases
    else if str_eq t "https"
    then https_cases
    else if str_eq t "ping"
    then ping_cases
    else if str_eq t "dns"
    then dns_cases
    else []

module _ {F : Type 0} (parsers : Parsers F) where
  pub convert : Kind → String → Value F
  convert as_text s = Value.string s
  convert as_int s = Value.int64 (parsers.parse_int s)
  convert as_float s = Value.float (parsers.parse_float s)
  convert as_bool s = Value.bool (parsers.parse_bool s)

  pub set_variable : Option Kind → MonitorSetting → Assoc (Value F) → Assoc (Value F)
  unfolding convert
  set_variable none s m = m
  set_variable (some k) s m = insert s.variable (convert k s.value) m

  pub set_all : Assoc Kind → List MonitorSetting → Assoc (Value F) → Assoc (Value F)
  unfolding set_variable
  set_all cases [] m = m
  set_all cases (s ∷ ss) m = set_all cases ss (set_variable (lookup s.variable cases) s m)

  unfoldable pub to_v2_setting : String → List MonitorSetting → Assoc (Value F)
  unfolding set_all cases_of
  to_v2_setting t ss = set_all (cases_of t) ss []

-- m.MonitorTypeSettingDTO, without its texts for people and its conditions.
pub record MonitorTypeSetting : Type 0 where
  pub variable : String
  pub required : Bool
  pub data_type : String
  pub default_value : String

-- m.MonitorTypeDTO
pub record MonitorType : Type 0 where
  pub id : ℕ
  pub name : String
  pub settings : List MonitorTypeSetting

setting : String → Bool → String → String → MonitorTypeSetting
setting v r d s = record { variable = v; required = r; data_type = d; default_value = s }

abbrev default_headers : String
default_headers = "Accept-Encoding: gzip\nUser-Agent: raintank collector\n"

unfoldable pub monitor_types : List MonitorType
unfolding setting
monitor_types =
    record {
      id = 1;
      name = "HTTP";
      settings =
          setting "host" true "String" ""
          ∷ setting "path" true "String" "/"
          ∷ setting "port" false "Number" "80"
          ∷ setting "method" false "Enum" "GET"
          ∷ setting "headers" false "Text" default_headers
          ∷ setting "expectRegex" false "String" ""
          ∷ setting "timeout" true "Number" "5"
          ∷ [];
    }
    ∷ record {
      id = 2;
      name = "HTTPS";
      settings =
          setting "host" true "String" ""
          ∷ setting "path" true "String" "/"
          ∷ setting "port" false "Number" "443"
          ∷ setting "method" false "Enum" "GET"
          ∷ setting "headers" false "Text" default_headers
          ∷ setting "expectRegex" false "String" ""
          ∷ setting "validateCert" false "Boolean" "true"
          ∷ setting "timeout" true "Number" "5"
          ∷ [];
    }
    ∷ record {
      id = 3;
      name = "Ping";
      settings = setting "hostname" true "String" "" ∷ setting "timeout" true "Number" "5" ∷ [];
    }
    ∷ record {
      id = 4;
      name = "DNS";
      settings =
          setting "name" true "String" ""
          ∷ setting "type" true "Enum" "A"
          ∷ setting "server" true "String" ""
          ∷ setting "port" false "Number" "53"
          ∷ setting "protocol" false "Enum" "udp"
          ∷ setting "timeout" true "Number" "5"
          ∷ [];
    }
    ∷ []

unfoldable pub monitor_type_to_check_type_map : List String
monitor_type_to_check_type_map = "http" ∷ "https" ∷ "ping" ∷ "dns" ∷ []

unfoldable pub check_type_to_id : String → ℕ
check_type_to_id t =
    elim (lookup {V = ℕ} t (("http", 1) ∷ ("https", 2) ∷ ("ping", 3) ∷ ("dns", 4) ∷ [])) [
      | none ↦ 0
      | some id ↦ id
    ]
