-- ===== src/Models/Settings.antt =====
-- pkg/models/endpoint.go: the validation of a check's settings, a map from field names to values that
-- were decoded from JSON. The function returns the map that it leaves, or the error.
-- The tables of fields are maps, which Go ranges over in any order: each function takes its tables
-- in the order of the run. Floats are a parameter.
pub mod Size
pub mod Fields
pub mod Accept
pub mod Cases
pub mod Local
pub mod Checks
pub mod Http
pub mod Gaps
mod Samples
use text.Mathlib.Text.{◌==◌ as str_eq}
use worldping_api.Prelude.{
  ℕ, String, Bool, true, false, not, ◌&&◌, ◌||◌, Option, none, some, List, [], ◌∷◌, any,
  if◌then◌else◌, Outcome, ok, err,
}
use worldping_api.Prelude.Int.{ℤ, ltb_ℤ}
use worldping_api.Prelude.Text.{Bytes, codes, to_lower, bytes_eq}
use worldping_api.Prelude.Assoc.{Assoc, lookup, insert, without}
use Size.{parse_size}

-- float64, as far as the validation looks at it: comparisons, and the conversion to an integer.
pub record Floats : Type 1 where
  pub Float : Type 0
  pub of_ℕ : ℕ → Float
  pub ltb : Float → Float → Bool
  pub leb : Float → Float → Bool
  pub to_int : Float → ℤ

-- interface{}: the types that the switches name, and all others.
pub data Value (F : Type 0) : Type 0 where
  string : String → Value F
  float : F → Value F
  int : ℤ → Value F
  int64 : ℤ → Value F
  bool : Bool → Value F
  other : Value F

-- The words of the tables. "float" and "integer" are in the table of DNS alone.
pub data DataType : Type 0 where
  string number size ipversion bool float integer : DataType

pub record Field : Type 0 where
  pub name : String
  pub type : DataType

pub record OrgQuota : Type 0 where
  pub target : String
  pub limit : ℤ

-- The messages of the validation errors, without the name of the check's type.
pub data Invalid : Type 0 where
  missing invalid_type out_of_range over_limit not_a_size not_an_ip_version : String → Invalid
  unknown_record_type not_tcp_or_udp : Invalid

unfoldable pub is_protocol : Bytes → Bool
is_protocol t = bytes_eq t (codes "udp") || bytes_eq t (codes "tcp")

module _ (fl : Floats) where
  open fl use {Float, of_ℕ, ltb, leb, to_int}

  abbrev pub Settings : Type 0
  Settings = Assoc (Value Float)

  abbrev pub Checked : Type 0
  Checked = Outcome Invalid Settings

  -- `value, ok := rawVal.(string)` and the test for the empty text.
  unfoldable pub required_value : String → Option (Value Float) → Settings → Checked
  required_value name none s = err (missing name)
  required_value name (some (Value.string t)) s = if str_eq t "" then err (missing name) else ok s
  required_value name (some _) s = err (invalid_type name)

  unfoldable pub required_field : Field → Settings → Checked
  required_field f s = elim f.type [
    | DataType.string ↦ required_value f.name (lookup f.name s) s
    | _ ↦ elim (lookup f.name s) [ none ↦ err (missing f.name) | some v ↦ ok s ]
  ]

  unfoldable pub string_value : String → Value Float → Settings → Checked
  string_value name (Value.string t) s = ok s
  string_value name _ s = err (invalid_type name)

  unfoldable pub bool_value : String → Value Float → Settings → Checked
  bool_value name (Value.bool b) s = ok s
  bool_value name _ s = err (invalid_type name)

  unfoldable pub timeout_in_range : Float → Bool
  timeout_in_range x = not (leb x (of_ℕ 0) || ltb (of_ℕ 10) x)

  unfoldable pub port_in_range : Float → Bool
  port_in_range x = not (ltb x (of_ℕ 1) || ltb (of_ℕ 65535) x)

  -- The case "number" with the tests of timeout and port, which stores the port as an int.
  unfoldable pub number_value : String → Value Float → Settings → Checked
  number_value name (Value.float x) s =
      if str_eq name "timeout" && not (timeout_in_range x)
      then err (out_of_range name)
      else if str_eq name "port"
      then (if port_in_range x
          then ok (insert name (Value.int (to_int x)) s)
          else err (out_of_range name))
      else ok s
  number_value name _ s = err (invalid_type name)

  -- The same case in the table of Ping, which tests no port.
  unfoldable pub ping_number_value : String → Value Float → Settings → Checked
  ping_number_value name (Value.float x) s =
      if str_eq name "timeout" && not (timeout_in_range x) then err (out_of_range name) else ok s
  ping_number_value name _ s = err (invalid_type name)

  -- The loop over the quotas.
  unfoldable pub over_quota : List OrgQuota → ℤ → Bool
  over_quota quotas value = any (λ q. str_eq q.target "downloadLimit" && ltb_ℤ q.limit value) quotas

  unfoldable pub limited : List OrgQuota → String → ℤ → Settings → Checked
  limited quotas name value s =
      if str_eq name "downloadLimit" && over_quota quotas value then err (over_limit name) else ok s

  unfoldable pub size_value : List OrgQuota → String → Value Float → Settings → Checked
  size_value quotas name (Value.float x) s = limited quotas name (to_int x) s
  size_value quotas name (Value.int64 n) s = limited quotas name n s
  size_value quotas name (Value.string t) s =
      if str_eq t "" then ok (without name s) else elim (parse_size (codes t)) [
        | none ↦ err (not_a_size name)
        | some n ↦ limited quotas name n s
      ]
  size_value quotas name _ s = err (not_a_size name)

  unfoldable pub ip_value : String → Value Float → Settings → Checked
  ip_value name (Value.string t) s =
      if str_eq t "v4" || (str_eq t "v6" || str_eq t "any")
      then ok s
      else err (not_an_ip_version name)
  ip_value name _ s = err (invalid_type name)

  unfoldable pub protocol_value : String → Value Float → Settings → Checked
  protocol_value name (Value.string t) s =
      if str_eq name "protocol" && not (is_protocol (to_lower (codes t)))
      then err not_tcp_or_udp
      else ok s
  protocol_value name _ s = err (invalid_type name)
