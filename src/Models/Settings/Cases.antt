-- ===== src/Models/Settings/Cases.antt =====
-- pkg/models/endpoint.go: what each case of the validation's switches asks of a field's value.
use text.Mathlib.Text.{◌==◌ as str_eq}
use worldping_api.Prelude.{String, Bool, true, false, not, ◌&&◌, ◌||◌, Option, none, some, List}
use worldping_api.Prelude.Int.{ℤ}
use worldping_api.Prelude.Text.{codes, to_lower}
use worldping_api.Models.Settings.{
  Floats, Value, DataType, Field, OrgQuota, timeout_in_range, port_in_range, over_quota,
  is_protocol,
}
use worldping_api.Models.Settings.Size.{parse_size}
use worldping_api.Models.Settings.Fields.{known_record_type}

module _ (fl : Floats) where
  open fl use {Float, to_int}

  abbrev pub is_text : Option (Value Float) → Bool
  is_text (some (Value.string t)) = not (str_eq t "")
  is_text _ = false

  abbrev pub is_string : Value Float → Bool
  is_string (Value.string t) = true
  is_string _ = false

  abbrev pub is_bool : Value Float → Bool
  is_bool (Value.bool b) = true
  is_bool _ = false

  abbrev pub is_number : String → Value Float → Bool
  is_number name (Value.float x) =
      not (str_eq name "timeout" && not (timeout_in_range fl x))
      && not (str_eq name "port" && not (port_in_range fl x))
  is_number name _ = false

  abbrev pub is_timeout : String → Value Float → Bool
  is_timeout name (Value.float x) = not (str_eq name "timeout" && not (timeout_in_range fl x))
  is_timeout name _ = false

  -- The number of bytes is not above a quota for downloads.
  abbrev pub fits : List OrgQuota → String → ℤ → Bool
  fits quotas name n = not (str_eq name "downloadLimit" && over_quota fl quotas n)

  abbrev pub fits_if : List OrgQuota → String → Option ℤ → Bool
  fits_if quotas name none = false
  fits_if quotas name (some n) = fits quotas name n

  abbrev pub is_size : List OrgQuota → String → Value Float → Bool
  is_size quotas name (Value.float x) = fits quotas name (to_int x)
  is_size quotas name (Value.int64 n) = fits quotas name n
  is_size quotas name (Value.string t) = str_eq t "" || fits_if quotas name (parse_size (codes t))
  is_size quotas name _ = false

  abbrev pub is_ip_version : Value Float → Bool
  is_ip_version (Value.string t) = str_eq t "v4" || (str_eq t "v6" || str_eq t "any")
  is_ip_version _ = false

  abbrev pub is_protocol_text : String → Value Float → Bool
  is_protocol_text name (Value.string t) =
      not (str_eq name "protocol" && not (is_protocol (to_lower (codes t))))
  is_protocol_text name _ = false

  abbrev pub http_case : List OrgQuota → DataType → String → Value Float → Bool
  http_case quotas DataType.string name v = is_string v
  http_case quotas DataType.number name v = is_number name v
  http_case quotas DataType.size name v = is_size quotas name v
  http_case quotas DataType.ipversion name v = is_ip_version v
  http_case quotas _ name v = true

  abbrev pub https_case : List OrgQuota → DataType → String → Value Float → Bool
  https_case quotas DataType.bool name v = is_bool v
  https_case quotas t name v = http_case quotas t name v

  abbrev pub ping_case : DataType → String → Value Float → Bool
  ping_case DataType.number name v = is_timeout name v
  ping_case DataType.ipversion name v = is_ip_version v
  ping_case _ name v = true

  abbrev pub dns_case : DataType → String → Value Float → Bool
  dns_case DataType.string name v = is_protocol_text name v
  dns_case DataType.number name v = is_number name v
  dns_case _ name v = true

  abbrev pub absent_or :
      (DataType → String → Value Float → Bool) → Field → Option (Value Float) → Bool
  absent_or p f none = true
  absent_or p f (some v) = p f.type f.name v

  abbrev pub required_case : Field → Option (Value Float) → Bool
  required_case f o = elim f.type [
    | DataType.string ↦ is_text o
    | _ ↦ elim o [ none ↦ false | some v ↦ true ]
  ]

  abbrev pub dns_required_case : Field → Option (Value Float) → Bool
  dns_required_case f o =
      required_case f o && not (str_eq f.name "type" && not (known_record_type fl o))
