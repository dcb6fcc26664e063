-- ===== src/Models/Settings/Fields.antt =====
-- pkg/models/endpoint.go: validateHTTPSettings, validateHTTPSSettings, validatePINGSettings and
-- validateDNSSettings: their tables, their switches and their loops.
use text.Mathlib.Text.{◌==◌ as str_eq}
use worldping_api.Prelude.{
  String, Bool, false, not, ◌&&◌, Option, none, some, List, [], ◌∷◌, any, if◌then◌else◌, ok, err,
  ◌>>=◌,
}
use worldping_api.Prelude.Assoc.{lookup}
use worldping_api.Models.Settings.{
  Floats, Value, DataType, Field, OrgQuota, unknown_record_type, Settings, Checked, required_field,
  string_value, bool_value, number_value, ping_number_value, size_value, ip_value, protocol_value,
}

abbrev pub field : String → DataType → Field
field n t = record { name = n; type = t }

abbrev pub http_required : List Field
http_required = field "host" DataType.string ∷ field "path" DataType.string ∷ []

abbrev pub http_optional : List Field
http_optional =
    field "port" DataType.number
    ∷ field "method" DataType.string
    ∷ field "headers" DataType.string
    ∷ field "expectRegex" DataType.string
    ∷ field "body" DataType.string
    ∷ field "timeout" DataType.number
    ∷ field "downloadLimit" DataType.size
    ∷ field "ipversion" DataType.ipversion
    ∷ []

abbrev pub https_optional : List Field
https_optional =
    field "port" DataType.number
    ∷ field "method" DataType.string
    ∷ field "headers" DataType.string
    ∷ field "expectRegex" DataType.string
    ∷ field "validateCert" DataType.bool
    ∷ field "body" DataType.string
    ∷ field "timeout" DataType.number
    ∷ field "downloadLimit" DataType.size
    ∷ field "ipversion" DataType.ipversion
    ∷ []

abbrev pub ping_required : List Field
ping_required = field "hostname" DataType.string ∷ []

abbrev pub ping_optional : List Field
ping_optional = field "timeout" DataType.number ∷ field "ipversion" DataType.ipversion ∷ []

abbrev pub dns_required : List Field
dns_required =
    field "name" DataType.string
    ∷ field "type" DataType.string
    ∷ field "server" DataType.string
    ∷ []

abbrev pub dns_optional : List Field
dns_optional =
    field "timeout" DataType.float
    ∷ field "protocol" DataType.string
    ∷ field "port" DataType.integer
    ∷ field "expectRegex" DataType.string
    ∷ []

abbrev pub valid_record_types : List String
valid_record_types = "A" ∷ "AAAA" ∷ "CNAME" ∷ "MX" ∷ "NS" ∷ "PTR" ∷ "SOA" ∷ "SRV" ∷ "TXT" ∷ []

module _ (fl : Floats) where
  -- A loop over a table. An error leaves it.
  unfoldable pub each : (Field → Settings fl → Checked fl) → List Field → Settings fl → Checked fl
  each step [] s = ok s
  each step (f ∷ fs) s = step f s >>= λ s'. each step fs s'

  -- A field that is not there is skipped.
  unfoldable pub optional :
      (Field → Value fl.Float → Settings fl → Checked fl) → Field → Settings fl → Checked fl
  optional switch f s = elim (lookup f.name s) [ none ↦ ok s | some v ↦ switch f v s ]

  -- The switches over the data type. One that has no case for a type leaves the field alone.
  unfoldable pub http_switch : List OrgQuota → Field → Value fl.Float → Settings fl → Checked fl
  http_switch quotas f v s = elim f.type [
    | DataType.string ↦ string_value fl f.name v s
    | DataType.number ↦ number_value fl f.name v s
    | DataType.size ↦ size_value fl quotas f.name v s
    | DataType.ipversion ↦ ip_value fl f.name v s
    | _ ↦ ok s
  ]

  unfoldable pub https_switch : List OrgQuota → Field → Value fl.Float → Settings fl → Checked fl
  https_switch quotas f v s = elim f.type [
    | DataType.string ↦ string_value fl f.name v s
    | DataType.number ↦ number_value fl f.name v s
    | DataType.bool ↦ bool_value fl f.name v s
    | DataType.size ↦ size_value fl quotas f.name v s
    | DataType.ipversion ↦ ip_value fl f.name v s
    | _ ↦ ok s
  ]

  unfoldable pub ping_switch : Field → Value fl.Float → Settings fl → Checked fl
  ping_switch f v s = elim f.type [
    | DataType.number ↦ ping_number_value fl f.name v s
    | DataType.ipversion ↦ ip_value fl f.name v s
    | _ ↦ ok s
  ]

  unfoldable pub dns_switch : Field → Value fl.Float → Settings fl → Checked fl
  dns_switch f v s = elim f.type [
    | DataType.string ↦ protocol_value fl f.name v s
    | DataType.number ↦ number_value fl f.name v s
    | _ ↦ ok s
  ]

  -- The test of the record type, in the loop over the required fields of DNS.
  unfoldable pub known_record_type : Option (Value fl.Float) → Bool
  known_record_type (some (Value.string t)) = any (λ r. str_eq r t) valid_record_types
  known_record_type _ = false

  unfoldable pub dns_required_field : Field → Settings fl → Checked fl
  unfolding known_record_type
  dns_required_field f s = required_field fl f s >>= λ s'.
      if str_eq f.name "type" && not (known_record_type (lookup f.name s))
      then err unknown_record_type
      else ok s'

  unfoldable pub validate_http_settings :
      List Field → List Field → List OrgQuota → Settings fl → Checked fl
  validate_http_settings required opt quotas s =
      each (required_field fl) required s >>= λ s'. each (optional (http_switch quotas)) opt s'

  unfoldable pub validate_https_settings :
      List Field → List Field → List OrgQuota → Settings fl → Checked fl
  validate_https_settings required opt quotas s =
      each (required_field fl) required s >>= λ s'. each (optional (https_switch quotas)) opt s'

  unfoldable pub validate_ping_settings : List Field → List Field → Settings fl → Checked fl
  validate_ping_settings required opt s =
      each (required_field fl) required s >>= λ s'. each (optional ping_switch) opt s'

  unfoldable pub validate_dns_settings : List Field → List Field → Settings fl → Checked fl
  validate_dns_settings required opt s =
      each dns_required_field required s >>= λ s'. each (optional dns_switch) opt s'
