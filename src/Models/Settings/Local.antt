-- ===== src/Models/Settings/Local.antt =====
-- pkg/models/endpoint.go: each case of the validation's switches decides by its field's value, and leaves
-- the other fields alone.
use text.Mathlib.Text.{◌==◌ as str_eq}
use text.Mathlib.TextEquality.{eq_iff}
use worldping_api.Prelude.{
  String, ◌≡◌, refl, ap, ◌∙◌, Bool, false, not, ◌&&◌, none, some, List, arith, if◌then◌else◌, ok,
  err, ◌>>=◌,
}
use worldping_api.Prelude.Assoc.{lookup, lookup-insert, lookup-without}
use worldping_api.Models.Settings.{
  Floats, Value, DataType, Field, OrgQuota, unknown_record_type, Settings, Checked, required_value,
  required_field, string_value, bool_value, number_value, ping_number_value, limited, size_value,
  ip_value, protocol_value,
}
use worldping_api.Models.Settings.Fields.{
  optional, http_switch, https_switch, ping_switch, dns_switch, known_record_type,
  dns_required_field,
}
use worldping_api.Models.Settings.Accept.{accepts, IsLocal}
use worldping_api.Models.Settings.Cases.{
  is_string, is_bool, is_number, is_timeout, is_size, is_ip_version, is_protocol_text, http_case,
  https_case, ping_case, dns_case, absent_or, required_case, dns_required_case,
}

module _ (fl : Floats) where
  open fl use {Float, to_int}

  number_decides :
      (name : String) (v : Value Float) (s : Settings fl)
      → accepts (number_value fl name v s) ≡ is_number fl name v
  unfolding number_value
  number_decides name v s = ground (arith, eq_iff name "timeout", eq_iff name "port")

  number_keeps :
      (name : String) (v : Value Float) (s s' : Settings fl) (k : String)
      → number_value fl name v s ≡ ok s'
      → str_eq name k ≡ false
      → lookup k s' ≡ lookup k s
  unfolding number_value
  number_keeps name (Value.float x) s s' k e h =
      ground (arith, lookup-insert name k (Value.int (to_int x)) s)
  number_keeps name _ s s' k e h = cc

  size_decides :
      (quotas : List OrgQuota) (name : String) (v : Value Float) (s : Settings fl)
      → accepts (size_value fl quotas name v s) ≡ is_size fl quotas name v
  unfolding size_value limited
  size_decides quotas name v s = ground arith

  size_keeps :
      (quotas : List OrgQuota) (name : String) (v : Value Float) (s s' : Settings fl) (k : String)
      → size_value fl quotas name v s ≡ ok s'
      → str_eq name k ≡ false
      → lookup k s' ≡ lookup k s
  unfolding size_value limited
  size_keeps quotas name v s s' k e h = ground (arith, lookup-without name k s)

  string_decides :
      (name : String) (v : Value Float) (s : Settings fl)
      → accepts (string_value fl name v s) ≡ is_string fl v
  unfolding string_value
  string_decides name v s = ground arith

  string_keeps :
      (name : String) (v : Value Float) (s s' : Settings fl) (k : String)
      → string_value fl name v s ≡ ok s'
      → str_eq name k ≡ false
      → lookup k s' ≡ lookup k s
  unfolding string_value
  string_keeps name v s s' k e h = ground arith

  bool_decides :
      (name : String) (v : Value Float) (s : Settings fl)
      → accepts (bool_value fl name v s) ≡ is_bool fl v
  unfolding bool_value
  bool_decides name v s = ground arith

  bool_keeps :
      (name : String) (v : Value Float) (s s' : Settings fl) (k : String)
      → bool_value fl name v s ≡ ok s'
      → str_eq name k ≡ false
      → lookup k s' ≡ lookup k s
  unfolding bool_value
  bool_keeps name v s s' k e h = ground arith

  ip_decides :
      (name : String) (v : Value Float) (s : Settings fl)
      → accepts (ip_value fl name v s) ≡ is_ip_version fl v
  unfolding ip_value
  ip_decides name v s = ground arith

  ip_keeps :
      (name : String) (v : Value Float) (s s' : Settings fl) (k : String)
      → ip_value fl name v s ≡ ok s'
      → str_eq name k ≡ false
      → lookup k s' ≡ lookup k s
  unfolding ip_value
  ip_keeps name v s s' k e h = ground arith

  ping_decides :
      (name : String) (v : Value Float) (s : Settings fl)
      → accepts (ping_number_value fl name v s) ≡ is_timeout fl name v
  unfolding ping_number_value
  ping_decides name v s = ground arith

  ping_keeps :
      (name : String) (v : Value Float) (s s' : Settings fl) (k : String)
      → ping_number_value fl name v s ≡ ok s'
      → str_eq name k ≡ false
      → lookup k s' ≡ lookup k s
  unfolding ping_number_value
  ping_keeps name v s s' k e h = ground arith

  protocol_decides :
      (name : String) (v : Value Float) (s : Settings fl)
      → accepts (protocol_value fl name v s) ≡ is_protocol_text fl name v
  unfolding protocol_value
  protocol_decides name v s = ground arith

  protocol_keeps :
      (name : String) (v : Value Float) (s s' : Settings fl) (k : String)
      → protocol_value fl name v s ≡ ok s'
      → str_eq name k ≡ false
      → lookup k s' ≡ lookup k s
  unfolding protocol_value
  protocol_keeps name v s s' k e h = ground arith

  -- An optional field is checked by a switch whose cases decide by the value and write no other field.
  IsLocal-optional :
      (switch : Field → Value Float → Settings fl → Checked fl)
      (case : DataType → String → Value Float → Bool)
      → ((f : Field) (v : Value Float) (s : Settings fl)
          → accepts (switch f v s) ≡ case f.type f.name v)
      → ((f : Field) (v : Value Float) (s s' : Settings fl) (k : String)
          → switch f v s ≡ ok s'
          → str_eq f.name k ≡ false
          → lookup k s' ≡ lookup k s)
      → IsLocal fl (optional fl switch) (absent_or fl case)
  unfolding optional
  IsLocal-optional switch case d k = record {
    decides = λ f s.
        elim (lookup f.name s)
          as (λ o.
            accepts (elim o as (λ _. Checked fl) [ none ↦ ok s | some v ↦ switch f v s ])
            ≡ absent_or fl case f o) [ none ↦ refl | some v ↦ d f v s ];
    keeps = λ f s s' k' e h.
        (elim (lookup f.name s)
            as (λ o.
              (elim o as (λ _. Checked fl) [ none ↦ ok s | some v ↦ switch f v s ]) ≡ ok s'
              → lookup k' s' ≡ lookup k' s) [ none ↦ λ q. cc | some v ↦ λ q. k f v s s' k' q h ])
          e;
  }

  pub IsLocal-required : IsLocal fl (required_field fl) (required_case fl)
  unfolding required_field required_value
  IsLocal-required = record { decides = λ f s. ground arith; keeps = λ f s s' k e h. ground arith }

  test_decides :
      (r : Checked fl) (b : Bool)
      → accepts (r >>= λ s'. if b then err unknown_record_type else ok s') ≡ accepts r && not b
  test_decides r b = ground arith

  test_keeps :
      (r : Checked fl) (b : Bool) {s' : Settings fl}
      → (r >>= λ s'. if b then err unknown_record_type else ok s') ≡ ok s'
      → r ≡ ok s'
  test_keeps r b h = ground arith

  pub IsLocal-dns_required : IsLocal fl (dns_required_field fl) (dns_required_case fl)
  unfolding dns_required_field
  IsLocal-dns_required = record {
    decides = λ f s.
        let b = str_eq f.name "type" && not (known_record_type fl (lookup f.name s)) in
        test_decides (required_field fl f s) b
        ∙ ap (λ a. a && not b) (IsLocal-required.decides f s);
    keeps = λ f s s' k e h.
        IsLocal-required.keeps f s s' k
          (test_keeps (required_field fl f s)
            (str_eq f.name "type" && not (known_record_type fl (lookup f.name s))) e)
          h;
  }

  pub IsLocal-http :
      (quotas : List OrgQuota)
      → IsLocal fl (optional fl (http_switch fl quotas)) (absent_or fl (http_case fl quotas))
  unfolding http_switch
  IsLocal-http quotas =
      IsLocal-optional (http_switch fl quotas) (http_case fl quotas)
        (λ f v s. ground (
          arith,
          number_decides f.name v s,
          size_decides quotas f.name v s,
          string_decides f.name v s,
          ip_decides f.name v s,
        ))
        (λ f v s s' k e h. ground (
          arith,
          number_keeps f.name v s s' k,
          size_keeps quotas f.name v s s' k,
          string_keeps f.name v s s' k,
          ip_keeps f.name v s s' k,
        ))

  pub IsLocal-https :
      (quotas : List OrgQuota)
      → IsLocal fl (optional fl (https_switch fl quotas)) (absent_or fl (https_case fl quotas))
  unfolding https_switch
  IsLocal-https quotas =
      IsLocal-optional (https_switch fl quotas) (https_case fl quotas)
        (λ f v s. ground (
          arith,
          number_decides f.name v s,
          size_decides quotas f.name v s,
          string_decides f.name v s,
          ip_decides f.name v s,
          bool_decides f.name v s,
        ))
        (λ f v s s' k e h. ground (
          arith,
          number_keeps f.name v s s' k,
          size_keeps quotas f.name v s s' k,
          string_keeps f.name v s s' k,
          ip_keeps f.name v s s' k,
          bool_keeps f.name v s s' k,
        ))

  pub IsLocal-ping : IsLocal fl (optional fl (ping_switch fl)) (absent_or fl (ping_case fl))
  unfolding ping_switch
  IsLocal-ping =
      IsLocal-optional (ping_switch fl) (ping_case fl)
        (λ f v s. ground (arith, ping_decides f.name v s, ip_decides f.name v s))
        (λ f v s s' k e h. ground (arith, ping_keeps f.name v s s' k, ip_keeps f.name v s s' k))

  pub IsLocal-dns : IsLocal fl (optional fl (dns_switch fl)) (absent_or fl (dns_case fl))
  unfolding dns_switch
  IsLocal-dns =
      IsLocal-optional (dns_switch fl) (dns_case fl)
        (λ f v s. ground (arith, protocol_decides f.name v s, number_decides f.name v s))
        (λ f v s s' k e h.
          ground (arith, protocol_keeps f.name v s s' k, number_keeps f.name v s s' k))
