-- ===== src/Models/Settings/Http.antt =====
-- pkg/models/endpoint.go, validateHTTPSettings: the settings that are accepted, field by field.
use mathlib.Core.List.{Perm}
use text.Mathlib.Text.{◌==◌ as str_eq}
use worldping_api.Prelude.{
  String, ◌≡◌, refl, sym, ◌∙◌, ◌↔◌, Bool, true, false, not, ◌&&◌, ◌||◌, Option, none, some, List,
  any, arith,
}
use worldping_api.Prelude.Int.{ℤ, ltb_ℤ}
use worldping_api.Prelude.Text.{codes}
use worldping_api.Prelude.Assoc.{lookup}
use worldping_api.Models.Settings.{
  Floats, Value, DataType, Field, OrgQuota, Settings, timeout_in_range, port_in_range, over_quota,
}
use worldping_api.Models.Settings.Size.{parse_size}
use worldping_api.Models.Settings.Fields.{
  field, http_required, http_optional, validate_http_settings,
}
use worldping_api.Models.Settings.Accept.{accepts}
use worldping_api.Models.Settings.Cases.{
  is_text, is_string, is_number, is_size, is_ip_version, http_case, absent_or,
}
use worldping_api.Models.Settings.Checks.{validate_http_settings-accepts}

module _ (fl : Floats) where
  open fl use {Float, of_ℕ, ltb, leb, to_int}

  -- A value that is absent or passes.
  abbrev pub optionally : (Value Float → Bool) → Option (Value Float) → Bool
  optionally p none = true
  optionally p (some v) = p v

  abbrev pub is_port : Value Float → Bool
  is_port (Value.float x) = not (ltb x (of_ℕ 1)) && not (ltb (of_ℕ 65535) x)
  is_port _ = false

  -- Above 0, so that a part of a second passes, and not above 10.
  abbrev pub is_short : Value Float → Bool
  is_short (Value.float x) = not (leb x (of_ℕ 0)) && not (ltb (of_ℕ 10) x)
  is_short _ = false

  -- No quota for downloads is less than the number of bytes.
  abbrev pub within : List OrgQuota → ℤ → Bool
  within quotas n = not (any (λ q. str_eq q.target "downloadLimit" && ltb_ℤ q.limit n) quotas)

  abbrev pub within_if : List OrgQuota → Option ℤ → Bool
  within_if quotas none = false
  within_if quotas (some n) = within quotas n

  -- A number of bytes, or a text of a size; the empty text passes, and is then taken away.
  abbrev pub is_limit : List OrgQuota → Value Float → Bool
  is_limit quotas (Value.float x) = within quotas (to_int x)
  is_limit quotas (Value.int64 n) = within quotas n
  is_limit quotas (Value.string t) = str_eq t "" || within_if quotas (parse_size (codes t))
  is_limit quotas _ = false

  -- What the settings of an HTTP check must hold.
  pub record IsHttp (quotas : List OrgQuota) (s : Settings fl) : Type 0 where
    pub host : is_text fl (lookup "host" s) ≡ true
    pub path : is_text fl (lookup "path" s) ≡ true
    pub port : optionally is_port (lookup "port" s) ≡ true
    pub method : optionally (is_string fl) (lookup "method" s) ≡ true
    pub headers : optionally (is_string fl) (lookup "headers" s) ≡ true
    pub expect_regex : optionally (is_string fl) (lookup "expectRegex" s) ≡ true
    pub body : optionally (is_string fl) (lookup "body" s) ≡ true
    pub timeout : optionally is_short (lookup "timeout" s) ≡ true
    pub download_limit : optionally (is_limit quotas) (lookup "downloadLimit" s) ≡ true
    pub ipversion : optionally (is_ip_version fl) (lookup "ipversion" s) ≡ true

  is_number-port : (v : Value Float) → is_number fl "port" v ≡ is_port v
  unfolding port_in_range
  is_number-port v = ground arith

  is_number-timeout : (v : Value Float) → is_number fl "timeout" v ≡ is_short v
  unfolding timeout_in_range
  is_number-timeout v = ground arith

  is_size-limit :
      (quotas : List OrgQuota) (v : Value Float)
      → is_size fl quotas "downloadLimit" v ≡ is_limit quotas v
  unfolding over_quota
  is_size-limit quotas v = ground arith

  -- The case of the switch for a field, as a test of its own.
  optional_case :
      (quotas : List OrgQuota) (f : Field) (p : Value Float → Bool) (o : Option (Value Float))
      → ((v : Value Float) → http_case fl quotas f.type f.name v ≡ p v)
      → absent_or fl (http_case fl quotas) f o ≡ optionally p o
  optional_case quotas f p none same = refl
  optional_case quotas f p (some v) same = same v

  -- An HTTP check's settings are accepted, in whatever order Go ranges over the two tables, exactly when
  -- host and path are texts that are not empty, and each of the others is absent or as follows: port a
  -- number from 1 to 65535, method, headers, expectRegex and body texts, timeout a number above 0 and up
  -- to 10, downloadLimit the empty text or a number or a text of bytes that no quota for downloads is
  -- less than, and ipversion v4, v6 or any.
  pub validate_http_settings_iff :
      (required opt : List Field) (quotas : List OrgQuota) (s : Settings fl)
      → Perm http_required required
      → Perm http_optional opt
      → (accepts (validate_http_settings fl required opt quotas s) ≡ true) ↔ IsHttp quotas s
  validate_http_settings_iff required opt quotas s r o = (there, back)
    where
      as_port :
          absent_or fl (http_case fl quotas) (field "port" DataType.number) (lookup "port" s)
          ≡ optionally is_port (lookup "port" s)
      as_port =
          optional_case quotas (field "port" DataType.number) is_port (lookup "port" s)
            is_number-port

      as_timeout :
          absent_or fl (http_case fl quotas) (field "timeout" DataType.number) (lookup "timeout" s)
          ≡ optionally is_short (lookup "timeout" s)
      as_timeout =
          optional_case quotas (field "timeout" DataType.number) is_short (lookup "timeout" s)
            is_number-timeout

      as_limit :
          absent_or fl
            (http_case fl quotas)
            (field "downloadLimit" DataType.size)
            (lookup "downloadLimit" s)
          ≡ optionally (is_limit quotas) (lookup "downloadLimit" s)
      as_limit =
          optional_case quotas (field "downloadLimit" DataType.size) (is_limit quotas)
            (lookup "downloadLimit" s) (is_size-limit quotas)

      as_text :
          (name : String)
          → absent_or fl (http_case fl quotas) (field name DataType.string) (lookup name s)
            ≡ optionally (is_string fl) (lookup name s)
      as_text name =
          optional_case quotas (field name DataType.string) (is_string fl) (lookup name s)
            (λ v. refl)

      as_version :
          absent_or fl
            (http_case fl quotas)
            (field "ipversion" DataType.ipversion)
            (lookup "ipversion" s)
          ≡ optionally (is_ip_version fl) (lookup "ipversion" s)
      as_version =
          optional_case quotas (field "ipversion" DataType.ipversion) (is_ip_version fl)
            (lookup "ipversion" s) (λ v. refl)

      there : accepts (validate_http_settings fl required opt quotas s) ≡ true → IsHttp quotas s
      there h =
          let (
            (host, (path, _)),
            (port, (method, (headers, (regex, (body, (timeout, (limit, (version, _)))))))),
          ) =
            (validate_http_settings-accepts fl required opt quotas s r o).0 h in
          record {
            host = host;
            path = path;
            port = sym as_port ∙ port;
            method = sym (as_text "method") ∙ method;
            headers = sym (as_text "headers") ∙ headers;
            expect_regex = sym (as_text "expectRegex") ∙ regex;
            body = sym (as_text "body") ∙ body;
            timeout = sym as_timeout ∙ timeout;
            download_limit = sym as_limit ∙ limit;
            ipversion = sym as_version ∙ version;
          }

      back : IsHttp quotas s → accepts (validate_http_settings fl required opt quotas s) ≡ true
      back a = (validate_http_settings-accepts fl required opt quotas s r o).1 (
        (a.host, (a.path, tt)),
        (
          as_port ∙ a.port,
          (
            as_text "method" ∙ a.method,
            (
              as_text "headers" ∙ a.headers,
              (
                as_text "expectRegex" ∙ a.expect_regex,
                (
                  as_text "body" ∙ a.body,
                  (
                    as_timeout ∙ a.timeout,
                    (as_limit ∙ a.download_limit, (as_version ∙ a.ipversion, tt)),
                  ),
                ),
              ),
            ),
          ),
        ),
      )
