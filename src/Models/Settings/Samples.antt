-- ===== src/Models/Settings/Samples.antt =====
-- Settings of the four types of check, and a table in another order.
use mathlib.Core.List.Perm
use worldping_api.Prelude.{
  ℕ, ◌*◌, ◌^◌, ◌≡◌, ◌↔◌, refl, true, some, List, [], ◌∷◌, ltb, leb, if◌then◌else◌,
}
use worldping_api.Prelude.Int.{pos, negsuc}
use worldping_api.Prelude.Text.{codes}
use worldping_api.Prelude.Assoc.{insert}
use worldping_api.Models.Settings.{Floats, Value, OrgQuota, Settings}
use worldping_api.Models.Settings.Size.{clamp, max_int64, scale}
use worldping_api.Models.Settings.Fields.{
  http_required, http_optional, dns_required, dns_optional, validate_http_settings,
  validate_dns_settings,
}
use worldping_api.Models.Settings.Accept.{accepts}
use worldping_api.Models.Settings.Http.{IsHttp, validate_http_settings_iff}
use worldping_api.Models.Settings.Gaps.{dns_unchecked, size_wraps}

-- Floats that are whole and not below zero.
abbrev whole : Floats
whole = record { Float = ℕ; of_ℕ = λ n. n; ltb = ltb; leb = leb; to_int = pos }

abbrev quotas : List OrgQuota
quotas = record { target = "downloadLimit"; limit = pos 1024 } ∷ []

abbrev http_check : Settings whole
http_check =
    ("host", Value.string "example.org")
    ∷ ("path", Value.string "/")
    ∷ ("port", Value.float 80)
    ∷ []

abbrev ping_check : Settings whole
ping_check = ("hostname", Value.string "example.org") ∷ ("timeout", Value.float 5) ∷ []

abbrev dns_check : Settings whole
dns_check =
    ("name", Value.string "example.org")
    ∷ ("type", Value.string "A")
    ∷ ("server", Value.string "192.0.2.1")
    ∷ []

validate_http_settings_iff_example :
    (accepts (validate_http_settings whole http_required http_optional quotas http_check) ≡ true)
    ↔ IsHttp whole quotas http_check
validate_http_settings_iff_example =
    validate_http_settings_iff whole http_required http_optional quotas http_check (Perm.refl _)
      (Perm.refl _)

dns_unchecked_example :
    (accepts (
        validate_dns_settings whole dns_required dns_optional
          (insert "port" (Value.string "none") dns_check))
      ≡ true)
    ↔ (accepts (validate_dns_settings whole dns_required dns_optional dns_check) ≡ true)
dns_unchecked_example =
    dns_unchecked whole "port" (Value.string "none") dns_check
      (refl, (refl, (refl, (refl, (refl, tt)))))

size_wraps_example :
    scale (clamp (1 * 2 ^ 44)) (codes "m")
    ≡ some (if ltb max_int64 (1 * 2 ^ 44) then negsuc 1048575 else pos 0)
size_wraps_example = size_wraps 1
