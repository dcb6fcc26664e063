-- ===== src/Quotas/Samples.antt =====
-- An organisation with a limit of its own for endpoints.
use worldping_api.Prelude.{
  ℕ, String, ◌≡◌, refl, inl, true, Option, none, some, List, [], ◌∷◌, if◌then◌else◌, arith,
}
use worldping_api.Prelude.Int.{ℤ, pos, negsuc, eqb_ℤ, eqb_ℤ_iff}
use worldping_api.Quotas.{Quota, QuotaSettings, quota_reached, limit_or, update_org_quota}
use worldping_api.Quotas.Reached.{quota_reached_lem}
use worldping_api.Quotas.Stored.{SkipsZero, limit_or-update_org_quota}

abbrev quota_settings : QuotaSettings
quota_settings = record {
  enabled = true;
  global_endpoint = negsuc 0;
  global_probe = pos 100;
  org_endpoint = pos 10;
  org_probe = pos 10;
  org_download_limit = pos 1024;
}

abbrev own_limit : List Quota
own_limit = record { org_id = 3; target = "endpoint"; limit = pos 5 } ∷ []

abbrev five : String → ℕ → Option ℕ
five t o = some 5

abbrev no_count : String → ℕ → Option ℕ
no_count t o = none

abbrev fifty : String → Option ℕ
fifty t = some 50

quota_reached_lem_example :
    quota_reached five fifty own_limit 3 quota_settings "endpoint" ≡ (true, none)
unfolding limit_or
quota_reached_lem_example =
    quota_reached_lem five fifty own_limit 3 quota_settings "endpoint" 5 50 refl (inl refl) refl
      refl

abbrev skip_zero : ℤ → ℤ → ℤ
skip_zero old new = if eqb_ℤ new (pos 0) then old else new

skip_zero-SkipsZero : SkipsZero skip_zero
skip_zero-SkipsZero = record {
  nonzero = λ old new h. ground (arith, eqb_ℤ_iff new (pos 0));
  zero = λ old. refl;
}

abbrev no_endpoints : Quota
no_endpoints = record { org_id = 3; target = "endpoint"; limit = pos 0 }

limit_or-update_org_quota_example :
    limit_or (pos 10) (update_org_quota skip_zero no_endpoints own_limit) 3 "endpoint" ≡ pos 5
unfolding limit_or
limit_or-update_org_quota_example =
    limit_or-update_org_quota skip_zero (pos 10) no_endpoints own_limit 3 "endpoint"
      skip_zero-SkipsZero
