-- ===== src/Quotas.antt =====
-- pkg/models/quotas.go, pkg/services/sqlstore/quota.go and pkg/middleware/quota.go: the limits of an
-- organisation and whether a request is over one. The table quota is a list of rows; what a count
-- returns is an argument, `none` for an error of the database.
pub mod Reached
pub mod Stored
mod Samples
use text.Mathlib.Text.{◌==◌ as str_eq}
use worldping_api.Prelude.{
  ℕ, String, Bool, true, false, not, ◌&&◌, Option, none, some, List, [], ◌∷◌, ◌++◌, map, any,
  select, ◌==◌, if◌then◌else◌, Outcome, ok, err,
}
use worldping_api.Prelude.Int.{ℤ, pos, leb_ℤ, ltb_ℤ, eqb_ℤ}

-- A row of the table, by the columns that are read.
pub record Quota : Type 0 where
  pub org_id : ℕ
  pub target : String
  pub limit : ℤ

pub record QuotaScope : Type 0 where
  pub name : String
  pub target : String
  pub default_limit : ℤ

-- setting.Quota
pub record QuotaSettings : Type 0 where
  pub enabled : Bool
  pub global_endpoint : ℤ
  pub global_probe : ℤ
  pub org_endpoint : ℤ
  pub org_probe : ℤ
  pub org_download_limit : ℤ

pub data QuotaError : Type 0 where
  invalid_quota_target database_error : QuotaError

abbrev scope : String → String → ℤ → QuotaScope
scope n t l = record { name = n; target = t; default_limit = l }

unfoldable pub get_quota_scopes : QuotaSettings → String → Outcome QuotaError (List QuotaScope)
get_quota_scopes q target =
    if str_eq target "endpoint"
    then ok (scope "global" target q.global_endpoint ∷ scope "org" target q.org_endpoint ∷ [])
    else if str_eq target "probe"
    then ok (scope "global" target q.global_probe ∷ scope "org" target q.org_probe ∷ [])
    else if str_eq target "downloadLimit"
    then ok (scope "org" target q.org_download_limit ∷ [])
    else err invalid_quota_target

-- m.OrgQuotaDTO and m.GlobalQuotaDTO, by the limit and the use.
pub record QuotaUse : Type 0 where
  pub limit : ℤ
  pub used : ℕ

-- The limit of the row that sess.Get finds, or the default.
unfoldable pub limit_or : ℤ → List Quota → ℕ → String → ℤ
limit_or def [] org target = def
limit_or def (q ∷ qs) org target =
    let rest = limit_or def qs org target in
    if q.org_id == org && str_eq q.target target then q.limit else rest

with_used : ℤ → Option ℕ → Outcome QuotaError QuotaUse
with_used limit none = err database_error
with_used limit (some n) = ok (record { limit = limit; used = n })

-- getOrgQuotaByTarget; `count` is the number of rows of the target's table for an organisation.
unfoldable pub get_org_quota :
    (String → ℕ → Option ℕ) → List Quota → ℕ → String → ℤ → Outcome QuotaError QuotaUse
unfolding with_used
get_org_quota count rows org target def =
    with_used (limit_or def rows org target)
      (if str_eq target "downloadLimit" then some 0 else count target org)

-- One pass of the loop: `ok true` where the function returns that the limit is reached.
org_reached : Outcome QuotaError QuotaUse → Outcome QuotaError Bool
org_reached (err e) = err e
org_reached (ok q) =
    if ltb_ℤ q.limit (pos 0)
    then ok false
    else if eqb_ℤ q.limit (pos 0)
    then ok true
    else ok (leb_ℤ q.limit (pos q.used))

global_used : ℤ → Option ℕ → Outcome QuotaError Bool
global_used limit none = err database_error
global_used limit (some n) = ok (leb_ℤ limit (pos n))

-- getGlobalQuotaByTarget is asked only for a limit above zero.
global_reached : ℤ → Option ℕ → Outcome QuotaError Bool
unfolding global_used
global_reached limit used =
    if ltb_ℤ limit (pos 0)
    then ok false
    else if eqb_ℤ limit (pos 0)
    then ok true
    else global_used limit used

-- The reached flag and the error of QuotaReached.
after_scope : Outcome QuotaError Bool → Bool × Option QuotaError → Bool × Option QuotaError
after_scope (err e) rest = (true, some e)
after_scope (ok true) rest = (true, none)
after_scope (ok false) rest = rest

module _ (count : String → ℕ → Option ℕ) (count_all : String → Option ℕ) (rows : List Quota)
    (org : ℕ) where
  -- The switch over the name of the scope.
  scope_reached : QuotaScope → Outcome QuotaError Bool
  unfolding org_reached global_reached
  scope_reached s =
      if str_eq s.name "global"
      then global_reached s.default_limit (count_all s.target)
      else if str_eq s.name "org"
      then org_reached (get_org_quota count rows org s.target s.default_limit)
      else ok false

  scopes_reached : List QuotaScope → Bool × Option QuotaError
  unfolding after_scope scope_reached
  scopes_reached [] = (false, none)
  scopes_reached (s ∷ ss) = after_scope (scope_reached s) (scopes_reached ss)

  in_scopes : Outcome QuotaError (List QuotaScope) → Bool × Option QuotaError
  unfolding scopes_reached
  in_scopes (err e) = (false, some e)
  in_scopes (ok ss) = scopes_reached ss

  unfoldable pub quota_reached : QuotaSettings → String → Bool × Option QuotaError
  unfolding in_scopes
  quota_reached q target =
      if not q.enabled then (false, none) else in_scopes (get_quota_scopes q target)

-- updateOrgQuota. `write old new` is the limit after xorm's Update of a row. Each statement is one that
-- the database takes.
update_row_of : (ℤ → ℤ → ℤ) → Quota → List Quota → List Quota
update_row_of write new [] = new ∷ []
update_row_of write new (q ∷ qs) =
    let rest = update_row_of write new qs in
    if q.org_id == new.org_id && str_eq q.target new.target
    then record q { limit = write q.limit new.limit } ∷ qs
    else q ∷ rest

unfoldable pub update_org_quota : (ℤ → ℤ → ℤ) → Quota → List Quota → List Quota
unfolding update_row_of
update_org_quota write new rows = update_row_of write new rows

-- getOrgQuotas up to the counts: the rows of the organisation, and the defaults of the other targets.
unfoldable pub get_org_quotas : List Quota → ℕ → List (String × ℤ) → List Quota
get_org_quotas rows org defaults =
    let own = select (λ q. q.org_id == org) rows in
    let unseen = select (λ d. not (any (λ q. str_eq q.target d.0) own)) defaults in
    own ++ map (λ d. record { org_id = org; target = d.0; limit = d.1 }) unseen
