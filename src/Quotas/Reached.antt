-- ===== src/Quotas/Reached.antt =====
-- pkg/middleware/quota.go, QuotaReached: when a limit is reached.
use text.Mathlib.Text.{◌==◌ as str_eq}
use worldping_api.Prelude.{
  ℕ, String, ◌≡◌, ◌⊎◌, inl, inr, refl, Bool, true, false, ◌&&◌, ◌||◌, Option, none, some, List,
  arith, if◌then◌else◌, ok,
}
use worldping_api.Prelude.Int.{ℤ, pos, negsuc, leb_ℤ}
use worldping_api.Quotas.{
  Quota, QuotaSettings, get_quota_scopes, limit_or, get_org_quota, org_reached, global_reached,
  quota_reached,
}

-- A limit that is not negative is reached by a use that is at least as large.
abbrev pub is_over : ℤ → ℕ → Bool
is_over limit used = leb_ℤ (pos 0) limit && leb_ℤ limit (pos used)

org_reached_lem :
    (limit : ℤ) (n : ℕ)
    → org_reached (ok (record { limit = limit; used = n })) ≡ ok (is_over limit n)
unfolding org_reached
org_reached_lem (pos k) n = ground (arith)
org_reached_lem (negsuc k) n = ground (arith)

global_reached_lem : (limit : ℤ) (n : ℕ) → global_reached limit (some n) ≡ ok (is_over limit n)
unfolding global_reached
global_reached_lem (pos k) n = ground (arith)
global_reached_lem (negsuc k) n = ground (arith)

-- The limits that the settings have for endpoints and for probes.
abbrev pub global_limit : QuotaSettings → String → ℤ
global_limit q target = if str_eq target "endpoint" then q.global_endpoint else q.global_probe

abbrev pub org_limit : QuotaSettings → String → ℤ
org_limit q target = if str_eq target "endpoint" then q.org_endpoint else q.org_probe

module _ (count : String → ℕ → Option ℕ) (count_all : String → Option ℕ) (rows : List Quota)
    (org : ℕ) where
  -- While quotas are enabled and the database counts n rows of the organisation and m rows in all, a
  -- request for an endpoint or a probe is over the quota exactly when m reaches the limit for all or n
  -- the organisation's own, which is its row's limit or else the default. A negative limit is none.
  pub quota_reached_lem :
      (q : QuotaSettings) (target : String) (n m : ℕ)
      → q.enabled ≡ true
      → (target ≡ "endpoint") ⊎ (target ≡ "probe")
      → count target org ≡ some n
      → count_all target ≡ some m
      → quota_reached count count_all rows org q target ≡ (
        is_over (global_limit q target) m
            || is_over (limit_or (org_limit q target) rows org target) n,
        none,
      )
  unfolding quota_reached get_quota_scopes get_org_quota
  quota_reached_lem q target n m on (inl t) own all =
      let e : str_eq target "endpoint" ≡ true = rw t refl in
      let p : str_eq target "probe" ≡ false = rw t refl in
      let d : str_eq target "downloadLimit" ≡ false = rw t refl in
      ground (
        arith,
        global_reached_lem q.global_endpoint m,
        org_reached_lem (limit_or q.org_endpoint rows org target) n,
      )
  quota_reached_lem q target n m on (inr t) own all =
      let e : str_eq target "endpoint" ≡ false = rw t refl in
      let p : str_eq target "probe" ≡ true = rw t refl in
      let d : str_eq target "downloadLimit" ≡ false = rw t refl in
      ground (
        arith,
        global_reached_lem q.global_probe m,
        org_reached_lem (limit_or q.org_probe rows org target) n,
      )

  -- While quotas are enabled, a request for an endpoint or a probe is refused where the database cannot
  -- count the rows of the organisation.
  pub quota_reached-refuses :
      (q : QuotaSettings) (target : String)
      → q.enabled ≡ true
      → (target ≡ "endpoint") ⊎ (target ≡ "probe")
      → count target org ≡ none
      → (quota_reached count count_all rows org q target).0 ≡ true
  unfolding quota_reached get_quota_scopes get_org_quota org_reached
  quota_reached-refuses q target on (inl t) fails =
      let e : str_eq target "endpoint" ≡ true = rw t refl in
      let p : str_eq target "probe" ≡ false = rw t refl in
      let d : str_eq target "downloadLimit" ≡ false = rw t refl in ground (arith)
  quota_reached-refuses q target on (inr t) fails =
      let e : str_eq target "endpoint" ≡ false = rw t refl in
      let p : str_eq target "probe" ≡ true = rw t refl in
      let d : str_eq target "downloadLimit" ≡ false = rw t refl in ground (arith)
