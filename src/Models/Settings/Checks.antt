-- ===== src/Models/Settings/Checks.antt =====
-- pkg/models/endpoint.go: the settings that each of the four validations accepts, in whatever order Go
-- ranges over the tables.
use mathlib.Core.List.{Perm}
use mathlib.Core.Bool.{Bool-set}
use mathlib.Core.List.Perm
use mathlib.Core.Path.{subst}
use worldping_api.Prelude.{
  ◌≡◌, refl, sym, ◌∙◌, ◌↔◌, Bool, true, Option, List, [], ◌∷◌, All, arith, ok, err, ◌>>=◌, >>=-ok,
}
use worldping_api.Models.Settings.{
  Floats, Value, Field, OrgQuota, Settings, Checked, required_field, required_value,
}
use worldping_api.Models.Settings.Fields.{
  http_required, http_optional, https_optional, ping_required, ping_optional, dns_required,
  dns_optional, each, dns_required_field, validate_http_settings, validate_https_settings,
  validate_ping_settings, validate_dns_settings,
}
use worldping_api.Models.Settings.Accept.{
  accepts, Distinct, IsLocal, Passes, each-accepts, All-perm, Distinct-perm, is_distinct,
  is_distinct-Distinct,
}
use worldping_api.Models.Settings.Cases.{
  http_case, https_case, ping_case, dns_case, absent_or, required_case, dns_required_case,
}
use worldping_api.Models.Settings.Local.{
  IsLocal-required, IsLocal-dns_required, IsLocal-http, IsLocal-https, IsLocal-ping, IsLocal-dns,
}

module _ (fl : Floats) where
  -- A step that only looks.
  abbrev Keeps : (Field → Settings fl → Checked fl) → Type 0
  Keeps step = (f : Field) (s s' : Settings fl) → step f s ≡ ok s' → s' ≡ s

  each-Keeps :
      (step : Field → Settings fl → Checked fl)
      → Keeps step
      → (fs : List Field) (s s' : Settings fl) → each fl step fs s ≡ ok s'
      → s' ≡ s
  unfolding each
  each-Keeps step keep [] s s' h = cc
  each-Keeps step keep (f ∷ fs) s s' h =
      let (t, one, rest) = >>=-ok (step f s) (λ u. each fl step fs u) h in
      each-Keeps step keep fs t s' rest ∙ keep f s t one

  required-Keeps : Keeps (required_field fl)
  unfolding required_field required_value
  required-Keeps f s s' h = ground arith

  dns_required-Keeps : Keeps (dns_required_field fl)
  unfolding dns_required_field
  dns_required-Keeps f s s' h =
      let (t, one, rest) = >>=-ok (required_field fl f s) _ h in
      ground (arith, required-Keeps f s t one)

  module _ {first second : Field → Settings fl → Checked fl}
      {p q : Field → Option (Value fl.Float) → Bool} (one : IsLocal fl first p)
      (two : IsLocal fl second q) (keep : Keeps first) where
    -- Two loops, one after the other, over two tables in some order.
    loops_accept :
        (table opt_table required opt : List Field) (s : Settings fl)
        → Distinct table
        → Distinct opt_table
        → Perm table required
        → Perm opt_table opt
        → (accepts (each fl first required s >>= λ s'. each fl second opt s') ≡ true)
          ↔ (All (Passes fl p s) table × All (Passes fl q s) opt_table)
    loops_accept table opt_table required opt s d e r o =
        go (each fl first required s) refl (each-accepts fl one required s (Distinct-perm r d))
      where
        go :
            (x : Checked fl)
            → each fl first required s ≡ x
            → (accepts x ≡ true) ↔ All (Passes fl p s) required
            → (accepts (x >>= λ s'. each fl second opt s') ≡ true)
              ↔ (All (Passes fl p s) table × All (Passes fl q s) opt_table)
        go (err m) eq i =
            (λ h. cc, λ a. cc (i.1 (All-perm (Passes fl p s) (λ f. Bool-set _ _) r a.0)))
        go (ok s') eq i =
            let same = each-Keeps first keep required s s' eq in
            let acc = each-accepts fl two opt s (Distinct-perm o e) in
            (
              λ h. (
                All-perm (Passes fl p s) (λ f. Bool-set _ _) (Perm.symm r) (i.0 refl),
                All-perm (Passes fl q s) (λ f. Bool-set _ _) (Perm.symm o)
                    (acc.0 (subst (λ t. accepts (each fl second opt t) ≡ true) same h)),
              ),
              λ a.
                  subst (λ t. accepts (each fl second opt t) ≡ true) (sym same)
                    (acc.1 (All-perm (Passes fl q s) (λ f. Bool-set _ _) o a.1)),
            )

  -- An HTTP check's settings are accepted exactly when host and path are texts that are not empty, and
  -- each optional field that is there passes the case of its type. The order of the tables does not matter.
  pub validate_http_settings-accepts :
      (required opt : List Field) (quotas : List OrgQuota) (s : Settings fl)
      → Perm http_required required
      → Perm http_optional opt
      → (accepts (validate_http_settings fl required opt quotas s) ≡ true) ↔ (
          All (Passes fl (required_case fl) s) http_required
          × All (Passes fl (absent_or fl (http_case fl quotas)) s) http_optional)
  unfolding validate_http_settings is_distinct
  validate_http_settings-accepts required opt quotas s r o =
      loops_accept (IsLocal-required fl) (IsLocal-http fl quotas) required-Keeps http_required
        http_optional required opt s (is_distinct-Distinct http_required refl)
        (is_distinct-Distinct http_optional refl) r o

  -- The same for an HTTPS check, whose table has validateCert, a Boolean, too. The order of the tables does not matter.
  pub validate_https_settings-accepts :
      (required opt : List Field) (quotas : List OrgQuota) (s : Settings fl)
      → Perm http_required required
      → Perm https_optional opt
      → (accepts (validate_https_settings fl required opt quotas s) ≡ true) ↔ (
          All (Passes fl (required_case fl) s) http_required
          × All (Passes fl (absent_or fl (https_case fl quotas)) s) https_optional)
  unfolding validate_https_settings is_distinct
  validate_https_settings-accepts required opt quotas s r o =
      loops_accept (IsLocal-required fl) (IsLocal-https fl quotas) required-Keeps http_required
        https_optional required opt s (is_distinct-Distinct http_required refl)
        (is_distinct-Distinct https_optional refl) r o

  -- A Ping check's settings are accepted exactly when hostname is a text that is not empty, the timeout
  -- is absent or above 0 and up to 10, and the IP version is absent or one of three. The order of the tables does not matter.
  pub validate_ping_settings-accepts :
      (required opt : List Field) (s : Settings fl)
      → Perm ping_required required
      → Perm ping_optional opt
      → (accepts (validate_ping_settings fl required opt s) ≡ true) ↔ (
          All (Passes fl (required_case fl) s) ping_required
          × All (Passes fl (absent_or fl (ping_case fl)) s) ping_optional)
  unfolding validate_ping_settings is_distinct
  validate_ping_settings-accepts required opt s r o =
      loops_accept (IsLocal-required fl) (IsLocal-ping fl) required-Keeps ping_required
        ping_optional required opt s (is_distinct-Distinct ping_required refl)
        (is_distinct-Distinct ping_optional refl) r o

  pub validate_dns_settings-accepts :
      (required opt : List Field) (s : Settings fl)
      → Perm dns_required required
      → Perm dns_optional opt
      → (accepts (validate_dns_settings fl required opt s) ≡ true) ↔ (
          All (Passes fl (dns_required_case fl) s) dns_required
          × All (Passes fl (absent_or fl (dns_case fl)) s) dns_optional)
  unfolding validate_dns_settings is_distinct
  validate_dns_settings-accepts required opt s r o =
      loops_accept (IsLocal-dns_required fl) (IsLocal-dns fl) dns_required-Keeps dns_required
        dns_optional required opt s (is_distinct-Distinct dns_required refl)
        (is_distinct-Distinct dns_optional refl) r o
