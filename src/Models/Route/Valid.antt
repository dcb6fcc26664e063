-- ===== src/Models/Route/Valid.antt =====
-- pkg/models/endpoint.go, CheckRoute.Validate and Check.Validate: what a check that passes is like.
use text.Mathlib.Text.{◌==◌ as str_eq}
use text.Mathlib.TextEquality.{eq_iff}
use worldping_api.Prelude.{
  ℕ, zero, suc, String, ◌≡◌, ◌⊎◌, ◌↔◌, refl, inl, inr, true, false, Option, none, some, List, [],
  ◌∷◌, arith, Bool-cases, any, ap, ok, err, Outcome, ok-injective,
}
use worldping_api.Prelude.Int.{ℤ, pos, negsuc, eqb_ℤ, eqb_ℤ_iff}
use worldping_api.Prelude.Assoc.{Assoc, lookup}
use worldping_api.Models.Settings.{Floats, OrgQuota, Invalid, Settings}
use worldping_api.Models.Settings.Fields.{
  validate_http_settings, validate_https_settings, validate_ping_settings, validate_dns_settings,
}
use worldping_api.Models.Route.{
  CheckRoute, RouteValue, Tables, Check, unknown_check_type, config_with, validate_route,
  is_valid_frequency, validate_settings, from_settings, validate_with, validate,
}

-- The config holds one key, the given one.
abbrev pub Holds : String → Assoc RouteValue → Type 0
Holds key config = (v : RouteValue) × (config ≡ (key, v) ∷ [])

-- A route by tags or by ids, with its list and nothing else.
abbrev pub IsRoute : CheckRoute → Type 0
IsRoute r =
    ((r.type ≡ "byTags") × Holds "tags" r.config) ⊎ ((r.type ≡ "byIds") × Holds "ids" r.config)

config_with_sound :
    (key : String) (config : Assoc RouteValue) → config_with key config ≡ ok tt → Holds key config
unfolding config_with lookup
config_with_sound key [] h = cc
config_with_sound key ((k, v) ∷ []) h = (v, ground (arith, eq_iff k key))
config_with_sound key (a ∷ b ∷ rest) h = absurd (ground arith)

config_with_complete :
    (key : String) (config : Assoc RouteValue) → Holds key config → config_with key config ≡ ok tt
unfolding config_with lookup
config_with_complete key config (v, e) = ground (arith, eq_iff key key)

-- A route passes its validation exactly when it is by tags with the one key tags, or by ids with the
-- one key ids.
pub validate_route_iff : (r : CheckRoute) → (validate_route r ≡ ok tt) ↔ IsRoute r
unfolding validate_route
validate_route_iff r = (there, back)
  where
    there : validate_route r ≡ ok tt → IsRoute r
    there h = elim (Bool-cases (str_eq r.type "byTags")) [
      | inl e ↦ inl ((eq_iff r.type "byTags").0 e, config_with_sound "tags" r.config (rw e at h))
      | inr e ↦ elim (Bool-cases (str_eq r.type "byIds")) [
        | inl f ↦
            inr ((eq_iff r.type "byIds").0 f, config_with_sound "ids" r.config (rw (e, f) at h))
        | inr f ↦ absurd (ground arith)
      ]
    ]

    back : IsRoute r → validate_route r ≡ ok tt
    back (inl (t, c)) =
        ground (arith, eq_iff r.type "byTags", config_with_complete "tags" r.config c)
    back (inr (t, c)) =
        let other : str_eq r.type "byTags" ≡ false = rw t in
        let same : str_eq r.type "byIds" ≡ true = (eq_iff r.type "byIds").1 t in
        ground (arith, config_with_complete "ids" r.config c)

pub frequency_pos : (f : ℤ) → is_valid_frequency f ≡ true → (n : ℕ) × (f ≡ pos (suc n))
unfolding is_valid_frequency
frequency_pos (pos zero) h = absurd (ground arith)
frequency_pos (pos (suc n)) h = (n, refl)
frequency_pos (negsuc n) h = absurd (ground arith)

-- The frequencies, in seconds.
abbrev pub IsFrequency : ℤ → Type 0
IsFrequency f =
    (f ≡ pos 10) ⊎ (f ≡ pos 30) ⊎ (f ≡ pos 60) ⊎ (f ≡ pos 120) ⊎ (f ≡ pos 300) ⊎ (f ≡ pos 600)

one_of :
    (f k : ℤ) (ks : List ℤ) → any (eqb_ℤ f) (k ∷ ks) ≡ true → (f ≡ k) ⊎ (any (eqb_ℤ f) ks ≡ true)
one_of f k ks h = elim (Bool-cases (eqb_ℤ f k)) [
  | inl e ↦ inl ((eqb_ℤ_iff f k).0 e)
  | inr e ↦ inr (rw e at h)
]

none_left : (f : ℤ) → any (eqb_ℤ f) [] ≡ true → ⊥
none_left f h = cc

is_valid_frequency_iff : (f : ℤ) → (is_valid_frequency f ≡ true) ↔ IsFrequency f
unfolding is_valid_frequency
is_valid_frequency_iff f = (there, back)
  where
    there : is_valid_frequency f ≡ true → IsFrequency f
    there h = elim (one_of f (pos 10) (pos 30 ∷ pos 60 ∷ pos 120 ∷ pos 300 ∷ pos 600 ∷ []) h) [
      | inl e ↦ inl e
      | inr h1 ↦ inr (elim (one_of f (pos 30) (pos 60 ∷ pos 120 ∷ pos 300 ∷ pos 600 ∷ []) h1) [
        | inl e ↦ inl e
        | inr h2 ↦ inr (elim (one_of f (pos 60) (pos 120 ∷ pos 300 ∷ pos 600 ∷ []) h2) [
          | inl e ↦ inl e
          | inr h3 ↦ inr (elim (one_of f (pos 120) (pos 300 ∷ pos 600 ∷ []) h3) [
            | inl e ↦ inl e
            | inr h4 ↦ inr (elim (one_of f (pos 300) (pos 600 ∷ []) h4) [
              | inl e ↦ inl e
              | inr h5 ↦
                  inr (elim (one_of f (pos 600) [] h5) [
                    | inl e ↦ e
                    | inr h6 ↦ absurd (none_left f h6)
                  ])
            ])
          ])
        ])
      ])
    ]

    back : IsFrequency f → is_valid_frequency f ≡ true
    back (inl e) = rw e refl
    back (inr (inl e)) = rw e refl
    back (inr (inr (inl e))) = rw e refl
    back (inr (inr (inr (inl e)))) = rw e refl
    back (inr (inr (inr (inr (inl e))))) = rw e refl
    back (inr (inr (inr (inr (inr e))))) = rw e refl

module _ (fl : Floats) where
  -- The settings pass the validation of a type of check, which leaves some settings.
  abbrev pub SettingsPass : Tables → List OrgQuota → Check fl → Settings fl → Type 0
  SettingsPass t quotas c left =
      ((c.type ≡ "http")
        × (validate_http_settings fl t.required t.optional quotas c.settings ≡ ok left))
      ⊎ ((c.type ≡ "https")
          × (validate_https_settings fl t.required t.optional quotas c.settings ≡ ok left))
      ⊎ ((c.type ≡ "ping") × (validate_ping_settings fl t.required t.optional c.settings ≡ ok left))
      ⊎ ((c.type ≡ "dns") × (validate_dns_settings fl t.required t.optional c.settings ≡ ok left))

  from_ok :
      (o : Outcome Invalid (Settings fl)) (left : Settings fl)
      → from_settings fl o ≡ ok left
      → o ≡ ok left
  unfolding from_settings
  from_ok (ok s) left h = ap ok (ok-injective h)
  from_ok (err e) left h = absurd cc

  validate_settings_iff :
      (t : Tables) (quotas : List OrgQuota) (c : Check fl) (left : Settings fl)
      → (validate_settings fl t quotas c.type c.settings ≡ ok left) ↔ SettingsPass t quotas c left
  unfolding validate_settings from_settings
  validate_settings_iff t quotas c left = (there, back)
    where
      there :
          validate_settings fl t quotas c.type c.settings ≡ ok left → SettingsPass t quotas c left
      there h = elim (Bool-cases (str_eq c.type "http")) [
        | inl e ↦ inl ((eq_iff c.type "http").0 e, from_ok _ left (rw e at h))
        | inr e1 ↦ inr (elim (Bool-cases (str_eq c.type "https")) [
          | inl e ↦ inl ((eq_iff c.type "https").0 e, from_ok _ left (rw (e1, e) at h))
          | inr e2 ↦ inr (elim (Bool-cases (str_eq c.type "ping")) [
            | inl e ↦ inl ((eq_iff c.type "ping").0 e, from_ok _ left (rw (e1, e2, e) at h))
            | inr e3 ↦ inr (elim (Bool-cases (str_eq c.type "dns")) [
              | inl e ↦ ((eq_iff c.type "dns").0 e, from_ok _ left (rw (e1, e2, e3, e) at h))
              | inr e4 ↦
                  let unknown : err unknown_check_type ≡ ok left = rw (e1, e2, e3, e4) at h in
                  absurd cc
            ])
          ])
        ])
      ]

      back :
          SettingsPass t quotas c left → validate_settings fl t quotas c.type c.settings ≡ ok left
      back (inl (type, passed)) = rw (type, passed) refl
      back (inr (inl (type, passed))) = rw (type, passed) refl
      back (inr (inr (inl (type, passed)))) = rw (type, passed) refl
      back (inr (inr (inr (type, passed)))) = rw (type, passed) refl

  -- A check that passes.
  pub record IsValid (t : Tables) (quotas : List OrgQuota) (c : Check fl) (left : Settings fl)
      : Type 0 where
    pub route : CheckRoute
    pub has_route : c.route ≡ some route
    pub routed : IsRoute route
    pub frequency : IsFrequency c.frequency
    pub settings : SettingsPass t quotas c left

  validate_with_sound :
      (t : Tables) (quotas : List OrgQuota) (c : Check fl) (o : Option CheckRoute) (s : Settings fl)
      → c.route ≡ o
      → validate_with fl t quotas o c ≡ some (ok s)
      → IsValid t quotas c s
  unfolding validate_with
  validate_with_sound t quotas c none s e h = cc
  validate_with_sound t quotas c (some r) s e h = record {
    route = r;
    has_route = e;
    routed = (validate_route_iff r).0 (ground arith);
    frequency = (is_valid_frequency_iff c.frequency).0 (ground arith);
    settings = (validate_settings_iff t quotas c s).0 (ground arith);
  }

  -- A check passes and leaves some settings exactly when it has a route by tags or by ids with the one
  -- key for it, its frequency is 10, 30, 60, 120, 300 or 600, and its type is http, https, ping or dns,
  -- where the validation of this type leaves these settings.
  pub validate_iff :
      (t : Tables) (quotas : List OrgQuota) (c : Check fl) (s : Settings fl)
      → (validate fl t quotas c ≡ some (ok s)) ↔ IsValid t quotas c s
  unfolding validate
  validate_iff t quotas c s = (validate_with_sound t quotas c c.route s refl, back)
    where
      back : IsValid t quotas c s → validate_with fl t quotas c.route c ≡ some (ok s)
      back v =
          let routed : validate_route v.route ≡ ok tt = (validate_route_iff v.route).1 v.routed in
          let frequent : is_valid_frequency c.frequency ≡ true =
            (is_valid_frequency_iff c.frequency).1 v.frequency in
          let settled : validate_settings fl t quotas c.type c.settings ≡ ok s =
            (validate_settings_iff t quotas c s).1 v.settings in
          simp (v.has_route, routed, frequent, settled)
