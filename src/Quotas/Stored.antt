-- ===== src/Quotas/Stored.antt =====
-- pkg/services/sqlstore/quota.go: what updateOrgQuota makes of the limits that are read.
use text.Mathlib.Text.{◌==◌ as str_eq}
use text.Mathlib.TextEquality.{eq_iff}
use worldping_api.Prelude.{
  ℕ, String, ◌≡◌, ◌≢◌, refl, Bool, true, not, ◌&&◌, List, [], ◌∷◌, ◌++◌, map, any, select, arith,
  ◌==◌, if◌then◌else◌, Bool-cases, inl, inr, ==_iff, ap, ◌∙◌,
}
use worldping_api.Prelude.Int.{ℤ, pos, eqb_ℤ, eqb_ℤ_iff}
use worldping_api.Quotas.{Quota, limit_or, update_org_quota, get_org_quotas}

-- Whether the table has a row for the target of an organisation.
abbrev pub has_row : ℕ → String → List Quota → Bool
has_row org target = any λ q. q.org_id == org && str_eq q.target target

-- xorm's Update writes a limit that is not zero, and skips one that is zero.
pub record SkipsZero (write : ℤ → ℤ → ℤ) : Type 0 where
  pub nonzero : (old new : ℤ) → new ≢ pos 0 → write old new ≡ new
  pub zero : (old : ℤ) → write old (pos 0) ≡ old

-- After an update, whatever rows and default there are, the limit of the updated target is the given
-- one if there was no row for it, and else what the database makes of the stored and the given one;
-- the limit of any other target or organisation is as before.
pub update_org_quota_lem :
    (write : ℤ → ℤ → ℤ) (def : ℤ) (new : Quota) (rows : List Quota) (org : ℕ) (target : String)
    → limit_or def (update_org_quota write new rows) org target ≡ (
        if new.org_id == org && str_eq new.target target
        then (if has_row org target rows
            then write (limit_or def rows org target) new.limit
            else new.limit)
        else limit_or def rows org target)
unfolding update_org_quota limit_or
update_org_quota_lem write def new [] org target = ground (arith)
update_org_quota_lem write def new (q ∷ qs) org target = ground (
  arith,
  update_org_quota_lem write def new qs org target,
  ==_iff q.org_id new.org_id,
  ==_iff q.org_id org,
  ==_iff new.org_id org,
  eq_iff q.target new.target,
  eq_iff q.target target,
  eq_iff new.target target,
)

-- After an update, with xorm's Update of a row, the limit of the updated target is the given one, except
-- where the given one is zero and the table had a row for the target: then it is as before. The limit of
-- any other target or organisation is as before, whatever rows and default there are.
pub limit_or-update_org_quota :
    (write : ℤ → ℤ → ℤ) (def : ℤ) (new : Quota) (rows : List Quota) (org : ℕ) (target : String)
    → SkipsZero write
    → limit_or def (update_org_quota write new rows) org target ≡ (
        if new.org_id == org && str_eq new.target target
        then (if has_row org target rows && eqb_ℤ new.limit (pos 0)
            then limit_or def rows org target
            else new.limit)
        else limit_or def rows org target)
limit_or-update_org_quota write def new rows org target laws =
    update_org_quota_lem write def new rows org target
    ∙ elim (Bool-cases (eqb_ℤ new.limit (pos 0))) [
      | inl e ↦
          let zero : new.limit ≡ pos 0 = (eqb_ℤ_iff new.limit (pos 0)).0 e in
          rw e (
            ground (
              arith,
              ap (write (limit_or def rows org target)) zero,
              laws.zero (limit_or def rows org target),
            ))
      | inr e ↦ rw e (
          ground (
            arith,
            laws.nonzero (limit_or def rows org target) new.limit
                (λ z. absurd (ground (arith, (eqb_ℤ_iff new.limit (pos 0)).1 z))),
          ))
    ]

limit_or-append :
    (def : ℤ) (xs ys : List Quota) (org : ℕ) (target : String)
    → limit_or def (xs ++ ys) org target ≡ limit_or (limit_or def ys org target) xs org target
unfolding limit_or
limit_or-append def [] ys org target = refl
limit_or-append def (x ∷ xs) ys org target = ground (arith, limit_or-append def xs ys org target)

limit_or-select :
    (def : ℤ) (rows : List Quota) (org : ℕ) (target : String)
    → limit_or def (select (λ q. q.org_id == org) rows) org target ≡ limit_or def rows org target
unfolding limit_or
limit_or-select def [] org target = refl
limit_or-select def (q ∷ qs) org target = ground (arith, limit_or-select def qs org target)

-- A default does not matter where there is a row.
limit_or_row :
    (d e : ℤ) (rows : List Quota) (org : ℕ) (target : String)
    → has_row org target rows ≡ true
    → limit_or d rows org target ≡ limit_or e rows org target
unfolding limit_or
limit_or_row d e [] org target h = cc
limit_or_row d e (q ∷ qs) org target h = ground (arith, limit_or_row d e qs org target)

has_row-select :
    (rows : List Quota) (org : ℕ) (target : String)
    → any (λ q. str_eq q.target target) (select (λ q. q.org_id == org) rows)
      ≡ has_row org target rows
has_row-select [] org target = refl
has_row-select (q ∷ qs) org target = ground (arith, has_row-select qs org target)

-- The default of a target, `z` if it has none.
unfoldable pub default_of : ℤ → List (String × ℤ) → String → ℤ
default_of z [] target = z
default_of z (d ∷ ds) target =
    let rest = default_of z ds target in if str_eq d.0 target then d.1 else rest

limit_or-defaults :
    (z : ℤ) (p : String → Bool) (ds : List (String × ℤ)) (org : ℕ) (target : String)
    → limit_or z
        (map (λ d. record { org_id = org; target = d.0; limit = d.1 }) (select (λ d. p d.0) ds))
        org
        target
      ≡ (if p target then default_of z ds target else z)
unfolding limit_or default_of
limit_or-defaults z p [] org target = ground (arith)
limit_or-defaults z p (d ∷ ds) org target = elim (Bool-cases (str_eq d.0 target)) [
  | inl e ↦
      let same : p d.0 ≡ p target = ap p ((eq_iff d.0 target).0 e) in
      ground (arith, limit_or-defaults z p ds org target, ==_iff org org)
  | inr e ↦ elim (Bool-cases (p d.0)) [
    | inl f ↦ ground (arith, limit_or-defaults z p ds org target)
    | inr f ↦ ground (arith, limit_or-defaults z p ds org target)
  ]
]

-- The list of an organisation's quotas has for every target the limit that a request for this target
-- alone would find with the target's default: its row's, or else the default.
pub get_org_quotas_lem :
    (z : ℤ) (rows : List Quota) (org : ℕ) (defaults : List (String × ℤ)) (target : String)
    → limit_or z (get_org_quotas rows org defaults) org target
      ≡ limit_or (default_of z defaults target) rows org target
unfolding get_org_quotas
get_org_quotas_lem z rows org defaults target =
    let own = select (λ q. q.org_id == org) rows in
    let unseen : String → Bool = λ t. not (any (λ q. str_eq q.target t) own) in
    limit_or-append z own _ org target
    ∙ limit_or-select _ rows org target
    ∙ rw (limit_or-defaults z unseen defaults org target)
        (elim (Bool-cases (has_row org target rows)) [
          | inl e ↦ limit_or_row _ _ rows org target e
          | inr e ↦ rw (has_row-select rows org target, e) refl
        ])
