-- ===== src/Store/Routing/Usable.antt =====
-- pkg/services/sqlstore/endpoint.go, validateCheckRoute, and probe.go, getProbesForCheck: the probes of a check
-- whose route has been validated.
use worldping_api.Prelude.{
  ℕ, ◌<◌, ◌≡◌, refl, sym, ap, ◌∙◌, true, ◌&&◌, ◌||◌, some, List, [], ◌∷◌, any, length, ◌==◌, ==_iff,
  arith, Bool-cases, inl, inr, ok, ok-injective,
}
use mathlib.Core.Option.{some-injective}
use mathlib.Core.Path.{subst}
use worldping_api.Prelude.Assoc.{lookup, lookup-insert}
use worldping_api.Prelude.Sets.{member}
use worldping_api.Models.Route.{ids}
use worldping_api.Store.Endpoint.Routes.{ids_of}
use worldping_api.Store.Probes.{ProbeRow}
use worldping_api.Store.Routing.{
  RoutedCheck, RoutingDb, usable_ids, with_usable, checked_ids, by_ids, get_probes_for_check,
  validate_check_route,
}

member-usable_ids :
    (org probe : ℕ) (ns : List ℕ) (ps : List ProbeRow)
    → member ◌==◌ probe (usable_ids org ns ps)
      ≡ (member ◌==◌ probe ns && any (λ p. p.id == probe && (p.org_id == org || p.public)) ps)
unfolding usable_ids
member-usable_ids org probe ns [] = ground (arith)
member-usable_ids org probe ns (p ∷ ps) = elim (Bool-cases (p.id == probe)) [
  | inl e ↦
      let same : p.id ≡ probe = (==_iff p.id probe).0 e in
      ground (
        arith,
        member-usable_ids org probe ns ps,
        ap (λ i. member ◌==◌ i ns) same,
        ==_iff probe p.id,
      )
  | inr e ↦ ground (arith, member-usable_ids org probe ns ps, ==_iff probe p.id)
]

routed_to :
    (db : RoutingDb) (c c' : RoutedCheck) (ns : List ℕ)
    → c.route.type ≡ "byIds"
    → with_usable c ns ≡ ok c'
    → (get_probes_for_check db c' ≡ some (ok ns)) × (0 < length ns)
unfolding with_usable get_probes_for_check by_ids ids_of
routed_to db c c' [] type h = absurd cc
routed_to db c c' (n ∷ ns) type h = (
  subst (λ d. get_probes_for_check db d ≡ some (ok (n ∷ ns))) (ok-injective h)
      (simp (type, lookup-insert "ids" "ids" (ids (n ∷ ns)) c.route.config) refl),
  omega arith,
)

validated :
    (db : RoutingDb) (c : RoutedCheck) (ns : List ℕ)
    → c.enabled ≡ true
    → c.route.type ≡ "byIds"
    → c.route.config ≡ ("ids", ids ns) ∷ []
    → validate_check_route db c ≡ checked_ids db c (some ns)
unfolding validate_check_route ids_of lookup
validated db c ns enabled type config = simp (enabled, type, config) refl

-- A check by ids that is enabled and whose route is accepted has a probe at least, and its probes are those
-- of the given ids that are probes of its organisation or public.
pub validate_check_route-get_probes_for_check :
    (db : RoutingDb) (c c' : RoutedCheck) (ns : List ℕ) (probe : ℕ)
    → c.enabled ≡ true
    → c.route.type ≡ "byIds"
    → c.route.config ≡ ("ids", ids ns) ∷ []
    → validate_check_route db c ≡ some (ok c')
    → (ps : List ℕ) × (get_probes_for_check db c' ≡ some (ok ps))
      × (0 < length ps)
      × (member ◌==◌ probe ps ≡ (
          member ◌==◌ probe ns
          && any (λ p. p.id == probe && (p.org_id == c.org_id || p.public)) db.probes))
unfolding checked_ids
validate_check_route-get_probes_for_check db c c' [] probe enabled type config h =
    absurd (let bad = sym (validated db c [] enabled type config) ∙ h in cc)
validate_check_route-get_probes_for_check db c c' (n ∷ ns) probe enabled type config h =
    let usable = usable_ids c.org_id (n ∷ ns) db.probes in
    let accepted : some (with_usable c usable) ≡ some (ok c') =
      sym (validated db c (n ∷ ns) enabled type config) ∙ h in
    let (found, positive) =
      routed_to db c c' usable type (some-injective (with_usable c usable) (ok c') accepted) in
    (usable, found, positive, member-usable_ids c.org_id probe (n ∷ ns) db.probes)
