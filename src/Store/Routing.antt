-- ===== src/Store/Routing.antt =====
-- pkg/services/sqlstore/probe.go, getProbesForCheck, and endpoint.go, getProbeChecks and
-- getProbeChecksWithEndpointSlug and validateCheckRoute: which probes run a check, asked from either side. A join is the list of
-- the rows that it gives.
pub mod Agrees
pub mod Usable
mod Samples
use text.Mathlib.Text.{◌==◌ as str_eq}
use worldping_api.Prelude.{
  ℕ, String, Bool, true, false, not, ◌&&◌, ◌||◌, Option, none, some, List, [], ◌∷◌, ◌++◌, map,
  select, any, ◌==◌, if◌then◌else◌, Outcome, ok, err,
}
use worldping_api.Prelude.Assoc.{lookup, insert}
use worldping_api.Prelude.Sets.{member, enter}
use worldping_api.Models.Route.{RouteValue, CheckRoute}
use worldping_api.Store.Endpoint.Routes.{RouteError, unknown_route_type, tags_of, ids_of}
use worldping_api.Store.Probes.{ProbeRow, ProbeTagRow}

-- m.Check: the columns that the queries read, and its route.
pub record RoutedCheck : Type 0 where
  pub id : ℕ
  pub org_id : ℕ
  pub endpoint_id : ℕ
  pub enabled : Bool
  pub route : CheckRoute

-- m.RouteByIdIndex and m.RouteByTagIndex
pub record IdIndexRow : Type 0 where
  pub check_id : ℕ
  pub probe_id : ℕ

pub record TagIndexRow : Type 0 where
  pub check_id : ℕ
  pub org_id : ℕ
  pub tag : String

-- The two columns of an endpoint that the queries read.
pub record EndpointSlug : Type 0 where
  pub id : ℕ
  pub slug : String

-- The tables check, endpoint, route_by_id_index, route_by_tag_index, probe and probe_tag.
pub record RoutingDb : Type 0 where
  pub checks : List RoutedCheck
  pub endpoints : List EndpointSlug
  pub by_id : List IdIndexRow
  pub by_tag : List TagIndexRow
  pub probes : List ProbeRow
  pub tags : List ProbeTagRow

-- probe LEFT JOIN probe_tag ON ... AND probe_tag.org_id=? WHERE probe_tag.tag IN (...)
tag_matches : ℕ → List String → List ProbeTagRow → ProbeRow → List ℕ
tag_matches org ts rows p =
    map (λ r. p.id)
      (select (λ r. r.probe_id == p.id && (r.org_id == org && member str_eq r.tag ts)) rows)

tagged_probes : ℕ → List String → List ProbeTagRow → List ProbeRow → List ℕ
unfolding tag_matches
tagged_probes org ts rows [] = []
tagged_probes org ts rows (p ∷ ps) = tag_matches org ts rows p ++ tagged_probes org ts rows ps

by_tags : RoutingDb → ℕ → Option (List String) → Option (Outcome RouteError (List ℕ))
unfolding tagged_probes
by_tags db org none = none
by_tags db org (some ts) = some (ok (enter ◌==◌ (tagged_probes org ts db.tags db.probes) []))

by_ids : Option (List ℕ) → Option (Outcome RouteError (List ℕ))
by_ids none = none
by_ids (some ids) = some (ok ids)

-- A type assertion that fails is a panic: `none`.
unfoldable pub get_probes_for_check : RoutingDb → RoutedCheck → Option (Outcome RouteError (List ℕ))
unfolding by_tags by_ids
get_probes_for_check db c =
    if str_eq c.route.type "byTags"
    then by_tags db c.org_id (tags_of (lookup "tags" c.route.config))
    else if str_eq c.route.type "byIds"
    then by_ids (ids_of (lookup "ids" c.route.config))
    else some (err unknown_route_type)

-- route_by_id_index JOIN check WHERE probe_id=? AND check.enabled=1
enabled_ids : List RoutedCheck → ℕ → List ℕ
enabled_ids cs id = map (λ c. c.id) (select (λ c. c.id == id && c.enabled) cs)

ids_by_id : ℕ → List RoutedCheck → List IdIndexRow → List ℕ
unfolding enabled_ids
ids_by_id probe cs [] = []
ids_by_id probe cs (r ∷ rs) =
    let rest = ids_by_id probe cs rs in
    if r.probe_id == probe then enabled_ids cs r.check_id ++ rest else rest

-- route_by_tag_index INNER JOIN probe_tag WHERE probe_tag.probe_id=?
ids_by_tag : ℕ → List ProbeTagRow → List TagIndexRow → List ℕ
ids_by_tag probe tags [] = []
ids_by_tag probe tags (i ∷ is) =
    map (λ r. i.check_id)
      (select (λ r. i.org_id == r.org_id && (str_eq i.tag r.tag && r.probe_id == probe)) tags)
    ++ ids_by_tag probe tags is

-- The UNION of the two queries.
check_ids : RoutingDb → ℕ → List ℕ
unfolding ids_by_id ids_by_tag
check_ids db probe =
    enter ◌==◌ (ids_by_id probe db.checks db.by_id ++ ids_by_tag probe db.tags db.by_tag) []

checks_of : RoutingDb → List ℕ → List RoutedCheck
checks_of db [] = []
checks_of db (id ∷ ids) = select (λ c. member ◌==◌ c.id (id ∷ ids) && c.enabled) db.checks

unfoldable pub get_probe_checks : RoutingDb → ℕ → List RoutedCheck
unfolding check_ids checks_of
get_probe_checks db probe = checks_of db (check_ids db probe)

-- check INNER JOIN endpoint
with_slugs : List EndpointSlug → List RoutedCheck → List (RoutedCheck × String)
with_slugs es [] = []
with_slugs es (c ∷ cs) =
    map (λ e. (c, e.slug)) (select (λ e. c.endpoint_id == e.id) es) ++ with_slugs es cs

unfoldable pub get_probe_checks_with_endpoint_slug : RoutingDb → ℕ → List (RoutedCheck × String)
unfolding check_ids checks_of with_slugs
get_probe_checks_with_endpoint_slug db probe =
    with_slugs db.endpoints (checks_of db (check_ids db probe))

pub data RouteInvalid : Type 0 where
  need_tag need_id unknown_type : RouteInvalid

-- (org_id=? OR public=1) AND id IN (...)
pub usable_ids : ℕ → List ℕ → List ProbeRow → List ℕ
usable_ids org ns ps =
    map (λ p. p.id) (select (λ p. (p.org_id == org || p.public) && member ◌==◌ p.id ns) ps)

with_usable : RoutedCheck → List ℕ → Outcome RouteInvalid RoutedCheck
with_usable c [] = err need_id
with_usable c (n ∷ ns) =
    let route : CheckRoute = record c.route {
      config = insert "ids" (RouteValue.ids (n ∷ ns)) c.route.config;
    } in
    ok (record c { route = route })

checked_tags : RoutedCheck → Option (List String) → Option (Outcome RouteInvalid RoutedCheck)
checked_tags c none = none
checked_tags c (some []) = some (err need_tag)
checked_tags c (some (t ∷ ts)) = some (ok c)

checked_ids : RoutingDb → RoutedCheck → Option (List ℕ) → Option (Outcome RouteInvalid RoutedCheck)
unfolding with_usable usable_ids
checked_ids db c none = none
checked_ids db c (some []) = some (err need_id)
checked_ids db c (some (n ∷ ns)) = some (with_usable c (usable_ids c.org_id (n ∷ ns) db.probes))

unfoldable pub validate_check_route :
    RoutingDb → RoutedCheck → Option (Outcome RouteInvalid RoutedCheck)
unfolding checked_tags checked_ids
validate_check_route db c =
    if not c.enabled
    then some (ok c)
    else if str_eq c.route.type "byTags"
    then checked_tags c (tags_of (lookup "tags" c.route.config))
    else if str_eq c.route.type "byIds"
    then checked_ids db c (ids_of (lookup "ids" c.route.config))
    else some (err unknown_type)
