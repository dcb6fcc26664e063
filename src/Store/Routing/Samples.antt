-- ===== src/Store/Routing/Samples.antt =====
-- Two checks, one by ids and one by tags, and the probes that run them.
use text.Mathlib.TextEquality.{eq_iff}
use worldping_api.Prelude.{
  ◌<◌, ◌||◌, ◌&&◌, Option, Outcome, length, ℕ, ◌≡◌, refl, true, List, [], ◌∷◌, some, ok, any, ◌==◌,
  ==_iff, arith, inl,
}
use worldping_api.Prelude.Assoc.{lookup}
use worldping_api.Prelude.Sets.{member}
use worldping_api.Models.Route.{tags, ids}
use worldping_api.Store.Endpoint.Routes.{tags_of, ids_of}
use worldping_api.Store.Probes.{ProbeRow}
use worldping_api.Store.Routing.Usable.{validate_check_route-get_probes_for_check}
use worldping_api.Store.Routing.{
  RouteInvalid, validate_check_route, checked_ids, with_usable, usable_ids, RoutedCheck, RoutingDb,
  get_probes_for_check, get_probe_checks,
}
use worldping_api.Store.Routing.Agrees.{IsIndexed, get_probes_for_check-get_probe_checks}

abbrev ping : RoutedCheck
ping = record {
  id = 7;
  org_id = 1;
  endpoint_id = 3;
  enabled = true;
  route = record { type = "byTags"; config = ("tags", tags ("eu" ∷ [])) ∷ [] };
}

abbrev dns : RoutedCheck
dns = record ping { id = 8; route = record { type = "byIds"; config = ("ids", ids (5 ∷ [])) ∷ [] } }

abbrev oslo : ProbeRow
oslo = record {
  id = 4;
  org_id = 1;
  name = "oslo";
  slug = "oslo";
  enabled = true;
  enabled_change = 5;
  public = true;
  online = true;
  online_change = 6;
  created = 3;
  updated = 3;
}

abbrev db : RoutingDb
db = record {
  checks = ping ∷ dns ∷ [];
  endpoints = record { id = 3; slug = "site" } ∷ [];
  by_id = record { check_id = 8; probe_id = 5 } ∷ [];
  by_tag = record { check_id = 7; org_id = 1; tag = "eu" } ∷ [];
  probes = oslo ∷ record oslo { id = 5; name = "lima" } ∷ [];
  tags =
      record { org_id = 1; probe_id = 4; tag = "eu" }
      ∷ record { org_id = 2; probe_id = 5; tag = "eu" }
      ∷ [];
}

ping-IsIndexed : IsIndexed db ping
unfolding tags_of ids_of lookup
ping-IsIndexed = record {
  by_tag = λ org t. ground (arith, ==_iff org 1, ==_iff 1 org, eq_iff t "eu", eq_iff "eu" t);
  by_id = λ p. refl;
}

get_probes_for_check-get_probe_checks_example :
    (ps : List ℕ) × (get_probes_for_check db ping ≡ some (ok ps))
    × (member ◌==◌ 4 ps ≡ any (λ x. x.id == 7) (get_probe_checks db 4))
get_probes_for_check-get_probe_checks_example =
    get_probes_for_check-get_probe_checks db ping 4 (inl (refl, "eu" ∷ [], refl)) ping-IsIndexed
      refl refl

-- The route of `dns`, checked again: probe 9 does not exist.
abbrev wished : RoutedCheck
wished = record dns { route = record { type = "byIds"; config = ("ids", ids (9 ∷ 5 ∷ [])) ∷ [] } }

abbrev accepted : Option (Outcome RouteInvalid RoutedCheck) → RoutedCheck
accepted (some (ok c)) = c
accepted _ = wished

wished-accepted :
    validate_check_route db wished ≡ some (ok (accepted (validate_check_route db wished)))
unfolding validate_check_route checked_ids with_usable usable_ids ids_of lookup
wished-accepted = refl

validate_check_route-get_probes_for_check_example :
    (ps : List ℕ) × (get_probes_for_check db (accepted (validate_check_route db wished))
      ≡ some (ok ps))
    × (0 < length ps)
    × (member ◌==◌ 5 ps ≡ (
        member ◌==◌ 5 (9 ∷ 5 ∷ [])
        && any (λ p. p.id == 5 && (p.org_id == 1 || p.public)) db.probes))
validate_check_route-get_probes_for_check_example =
    validate_check_route-get_probes_for_check db wished (accepted (validate_check_route db wished))
      (9 ∷ 5 ∷ []) 5 refl refl refl wished-accepted
