-- ===== src/Store/Endpoint/Routes/Samples.antt =====
-- The route of a check, changed from ids to tags, and to a probe that is given twice.
use worldping_api.Prelude.{◌≡◌, refl, inl, inr, some, [], ◌∷◌, err}
use worldping_api.Prelude.Assoc.{lookup}
use worldping_api.Prelude.Sets.{enter, add_key}
use worldping_api.Models.Route.{tags, ids, CheckRoute}
use worldping_api.Store.Endpoint.Routes.{
  RouteRows, ids_of, update_routes, duplicate_row, update_index, insert_rows,
}
use worldping_api.Store.Endpoint.Routes.Indexed.{Indexes, Updated, update_routes-Indexes}

abbrev by_probes : CheckRoute
by_probes = record { type = "byIds"; config = ("ids", ids (1 ∷ 2 ∷ [])) ∷ [] }

abbrev by_region : CheckRoute
by_region = record { type = "byTags"; config = ("tags", tags ("europe" ∷ [])) ∷ [] }

abbrev probe_rows : RouteRows
probe_rows = record { by_tag = []; by_id = 1 ∷ 2 ∷ [] }

probes_indexed : Indexes by_probes probe_rows
unfolding ids_of lookup
probes_indexed = record { by_tag = λ t. refl; by_id = λ i. refl }

abbrev given_twice : CheckRoute
given_twice = record { type = "byIds"; config = ("ids", ids (2 ∷ 3 ∷ 3 ∷ [])) ∷ [] }

given_twice_fails : update_routes by_probes given_twice probe_rows ≡ some (err duplicate_row)
unfolding update_routes ids_of lookup update_index insert_rows enter add_key
given_twice_fails = refl

update_routes-Indexes_example : Updated by_probes by_region probe_rows
update_routes-Indexes_example =
    update_routes-Indexes by_probes by_region probe_rows (inr (refl, 1 ∷ 2 ∷ [], refl))
      (inl (refl, "europe" ∷ [], refl)) probes_indexed
