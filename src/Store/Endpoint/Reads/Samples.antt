-- ===== src/Store/Endpoint/Reads/Samples.antt =====
-- An endpoint with two checks, one of them stale, and two tags.
use text.Mathlib.Text.{◌==◌ as str_eq}
use worldping_api.Prelude.{◌*◌, ◌≡◌, List, [], ◌∷◌, arith}
use worldping_api.Prelude.Int.{pos}
use worldping_api.Prelude.Sets.{count}
use worldping_api.Models.Check.{second}
use worldping_api.Store.Endpoint.Reads.{EndpointRow, StateRow, EndpointJoin, to_dto}
use worldping_api.Store.Endpoint.Reads.States.{check_at, checks_with, number_of, scrutinized}
use worldping_api.Store.Endpoint.Reads.Grouping.{dtos_of, tags_at, checks_at, first_row, to_dto_lem}

abbrev site : EndpointRow
site = record { id = 3; org_id = 1; name = "site"; slug = "site"; created = 1; updated = 2 }

abbrev ping : StateRow
ping = record { id = 7; frequency = 10; state = pos 0; state_change = 1; state_check = 5 * second }

abbrev dns : StateRow
dns = record ping { id = 8; state_check = 90 * second }

abbrev rows : List EndpointJoin
rows =
    record { endpoint = site; check = ping; tag = "web" }
    ∷ record { endpoint = site; check = ping; tag = "shop" }
    ∷ record { endpoint = site; check = dns; tag = "web" }
    ∷ record { endpoint = site; check = dns; tag = "shop" }
    ∷ []

to_dto_lem_example :
    (dtos_of 3 (to_dto (100 * second) rows) ≡ 1)
    × (count str_eq "shop" (tags_at 3 (to_dto (100 * second) rows)) ≡ 1)
    × (check_at 7 (checks_at 3 (to_dto (100 * second) rows))
        ≡ scrutinized (100 * second) (first_row 3 7 rows))
    × (checks_with 7 (checks_at 3 (to_dto (100 * second) rows)) ≡ number_of (first_row 3 7 rows))
to_dto_lem_example = to_dto_lem (100 * second) rows 3 7 "shop" (λ e. absurd (omega (arith, e)))
