-- ===== src/Store/Endpoint/Reads.antt =====
-- pkg/services/sqlstore/endpoint.go, scrutinizeState and ToDTO: the endpoints as they are read, with their
-- checks and tags. The list of DTOs is in the order in which the endpoints are met, where Go's is any. An
-- instant is a number of nanoseconds and a frequency a number of seconds, so small that none wraps.
pub mod Grouping
pub mod States
mod Samples
use worldping_api.Prelude.{
  ℕ, ◌+◌, ◌*◌, String, Bool, true, false, ◌&&◌, Option, none, some, List, [], ◌∷◌, ◌++◌, map, any,
  ltb, ◌==◌, if◌then◌else◌,
}
use worldping_api.Prelude.Int.{ℤ, eqb_ℤ}
use worldping_api.Models.Check.{CheckEvalResult, eval_result_unknown, second}
use worldping_api.Store.Joined.{add_filled}

-- m.Endpoint
pub record EndpointRow : Type 0 where
  pub id : ℕ
  pub org_id : ℕ
  pub name : String
  pub slug : String
  pub created : ℕ
  pub updated : ℕ

-- m.Check: the columns that scrutinizeState reads and writes, and the id.
pub record StateRow : Type 0 where
  pub id : ℕ
  pub frequency : ℕ
  pub state : CheckEvalResult
  pub state_change : ℕ
  pub state_check : ℕ

-- endpointRow. The columns of a left join without a partner are zero.
pub record EndpointJoin : Type 0 where
  pub endpoint : EndpointRow
  pub check : StateRow
  pub tag : String

-- m.EndpointDTO
pub record EndpointDto : Type 0 where
  pub endpoint : EndpointRow
  pub checks : List StateRow
  pub tags : List String

unfoldable pub scrutinize_state : ℕ → StateRow → StateRow
scrutinize_state now c =
    if eqb_ℤ c.state eval_result_unknown
    then c
    else if ltb (c.state_check + 3 * c.frequency * second) now
    then record c { state = eval_result_unknown; state_change = c.state_check }
    else c

-- A check is entered by its id, unless it has been.
pub enter_check : StateRow → List StateRow → List StateRow
enter_check c cs = if c.id == 0 then cs else if any (λ d. d.id == c.id) cs then cs else cs ++ c ∷ []

-- One turn of the first loop, on the three maps by the id of the endpoint.
pub add_join : EndpointJoin → List EndpointDto → List EndpointDto
unfolding enter_check
add_join r [] =
    record { endpoint = r.endpoint; checks = enter_check r.check []; tags = add_filled r.tag [] }
    ∷ []
add_join r (e ∷ es) =
    let rest = add_join r es in
    if e.endpoint.id == r.endpoint.id
    then record e { checks = enter_check r.check e.checks; tags = add_filled r.tag e.tags } ∷ es
    else e ∷ rest

pub add_joins : List EndpointJoin → List EndpointDto → List EndpointDto
unfolding add_join
add_joins [] es = es
add_joins (r ∷ rs) es = add_joins rs (add_join r es)

-- One turn of the second loop.
pub with_states : ℕ → EndpointDto → EndpointDto
unfolding scrutinize_state
with_states now e = record e { checks = map (scrutinize_state now) e.checks }

unfoldable pub to_dto : ℕ → List EndpointJoin → List EndpointDto
unfolding add_joins with_states
to_dto now rows = map (with_states now) (add_joins rows [])
