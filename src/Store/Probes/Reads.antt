-- ===== src/Store/Probes/Reads.antt =====
-- pkg/services/sqlstore/probe.go: the probe with its tags and addresses, as it is read. A left join is the
-- list of the rows that it gives; the list of DTOs is in the order in which the probes are met, where Go's
-- is any.
pub mod ById
pub mod Grouping
use text.Mathlib.Text.{◌==◌ as str_eq}
use worldping_api.Prelude.{
  ℕ, String, Bool, true, false, ◌&&◌, ◌||◌, List, [], ◌∷◌, ◌++◌, map, select, ◌==◌, if◌then◌else◌,
  Outcome, ok, err,
}
use worldping_api.Prelude.Sets.{add_key}
use worldping_api.Store.Joined.{add_filled}
use worldping_api.Store.Probes.{ProbeRow, ProbeTagRow, SessionRow}

-- m.ProbeDTO: the columns of the probe, its tags and the addresses of its sessions.
pub record ProbeDto : Type 0 where
  pub probe : ProbeRow
  pub tags : List String
  pub remote_ip : List String

-- ProbeCreated, ProbeUpdated with the last and the current state, and ProbeDeleted.
pub data ProbeEvent : Type 0 where
  probe_created probe_deleted : ProbeDto → ProbeEvent
  probe_updated : ProbeDto → ProbeDto → ProbeEvent

-- The tables probe, probe_tag and probe_session, the id that the next probe gets, the probe ids of
-- route_by_id_index, and the events that have been published, oldest first.
pub record ProbeDb : Type 0 where
  pub probes : List ProbeRow
  pub tags : List ProbeTagRow
  pub sessions : List SessionRow
  pub next_probe : ℕ
  pub routed : List ℕ
  pub published : List ProbeEvent

pub data ProbeError : Type 0 where
  probe_not_found : ProbeError

-- probeWithTag. A column of a left join without a partner is empty.
pub record ProbeWithTag : Type 0 where
  pub probe : ProbeRow
  pub tag : String
  pub remote_ip : String

unfoldable pub or_blank : List String → List String
or_blank [] = "" ∷ []
or_blank (x ∷ xs) = x ∷ xs

unfoldable pub join_ips : ProbeRow → List String → String → List ProbeWithTag
join_ips p [] tag = []
join_ips p (ip ∷ ips) tag = record { probe = p; tag = tag; remote_ip = ip } ∷ join_ips p ips tag

unfoldable pub join_tags : ProbeRow → List String → List String → List ProbeWithTag
unfolding join_ips
join_tags p [] ips = []
join_tags p (t ∷ ts) ips = join_ips p ips t ++ join_tags p ts ips

-- The tags that an organisation has given a probe.
abbrev pub tags_given : ℕ → ℕ → List ProbeTagRow → List String
tags_given org id rows = map (λ r. r.tag) (select (λ r. r.probe_id == id && r.org_id == org) rows)

abbrev pub addresses_of : ℕ → List SessionRow → List String
addresses_of id rows = map (λ s. s.remote_ip) (select (λ s. s.probe_id == id) rows)

-- probe LEFT JOIN probe_tag LEFT JOIN probe_session
unfoldable pub joined : ℕ → ProbeDb → ProbeRow → List ProbeWithTag
unfolding or_blank join_tags
joined org db p =
    join_tags p (or_blank (tags_given org p.id db.tags)) (or_blank (addresses_of p.id db.sessions))

-- One turn of the first loop of ToProbeDTO, on the three maps by the id of the probe.
unfoldable pub add_row : ProbeWithTag → List ProbeDto → List ProbeDto
unfolding add_filled
add_row r [] =
    record { probe = r.probe; tags = add_filled r.tag []; remote_ip = add_filled r.remote_ip [] }
    ∷ []
add_row r (d ∷ ds) =
    let rest = add_row r ds in
    if d.probe.id == r.probe.id
    then record d { tags = add_filled r.tag d.tags; remote_ip = add_filled r.remote_ip d.remote_ip }
      ∷ ds
    else d ∷ rest

unfoldable pub add_rows : List ProbeWithTag → List ProbeDto → List ProbeDto
unfolding add_row
add_rows [] ds = ds
add_rows (r ∷ rs) ds = add_rows rs (add_row r ds)

unfoldable pub to_probe_dto : List ProbeWithTag → List ProbeDto
unfolding add_rows
to_probe_dto rows = add_rows rows []

-- probe.id=? AND (probe.org_id=? OR probe.public=1)
unfoldable pub is_visible : ℕ → ℕ → ProbeRow → Bool
is_visible id org p = p.id == id && (p.org_id == org || p.public)

unfoldable pub joined_all : ℕ → ProbeDb → List ProbeRow → List ProbeWithTag
unfolding joined
joined_all org db [] = []
joined_all org db (p ∷ ps) = joined org db p ++ joined_all org db ps

unfoldable pub first_dto : List ProbeDto → Outcome ProbeError ProbeDto
first_dto [] = err probe_not_found
first_dto (d ∷ ds) = ok d

unfoldable pub get_probe_by_id : ℕ → ℕ → ProbeDb → Outcome ProbeError ProbeDto
unfolding is_visible joined_all first_dto
get_probe_by_id id org db =
    first_dto (to_probe_dto (joined_all org db (select (is_visible id org) db.probes)))

-- probe.name=? AND probe.org_id=?
unfoldable pub get_probe_by_name : String → ℕ → ProbeDb → Outcome ProbeError ProbeDto
unfolding joined_all first_dto
get_probe_by_name name org db = first_dto (
    to_probe_dto
      (joined_all org db (select (λ p. str_eq p.name name && p.org_id == org) db.probes)))
