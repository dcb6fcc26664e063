-- ===== src/Store/Probes/Writes/Samples.antt =====
-- A probe that its owner changes and deletes, and whose tags another organisation changes.
use text.Mathlib.Text.{◌==◌ as str_eq}
use worldping_api.Prelude.{
  ℕ, String, ◌≡◌, ◌≢◌, refl, true, false, not, ◌&&◌, List, [], ◌∷◌, ◌++◌, select, All, any, ◌==◌,
  if◌then◌else◌, arith, Outcome, ok, err,
}
use worldping_api.Prelude.Sets.{member, count, add_key}
use worldping_api.Store.Joined.{add_filled}
use worldping_api.Store.Probes.{ProbeRow}
use worldping_api.Store.Probes.Reads.{
  ProbeDto, ProbeDb, ProbeWithTag, ProbeError, or_blank, join_ips, join_tags, joined, joined_all,
  add_row, add_rows, first_dto, to_probe_dto, probe_deleted, is_visible, probe_not_found,
  get_probe_by_id,
}
use worldping_api.Store.Probes.Reads.Grouping.{dtos_of, tags_at, addresses_at, to_probe_dto_lem}
use worldping_api.Store.Probes.Writes.{
  by_owner, update_existing, delete_existing, update_probe, delete_probe,
}
use worldping_api.Store.Probes.Writes.Owned.{other_probes, other_tags, update_probe-foreign}
use worldping_api.Store.Probes.Writes.Readback.{update_probe-readback}
use worldping_api.Store.Probes.Writes.Deleted.{OneOwner, delete_probe-safe}

abbrev slug : String → String
slug s = s

abbrev oslo : ProbeRow
oslo = record {
  id = 4;
  org_id = 1;
  name = "oslo";
  slug = "oslo";
  enabled = true;
  enabled_change = 5;
  public = true;
  online = true;
  online_change = 6;
  created = 3;
  updated = 3;
}

abbrev lima : ProbeRow
lima = record oslo { id = 5; name = "lima"; slug = "lima"; public = false }

abbrev stored : ProbeDb
stored = record {
  probes = oslo ∷ lima ∷ [];
  tags =
      record { org_id = 1; probe_id = 4; tag = "eu" }
      ∷ record { org_id = 2; probe_id = 4; tag = "far" }
      ∷ record { org_id = 2; probe_id = 4; tag = "slow" }
      ∷ [];
  sessions =
      record {
        id = 1;
        org_id = 1;
        probe_id = 4;
        socket_id = "s";
        version = "1";
        instance_id = "a";
        remote_ip = "10.0.0.1";
        updated = 7;
      }
      ∷ [];
  next_probe = 6;
  routed = 4 ∷ 5 ∷ [];
  published = [];
}

-- What organisation 2 gives for the probe, and what the owner does.
abbrev given : ProbeDto
given = record {
  probe = record oslo { org_id = 2; enabled = false };
  tags = "slow" ∷ "new" ∷ "new" ∷ [];
  remote_ip = [];
}

abbrev owned : ProbeDto
owned = record given { probe = record oslo { name = "olso"; enabled = false } }

-- The rows of the probe as organisation 2 reads it.
abbrev oslo_rows : List ProbeWithTag
oslo_rows =
    record { probe = oslo; tag = "far"; remote_ip = "10.0.0.1" }
    ∷ record { probe = oslo; tag = "slow"; remote_ip = "10.0.0.1" }
    ∷ record { probe = oslo; tag = "far"; remote_ip = "10.0.0.2" }
    ∷ []

abbrev after : Outcome ProbeError ProbeDb → ProbeDb
after (ok db) = db
after (err e) = stored

foreign_runs : update_probe slug 9 given stored ≡ ok (after (update_probe slug 9 given stored))
unfolding update_probe update_existing by_owner get_probe_by_id is_visible to_probe_dto joined_all
    joined join_tags join_ips or_blank add_rows add_row add_filled add_key first_dto
foreign_runs = refl

owned_runs : update_probe slug 9 owned stored ≡ ok (after (update_probe slug 9 owned stored))
unfolding update_probe update_existing by_owner get_probe_by_id is_visible to_probe_dto joined_all
    joined join_tags join_ips or_blank add_rows add_row add_filled add_key first_dto
owned_runs = refl

delete_runs : delete_probe 4 1 stored ≡ ok (after (delete_probe 4 1 stored))
unfolding delete_probe delete_existing get_probe_by_id is_visible to_probe_dto joined_all joined
    join_tags join_ips or_blank add_rows add_row add_filled add_key first_dto
delete_runs = refl

-- Organisation 2 sees the probe and cannot delete it.
foreign_delete : delete_probe 4 2 stored ≡ err probe_not_found
unfolding delete_probe delete_existing get_probe_by_id is_visible to_probe_dto joined_all joined
    join_tags join_ips or_blank add_rows add_row add_filled add_key first_dto
foreign_delete = refl

foreign : All (λ q. q.id ≡ 4 → 2 ≢ q.org_id) stored.probes
foreign = (λ e h. absurd (omega (arith, h)), (λ e h. absurd (omega (arith, h)), tt))

update_probe-foreign_example :
    let db' = after (update_probe slug 9 given stored) in
    (db'.probes ≡ stored.probes)
    × (db'.published ≡ stored.published)
    × (other_tags 2 4 db'.tags ≡ other_tags 2 4 stored.tags)
update_probe-foreign_example =
    update_probe-foreign slug 9 given stored (after (update_probe slug 9 given stored)) foreign
      foreign_runs

update_probe-readback_example :
    (read : ProbeDto) × (get_probe_by_id 4 1 (after (update_probe slug 9 owned stored)) ≡ ok read)
    × ((t : String)
        → count str_eq t read.tags
          ≡ (if member str_eq t ("slow" ∷ "new" ∷ "new" ∷ []) && not (str_eq t "") then 1 else 0))
update_probe-readback_example =
    update_probe-readback slug 9 owned stored (after (update_probe slug 9 owned stored)) owned_runs

delete_probe-safe_example :
    let db' = after (delete_probe 4 1 stored) in
    (other_probes 4 db'.probes ≡ other_probes 4 stored.probes)
    × (other_tags 1 4 db'.tags ≡ other_tags 1 4 stored.tags)
    × (any (λ r. r.probe_id == 4 && r.org_id == 1) db'.tags ≡ false)
    × (select (λ i. not (i == 4)) db'.routed ≡ select (λ i. not (i == 4)) stored.routed)
    × (any (λ i. i == 4) db'.routed ≡ false)
    × ((reader : ℕ) → get_probe_by_id 4 reader db' ≡ err probe_not_found)
    × (found : ProbeDto) × (get_probe_by_id 4 1 stored ≡ ok found)
    × (db'.published ≡ stored.published ++ probe_deleted found ∷ [])
delete_probe-safe_example =
    delete_probe-safe 4 1 stored (after (delete_probe 4 1 stored)) one_owner delete_runs
  where
    one_owner : OneOwner stored.probes
    one_owner = ((λ e. refl, (λ e. refl, tt)), ((λ e. refl, (λ e. refl, tt)), tt))

to_probe_dto_lem_example :
    (dtos_of 4 (to_probe_dto oslo_rows) ≡ 1)
    × (count str_eq "far" (tags_at 4 (to_probe_dto oslo_rows)) ≡ 1)
    × (count str_eq "far" (addresses_at 4 (to_probe_dto oslo_rows)) ≡ 0)
to_probe_dto_lem_example = to_probe_dto_lem oslo_rows 4 "far"
