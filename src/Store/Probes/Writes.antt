-- ===== src/Store/Probes/Writes.antt =====
-- pkg/services/sqlstore/probe.go: addProbe, updateProbe and deleteProbe. The clock is read once in an
-- operation, and `slug_of` is what UpdateSlug makes of a name by the package regexp.
pub mod Deleted
pub mod Named
pub mod Owned
pub mod Readback
mod Samples
pub mod Size
use text.Mathlib.Text.{◌==◌ as str_eq}
use worldping_api.Prelude.{
  ℕ, suc, String, Bool, true, false, not, ◌&&◌, ◌||◌, List, [], ◌∷◌, ◌++◌, map, select, ◌==◌,
  if◌then◌else◌, Outcome, ok, err, ◌>>=◌,
}
use worldping_api.Prelude.Sets.{member}
use worldping_api.Store.Endpoint.Tags.{tag_changes}
use worldping_api.Store.Probes.{ProbeRow, ProbeTagRow, kept_number, kept_string}
use worldping_api.Store.Probes.Reads.{
  ProbeDto, ProbeDb, ProbeEvent, probe_created, probe_updated, probe_deleted, ProbeError,
  probe_not_found, get_probe_by_id,
}

tag_rows : ℕ → ℕ → List String → List ProbeTagRow
tag_rows org id ts = map (λ t. record { org_id = org; probe_id = id; tag = t }) ts

-- DELETE FROM probe_tag WHERE probe_id=? AND org_id=? AND tag IN (...)
is_dropped : ℕ → ℕ → List String → ProbeTagRow → Bool
is_dropped org id deletes r = r.probe_id == id && (r.org_id == org && member str_eq r.tag deletes)

-- The two statements on the tags, which are made from the tags that were read and those that are given.
pub change_tags : ℕ → ℕ → List String → List String → List ProbeTagRow → List ProbeTagRow
unfolding tag_rows is_dropped
change_tags org id existing new rows =
    let changes = tag_changes existing new in
    select (λ r. not (is_dropped org id changes.0 r)) rows ++ tag_rows org id changes.1

-- The time of the change that an owner's update is given.
pub changed : ℕ → ProbeRow → ProbeRow → ProbeRow
changed now existing p =
    if existing.enabled
    then if p.enabled then p else record p { enabled_change = now }
    else if p.enabled
    then record p { enabled_change = now }
    else p

-- Who may see a probe that is not public, and who may change more than tags.
pub by_owner : Bool → Bool → ProbeDb → ProbeDb → Outcome ProbeError ProbeDb
by_owner public owns owned tagged =
    if not public && not owns then err probe_not_found else if owns then ok owned else ok tagged

module _ (slug_of : String → String) where
  unfoldable pub add_probe : ℕ → ProbeDto → ProbeDb → ProbeDb
  unfolding tag_rows
  add_probe now p db =
      let row : ProbeRow = record {
        id = db.next_probe;
        org_id = p.probe.org_id;
        name = p.probe.name;
        slug = slug_of p.probe.name;
        enabled = p.probe.enabled;
        enabled_change = now;
        public = p.probe.public;
        online = false;
        online_change = now;
        created = now;
        updated = now;
      } in
      let p' : ProbeDto = record p { probe = record row { online = p.probe.online } } in
      record db {
        probes = db.probes ++ row ∷ [];
        next_probe = suc db.next_probe;
        tags = db.tags ++ tag_rows p.probe.org_id db.next_probe p.tags;
        published = db.published ++ probe_created p' ∷ [];
      }

  -- UPDATE probe by the id, with the fields of the struct that are not zero, and enabled and public.
  pub write_probe : ℕ → ProbeRow → ProbeRow → ProbeRow
  write_probe now p row =
      if row.id == p.id
      then record row {
        org_id = kept_number p.org_id row.org_id;
        name = kept_string p.name row.name;
        slug = kept_string (slug_of p.name) row.slug;
        enabled = p.enabled;
        enabled_change = kept_number p.enabled_change row.enabled_change;
        public = p.public;
        created = kept_number p.created row.created;
        updated = kept_number now row.updated;
      }
      else row

  pub write_owned : ℕ → ProbeDto → ProbeDto → ProbeDb → ProbeDb
  unfolding changed write_probe
  write_owned now existing p db =
      let given = changed now existing.probe p.probe in
      let stored : ProbeRow = record given { created = existing.probe.created } in
      let p' : ProbeDto = record p {
        probe = record given { slug = slug_of given.name; updated = now };
      } in
      record db {
        probes = map (write_probe now stored) db.probes;
        tags = change_tags p.probe.org_id p.probe.id existing.tags p.tags db.tags;
        published = db.published ++ probe_updated existing p' ∷ [];
      }

  pub update_existing : ℕ → ProbeDto → ProbeDb → ProbeDto → Outcome ProbeError ProbeDb
  unfolding write_owned by_owner
  update_existing now p db existing =
      by_owner existing.probe.public (p.probe.org_id == existing.probe.org_id)
        (write_owned now existing p db)
        (record db {
          tags = change_tags p.probe.org_id existing.probe.id existing.tags p.tags db.tags;
        })

  unfoldable pub update_probe : ℕ → ProbeDto → ProbeDb → Outcome ProbeError ProbeDb
  unfolding update_existing
  update_probe now p db =
      get_probe_by_id p.probe.id p.probe.org_id db
      >>= (λ existing. update_existing now p db existing)

pub delete_existing : ℕ → ProbeDb → ProbeDto → Outcome ProbeError ProbeDb
delete_existing org db existing =
    if not (existing.probe.org_id == org)
    then err probe_not_found
    else let id = existing.probe.id in
      ok (record db {
        probes = select (λ p. not (p.id == id && p.org_id == org)) db.probes;
        tags = select (λ r. not (r.probe_id == id && r.org_id == org)) db.tags;
        routed = select (λ i. not (i == id)) db.routed;
        published = db.published ++ probe_deleted existing ∷ [];
      })

unfoldable pub delete_probe : ℕ → ℕ → ProbeDb → Outcome ProbeError ProbeDb
unfolding delete_existing
delete_probe id org db = get_probe_by_id id org db >>= (λ existing. delete_existing org db existing)
