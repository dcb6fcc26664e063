-- ===== src/Store/Probes/Writes/Deleted.antt =====
-- pkg/services/sqlstore/probe.go, deleteProbe: what is deleted, and what can be read after.
use worldping_api.Prelude.{
  ℕ, ◌≡◌, refl, false, not, ◌&&◌, List, [], ◌∷◌, ◌++◌, any, select, All, All-impl, ◌==◌, ==_iff,
  arith, Bool-cases, inl, inr, ok, err, >>=-ok, ok-injective,
}
use worldping_api.Store.Probes.{ProbeRow, ProbeTagRow}
use worldping_api.Store.Probes.Reads.{
  ProbeDto, ProbeDb, probe_deleted, probe_not_found, is_visible, get_probe_by_id,
}
use worldping_api.Store.Probes.Reads.ById.{get_probe_by_id-All, All-visible, get_probe_by_id-gone}
use worldping_api.Store.Probes.Writes.{delete_existing, delete_probe}
use worldping_api.Store.Probes.Writes.Owned.{other_probes, other_tags}

-- Rows of one id are of one organisation.
abbrev pub OneOwner : List ProbeRow → Type 0
OneOwner ps = All (λ q. All (λ r. r.id ≡ q.id → r.org_id ≡ q.org_id) ps) ps

other_probes-delete :
    (id org : ℕ) (ps : List ProbeRow)
    → other_probes id (select (λ p. not (p.id == id && p.org_id == org)) ps) ≡ other_probes id ps
other_probes-delete id org [] = refl
other_probes-delete id org (p ∷ ps) = ground (arith, other_probes-delete id org ps)

other_tags-delete :
    (org id : ℕ) (rows : List ProbeTagRow)
    → other_tags org id (other_tags org id rows) ≡ other_tags org id rows
other_tags-delete org id [] = refl
other_tags-delete org id (r ∷ rows) = ground (arith, other_tags-delete org id rows)

none_visible :
    (id org reader : ℕ) (ps : List ProbeRow)
    → All (λ r. r.id ≡ id → r.org_id ≡ org) ps
    → any (is_visible id reader) (select (λ p. not (p.id == id && p.org_id == org)) ps) ≡ false
unfolding is_visible
none_visible id org reader [] a = refl
none_visible id org reader (p ∷ ps) a = elim (Bool-cases (p.id == id)) [
  | inl e ↦
      let own : p.org_id ≡ org = a.0 ((==_iff p.id id).0 e) in
      ground (arith, ==_iff p.org_id org, none_visible id org reader ps a.1)
  | inr e ↦ ground (arith, none_visible id org reader ps a.1)
]

none_tagged :
    (id org : ℕ) (rows : List ProbeTagRow)
    → any (λ r. r.probe_id == id && r.org_id == org) (other_tags org id rows) ≡ false
none_tagged id org [] = refl
none_tagged id org (r ∷ rows) = ground (arith, none_tagged id org rows)

other_ids-delete :
    (id : ℕ) (ids : List ℕ)
    → select (λ i. not (i == id)) (select (λ i. not (i == id)) ids)
      ≡ select (λ i. not (i == id)) ids
other_ids-delete id [] = refl
other_ids-delete id (i ∷ ids) = ground (arith, other_ids-delete id ids)

none_routed : (id : ℕ) (ids : List ℕ) → any (λ i. i == id) (select (λ i. not (i == id)) ids) ≡ false
none_routed id [] = refl
none_routed id (i ∷ ids) = ground (arith, none_routed id ids)

delete_existing_cases :
    (org : ℕ) (db : ProbeDb) (existing : ProbeDto) (db' : ProbeDb)
    → delete_existing org db existing ≡ ok db'
    → (existing.probe.org_id ≡ org)
      × (db'.probes ≡ select (λ p. not (p.id == existing.probe.id && p.org_id == org)) db.probes)
      × (db'.tags ≡ other_tags org existing.probe.id db.tags)
      × (db'.routed ≡ select (λ i. not (i == existing.probe.id)) db.routed)
      × (db'.published ≡ db.published ++ probe_deleted existing ∷ [])
unfolding delete_existing
delete_existing_cases org db existing db' e = elim (Bool-cases (existing.probe.org_id == org)) [
  | inl same ↦
      let made = ok-injective (rw same at e) in
      rw (← made) ((==_iff existing.probe.org_id org).0 same, refl, refl, refl, refl)
  | inr other ↦ let refused : err probe_not_found ≡ ok db' = rw other at e in absurd cc
]

-- A deletion that succeeds leaves the rows of the other probes, all tags but those of this probe and this
-- organisation, and the routes by ids to other probes as they are. The organisation's tags of the probe
-- and the routes by ids to it are gone. The deletion of the probe that was found is published. Where rows
-- of one id are of one organisation, no organisation reads the probe after it, as public as it may have
-- been.
pub delete_probe-safe :
    (id org : ℕ) (db db' : ProbeDb)
    → OneOwner db.probes
    → delete_probe id org db ≡ ok db'
    → (other_probes id db'.probes ≡ other_probes id db.probes)
      × (other_tags org id db'.tags ≡ other_tags org id db.tags)
      × (any (λ r. r.probe_id == id && r.org_id == org) db'.tags ≡ false)
      × (select (λ i. not (i == id)) db'.routed ≡ select (λ i. not (i == id)) db.routed)
      × (any (λ i. i == id) db'.routed ≡ false)
      × ((reader : ℕ) → get_probe_by_id id reader db' ≡ err probe_not_found)
      × (found : ProbeDto) × (get_probe_by_id id org db ≡ ok found)
      × (db'.published ≡ db.published ++ probe_deleted found ∷ [])
unfolding delete_probe
delete_probe-safe id org db db' one e =
    let (existing, found, deleted) =
      >>=-ok (get_probe_by_id id org db) (λ x. delete_existing org db x) e in
    let at =
      get_probe_by_id-All (λ q. q.id ≡ id) id org db existing (All-visible id org db.probes)
        found in
    let (own, probes, tags, routed, published) =
      delete_existing_cases org db existing db' deleted in
    let owner =
      get_probe_by_id-All (λ q. All (λ r. r.id ≡ q.id → r.org_id ≡ q.org_id) db.probes) id org db
        existing (All-impl _ _ db.probes (λ q a v. a) one) found in
    let rows : All (λ r. r.id ≡ id → r.org_id ≡ org) db.probes = rw (← at, ← own) owner in
    (
      rw (probes, at) (other_probes-delete id org db.probes),
      rw (tags, at) (other_tags-delete org id db.tags),
      rw (tags, at) (none_tagged id org db.tags),
      rw (routed, at) (other_ids-delete id db.routed),
      rw (routed, at) (none_routed id db.routed),
      λ reader.
          get_probe_by_id-gone id reader db'
            (rw (probes, at) (none_visible id org reader db.probes rows)),
      existing,
      found,
      published,
    )
