-- ===== src/Store/Probes/Writes/Readback.antt =====
-- pkg/services/sqlstore/probe.go: what the caller of updateProbe reads of the probe after.
use text.Mathlib.Text.{◌==◌ as str_eq}
use text.Mathlib.TextEquality.{eq_iff}
use worldping_api.Prelude.{
  ℕ, String, ◌≡◌, refl, ap, ◌∙◌, Bool, true, false, not, ◌&&◌, ◌||◌, List, [], ◌∷◌, ◌++◌, map, any,
  select, All-impl, All-any, ◌==◌, ==_iff, if◌then◌else◌, arith, Bool-cases, inl, inr, ok, >>=-ok,
}
use worldping_api.Prelude.Sets.{member, count, count_zero, member-count}
use worldping_api.Store.Endpoint.Tags.{tag_changes, tag_changes_lem}
use worldping_api.Store.Probes.{ProbeRow, ProbeTagRow, kept_number_same}
use worldping_api.Store.Probes.Reads.{ProbeDto, ProbeDb, tags_given, is_visible, get_probe_by_id}
use worldping_api.Store.Probes.Reads.ById.{
  get_probe_by_id-All, get_probe_by_id-found, get_probe_by_id-tags, All-visible, is_visible_id,
  get_probe_by_id-visible,
}
use worldping_api.Store.Probes.Writes.{
  tag_rows, is_dropped, change_tags, write_probe, changed, write_owned, update_existing,
  update_probe,
}
use worldping_api.Store.Probes.Writes.Owned.{update_existing_cases}

member-tags_given :
    (org id : ℕ) (t : String) (rows : List ProbeTagRow)
    → member str_eq t (tags_given org id rows)
      ≡ any (λ r. (r.probe_id == id && r.org_id == org) && str_eq t r.tag) rows
member-tags_given org id t [] = refl
member-tags_given org id t (r ∷ rows) = elim (Bool-cases (r.probe_id == id && r.org_id == org)) [
  | inl e ↦ rw (e, member-tags_given org id t rows) refl
  | inr e ↦ rw (e, member-tags_given org id t rows) refl
]

has_tag-append :
    {A : Type 0} (p : A → Bool) (xs ys : List A) → any p (xs ++ ys) ≡ (any p xs || any p ys)
has_tag-append p [] ys = refl
has_tag-append p (x ∷ xs) ys = ground (arith, has_tag-append p xs ys)

member-dropped :
    (org id : ℕ) (t : String) (gone : List String) (rows : List ProbeTagRow)
    → any
        (λ r. (r.probe_id == id && r.org_id == org) && str_eq t r.tag)
        (select (λ r. not (is_dropped org id gone r)) rows)
      ≡ (any (λ r. (r.probe_id == id && r.org_id == org) && str_eq t r.tag) rows
          && not (member str_eq t gone))
unfolding is_dropped
member-dropped org id t gone [] = refl
member-dropped org id t gone (r ∷ rows) = elim (Bool-cases (str_eq t r.tag)) [
  | inl e ↦
      let same : t ≡ r.tag = (eq_iff t r.tag).0 e in
      ground (arith, member-dropped org id t gone rows, ap (λ x. member str_eq x gone) same)
  | inr e ↦ ground (arith, member-dropped org id t gone rows)
]

member-tag_rows :
    (org id : ℕ) (t : String) (ts : List String)
    → any (λ r. (r.probe_id == id && r.org_id == org) && str_eq t r.tag) (tag_rows org id ts)
      ≡ member str_eq t ts
unfolding tag_rows
member-tag_rows org id t [] = refl
member-tag_rows org id t (s ∷ ts) =
    rw ((==_iff id id).1 refl, (==_iff org org).1 refl, member-tag_rows org id t ts) refl

-- The tags after a change are those that are given, where the tags that were read are the stored ones.
member-change_tags :
    (org id : ℕ) (existing new : List String) (rows : List ProbeTagRow) (t : String)
    → member str_eq t existing ≡ member str_eq t (tags_given org id rows)
    → member str_eq t (tags_given org id (change_tags org id existing new rows))
      ≡ member str_eq t new
unfolding change_tags
member-change_tags org id existing new rows t h =
    let (deletes, adds) = tag_changes existing new in
    let changes = tag_changes_lem existing new t in
    member-tags_given org id t
      (select (λ r. not (is_dropped org id deletes r)) rows ++ tag_rows org id adds)
    ∙ has_tag-append _ (select (λ r. not (is_dropped org id deletes r)) rows) (tag_rows org id adds)
    ∙ rw
        (
          member-dropped org id t deletes rows,
          member-tag_rows org id t adds,
          ← (member-tags_given org id t rows),
        )
        (ground (
          arith,
          changes.0,
          changes.1,
          h,
          member-count str_eq t adds,
          count_zero str_eq eq_iff t adds,
        ))

changed_lem :
    (now : ℕ) (existing p : ProbeRow)
    → ((changed now existing p).id ≡ p.id) × ((changed now existing p).org_id ≡ p.org_id)
unfolding changed
changed_lem now existing p = (ground (arith), ground (arith))

module _ (slug_of : String → String) (now : ℕ) (p : ProbeDto) (db : ProbeDb) where
  -- The tags that were read, as far as they are not empty, are the stored ones.
  read_tags :
      (existing : ProbeDto) (t : String)
      → get_probe_by_id p.probe.id p.probe.org_id db ≡ ok existing
      → str_eq t "" ≡ false
      → member str_eq t existing.tags
        ≡ member str_eq t (tags_given p.probe.org_id p.probe.id db.tags)
  read_tags existing t found filled = ground (
    arith,
    member-count str_eq t existing.tags,
    get_probe_by_id-tags p.probe.id p.probe.org_id db existing t found,
  )

  write_probe-visible :
      (existing q : ProbeRow)
      → is_visible p.probe.id p.probe.org_id q ≡ true
      → p.probe.org_id ≡ q.org_id
      → is_visible p.probe.id p.probe.org_id (
          write_probe slug_of now
            (record (changed now existing p.probe) { created = existing.created })
            q)
        ≡ true
  unfolding write_probe is_visible
  write_probe-visible existing q v own =
      let (id, org) = changed_lem now existing p.probe in
      let at = is_visible_id p.probe.id p.probe.org_id q v in
      rw (id, at, org, own, (==_iff p.probe.id p.probe.id).1 refl)
        (rw
          (
            (==_iff p.probe.id p.probe.id).1 refl,
            kept_number_same q.org_id,
            (==_iff q.org_id q.org_id).1 refl,
          )
          refl)

  still_visible :
      (existing : ProbeDto) (db' : ProbeDb)
      → get_probe_by_id p.probe.id p.probe.org_id db ≡ ok existing
      → update_existing slug_of now p db existing ≡ ok db'
      → any (is_visible p.probe.id p.probe.org_id) db'.probes ≡ true
  unfolding write_owned
  still_visible existing db' found e =
      elim (update_existing_cases slug_of now p db existing db' e) [
        | inl (same, made) ↦
            let write =
              write_probe slug_of now (record (changed now existing.probe p.probe) {
                created = existing.probe.created;
              }) in
            rw (← made) (
              get_probe_by_id-All
                (λ q.
                  p.probe.org_id ≡ q.org_id
                  → any (is_visible p.probe.id p.probe.org_id) (map write db.probes) ≡ true)
                p.probe.id p.probe.org_id db existing
                (All-impl _ _ db.probes (λ q both v own. both (v, own))
                  (All-any
                    (λ q.
                      (is_visible p.probe.id p.probe.org_id q ≡ true) × (p.probe.org_id ≡ q.org_id))
                    (is_visible p.probe.id p.probe.org_id) write db.probes
                    (λ q h. write_probe-visible existing.probe q h.0 h.1)))
                found same)
        | inr (other, made) ↦
            rw (← made) (get_probe_by_id-visible p.probe.id p.probe.org_id db existing found)
      ]

  updated_tags :
      (existing : ProbeDto) (db' : ProbeDb)
      → existing.probe.id ≡ p.probe.id
      → update_existing slug_of now p db existing ≡ ok db'
      → change_tags p.probe.org_id p.probe.id existing.tags p.tags db.tags ≡ db'.tags
  unfolding write_owned
  updated_tags existing db' at e = elim (update_existing_cases slug_of now p db existing db' e) [
    | inl (same, made) ↦ ap (λ x. x.tags) made
    | inr (other, made) ↦ rw (← at) (ap (λ x. x.tags) made)
  ]

  -- After an update that succeeds the caller reads the probe, with the tags that it gave, each once and none
  -- empty, and no others.
  pub update_probe-readback :
      (db' : ProbeDb)
      → update_probe slug_of now p db ≡ ok db'
      → (read : ProbeDto) × (get_probe_by_id p.probe.id p.probe.org_id db' ≡ ok read)
        × ((t : String)
            → count str_eq t read.tags
              ≡ (if member str_eq t p.tags && not (str_eq t "") then 1 else 0))
  unfolding update_probe
  update_probe-readback db' e =
      let (existing, found, updated) =
        >>=-ok (get_probe_by_id p.probe.id p.probe.org_id db)
          (λ x. update_existing slug_of now p db x) e in
      let at =
        get_probe_by_id-All (λ q. q.id ≡ p.probe.id) p.probe.id p.probe.org_id db existing
          (All-visible p.probe.id p.probe.org_id db.probes) found in
      let (read, again) =
        get_probe_by_id-found p.probe.id p.probe.org_id db'
          (still_visible existing db' found updated) in
      (
        read,
        again,
        λ t. elim (Bool-cases (str_eq t "")) [
          | inl empty ↦
              ground (arith, get_probe_by_id-tags p.probe.id p.probe.org_id db' read t again)
          | inr filled ↦
              let kept =
                member-change_tags p.probe.org_id p.probe.id existing.tags p.tags db.tags t
                  (read_tags existing t found filled) in
              ground (
                arith,
                get_probe_by_id-tags p.probe.id p.probe.org_id db' read t again,
                rw (updated_tags existing db' at updated) at kept,
              )
        ],
      )
