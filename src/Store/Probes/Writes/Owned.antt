-- ===== src/Store/Probes/Writes/Owned.antt =====
-- pkg/services/sqlstore/probe.go: what an organisation can change of a probe, and what it reads after.
use worldping_api.Prelude.{
  ℕ, String, ◌≡◌, ◌≢◌, refl, ◌∙◌, Bool, true, false, not, ◌&&◌, List, [], ◌∷◌, ◌++◌, map, select,
  All, All-impl, ◌==◌, ==_iff, arith, Bool-cases, inl, inr, ok, >>=-ok, ok-injective, ◌⊎◌,
}
use worldping_api.Store.Endpoint.Tags.{tag_changes}
use worldping_api.Store.Probes.{ProbeRow, ProbeTagRow}
use worldping_api.Store.Probes.Reads.{ProbeDto, ProbeDb, get_probe_by_id}
use worldping_api.Store.Probes.Reads.ById.{get_probe_by_id-All, All-visible, is_visible_id}
use worldping_api.Store.Probes.Writes.{
  tag_rows, by_owner, is_dropped, change_tags, write_probe, changed, write_owned, update_existing,
  update_probe,
}

-- The rows of other probes, and the tags that are not this organisation's of this probe.
abbrev pub other_probes : ℕ → List ProbeRow → List ProbeRow
other_probes id = select λ p. not (p.id == id)

abbrev pub other_tags : ℕ → ℕ → List ProbeTagRow → List ProbeTagRow
other_tags org id = select λ r. not (r.probe_id == id && r.org_id == org)

select-append :
    {A : Type 0} (p : A → Bool) (xs ys : List A) → select p (xs ++ ys) ≡ select p xs ++ select p ys
select-append p [] ys = refl
select-append p (x ∷ xs) ys = elim (Bool-cases (p x)) [
  | inl e ↦ rw (e, select-append p xs ys) refl
  | inr e ↦ rw (e, select-append p xs ys) refl
]

other_tags-rows : (org id : ℕ) (ts : List String) → other_tags org id (tag_rows org id ts) ≡ []
unfolding tag_rows
other_tags-rows org id [] = refl
other_tags-rows org id (t ∷ ts) =
    rw ((==_iff id id).1 refl, (==_iff org org).1 refl) (other_tags-rows org id ts)

other_tags-dropped :
    (org id : ℕ) (gone : List String) (rows : List ProbeTagRow)
    → other_tags org id (select (λ r. not (is_dropped org id gone r)) rows) ≡ other_tags org id rows
unfolding is_dropped
other_tags-dropped org id gone [] = refl
other_tags-dropped org id gone (r ∷ rows) = ground (arith, other_tags-dropped org id gone rows)

append_nil : {A : Type 0} (xs : List A) → xs ++ [] ≡ xs
append_nil [] = refl
append_nil (x ∷ xs) = rw (append_nil xs) refl

other_tags-change :
    (org id : ℕ) (existing new : List String) (rows : List ProbeTagRow)
    → other_tags org id (change_tags org id existing new rows) ≡ other_tags org id rows
unfolding change_tags
other_tags-change org id existing new rows =
    select-append _ (select (λ r. not (is_dropped org id (tag_changes existing new).0 r)) rows)
      (tag_rows org id (tag_changes existing new).1)
    ∙ rw
        (
          other_tags-dropped org id (tag_changes existing new).0 rows,
          other_tags-rows org id (tag_changes existing new).1,
        )
        (append_nil (other_tags org id rows))

other_probes-write :
    (slug_of : String → String) (now id : ℕ) (q : ProbeRow) (ps : List ProbeRow)
    → q.id ≡ id
    → other_probes id (map (write_probe slug_of now q) ps) ≡ other_probes id ps
unfolding write_probe
other_probes-write slug_of now id q [] at = refl
other_probes-write slug_of now id q (r ∷ ps) at = elim (Bool-cases (r.id == id)) [
  | inl e ↦ rw (at, e) (rw (e, other_probes-write slug_of now id q ps at) refl)
  | inr e ↦ rw (at, e) (rw (e, other_probes-write slug_of now id q ps at) refl)
]

pub changed_id : (now : ℕ) (existing p : ProbeRow) → (changed now existing p).id ≡ p.id
unfolding changed
changed_id now existing p = ground (arith)

by_owner_cases :
    (public owns : Bool) (owned tagged db' : ProbeDb)
    → by_owner public owns owned tagged ≡ ok db'
    → ((owns ≡ true) × (owned ≡ db')) ⊎ ((owns ≡ false) × (tagged ≡ db'))
unfolding by_owner
by_owner_cases true true owned tagged db' e = inl (refl, ok-injective e)
by_owner_cases false true owned tagged db' e = inl (refl, ok-injective e)
by_owner_cases true false owned tagged db' e = inr (refl, ok-injective e)
by_owner_cases false false owned tagged db' e = absurd cc

-- The update of a probe that the caller may see, and what the caller reads of it after.
module _ (slug_of : String → String) (now : ℕ) (p : ProbeDto) (db : ProbeDb) where
  -- An update is the owner's, or one of another organisation, which changes its own tags alone.
  pub update_existing_cases :
      (existing : ProbeDto) (db' : ProbeDb)
      → update_existing slug_of now p db existing ≡ ok db'
      → ((p.probe.org_id ≡ existing.probe.org_id) × (write_owned slug_of now existing p db ≡ db'))
        ⊎ ((p.probe.org_id ≢ existing.probe.org_id)
            × ((record db {
              tags = change_tags p.probe.org_id existing.probe.id existing.tags p.tags db.tags;
            })
                ≡ db'))
  unfolding update_existing
  update_existing_cases existing db' e = elim (by_owner_cases _ _ _ _ db' e) [
    | inl (same, made) ↦ inl ((==_iff p.probe.org_id existing.probe.org_id).0 same, made)
    | inr (other, made) ↦
        inr (λ same. absurd (ground (arith, ==_iff p.probe.org_id existing.probe.org_id)), made)
  ]

  update_existing-safe :
      (existing : ProbeDto) (db' : ProbeDb)
      → existing.probe.id ≡ p.probe.id
      → update_existing slug_of now p db existing ≡ ok db'
      → (other_probes p.probe.id db'.probes ≡ other_probes p.probe.id db.probes)
        × (other_tags p.probe.org_id p.probe.id db'.tags
            ≡ other_tags p.probe.org_id p.probe.id db.tags)
        × (p.probe.org_id ≢ existing.probe.org_id
            → (db'.probes ≡ db.probes) × (db'.published ≡ db.published))
  unfolding write_owned
  update_existing-safe existing db' at e = elim (update_existing_cases existing db' e) [
    | inl (same, made) ↦ rw (← made) (
      other_probes-write slug_of now p.probe.id
          (record (changed now existing.probe p.probe) { created = existing.probe.created })
          db.probes (changed_id now existing.probe p.probe),
      other_tags-change p.probe.org_id p.probe.id existing.tags p.tags db.tags,
      λ other. absurd (other same),
    )
    | inr (other, made) ↦
        rw (← made, at)
          (
            refl,
            other_tags-change p.probe.org_id p.probe.id existing.tags p.tags db.tags,
            λ o. (refl, refl),
          )
  ]

  -- An update that succeeds leaves the rows of the other probes, and the tags of this probe of other
  -- organisations and those of other probes, as they are.
  pub update_probe-safe :
      (db' : ProbeDb)
      → update_probe slug_of now p db ≡ ok db'
      → (other_probes p.probe.id db'.probes ≡ other_probes p.probe.id db.probes)
        × (other_tags p.probe.org_id p.probe.id db'.tags
            ≡ other_tags p.probe.org_id p.probe.id db.tags)
  unfolding update_probe
  update_probe-safe db' e =
      let (existing, found, updated) =
        >>=-ok (get_probe_by_id p.probe.id p.probe.org_id db)
          (λ x. update_existing slug_of now p db x) e in
      let at =
        get_probe_by_id-All (λ q. q.id ≡ p.probe.id) p.probe.id p.probe.org_id db existing
          (All-visible p.probe.id p.probe.org_id db.probes) found in
      let safe = update_existing-safe existing db' at updated in (safe.0, safe.1)

  -- Where the organisation of the caller is not that of a row of the probe's id, an update that succeeds
  -- leaves every row of the probes as it is and publishes nothing, and it leaves all tags but those of this
  -- probe and the caller's organisation as they are.
  pub update_probe-foreign :
      (db' : ProbeDb)
      → All (λ q. q.id ≡ p.probe.id → p.probe.org_id ≢ q.org_id) db.probes
      → update_probe slug_of now p db ≡ ok db'
      → (db'.probes ≡ db.probes)
        × (db'.published ≡ db.published)
        × (other_tags p.probe.org_id p.probe.id db'.tags
            ≡ other_tags p.probe.org_id p.probe.id db.tags)
  unfolding update_probe
  update_probe-foreign db' foreign e =
      let (existing, found, updated) =
        >>=-ok (get_probe_by_id p.probe.id p.probe.org_id db)
          (λ x. update_existing slug_of now p db x) e in
      let at =
        get_probe_by_id-All (λ q. q.id ≡ p.probe.id) p.probe.id p.probe.org_id db existing
          (All-visible p.probe.id p.probe.org_id db.probes) found in
      let safe = update_existing-safe existing db' at updated in
      let not_own =
        get_probe_by_id-All (λ q. p.probe.org_id ≢ q.org_id) p.probe.id p.probe.org_id db existing
          (All-impl _ _ db.probes (λ q other v. other (is_visible_id p.probe.id p.probe.org_id q v))
            foreign)
          found in
      let (probes, published) = safe.2 not_own in (probes, published, safe.1)
