-- ===== src/Store/Routing/Agrees.antt =====
-- pkg/services/sqlstore/probe.go and endpoint.go: the probes of a check and the checks of a probe agree.
use text.Mathlib.Text.{◌==◌ as str_eq}
use worldping_api.Prelude.{
  ℕ, String, ◌≡◌, refl, sym, ap, ◌∙◌, Bool, true, false, ◌&&◌, ◌||◌, some, List, [], ◌∷◌, ◌++◌, map,
  select, any, ◌==◌, ==_iff, arith, Bool-cases, inl, inr, ok,
}
use worldping_api.Prelude.Assoc.{lookup}
use worldping_api.Prelude.Sets.{member, enter, member-enter, member-append}
use worldping_api.Store.Endpoint.Routes.{tags_of, ids_of}
use worldping_api.Store.Endpoint.Routes.Indexed.{IsStored, route_tags, route_ids}
use worldping_api.Store.Probes.{ProbeRow, ProbeTagRow}
use worldping_api.Store.Routing.{
  RoutedCheck, IdIndexRow, TagIndexRow, RoutingDb, tag_matches, tagged_probes, by_tags, by_ids,
  get_probes_for_check, enabled_ids, ids_by_id, ids_by_tag, check_ids, checks_of, get_probe_checks,
}

-- The index tables hold the route of the check, for its organisation.
pub record IsIndexed (db : RoutingDb) (c : RoutedCheck) : Type 0 where
  pub by_tag :
      (org : ℕ) (t : String)
      → any (λ i. i.check_id == c.id && (i.org_id == org && str_eq i.tag t)) db.by_tag
        ≡ (org == c.org_id && member str_eq t (route_tags c.route))
  pub by_id :
      (p : ℕ)
      → any (λ i. i.check_id == c.id && i.probe_id == p) db.by_id
        ≡ member ◌==◌ p (route_ids c.route)

-- Whether the organisation has given the probe one of the tags.
has_tag : ℕ → ℕ → List String → List ProbeTagRow → Bool
has_tag org probe ts = any λ r. r.probe_id == probe && (r.org_id == org && member str_eq r.tag ts)

member-tag_matches :
    (org probe : ℕ) (ts : List String) (rows : List ProbeTagRow) (p : ProbeRow)
    → member ◌==◌ probe (tag_matches org ts rows p) ≡ (probe == p.id && has_tag org p.id ts rows)
unfolding tag_matches has_tag
member-tag_matches org probe ts [] p = ground (arith)
member-tag_matches org probe ts (r ∷ rows) p =
    ground (arith, member-tag_matches org probe ts rows p)

member-tagged_probes :
    (org probe : ℕ) (ts : List String) (rows : List ProbeTagRow) (ps : List ProbeRow)
    → member ◌==◌ probe (tagged_probes org ts rows ps)
      ≡ (any (λ p. p.id == probe) ps && has_tag org probe ts rows)
unfolding tagged_probes
member-tagged_probes org probe ts rows [] = refl
member-tagged_probes org probe ts rows (p ∷ ps) =
    member-append ◌==◌ probe (tag_matches org ts rows p) (tagged_probes org ts rows ps)
    ∙ rw (member-tag_matches org probe ts rows p, member-tagged_probes org probe ts rows ps)
        (elim (Bool-cases (probe == p.id)) [
          | inl e ↦
              ground (
                arith,
                ap (λ i. has_tag org i ts rows) ((==_iff probe p.id).0 e),
                ==_iff p.id probe,
              )
          | inr e ↦ ground (arith, ==_iff p.id probe)
        ])

member-enabled_ids :
    (cs : List RoutedCheck) (id j : ℕ)
    → member ◌==◌ j (enabled_ids cs id) ≡ (j == id && any (λ c. c.id == id && c.enabled) cs)
unfolding enabled_ids
member-enabled_ids [] id j = ground (arith)
member-enabled_ids (c ∷ cs) id j =
    ground (arith, member-enabled_ids cs id j, ==_iff c.id id, ==_iff j c.id)

member-ids_by_id :
    (probe : ℕ) (cs : List RoutedCheck) (rs : List IdIndexRow) (j : ℕ)
    → member ◌==◌ j (ids_by_id probe cs rs) ≡ (
        any (λ c. c.id == j && c.enabled) cs
        && any (λ i. i.check_id == j && i.probe_id == probe) rs)
unfolding ids_by_id
member-ids_by_id probe cs [] j = ground (arith)
member-ids_by_id probe cs (r ∷ rs) j = elim (Bool-cases (r.probe_id == probe)) [
  | inl e ↦
      rw
        (
          e,
          member-append ◌==◌ j (enabled_ids cs r.check_id) (ids_by_id probe cs rs),
          member-enabled_ids cs r.check_id j,
        )
        (elim (Bool-cases (j == r.check_id)) [
          | inl same ↦ ground (
            arith,
            member-ids_by_id probe cs rs j,
            ap (λ k. any (λ c. c.id == k && c.enabled) cs) ((==_iff j r.check_id).0 same),
            ==_iff r.check_id j,
          )
          | inr other ↦ ground (arith, member-ids_by_id probe cs rs j, ==_iff r.check_id j)
        ])
  | inr e ↦ rw e (ground (arith, member-ids_by_id probe cs rs j))
]

module _ {A : Type 0} where
  any-or :
      (p a b : A → Bool) (xs : List A)
      → any (λ x. p x && (a x || b x)) xs ≡ (any (λ x. p x && a x) xs || any (λ x. p x && b x) xs)
  any-or p a b [] = refl
  any-or p a b (x ∷ xs) = ground (arith, any-or p a b xs)

  any-same : (p q : A → Bool) (xs : List A) → ((x : A) → p x ≡ q x) → any p xs ≡ any q xs
  any-same p q [] h = refl
  any-same p q (x ∷ xs) h = rw (h x, any-same p q xs h) refl

  any-never : (p : A → Bool) (xs : List A) → any (λ x. p x && false) xs ≡ false
  any-never p [] = refl
  any-never p (x ∷ xs) = ground (arith, any-never p xs)

member-tag_pairs :
    (probe : ℕ) (rows : List ProbeTagRow) (i : TagIndexRow) (j : ℕ)
    → member ◌==◌ j (
        map
          (λ r. i.check_id)
          (select (λ r. i.org_id == r.org_id && (str_eq i.tag r.tag && r.probe_id == probe)) rows))
      ≡ any
          (λ r.
            r.probe_id == probe
            && (i.check_id == j && (i.org_id == r.org_id && str_eq i.tag r.tag)))
          rows
member-tag_pairs probe [] i j = refl
member-tag_pairs probe (r ∷ rows) i j =
    ground (arith, member-tag_pairs probe rows i j, ==_iff i.check_id j)

-- A check is found by a tag if an index row of it and a tag row of the probe agree.
member-ids_by_tag :
    (probe : ℕ) (rows : List ProbeTagRow) (is : List TagIndexRow) (j : ℕ)
    → member ◌==◌ j (ids_by_tag probe rows is)
      ≡ any
          (λ r.
            r.probe_id == probe
            && any (λ i. i.check_id == j && (i.org_id == r.org_id && str_eq i.tag r.tag)) is)
          rows
unfolding ids_by_tag
member-ids_by_tag probe rows [] j = sym (any-never (λ r. r.probe_id == probe) rows)
member-ids_by_tag probe rows (i ∷ is) j =
    member-append ◌==◌ j _ (ids_by_tag probe rows is)
    ∙ rw
        (
          member-tag_pairs probe rows i j,
          member-ids_by_tag probe rows is j,
          any-or (λ r. r.probe_id == probe)
              (λ r. i.check_id == j && (i.org_id == r.org_id && str_eq i.tag r.tag))
              (λ r. any (λ i. i.check_id == j && (i.org_id == r.org_id && str_eq i.tag r.tag)) is)
              rows,
        )
        (ground (arith))

any-checks_of :
    (db : RoutingDb) (ids : List ℕ) (j : ℕ)
    → any (λ c. c.id == j) (checks_of db ids)
      ≡ (member ◌==◌ j ids && any (λ c. c.id == j && c.enabled) db.checks)
unfolding checks_of
any-checks_of db [] j = refl
any-checks_of db (id ∷ others) j = selected db.checks
  where
    selected :
        (cs : List RoutedCheck)
        → any (λ c. c.id == j) (select (λ c. member ◌==◌ c.id (id ∷ others) && c.enabled) cs)
          ≡ (member ◌==◌ j (id ∷ others) && any (λ c. c.id == j && c.enabled) cs)
    selected [] = ground (arith)
    selected (c ∷ cs) = elim (Bool-cases (c.id == j)) [
      | inl e ↦
          ground (arith, selected cs, ap (λ k. member ◌==◌ k (id ∷ others)) ((==_iff c.id j).0 e))
      | inr e ↦ ground (arith, selected cs)
    ]

-- Whether a probe gets an enabled check, by the rows of the two indexes.
runs_check :
    (db : RoutingDb) (probe j : ℕ)
    → any (λ c. c.id == j && c.enabled) db.checks ≡ true
    → any (λ c. c.id == j) (get_probe_checks db probe) ≡ (
        any (λ i. i.check_id == j && i.probe_id == probe) db.by_id
        || any
            (λ r.
              r.probe_id == probe
              && any
                  (λ i. i.check_id == j && (i.org_id == r.org_id && str_eq i.tag r.tag))
                  db.by_tag)
            db.tags)
unfolding get_probe_checks check_ids
runs_check db probe j h =
    any-checks_of db (check_ids db probe) j
    ∙ rw
        (
          h,
          member-enter ◌==◌ ==_iff j
              (ids_by_id probe db.checks db.by_id ++ ids_by_tag probe db.tags db.by_tag) [],
          member-append ◌==◌ j (ids_by_id probe db.checks db.by_id)
              (ids_by_tag probe db.tags db.by_tag),
          member-ids_by_id probe db.checks db.by_id j,
          member-ids_by_tag probe db.tags db.by_tag j,
          h,
        )
        (ground (arith))

has_tag-none : (org probe : ℕ) (rows : List ProbeTagRow) → has_tag org probe [] rows ≡ false
unfolding has_tag
has_tag-none org probe [] = refl
has_tag-none org probe (r ∷ rows) = ground (arith, has_tag-none org probe rows)

-- The same by the route that is indexed.
runs_indexed :
    (db : RoutingDb) (c : RoutedCheck) (probe : ℕ)
    → IsIndexed db c
    → any (λ x. x.id == c.id && x.enabled) db.checks ≡ true
    → any (λ x. x.id == c.id) (get_probe_checks db probe) ≡ (
        member ◌==◌ probe (route_ids c.route)
        || has_tag c.org_id probe (route_tags c.route) db.tags)
unfolding has_tag
runs_indexed db c probe index listed =
    runs_check db probe c.id listed
    ∙ rw
        (
          index.by_id probe,
          any-same _
              (λ r.
                r.probe_id == probe
                && (r.org_id == c.org_id && member str_eq r.tag (route_tags c.route)))
              db.tags (λ r. ap (λ b. r.probe_id == probe && b) (index.by_tag r.org_id r.tag)),
        )
        refl

-- The probes of an enabled check whose route is stored and indexed are found, and a probe that there is is
-- one of them exactly when the check is among the checks of the probe.
pub get_probes_for_check-get_probe_checks :
    (db : RoutingDb) (c : RoutedCheck) (probe : ℕ)
    → IsStored c.route
    → IsIndexed db c
    → any (λ x. x.id == c.id && x.enabled) db.checks ≡ true
    → any (λ p. p.id == probe) db.probes ≡ true
    → (ps : List ℕ) × (get_probes_for_check db c ≡ some (ok ps))
      × (member ◌==◌ probe ps ≡ any (λ x. x.id == c.id) (get_probe_checks db probe))
unfolding get_probes_for_check by_tags by_ids tags_of ids_of lookup has_tag
get_probes_for_check-get_probe_checks db c probe (inl (type, ts, config)) index listed known = (
  enter ◌==◌ (tagged_probes c.org_id ts db.tags db.probes) [],
  rw (type, config) refl,
  member-enter ◌==◌ ==_iff probe (tagged_probes c.org_id ts db.tags db.probes) []
      ∙ rw
          (
            runs_indexed db c probe index listed,
            member-tagged_probes c.org_id probe ts db.tags db.probes,
            known,
            type,
            config,
          )
          (ground (arith)),
)
get_probes_for_check-get_probe_checks db c probe (inr (type, ns, config)) index listed known = (
  ns,
  rw (type, config) refl,
  rw (runs_indexed db c probe index listed, type, config)
      (ground (arith, has_tag-none c.org_id probe db.tags)),
)
