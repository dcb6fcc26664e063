-- ===== src/Store/Probes/Writes/Named.antt =====
-- pkg/services/sqlstore/probe.go, addProbe and updateProbe: a probe keeps its organisation and its name.
use text.Mathlib.Text.{◌==◌ as str_eq}
use text.Mathlib.TextEquality.{eq_iff}
use worldping_api.Prelude.{
  ℕ, String, ◌≡◌, refl, Bool, true, ◌&&◌, List, [], ◌∷◌, ◌++◌, map, any, ◌==◌, ==_iff, arith,
  Bool-cases, inl, inr, ok, >>=-ok,
}
use worldping_api.Store.Probes.{ProbeRow, kept_number_same, kept_string_same}
use worldping_api.Store.Probes.Reads.{ProbeDto, ProbeDb, get_probe_by_id}
use worldping_api.Store.Probes.Writes.{
  add_probe, update_existing, update_probe, write_owned, write_probe, changed,
}
use worldping_api.Store.Probes.Writes.Owned.{update_existing_cases}

-- The row of an id, with an organisation and a name.
abbrev pub is_of : ℕ → ℕ → String → ProbeRow → Bool
is_of id org name r = r.id == id && (r.org_id == org && str_eq r.name name)

pub any-map_kept :
    {A : Type 0} (q : A → Bool) (f : A → A) (xs : List A)
    → ((x : A) → q x ≡ true → q (f x) ≡ true)
    → any q xs ≡ true
    → any q (map f xs) ≡ true
any-map_kept q f [] keeps h = h
any-map_kept q f (x ∷ xs) keeps h = ground (arith, keeps x, any-map_kept q f xs keeps)

any-last :
    {A : Type 0} (q : A → Bool) (x : A) (xs : List A) → q x ≡ true → any q (xs ++ x ∷ []) ≡ true
any-last q x [] h = rw h refl
any-last q x (y ∷ ys) h = ground (arith, any-last q x ys h)

is_of-write_probe :
    (slug_of : String → String) (now id org : ℕ) (name : String) (p r : ProbeRow)
    → p.org_id ≡ org
    → p.name ≡ name
    → is_of id org name r ≡ true
    → is_of id org name (write_probe slug_of now p r) ≡ true
unfolding write_probe
is_of-write_probe slug_of now id org name p r owner named h = elim (Bool-cases (r.id == p.id)) [
  | inl e ↦
      let same_org : r.org_id ≡ org = (==_iff r.org_id org).0 (ground arith) in
      let same_name : r.name ≡ name = (eq_iff r.name name).0 (ground arith) in
      rw
        (
          e,
          owner,
          named,
          same_org,
          same_name,
          kept_number_same org,
          kept_string_same name,
          (==_iff org org).1 refl,
          (eq_iff name name).1 refl,
        )
        (ground arith)
  | inr e ↦ rw e h
]

changed_owner :
    (now : ℕ) (existing p : ProbeRow)
    → ((changed now existing p).org_id ≡ p.org_id) × ((changed now existing p).name ≡ p.name)
unfolding changed
changed_owner now existing p = (ground arith, ground arith)

pub is_of-add_probe :
    (slug_of : String → String) (now : ℕ) (p : ProbeDto) (db : ProbeDb)
    → any (is_of db.next_probe p.probe.org_id p.probe.name) (add_probe slug_of now p db).probes
      ≡ true
unfolding add_probe
is_of-add_probe slug_of now p db =
    any-last (is_of db.next_probe p.probe.org_id p.probe.name) _ db.probes (
      rw
        ((==_iff db.next_probe db.next_probe).1 refl, (==_iff p.probe.org_id p.probe.org_id).1 refl)
        ((eq_iff p.probe.name p.probe.name).1 refl))

pub is_of-update_probe :
    (slug_of : String → String) (now id : ℕ) (p : ProbeDto) (db db' : ProbeDb)
    → update_probe slug_of now p db ≡ ok db'
    → any (is_of id p.probe.org_id p.probe.name) db.probes ≡ true
    → any (is_of id p.probe.org_id p.probe.name) db'.probes ≡ true
unfolding update_probe write_owned
is_of-update_probe slug_of now id p db db' e h =
    let (existing, _, done) =
      >>=-ok (get_probe_by_id p.probe.id p.probe.org_id db)
        (λ old. update_existing slug_of now p db old) e in
    elim (update_existing_cases slug_of now p db existing db' done) [
      | inl (_, made) ↦
          let given = changed now existing.probe p.probe in
          let (org, name) = changed_owner now existing.probe p.probe in
          rw (← made) (
            any-map_kept (is_of id p.probe.org_id p.probe.name)
              (write_probe slug_of now (record given { created = existing.probe.created }))
              db.probes
              (λ r k.
                is_of-write_probe slug_of now id p.probe.org_id p.probe.name
                  (record given { created = existing.probe.created }) r org name k)
              h)
      | inr (_, made) ↦ rw (← made) h
    ]
