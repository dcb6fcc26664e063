-- ===== src/Store/Probes/Writes/Size.antt =====
-- pkg/services/sqlstore/probe.go, addProbe and updateProbe: the number of probes.
use worldping_api.Prelude.{
  ℕ, suc, String, ◌≡◌, refl, ◌∙◌, inl, inr, ok, >>=-ok, length, length-append, length-map, arith,
}
use worldping_api.Store.Probes.Reads.{ProbeDto, ProbeDb, get_probe_by_id}
use worldping_api.Store.Probes.Writes.{
  add_probe, update_existing, update_probe, write_owned, write_probe, changed,
}
use worldping_api.Store.Probes.Writes.Owned.{update_existing_cases}

pub length-add_probe :
    (slug_of : String → String) (now : ℕ) (p : ProbeDto) (db : ProbeDb)
    → length (add_probe slug_of now p db).probes ≡ suc (length db.probes)
unfolding add_probe
length-add_probe slug_of now p db = length-append db.probes _ ∙ omega arith

pub length-update_probe :
    (slug_of : String → String) (now : ℕ) (p : ProbeDto) (db db' : ProbeDb)
    → update_probe slug_of now p db ≡ ok db'
    → length db'.probes ≡ length db.probes
unfolding update_probe write_owned
length-update_probe slug_of now p db db' e =
    let (existing, _, done) =
      >>=-ok (get_probe_by_id p.probe.id p.probe.org_id db)
        (λ old. update_existing slug_of now p db old) e in
    elim (update_existing_cases slug_of now p db existing db' done) [
      | inl (_, made) ↦ rw (← made) (
          length-map
            (write_probe slug_of now
              (record (changed now existing.probe p.probe) { created = existing.probe.created }))
            db.probes)
      | inr (_, made) ↦ rw (← made) refl
    ]
