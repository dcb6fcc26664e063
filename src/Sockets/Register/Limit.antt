-- ===== src/Sockets/Register/Limit.antt =====
-- pkg/api/socketio.go, register: how many probes there are after a probe has connected.
use mathlib.Core.Path.{subst}
use worldping_api.Prelude.{
  ℕ, suc, String, ◌≡◌, refl, sym, ap, ◌∙◌, any, Bool, true, false, ◌||◌, Option, none, inl, inr,
  ◌⊎◌, ok, err, >>=-ok, List,
}
use worldping_api.Quotas.{Quota, QuotaSettings, limit_or, quota_reached}
use worldping_api.Quotas.Reached.{is_over, quota_reached_lem}
use worldping_api.Sockets.Register.Steps.{
  size, IsThere, owned, size-after_update, if_ended, size-replaced, ended-IsThere, update-IsThere,
  replaced-IsThere, after_lookup_cases, after_quota_cases, after_checks_cases, tested_user,
  or_false,
}
use worldping_api.Sockets.Register.{
  Connection, RegisterDb, Registered, authenticate, replaced, after_quota, probe_count,
  probe_count_all, checked, located, created, identified, register, new_probe, inserted,
}
use worldping_api.Store.Probes.Reads.{ProbeDto, probe_not_found, get_probe_by_name}
use worldping_api.Store.Probes.Writes.Named.{is_of, is_of-add_probe, is_of-update_probe}
use worldping_api.Store.Probes.Writes.{update_probe}
use worldping_api.Store.Probes.Writes.Size.{length-add_probe, length-update_probe}

module _ {V : Type 0} (get_user : String → Option ℕ) (new_version : String → Option V)
    (less_than : V → V → Bool) (min_version : V) (place_found : String → ProbeDto → Bool)
    (slug_of : String → String) (settings : QuotaSettings) (quotas : List Quota) (instance : String)
    (now : ℕ) where
  abbrev connect : Connection → RegisterDb → Registered
  connect =
      register get_user new_version less_than min_version place_found slug_of settings quotas
        instance now

  abbrev identify : Connection → RegisterDb → ℕ → Registered
  identify =
      identified get_user new_version less_than min_version place_found slug_of settings quotas
        instance now

  size-located :
      (c : Connection) (user : ℕ) (p : ProbeDto) (s : RegisterDb)
      → size
          (located get_user new_version less_than min_version place_found slug_of settings quotas
            instance now c user p s).0
        ≡ size s
  unfolding located
  size-located c user p s =
      if_ended _ _ _
        (size-after_update s (replaced now instance c user p) (update_probe slug_of now p s.store)
          (size-replaced now instance c user p)
          (λ db e. length-update_probe slug_of now p s.store db e))
        (size-replaced now instance c user p s)

  size-created :
      (c : Connection) (user : ℕ) (s : RegisterDb)
      → size
          (created get_user new_version less_than min_version place_found slug_of settings quotas
            instance now c user s).0
        ≡ suc (size s)
  unfolding created
  size-created c user s =
      size-located c user _ _ ∙ length-add_probe slug_of now (new_probe now user c.name) s.store

  located-IsThere :
      (c : Connection) (id user : ℕ) (p : ProbeDto) (s : RegisterDb)
      → IsThere id p.probe.org_id p.probe.name s
      → IsThere id p.probe.org_id p.probe.name
          (located get_user new_version less_than min_version place_found slug_of settings quotas
            instance now c user p s).0
  unfolding located
  located-IsThere c id user p s h =
      let later = replaced-IsThere now instance c id user p.probe.org_id p.probe.name p in
      ended-IsThere id p.probe.org_id p.probe.name _ _ _
        (update-IsThere id p.probe.org_id p.probe.name s (replaced now instance c user p)
          (update_probe slug_of now p s.store) later
          (λ db e. is_of-update_probe slug_of now id p s.store db e h) h)
        (later s h)

  created-IsThere :
      (c : Connection) (user : ℕ) (s : RegisterDb)
      → IsThere s.store.next_probe user c.name
          (created get_user new_version less_than min_version place_found slug_of settings quotas
            instance now c user s).0
  unfolding created new_probe inserted
  created-IsThere c user s =
      located-IsThere c s.store.next_probe user _ _
        (is_of-add_probe slug_of now (new_probe now user c.name) s.store)

  checked-authenticate :
      (c : Connection) (user : ℕ)
      → checked get_user new_version less_than min_version place_found slug_of settings quotas
          instance now c
        ≡ ok user
      → authenticate get_user c.api_key ≡ ok user
  unfolding checked
  checked-authenticate c user e =
      let (u, found, tested) = >>=-ok (authenticate get_user c.api_key) _ e in
      found ∙ ap ok (tested_user _ _ _ u user tested)

  reached_lem :
      (user : ℕ) (s : RegisterDb)
      → settings.enabled ≡ true
      → quota_reached (probe_count s.store) (probe_count_all s.store) quotas user settings "probe"
        ≡ (
          is_over settings.global_probe (size s)
              || is_over (limit_or settings.org_probe quotas user "probe") (owned user s),
          none,
        )
  reached_lem user s on =
      quota_reached_lem (probe_count s.store) (probe_count_all s.store) quotas user settings "probe"
        (owned user s) (size s) on (inr refl) refl refl

  identified_cases :
      (c : Connection) (user : ℕ) (s : RegisterDb)
      → settings.enabled ≡ true
      → (size (identify c s user).0 ≡ size s)
        ⊎ ((size (identify c s user).0 ≡ suc (size s))
            × IsThere s.store.next_probe user c.name (identify c s user).0
            × (get_probe_by_name c.name user s.store ≡ err probe_not_found)
            × (is_over settings.global_probe (size s) ≡ false)
            × (is_over (limit_or settings.org_probe quotas user "probe") (owned user s) ≡ false))
  unfolding identified
  identified_cases c user s on =
      let create =
        created get_user new_version less_than min_version place_found slug_of settings quotas
          instance now c user s in
      let over_all = is_over settings.global_probe (size s) in
      let over_own = is_over (limit_or settings.org_probe quotas user "probe") (owned user s) in
      let asked = ap (λ q. after_quota s create q) (reached_lem user s on) in
      elim (after_lookup_cases s
        (located get_user new_version less_than min_version place_found slug_of settings quotas
          instance now c user)
        (after_quota s create (
          quota_reached (probe_count s.store) (probe_count_all s.store) quotas user settings
            "probe"))
        (get_probe_by_name c.name user s.store) (λ p. size-located c user p s)) [
          | inl kept ↦ inl kept
          | inr (missing, new) ↦ elim (after_quota_cases s create (over_all || over_own)) [
            | inl kept ↦ inl (ap (λ r. size r.0) (new ∙ asked) ∙ kept)
            | inr (under, made) ↦ inr (
              ap (λ r. size r.0) (new ∙ asked ∙ made) ∙ size-created c user s,
              subst (λ r. IsThere s.store.next_probe user c.name r.0) (sym (new ∙ asked ∙ made))
                  (created-IsThere c user s),
              missing,
              (or_false over_all over_own under).0,
              (or_false over_all over_own under).1,
            )
          ]
        ]

  -- While quotas are enabled, a probe that connects leaves the number of probes as it was, or makes it
  -- one more. Then the new id is that of a probe of the name that was given, of the user of the key, for
  -- whom no probe of this name was found before, and neither the limit on all probes nor that on the
  -- probes of the user's organisation had been reached. A negative limit is none.
  pub register-quota :
      (c : Connection) (s : RegisterDb)
      → settings.enabled ≡ true
      → (size (connect c s).0 ≡ size s)
        ⊎ ((user : ℕ) × (authenticate get_user c.api_key ≡ ok user)
            × (size (connect c s).0 ≡ suc (size s))
            × (any (is_of s.store.next_probe user c.name) (connect c s).0.store.probes ≡ true)
            × (get_probe_by_name c.name user s.store ≡ err probe_not_found)
            × (is_over settings.global_probe (size s) ≡ false)
            × (is_over (limit_or settings.org_probe quotas user "probe") (owned user s) ≡ false))
  unfolding register
  register-quota c s on =
      elim (after_checks_cases s (identify c s) (
        checked get_user new_version less_than min_version place_found slug_of settings quotas
          instance now c)) [
            | inl kept ↦ inl kept
            | inr (user, valid, next) ↦ elim (identified_cases c user s on) [
              | inl kept ↦ inl (ap (λ r. size r.0) next ∙ kept)
              | inr (grown, there, missing, all, own) ↦ inr (
                user,
                checked-authenticate c user valid,
                ap (λ r. size r.0) next ∙ grown,
                subst (λ r. IsThere s.store.next_probe user c.name r.0) (sym next) there,
                missing,
                all,
                own,
              )
            ]
          ]
