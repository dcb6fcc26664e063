-- ===== src/Sockets/Events/Applied.antt =====
-- pkg/api/socketio.go, HandleEndpointUpdated: the probes run the checks of the endpoint as it is.
use mathlib.Core.Path.{subst}
use mathlib.Core.Option.{some-injective}
use worldping_api.Prelude.{
  ℕ, ◌≡◌, refl, sym, ap, ◌∙◌, Bool, true, false, not, ◌&&◌, ◌||◌, Option, none, some, List, [], ◌∷◌,
  select, All, ltb, ◌==◌, ==_iff, if◌then◌else◌, arith, Bool-cases, inl, inr, Outcome,
}
use worldping_api.Prelude.Sets.{member}
use worldping_api.Store.Routing.{RoutedCheck}
use worldping_api.Sockets.Events.{
  EventCheck, created, removed, Emission, Handled, put_check, find_check, old_checks, is_known,
  is_current, changed_checks, new_checks, is_seen, and_then, emit_to_probes, EndpointPayload,
  emit_changed, each_check, handle_endpoint_updated,
}
use worldping_api.Sockets.Events.Emitted.{
  apply, apply-append, targets, DistinctIds, on_id, at_check, fold-select, and_then-none,
  emit_to_probes-apply, old_targets, changed_effect, emit_changed-apply, each_check-apply,
}

is_known-put_check :
    (j : ℕ) (c : EventCheck) (cs : List EventCheck)
    → is_known j (put_check c cs) ≡ (c.id == j || is_known j cs)
unfolding put_check is_known
is_known-put_check j c [] = refl
is_known-put_check j c (d ∷ ds) =
    ground (arith, is_known-put_check j c ds, ==_iff d.id c.id, ==_iff d.id j, ==_iff c.id j)

put_check-DistinctIds :
    (c : EventCheck) (cs : List EventCheck) → DistinctIds cs → DistinctIds (put_check c cs)
unfolding put_check is_known
put_check-DistinctIds c [] d = (refl, tt)
put_check-DistinctIds c (x ∷ xs) d = elim (Bool-cases (x.id == c.id)) [
  | inl e ↦ rw e (ap (λ k. is_known k xs) (sym ((==_iff x.id c.id).0 e)) ∙ d.0, d.1)
  | inr e ↦ rw e (
    is_known-put_check x.id c xs ∙ ground (arith, d.0, ==_iff c.id x.id, ==_iff x.id c.id),
    put_check-DistinctIds c xs d.1,
  )
]

entered-DistinctIds :
    (b : Bool) (c : EventCheck) (m : List EventCheck)
    → DistinctIds m
    → DistinctIds (if b then put_check c m else m)
entered-DistinctIds true c m d = put_check-DistinctIds c m d
entered-DistinctIds false c m d = d

pub old_checks-DistinctIds :
    (cs m : List EventCheck) → DistinctIds m → DistinctIds (old_checks cs m)
unfolding old_checks
old_checks-DistinctIds [] m d = d
old_checks-DistinctIds (c ∷ cs) m d =
    old_checks-DistinctIds cs (if c.enabled then put_check c m else m)
      (entered-DistinctIds c.enabled c m d)

is_some : Option EventCheck → Bool
is_some none = false
is_some (some c) = true

is_known-find_check : (j : ℕ) (cs : List EventCheck) → is_known j cs ≡ is_some (find_check j cs)
unfolding is_known is_some find_check
is_known-find_check j [] = refl
is_known-find_check j (c ∷ cs) = ground (arith, is_known-find_check j cs)

is_enabled : Option EventCheck → Bool
is_enabled none = false
is_enabled (some c) = c.enabled

is_seen-none : (j : ℕ) (cs : List EventCheck) → is_known j cs ≡ false → is_seen cs j ≡ false
unfolding is_known is_seen
is_seen-none j [] h = refl
is_seen-none j (c ∷ cs) h = ground (arith, is_seen-none j cs)

is_seen-find_check :
    (j : ℕ) (cs : List EventCheck) → DistinctIds cs → is_seen cs j ≡ is_enabled (find_check j cs)
unfolding is_seen is_enabled find_check
is_seen-find_check j [] d = refl
is_seen-find_check j (c ∷ cs) d = elim (Bool-cases (c.id == j)) [
  | inl at ↦
      let gone : is_known j cs ≡ false =
        sym (ap (λ k. is_known k cs) ((==_iff c.id j).0 at)) ∙ d.0 in
      ground (arith, is_seen-none j cs gone)
  | inr other ↦ ground (arith, is_seen-find_check j cs d.1)
]

find_check-id :
    (j : ℕ) (cs : List EventCheck) (c : EventCheck) → find_check j cs ≡ some c → c.id ≡ j
unfolding find_check
find_check-id j [] c h = cc
find_check-id j (x ∷ cs) c h = elim (Bool-cases (x.id == j)) [
  | inl e ↦
      let same : some x ≡ some c = rw e at h in
      let at : x ≡ c = cc in sym (ap (λ y. y.id) at) ∙ (==_iff x.id j).0 e
  | inr e ↦ find_check-id j cs c (rw e at h)
]

find_check-All :
    (P : EventCheck → Type 0) (j : ℕ) (cs : List EventCheck) (c : EventCheck)
    → All P cs
    → find_check j cs ≡ some c
    → P c
unfolding find_check
find_check-All P j [] c a h = cc
find_check-All P j (x ∷ cs) c a h = elim (Bool-cases (x.id == j)) [
  | inl e ↦ let same : some x ≡ some c = rw e at h in let at : x ≡ c = cc in subst P at a.0
  | inr e ↦ find_check-All P j cs c a.1 (rw e at h)
]

module _ {E : Type 0} (probes_of : RoutedCheck → Outcome E (List ℕ))
    (emit_error : Emission → Option E) where
  -- Whether a probe is to run the check with an id.
  abbrev pub should_run : ℕ → ℕ → List EventCheck → Bool
  should_run p j cs = member ◌==◌ p (old_targets probes_of emit_error (find_check j cs))

  -- Whether a probe is to run a check that may be there, if it is enabled.
  abbrev pub runs_now : ℕ → Option EventCheck → Bool
  runs_now p none = false
  runs_now p (some c) = c.enabled && member ◌==◌ p (targets (probes_of c.check))

  -- A check that is enabled and older than the endpoint was there as it is.
  abbrev pub Unchanged : EndpointPayload → List EventCheck → Type 0
  Unchanged current old =
      All
        (λ c.
          c.enabled ≡ true
          → ltb c.updated current.updated ≡ true
          → (d : EventCheck) × (find_check c.id old ≡ some d) × (d.check ≡ c.check))
        current.checks

  pub each_selected :
      (f : EventCheck → Handled E) (G : EventCheck → Bool → Bool) (q : EventCheck → Bool)
      (cs : List EventCheck) (p j : ℕ) (b : Bool)
      → ((c : EventCheck) (b : Bool)
          → (f c).failed ≡ none
          → apply (f c).emitted p j b ≡ on_id j G c b)
      → DistinctIds cs
      → (each_check probes_of emit_error f (select q cs)).failed ≡ none
      → apply (each_check probes_of emit_error f (select q cs)).emitted p j b
        ≡ at_check (find_check j cs) q G b
  each_selected f G q cs p j b effect distinct h =
      each_check-apply probes_of emit_error f (on_id j G) (select q cs) p j b effect h
      ∙ fold-select j G q cs b distinct

  -- The three loops, on one probe and one check.
  handled :
      (current last : EndpointPayload) (p j : ℕ) (b : Bool)
      → DistinctIds current.checks
      → (handle_endpoint_updated probes_of emit_error current last).failed ≡ none
      → apply (handle_endpoint_updated probes_of emit_error current last).emitted p j b ≡ (
          let old = old_checks last.checks [] in
          at_check
            (find_check j old)
            (λ c. not (is_seen current.checks c.id))
            (λ c b. if member ◌==◌ p (targets (probes_of c.check)) then false else b)
            (at_check
              (find_check j current.checks)
              (λ c. is_current current.updated c && not (is_known c.id old))
              (λ c b. if member ◌==◌ p (targets (probes_of c.check)) then true else b)
              (at_check
                (find_check j current.checks)
                (λ c. is_current current.updated c && is_known c.id old)
                (changed_effect probes_of emit_error p old)
                b)))
  unfolding handle_endpoint_updated changed_checks new_checks
  handled current last p j b distinct h =
      let old = old_checks last.checks [] in
      let first =
        each_check probes_of emit_error (emit_changed probes_of emit_error current last old)
          (changed_checks current old) in
      let second =
        each_check probes_of emit_error (emit_to_probes probes_of emit_error created current.slug)
          (new_checks current old) in
      let third =
        each_check probes_of emit_error (emit_to_probes probes_of emit_error removed last.slug)
          (select (λ c. not (is_seen current.checks c.id)) old) in
      let (none_first, none_rest, both) =
        and_then-none probes_of emit_error first (and_then probes_of emit_error second third) h in
      let (none_second, none_third, rest) =
        and_then-none probes_of emit_error second third none_rest in
      let b1 = apply first.emitted p j b in
      let b2 = apply second.emitted p j b1 in
      let removing =
        each_selected (emit_to_probes probes_of emit_error removed last.slug)
          (λ c b. if member ◌==◌ p (targets (probes_of c.check)) then false else b)
          (λ c. not (is_seen current.checks c.id)) old p j b2
          (λ c b. emit_to_probes-apply probes_of emit_error removed last.slug c p j b)
          (old_checks-DistinctIds last.checks [] tt) none_third in
      let creating =
        each_selected (emit_to_probes probes_of emit_error created current.slug)
          (λ c b. if member ◌==◌ p (targets (probes_of c.check)) then true else b)
          (λ c. is_current current.updated c && not (is_known c.id old)) current.checks p j b1
          (λ c b. emit_to_probes-apply probes_of emit_error created current.slug c p j b) distinct
          none_second in
      let changing =
        each_selected (emit_changed probes_of emit_error current last old)
          (changed_effect probes_of emit_error p old)
          (λ c. is_current current.updated c && is_known c.id old) current.checks p j b
          (λ c b. emit_changed-apply probes_of emit_error current last old c p j b) distinct
          none_first in
      rw both (
        apply-append first.emitted (and_then probes_of emit_error second third).emitted p j b
        ∙ rw rest (
            apply-append second.emitted third.emitted p j b1
            ∙ removing
            ∙ rw (creating, changing) refl))

  settled :
      (current : EndpointPayload) (old : List EventCheck) (p : ℕ) (o n : Option EventCheck)
      → ((c : EventCheck) → o ≡ some c → is_seen current.checks c.id ≡ is_enabled n)
      → ((c : EventCheck)
          → n ≡ some c
          → (is_known c.id old ≡ is_some o) × (find_check c.id old ≡ o))
      → ((c : EventCheck)
          → n ≡ some c
          → c.enabled ≡ true
          → ltb c.updated current.updated ≡ true
          → (d : EventCheck) × (o ≡ some d) × (d.check ≡ c.check))
      → at_check o
          (λ c. not (is_seen current.checks c.id))
          (λ c b. if member ◌==◌ p (targets (probes_of c.check)) then false else b)
          (at_check n
            (λ c. is_current current.updated c && not (is_known c.id old))
            (λ c b. if member ◌==◌ p (targets (probes_of c.check)) then true else b)
            (at_check n
              (λ c. is_current current.updated c && is_known c.id old)
              (changed_effect probes_of emit_error p old)
              (member ◌==◌ p (old_targets probes_of emit_error o))))
        ≡ runs_now p n
  unfolding is_current is_enabled is_some
  settled current old p none none seen known same = refl
  settled current old p (some d) none seen known same = ground (arith, seen d refl)
  settled current old p none (some c) seen known same =
      let (unknown, not_found) = known c refl in
      elim (Bool-cases c.enabled) [
        | inl enabled ↦ elim (Bool-cases (ltb c.updated current.updated)) [
          | inl older ↦ let (d, found, check) = same c refl enabled older in absurd cc
          | inr newer ↦ ground (arith, unknown)
        ]
        | inr disabled ↦ ground (arith)
      ]
  settled current old p (some d) (some c) seen known same =
      let (is_old, found) = known c refl in
      elim (Bool-cases c.enabled) [
        | inl enabled ↦ elim (Bool-cases (ltb c.updated current.updated)) [
          | inl older ↦
              let (e, at, check) = same c refl enabled older in
              let same_check : d.check ≡ c.check =
                ap (λ x. x.check) (some-injective d e at) ∙ check in
              ground (
                arith,
                is_old,
                seen d refl,
                ap (λ x. member ◌==◌ p (targets (probes_of x))) same_check,
              )
          | inr newer ↦ ground (
            arith,
            is_old,
            seen d refl,
            ap (λ x. member ◌==◌ p (old_targets probes_of emit_error x)) found,
          )
        ]
        | inr disabled ↦ ground (arith, is_old, seen d refl)
      ]

  -- If HandleEndpointUpdated returns no error, a probe that ran the enabled checks of the endpoint as it was runs,
  -- after the events, a check exactly where the check is enabled in the endpoint as it is and the probe is
  -- one of its probes. No two checks of the endpoint have one id, and an enabled check that is not as new as
  -- the endpoint was there, enabled, with the same route.
  pub handle_endpoint_updated_lem :
      (current last : EndpointPayload) (p j : ℕ)
      → DistinctIds current.checks
      → Unchanged current (old_checks last.checks [])
      → (handle_endpoint_updated probes_of emit_error current last).failed ≡ none
      → apply
          (handle_endpoint_updated probes_of emit_error current last).emitted
          p
          j
          (should_run p j (old_checks last.checks []))
        ≡ runs_now p (find_check j current.checks)
  handle_endpoint_updated_lem current last p j distinct unchanged h =
      let old = old_checks last.checks [] in
      handled current last p j (should_run p j old) distinct h
      ∙ settled current old p (find_check j old) (find_check j current.checks)
          (λ c e.
            ap (is_seen current.checks) (find_check-id j old c e)
            ∙ is_seen-find_check j current.checks distinct)
          (λ c e.
            let id = find_check-id j current.checks c e in
            (
              ap (λ k. is_known k old) id ∙ is_known-find_check j old,
              ap (λ k. find_check k old) id,
            ))
          (λ c e enabled older.
            let (d, found, check) = find_check-All _ j current.checks c unchanged e enabled older in
            (
              d,
              ap (λ k. find_check k old) (sym (find_check-id j current.checks c e)) ∙ found,
              check,
            ))
