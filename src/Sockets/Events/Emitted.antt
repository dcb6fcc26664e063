-- ===== src/Sockets/Events/Emitted.antt =====
-- pkg/api/socketio.go: what a probe makes of the events that it is sent, and what each loop of a handler
-- does to one probe and one check.
use worldping_api.Prelude.{
  ℕ, String, ◌≡◌, refl, sym, ap, ◌∙◌, Bool, true, false, not, ◌&&◌, Option, none, some, List, [],
  ◌∷◌, ◌++◌, select, ◌==◌, ==_iff, if◌then◌else◌, arith, Bool-cases, Option-cases, inl, inr,
  Outcome, ok, err,
}
use worldping_api.Prelude.Sets.{member, member-select}
use worldping_api.Store.Routing.{RoutedCheck}
use worldping_api.Sockets.Events.{
  EventCheck, EventName, updated, removed, Emission, Handled, find_check, is_known, done, after,
  and_then, emit_one, emit_each, on_probes, emit_to_probes, EndpointPayload, emit_dropped,
  emit_changed, each_check,
}

abbrev pub runs : EventName → Bool
runs removed = false
runs _ = true

-- Whether a probe runs a check after events, if it did before them. An event replaces what the probe had.
abbrev pub apply : List Emission → ℕ → ℕ → Bool → Bool
apply [] p j b = b
apply (e ∷ es) p j b = apply es p j (if e.probe == p && e.check.id == j then runs e.name else b)

pub apply-append :
    (xs ys : List Emission) (p j : ℕ) (b : Bool)
    → apply (xs ++ ys) p j b ≡ apply ys p j (apply xs p j b)
apply-append [] ys p j b = refl
apply-append (e ∷ xs) ys p j b =
    apply-append xs ys p j (if e.probe == p && e.check.id == j then runs e.name else b)

-- The probes that are found.
abbrev pub targets : {E : Type 0} → Outcome E (List ℕ) → List ℕ
targets (err e) = []
targets (ok ps) = ps

abbrev pub DistinctIds : List EventCheck → Type 0
DistinctIds [] = Unit
DistinctIds (c ∷ cs) = (is_known c.id cs ≡ false) × DistinctIds cs

abbrev pub fold : (EventCheck → Bool → Bool) → List EventCheck → Bool → Bool
fold g [] b = b
fold g (c ∷ cs) b = fold g cs (g c b)

-- An effect on the check with the id j alone.
abbrev pub on_id : ℕ → (EventCheck → Bool → Bool) → EventCheck → Bool → Bool
on_id j G c b = if c.id == j then G c b else b

abbrev pub at_check :
    Option EventCheck → (EventCheck → Bool) → (EventCheck → Bool → Bool) → Bool → Bool
at_check none q G b = b
at_check (some c) q G b = if q c then G c b else b

skipped :
    (j : ℕ) (G : EventCheck → Bool → Bool) (c : EventCheck) (b : Bool)
    → (c.id == j) ≡ false
    → on_id j G c b ≡ b
skipped j G c b e = rw e refl

fold-absent :
    (j : ℕ) (G : EventCheck → Bool → Bool) (q : EventCheck → Bool) (cs : List EventCheck) (b : Bool)
    → is_known j cs ≡ false
    → fold (on_id j G) (select q cs) b ≡ b
unfolding is_known
fold-absent j G q [] b h = refl
fold-absent j G q (c ∷ cs) b h =
    let head : (c.id == j) ≡ false = ground (arith) in
    let tail : is_known j cs ≡ false = ground (arith) in
    elim (Bool-cases (q c)) [
      | inl e ↦
          rw e (
            ap (fold (on_id j G) (select q cs)) (skipped j G c b head)
            ∙ fold-absent j G q cs b tail)
      | inr e ↦ rw e (fold-absent j G q cs b tail)
    ]

-- Where ids are distinct, the effects on the selected checks are the effect on the one with the id.
pub fold-select :
    (j : ℕ) (G : EventCheck → Bool → Bool) (q : EventCheck → Bool) (cs : List EventCheck) (b : Bool)
    → DistinctIds cs
    → fold (on_id j G) (select q cs) b ≡ at_check (find_check j cs) q G b
unfolding find_check
fold-select j G q [] b d = refl
fold-select j G q (c ∷ cs) b d = elim (Bool-cases (c.id == j)) [
  | inl at ↦
      let gone : is_known j cs ≡ false =
        sym (ap (λ k. is_known k cs) ((==_iff c.id j).0 at)) ∙ d.0 in
      elim (Bool-cases (q c)) [
        | inl e ↦
            rw (e, at)
              (ap (fold (on_id j G) (select q cs)) (rw at refl)
                ∙ fold-absent j G q cs (G c b) gone
                ∙ rw e refl)
        | inr e ↦ rw (e, at, e) (fold-absent j G q cs b gone)
      ]
  | inr other ↦ elim (Bool-cases (q c)) [
    | inl e ↦
        rw (e, other)
          (ap (fold (on_id j G) (select q cs)) (skipped j G c b other) ∙ fold-select j G q cs b d.1)
    | inr e ↦ rw (e, other) (fold-select j G q cs b d.1)
  ]
]

module _ {E : Type 0} (probes_of : RoutedCheck → Outcome E (List ℕ))
    (emit_error : Emission → Option E) where
  pub and_then-none :
      (first second : Handled E)
      → (and_then probes_of emit_error first second).failed ≡ none
      → (first.failed ≡ none)
        × (second.failed ≡ none)
        × ((and_then probes_of emit_error first second).emitted ≡ first.emitted ++ second.emitted)
  unfolding and_then after
  and_then-none first second h = elim (Option-cases first.failed) [
    | inl e ↦ rw e (refl, rw e at h, refl)
    | inr (x, e) ↦ absurd (let bad : some x ≡ none = rw e at h in cc)
  ]

  emit_one-none :
      (o : Option E) (e : Emission)
      → (emit_one probes_of emit_error o e).failed ≡ none
      → (emit_one probes_of emit_error o e).emitted ≡ e ∷ []
  unfolding emit_one
  emit_one-none none e h = refl
  emit_one-none (some x) e h = absurd cc

  -- One loop over probes.
  emit_each-apply :
      (name : EventName) (slug : String) (c : EventCheck) (ps : List ℕ) (p j : ℕ) (b : Bool)
      → (emit_each probes_of emit_error name slug c ps).failed ≡ none
      → apply (emit_each probes_of emit_error name slug c ps).emitted p j b
        ≡ (if c.id == j && member ◌==◌ p ps then runs name else b)
  unfolding emit_each done
  emit_each-apply name slug c [] p j b h = ground (arith)
  emit_each-apply name slug c (x ∷ ps) p j b h =
      let e : Emission = record { probe = x; name = name; check = c; slug = slug } in
      let head = emit_one probes_of emit_error (emit_error e) e in
      let rest = emit_each probes_of emit_error name slug c ps in
      let (none_head, none_rest, both) = and_then-none head rest h in
      rw both (
        apply-append head.emitted rest.emitted p j b
        ∙ emit_each-apply name slug c ps p j (apply head.emitted p j b) none_rest
        ∙ rw (emit_one-none (emit_error e) e none_head) (ground (arith, ==_iff x p, ==_iff p x)))

  pub emit_to_probes-apply :
      (name : EventName) (slug : String) (c : EventCheck) (p j : ℕ) (b : Bool)
      → (emit_to_probes probes_of emit_error name slug c).failed ≡ none
      → apply (emit_to_probes probes_of emit_error name slug c).emitted p j b
        ≡ on_id j (λ c b. if member ◌==◌ p (targets (probes_of c.check)) then runs name else b) c b
  unfolding emit_to_probes
  emit_to_probes-apply name slug c p j b h = found (probes_of c.check) h
    where
      found :
          (o : Outcome E (List ℕ))
          → (on_probes probes_of emit_error o (emit_each probes_of emit_error name slug c)).failed
            ≡ none
          → apply
              (on_probes probes_of emit_error o
                (emit_each probes_of emit_error name slug c)).emitted
              p
              j
              b
            ≡ (if c.id == j then (if member ◌==◌ p (targets o) then runs name else b) else b)
      found (err x) h = let bad : some x ≡ none = h in absurd cc
      found (ok ps) h = ground (arith, emit_each-apply name slug c ps p j b h)

  abbrev pub old_targets : Option EventCheck → List ℕ
  old_targets none = []
  old_targets (some d) = targets (probes_of d.check)

  emit_dropped-apply :
      (slug : String) (c : EventCheck) (seen : List ℕ) (o : Option EventCheck) (p j : ℕ) (b : Bool)
      → (emit_dropped probes_of emit_error slug c seen o).failed ≡ none
      → apply (emit_dropped probes_of emit_error slug c seen o).emitted p j b ≡ (
          if c.id == j && (member ◌==◌ p (old_targets o) && not (member ◌==◌ p seen))
          then false
          else b)
  unfolding emit_dropped done
  emit_dropped-apply slug c seen none p j b h = ground (arith)
  emit_dropped-apply slug c seen (some d) p j b h = found (probes_of d.check) h
    where
      dropping : List ℕ → Handled E
      dropping ps =
          emit_each probes_of emit_error removed slug c (select (λ x. not (member ◌==◌ x seen)) ps)

      found :
          (o : Outcome E (List ℕ))
          → (on_probes probes_of emit_error o dropping).failed ≡ none
          → apply (on_probes probes_of emit_error o dropping).emitted p j b ≡ (
              if c.id == j && (member ◌==◌ p (targets o) && not (member ◌==◌ p seen))
              then false
              else b)
      found (err x) h = let bad : some x ≡ none = h in absurd cc
      found (ok ps) h = ground (
        arith,
        emit_each-apply removed slug c (select (λ x. not (member ◌==◌ x seen)) ps) p j b h,
        member-select ◌==◌ ==_iff (λ x. not (member ◌==◌ x seen)) p ps,
      )

  -- What a changed check makes of a probe: it runs where it is to run, and no longer where it was.
  abbrev pub changed_effect : ℕ → List EventCheck → EventCheck → Bool → Bool
  changed_effect p old c b =
      if member ◌==◌ p (targets (probes_of c.check))
      then true
      else if member ◌==◌ p (old_targets (find_check c.id old))
      then false
      else b

  pub emit_changed-apply :
      (current last : EndpointPayload) (old : List EventCheck) (c : EventCheck) (p j : ℕ) (b : Bool)
      → (emit_changed probes_of emit_error current last old c).failed ≡ none
      → apply (emit_changed probes_of emit_error current last old c).emitted p j b
        ≡ on_id j (changed_effect p old) c b
  unfolding emit_changed
  emit_changed-apply current last old c p j b h = found (probes_of c.check) h
    where
      changing : List ℕ → Handled E
      changing ps =
          and_then probes_of emit_error (emit_each probes_of emit_error updated current.slug c ps)
            (emit_dropped probes_of emit_error last.slug c ps (find_check c.id old))

      found :
          (o : Outcome E (List ℕ))
          → (on_probes probes_of emit_error o changing).failed ≡ none
          → apply (on_probes probes_of emit_error o changing).emitted p j b ≡ (
              if c.id == j
              then (if member ◌==◌ p (targets o)
                  then true
                  else if member ◌==◌ p (old_targets (find_check c.id old))
                  then false
                  else b)
              else b)
      found (err x) h = let bad : some x ≡ none = h in absurd cc
      found (ok ps) h =
          let first = emit_each probes_of emit_error updated current.slug c ps in
          let second = emit_dropped probes_of emit_error last.slug c ps (find_check c.id old) in
          let (none_first, none_second, both) = and_then-none first second h in
          rw both (
            apply-append first.emitted second.emitted p j b
            ∙ emit_dropped-apply last.slug c ps (find_check c.id old) p j
                (apply first.emitted p j b) none_second
            ∙ rw (emit_each-apply updated current.slug c ps p j b none_first) (ground (arith)))

  pub each_check-apply :
      (f : EventCheck → Handled E) (g : EventCheck → Bool → Bool) (cs : List EventCheck) (p j : ℕ)
      (b : Bool)
      → ((c : EventCheck) (b : Bool) → (f c).failed ≡ none → apply (f c).emitted p j b ≡ g c b)
      → (each_check probes_of emit_error f cs).failed ≡ none
      → apply (each_check probes_of emit_error f cs).emitted p j b ≡ fold g cs b
  unfolding each_check done
  each_check-apply f g [] p j b effect h = refl
  each_check-apply f g (c ∷ cs) p j b effect h =
      let rest = each_check probes_of emit_error f cs in
      let (none_head, none_rest, both) = and_then-none (f c) rest h in
      rw both (
        apply-append (f c).emitted rest.emitted p j b
        ∙ each_check-apply f g cs p j (apply (f c).emitted p j b) effect none_rest
        ∙ ap (fold g cs) (effect c b none_head))
