-- ===== src/Sockets/Events/Whole.antt =====
-- pkg/api/socketio.go, HandleEndpointCreated and HandleEndpointDeleted: all checks of an endpoint.
use worldping_api.Prelude.{
  ℕ, ◌≡◌, refl, ◌∙◌, Bool, true, false, Option, none, some, List, ◌==◌, if◌then◌else◌, arith,
  Outcome,
}
use worldping_api.Prelude.Sets.{member}
use worldping_api.Store.Routing.{RoutedCheck}
use worldping_api.Sockets.Events.{
  EventCheck, created, removed, Emission, find_check, EndpointPayload, emit_to_probes,
  handle_endpoint_created, handle_endpoint_deleted,
}
use worldping_api.Sockets.Events.Emitted.{
  apply, targets, DistinctIds, at_check, emit_to_probes-apply,
}
use worldping_api.Sockets.Events.Applied.{each_selected, runs_now}

module _ {E : Type 0} (probes_of : RoutedCheck → Outcome E (List ℕ))
    (emit_error : Emission → Option E) where
  all_on :
      (p : ℕ) (o : Option EventCheck)
      → at_check o
          (λ c. c.enabled)
          (λ c b. if member ◌==◌ p (targets (probes_of c.check)) then true else b)
          false
        ≡ runs_now probes_of emit_error p o
  all_on p none = refl
  all_on p (some c) = ground (arith)

  all_off :
      (p : ℕ) (o : Option EventCheck)
      → at_check o
          (λ c. c.enabled)
          (λ c b. if member ◌==◌ p (targets (probes_of c.check)) then false else b)
          (runs_now probes_of emit_error p o)
        ≡ false
  all_off p none = refl
  all_off p (some c) = ground (arith)

  -- If both handlers return no error, a probe that ran no check of the endpoint runs, after the events of its creation,
  -- exactly the enabled checks whose probe it is, and none after the events of its deletion. No two
  -- checks of the endpoint have one id.
  pub handle_endpoint_created-handle_endpoint_deleted :
      (e : EndpointPayload) (p j : ℕ)
      → DistinctIds e.checks
      → (handle_endpoint_created probes_of emit_error e).failed ≡ none
      → (handle_endpoint_deleted probes_of emit_error e).failed ≡ none
      → (apply (handle_endpoint_created probes_of emit_error e).emitted p j false
          ≡ runs_now probes_of emit_error p (find_check j e.checks))
        × (apply
              (handle_endpoint_deleted probes_of emit_error e).emitted
              p
              j
              (apply (handle_endpoint_created probes_of emit_error e).emitted p j false)
            ≡ false)
  unfolding handle_endpoint_created handle_endpoint_deleted
  handle_endpoint_created-handle_endpoint_deleted e p j distinct on off =
      let enabled : EventCheck → Bool = λ c. c.enabled in
      let made =
        each_selected probes_of emit_error (emit_to_probes probes_of emit_error created e.slug)
          (λ c b. if member ◌==◌ p (targets (probes_of c.check)) then true else b) enabled e.checks
          p j false (λ c b. emit_to_probes-apply probes_of emit_error created e.slug c p j b)
          distinct on
        ∙ all_on p (find_check j e.checks) in
      (
        made,
        rw made (
            each_selected probes_of emit_error (emit_to_probes probes_of emit_error removed e.slug)
              (λ c b. if member ◌==◌ p (targets (probes_of c.check)) then false else b) enabled
              e.checks p j (runs_now probes_of emit_error p (find_check j e.checks))
              (λ c b. emit_to_probes-apply probes_of emit_error removed e.slug c p j b) distinct off
            ∙ all_off p (find_check j e.checks)),
      )
