-- ===== src/Sockets/Events.antt =====
-- pkg/api/socketio.go: the events that the probes are sent when an endpoint is added, changed or deleted.
-- GetProbesForCheck and the errors of EmitCheckEvent are parameters; a range over the map of the old checks
-- is in the order in which they were entered, where Go's is any.
pub mod Emitted
pub mod Applied
pub mod Session
pub mod Whole
mod Samples
use worldping_api.Prelude.{
  ℕ, String, Bool, true, false, not, ◌&&◌, Option, none, some, List, [], ◌∷◌, ◌++◌, select, any,
  ltb, ◌==◌, if◌then◌else◌, Outcome, ok, err,
}
use worldping_api.Prelude.Sets.{member}
use worldping_api.Store.Routing.{RoutedCheck}

-- m.Check as an event has it.
pub record EventCheck : Type 0 where
  pub check : RoutedCheck
  pub open check use *
  pub updated : ℕ

-- The fields of m.EndpointDTO that the handlers read.
pub record EndpointPayload : Type 0 where
  pub slug : String
  pub updated : ℕ
  pub checks : List EventCheck

pub data EventName : Type 0 where
  created updated removed : EventName

-- One call of EmitCheckEvent.
pub record Emission : Type 0 where
  pub probe : ℕ
  pub name : EventName
  pub check : EventCheck
  pub slug : String

-- What a handler has emitted, and the error that it returns.
pub record Handled (E : Type 0) : Type 0 where
  pub emitted : List Emission
  pub failed : Option E

-- A map with the ids of checks as its keys.
pub put_check : EventCheck → List EventCheck → List EventCheck
put_check c [] = c ∷ []
put_check c (d ∷ ds) = let rest = put_check c ds in if d.id == c.id then c ∷ ds else d ∷ rest

pub find_check : ℕ → List EventCheck → Option EventCheck
find_check id [] = none
find_check id (c ∷ cs) = let rest = find_check id cs in if c.id == id then some c else rest

pub old_checks : List EventCheck → List EventCheck → List EventCheck
unfolding put_check
old_checks [] m = m
old_checks (c ∷ cs) m = old_checks cs (if c.enabled then put_check c m else m)

pub is_known : ℕ → List EventCheck → Bool
is_known id = any λ c. c.id == id

-- The loop that finds the checks that have changed.
pub is_current : ℕ → EventCheck → Bool
is_current now c = c.enabled && not (ltb c.updated now)

pub changed_checks : EndpointPayload → List EventCheck → List EventCheck
unfolding is_current is_known
changed_checks current old =
    select (λ c. is_current current.updated c && is_known c.id old) current.checks

pub new_checks : EndpointPayload → List EventCheck → List EventCheck
unfolding is_current is_known
new_checks current old =
    select (λ c. is_current current.updated c && not (is_known c.id old)) current.checks

pub is_seen : List EventCheck → ℕ → Bool
is_seen cs id = any (λ c. c.enabled && c.id == id) cs

module _ {E : Type 0} (probes_of : RoutedCheck → Outcome E (List ℕ))
    (emit_error : Emission → Option E) where
  done : Handled E
  done = record { emitted = []; failed = none }

  -- One loop or call after another, which an error of the first keeps from running.
  after : Option E → List Emission → Handled E → Handled E
  after none es h = record { emitted = es ++ h.emitted; failed = h.failed }
  after (some e) es h = record { emitted = es; failed = some e }

  pub and_then : Handled E → Handled E → Handled E
  unfolding after
  and_then first second = after first.failed first.emitted second

  emit_one : Option E → Emission → Handled E
  unfolding done
  emit_one none e = record { emitted = e ∷ []; failed = none }
  emit_one (some reason) e = record { emitted = []; failed = some reason }

  pub emit_each : EventName → String → EventCheck → List ℕ → Handled E
  unfolding and_then emit_one done
  emit_each name slug c [] = done
  emit_each name slug c (p ∷ ps) =
      let e : Emission = record { probe = p; name = name; check = c; slug = slug } in
      and_then (emit_one (emit_error e) e) (emit_each name slug c ps)

  on_probes : Outcome E (List ℕ) → (List ℕ → Handled E) → Handled E
  on_probes (err e) f = record { emitted = []; failed = some e }
  on_probes (ok ps) f = f ps

  pub emit_to_probes : EventName → String → EventCheck → Handled E
  unfolding on_probes emit_each
  emit_to_probes name slug c = on_probes (probes_of c.check) (emit_each name slug c)

  -- The probes that ran the check as it was and do not run it as it is.
  emit_dropped : String → EventCheck → List ℕ → Option EventCheck → Handled E
  unfolding on_probes emit_each done
  emit_dropped slug c seen none = done
  emit_dropped slug c seen (some old) =
      on_probes (probes_of old.check)
        (λ ps. emit_each removed slug c (select (λ p. not (member ◌==◌ p seen)) ps))

  pub emit_changed : EndpointPayload → EndpointPayload → List EventCheck → EventCheck → Handled E
  unfolding and_then on_probes emit_each emit_dropped find_check
  emit_changed current last old c = on_probes (probes_of c.check) (λ ps.
      and_then (emit_each updated current.slug c ps)
        (emit_dropped last.slug c ps (find_check c.id old)))

  pub each_check : (EventCheck → Handled E) → List EventCheck → Handled E
  unfolding and_then done
  each_check f [] = done
  each_check f (c ∷ cs) = and_then (f c) (each_check f cs)

  unfoldable pub handle_endpoint_updated : EndpointPayload → EndpointPayload → Handled E
  unfolding old_checks changed_checks new_checks is_seen each_check emit_changed emit_to_probes
      and_then
  handle_endpoint_updated current last =
      let old = old_checks last.checks [] in
      and_then (each_check (emit_changed current last old) (changed_checks current old)) (
        and_then (each_check (emit_to_probes created current.slug) (new_checks current old)) (
          each_check (emit_to_probes removed last.slug)
            (select (λ c. not (is_seen current.checks c.id)) old)))

  unfoldable pub handle_endpoint_created : EndpointPayload → Handled E
  unfolding each_check emit_to_probes
  handle_endpoint_created e =
      each_check (emit_to_probes created e.slug) (select (λ c. c.enabled) e.checks)

  unfoldable pub handle_endpoint_deleted : EndpointPayload → Handled E
  unfolding each_check emit_to_probes
  handle_endpoint_deleted e =
      each_check (emit_to_probes removed e.slug) (select (λ c. c.enabled) e.checks)
