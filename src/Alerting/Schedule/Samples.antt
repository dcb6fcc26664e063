-- ===== src/Alerting/Schedule/Samples.antt =====
-- A dispatcher that catches up two seconds.
use worldping_api.Prelude.{ℕ, ◌≡◌, refl, true, false, Option, some, List, [], ◌∷◌, All, arith}
use worldping_api.Prelude.Int.{ℤ, pos, ◌-ℤ◌, ◌+ℤ◌}
use worldping_api.Prelude.Text.{codes}
use worldping_api.Models.Check.{CheckForAlert, AlertingJob}
use worldping_api.Alerting.Schedule.{
  Dispatcher, tick, new_offset, jobs_of, step, catch_up, round, run,
}
use worldping_api.Alerting.Schedule.Jobs.{IsFor, jobs_of-IsFor}
use worldping_api.Alerting.Schedule.Seconds.{Advanced, run-Advanced}

abbrev a_check : CheckForAlert
a_check = record {
  id = 1;
  org_id = 2;
  slug = codes "host";
  name = codes "host";
  type = codes "ping";
  frequency = pos 60;
  enabled = true;
  state = pos 0;
  state_change = 0;
  state_check = 0;
  health_settings = some (record {
    num_probes = pos 1;
    steps = pos 2;
    notifications = record { enabled = false; addresses = [] };
  });
}

abbrev one_check : ℤ → Option (List CheckForAlert)
one_check s = some (a_check ∷ [])

abbrev stopped_clock : ℤ → AlertingJob → ℕ
stopped_clock s job = 5

abbrev waiting : Dispatcher
waiting = record { next = pos 100; offset = pos 30; queried = []; queue = [] }

run-Advanced_example :
    (n : ℕ) × (d' : Dispatcher) × (run one_check stopped_clock
        (tick (pos 131) ∷ new_offset (pos 20) ∷ tick (pos 121) ∷ [])
        waiting
      ≡ some d')
    × Advanced one_check stopped_clock waiting n d'
run-Advanced_example =
    run-Advanced one_check stopped_clock
      (tick (pos 131) ∷ new_offset (pos 20) ∷ tick (pos 121) ∷ []) waiting

abbrev caught_up : Dispatcher
caught_up = round one_check stopped_clock (round one_check stopped_clock waiting)

one_tick : step one_check stopped_clock (tick (pos 131)) waiting ≡ some caught_up
unfolding step catch_up round ◌-ℤ◌ ◌+ℤ◌
one_tick = refl

jobs_of-IsFor_example :
    All
      (IsFor one_check stopped_clock (pos 100))
      (jobs_of one_check stopped_clock (pos 100) (one_check (pos 100)))
jobs_of-IsFor_example = jobs_of-IsFor one_check stopped_clock (pos 100) (ground (arith))
