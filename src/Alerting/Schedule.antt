-- ===== src/Alerting/Schedule.antt =====
-- pkg/alerting/schedule.go: getJobs and dispatchJobs, and the WHERE clause of getChecksForAlerts in
-- pkg/services/sqlstore/endpoint.go. The rows that the database returns, the ticks of the clock and
-- the new offsets are arguments: an iteration of the select loop is one event.
pub mod Due
pub mod Seconds
pub mod Jobs
mod Samples
use worldping_api.Prelude.{
  ℕ, zero, suc, ◌+◌, ◌*◌, ◌%◌, Bool, true, false, ◌&&◌, ◌||◌, Option, none, some, List, [], ◌∷◌,
  ◌++◌, map, ◌==◌, if◌then◌else◌,
}
use worldping_api.Prelude.Int.{ℤ, pos, negsuc, leb_ℤ, eqb_ℤ, ◌+ℤ◌, ◌-ℤ◌, pos_part}
use worldping_api.Models.Check.{
  CheckEvalResult, CheckForAlert, CheckHealthSettings, AlertingJob, second,
}
use worldping_api.Alerting.Execute.{epoch}

-- WHERE `check`.enabled=1 AND (? % `check`.frequency) = `check`.offset, for instants and
-- frequencies above zero
unfoldable pub is_due : ℕ → Bool → ℕ → ℕ → Bool
is_due ts enabled frequency offset = enabled && ts % frequency == offset

-- The job that getJobs makes: the fields that only the dispatcher and the executor set are zero.
unfoldable pub new_job : CheckForAlert → AlertingJob
new_job check = record {
  check = check;
  generated_at = 0;
  last_point_ts = 0;
  new_state = pos 0;
  time_exec = 0;
}

-- The two tests of getJobs, in their order: nil settings, and a zero among the three numbers.
unfoldable pub is_alerting : CheckForAlert → Option CheckHealthSettings → Bool
is_alerting check none = false
is_alerting check (some health) =
    if eqb_ℤ check.frequency (pos 0)
      || (eqb_ℤ health.steps (pos 0) || eqb_ℤ health.num_probes (pos 0))
    then false
    else true

unfoldable pub get_jobs : List CheckForAlert → List AlertingJob
unfolding is_alerting
get_jobs [] = []
get_jobs (check ∷ checks) =
    let jobs = get_jobs checks in
    if is_alerting check check.health_settings then new_job check ∷ jobs else jobs

-- The state of dispatchJobs. `queried` lists the arguments of its calls of getJobs and `queue` the
-- jobs given to QueueJob, oldest first.
pub record Dispatcher : Type 0 where
  pub next : ℤ
  pub offset : ℤ
  pub queried : List ℤ
  pub queue : List AlertingJob

-- An iteration of the select loop: a tick of the clock, in seconds, or a new offset.
pub data Event : Type 0 where
  tick : ℤ → Event
  new_offset : ℤ → Event

-- time.Unix(s, 0)
unfoldable pub instant : ℤ → ℕ
instant s = pos_part (s +ℤ pos epoch) * second

-- Enough rounds for the seconds that are left, and one for the last test.
abbrev pub rounds : ℤ → Dispatcher → ℕ
rounds limit d = suc (pos_part ((limit +ℤ pos 1) -ℤ d.next))

-- `database` is what GetChecksForAlerts returns for a second, `none` for an error, and `clock` the
-- reading of time.Now when a job of that second is queued.
module _ (database : ℤ → Option (List CheckForAlert)) (clock : ℤ → AlertingJob → ℕ) where
  unfoldable pub stamp : ℤ → AlertingJob → AlertingJob
  stamp s job = record job { generated_at = clock s job; last_point_ts = instant s }

  -- The jobs that are queued for the second `s`.
  unfoldable pub jobs_of : ℤ → Option (List CheckForAlert) → List AlertingJob
  jobs_of s none = []
  jobs_of s (some checks) = map (stamp s) (get_jobs checks)

  -- One round of the loop of a tick. The second is left behind before the error is looked at.
  unfoldable pub round : Dispatcher → Dispatcher
  round d = record d {
    next = d.next +ℤ pos 1;
    queried = d.queried ++ d.next ∷ [];
    queue = d.queue ++ jobs_of d.next (database d.next);
  }

  -- `for next <= lastPointAt.Unix()-int64(offset)`; `none` means that the fuel ran out.
  unfoldable pub catch_up : ℕ → ℤ → Dispatcher → Option Dispatcher
  catch_up zero limit d = none
  catch_up (suc fuel) limit d =
      let rest = catch_up fuel limit (round d) in if leb_ℤ d.next limit then rest else some d

  unfoldable pub step : Event → Dispatcher → Option Dispatcher
  step (tick now) d = let limit = now -ℤ d.offset in catch_up (rounds limit d) limit d
  step (new_offset o) d = some (record d { offset = o })

  unfoldable pub run : List Event → Dispatcher → Option Dispatcher
  run [] d = some d
  run (e ∷ es) d = elim (step e d) [ none ↦ none | some d' ↦ run es d' ]
