-- ===== src/Alerting/Schedule/Jobs.antt =====
-- pkg/alerting/schedule.go, getJobs and dispatchJobs: the jobs that are queued for a second.
use worldping_api.Prelude.{
  ℕ, ◌*◌, ◌/◌, ◌≤◌, ◌≡◌, ◌≢◌, refl, true, Option, none, some, List, [], ◌∷◌, map, All, arith,
  Bool-cases, inl, inr,
}
use worldping_api.Prelude.Int.{ℤ, pos, neg_part, ◌+ℤ◌, pos_part}
use worldping_api.Models.Check.{CheckForAlert, CheckHealthSettings, AlertingJob, second}
use worldping_api.Alerting.Execute.{unix, epoch}
use worldping_api.Alerting.Schedule.{is_alerting, new_job, get_jobs, instant, stamp, jobs_of}

-- The settings and numbers that the executor divides the work by are there.
pub record IsRunnable (job : AlertingJob) : Type 0 where
  pub health : CheckHealthSettings
  pub settings : job.health_settings ≡ some health
  pub frequency : job.frequency ≢ pos 0
  pub steps : health.steps ≢ pos 0
  pub num_probes : health.num_probes ≢ pos 0

new_job-IsRunnable :
    (check : CheckForAlert) (o : Option CheckHealthSettings)
    → check.health_settings ≡ o
    → is_alerting check o ≡ true
    → IsRunnable (new_job check)
unfolding is_alerting new_job
new_job-IsRunnable check none e h = absurd (ground arith)
new_job-IsRunnable check (some health) e h = record {
  health = health;
  settings = e;
  frequency = λ z. ground arith;
  steps = λ z. ground arith;
  num_probes = λ z. ground arith;
}

div_second : (n : ℕ) → n * second / second ≡ n
div_second n = omega arith

unix-instant : (s : ℤ) → neg_part s ≤ epoch → unix (instant s) ≡ s
unfolding instant
unix-instant s h = rw (div_second (pos_part (s +ℤ pos epoch))) (unfold ◌+ℤ◌ in ground arith)

module _ (database : ℤ → Option (List CheckForAlert)) (clock : ℤ → AlertingJob → ℕ) where
  -- A job for the second `s`.
  pub record IsFor (s : ℤ) (job : AlertingJob) : Type 0 where
    pub runnable : IsRunnable job
    pub last_point : unix job.last_point_ts ≡ s
    pub generated : (j : AlertingJob) × (job.generated_at ≡ clock s j)

  stamp-IsFor :
      (s : ℤ) (job : AlertingJob)
      → neg_part s ≤ epoch
      → IsRunnable job
      → IsFor s (stamp database clock s job)
  unfolding stamp
  stamp-IsFor s job h r = record {
    runnable = record {
      health = r.health;
      settings = r.settings;
      frequency = r.frequency;
      steps = r.steps;
      num_probes = r.num_probes;
    };
    last_point = unix-instant s h;
    generated = (job, refl);
  }

  get_jobs-IsFor :
      (s : ℤ) (checks : List CheckForAlert)
      → neg_part s ≤ epoch
      → All (IsFor s) (map (stamp database clock s) (get_jobs checks))
  unfolding get_jobs
  get_jobs-IsFor s [] h = tt
  get_jobs-IsFor s (check ∷ checks) h =
      elim (Bool-cases (is_alerting check check.health_settings)) [
        | inl alerting ↦ rw alerting (
          stamp-IsFor s (new_job check) h
              (new_job-IsRunnable check check.health_settings refl alerting),
          get_jobs-IsFor s checks h,
        )
        | inr skipped ↦ rw skipped (get_jobs-IsFor s checks h)
      ]

  -- Every job that is queued for a second from year 1 on has its health settings, a frequency, steps
  -- and a number of probes that are not zero, and its last point is that second.
  pub jobs_of-IsFor :
      (s : ℤ) → neg_part s ≤ epoch → All (IsFor s) (jobs_of database clock s (database s))
  unfolding jobs_of
  jobs_of-IsFor s h = elim (database s) as (λ o. All (IsFor s) (jobs_of database clock s o)) [
    | none ↦ tt
    | some checks ↦ get_jobs-IsFor s checks h
  ]
