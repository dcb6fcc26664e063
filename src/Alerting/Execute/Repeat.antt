-- ===== src/Alerting/Execute/Repeat.antt =====
-- pkg/alerting/executor.go, execute: the cache keeps a job from being run twice.
use worldping_api.Prelude.{
  ℕ, suc, ◌+◌, ◌≡◌, refl, ◌∙◌, String, Bool, true, false, Option, none, some, List, arith, ltb,
  Option-cases, Bool-cases, inl, inr,
}
use mathlib.Core.Path.{subst}
use worldping_api.Models.Check.{CheckEvalResult, CheckHealthSettings, AlertingJob}
use worldping_api.Alerting.Eval.{Series, EvalError, eval}
use worldping_api.Alerting.Execute.{
  LruCache, MetricData, Executor, Request, JobKey, Run, save_result, state_metrics, publish,
  conclude_eval, request, run_query, job_key, execute, too_old_after,
}

module _ {C : Type 0} where
  -- The run leaves the cache as `c`, if it ends.
  abbrev LeavesCache : C → Run C → Type 0
  LeavesCache c none = Unit {0}
  LeavesCache c (some (x, job)) = x.cache ≡ c

  publish-LeavesCache :
      (job : AlertingJob) (x : Executor C) (r : Option (List MetricData))
      → LeavesCache x.cache (publish job x r)
  unfolding publish
  publish-LeavesCache job x none = tt
  publish-LeavesCache job x (some ms) = refl

  conclude_eval-LeavesCache :
      (pre_exec : ℕ) (r : CheckEvalResult × Option EvalError) (job : AlertingJob) (x : Executor C)
      → LeavesCache x.cache (conclude_eval pre_exec r job x)
  unfolding conclude_eval save_result
  conclude_eval-LeavesCache pre_exec (s, some e) job x = refl
  conclude_eval-LeavesCache pre_exec (s, none) job x = ground (
    arith,
    publish-LeavesCache (record job { new_state = s; time_exec = pre_exec })
        (save_result (record job { new_state = s; time_exec = pre_exec }) x)
        (state_metrics (record job { new_state = s; time_exec = pre_exec })),
  )

module _ {F : Type 0} (float64 : String → Option F) (above_zero : F → Bool) (lru : LruCache)
    (found_iff : (k : JobKey) (c : lru.Cache) → (lru.contains_or_add k c).0 ≡ lru.contains k c)
    (adds : (k : JobKey) (c : lru.Cache) → lru.contains k (lru.contains_or_add k c).1 ≡ true) where
  open lru use {Cache}

  run_query-LeavesCache :
      (graphite : Request → Option (List Series)) (pre_exec : ℕ) (o : Option CheckHealthSettings)
      (job : AlertingJob) (x : Executor Cache)
      → LeavesCache x.cache (run_query float64 above_zero lru graphite pre_exec o job x)
  unfolding run_query
  run_query-LeavesCache graphite pre_exec none job x = tt
  run_query-LeavesCache graphite pre_exec (some health) job x =
      elim (Option-cases (graphite (request job health))) [
        | inl e ↦ rw (e, run_query) refl
        | inr (res, e) ↦
            rw (e, run_query)
              (conclude_eval-LeavesCache pre_exec (eval float64 above_zero res health) job x)
      ]

  -- After a run of a job that is not too old, its key is in the cache.
  cached_after :
      (graphite : Request → Option (List Series)) (now pre_exec : ℕ) (job : AlertingJob)
      (x : Executor Cache)
      → ltb (job.generated_at + too_old_after) now ≡ false
      → LeavesCache
          (lru.contains_or_add (job_key job) x.cache).1
          (execute float64 above_zero lru graphite now pre_exec job x)
  unfolding execute
  cached_after graphite now pre_exec job x fresh =
      rw fresh (elim (Bool-cases (lru.contains_or_add (job_key job) x.cache).0) [
        | inl seen ↦ rw seen refl
        | inr new ↦ rw new (run_query-LeavesCache graphite pre_exec job.health_settings job _)
      ])

  -- A run of a job whose key is in the cache neither saves a state nor publishes a metric.
  execute_seen :
      (graphite : Request → Option (List Series)) (now pre_exec : ℕ) (job : AlertingJob)
      (x : Executor Cache)
      → lru.contains (job_key job) x.cache ≡ true
      → (y : Executor Cache) × (execute float64 above_zero lru graphite now pre_exec job x
          ≡ some (y, job))
        × (y.results ≡ x.results)
        × (y.published ≡ x.published)
  unfolding execute
  execute_seen graphite now pre_exec job x h =
      elim (Bool-cases (ltb (job.generated_at + too_old_after) now)) [
        | inl old ↦ (
          record x { counters = record x.counters { too_old = suc x.counters.too_old } },
          rw old,
          refl,
          refl,
        )
        | inr fresh ↦ (
          record x {
            cache = (lru.contains_or_add (job_key job) x.cache).1;
            counters = record x.counters { already_done = suc x.counters.already_done };
          },
          rw (fresh, found_iff (job_key job) x.cache ∙ h),
          refl,
          refl,
        )
      ]

  -- A run of a job that is executed at most ten minutes after it was generated leaves its key in the
  -- cache, if the run ends. In every state whose cache holds that key, whatever has run in between, a run
  -- of a job with the same check and the same last point ends, saves no state and publishes nothing,
  -- whatever graphite and the clock then say. Of the cache it is assumed that ContainsOrAdd reports what
  -- Contains would, and that it adds the key.
  pub execute_once :
      (graphite graphite' : Request → Option (List Series)) (now pre_exec now' pre_exec' : ℕ)
      (job job' : AlertingJob) (x x' z : Executor Cache) {ran : AlertingJob}
      → ltb (job.generated_at + too_old_after) now ≡ false
      → execute float64 above_zero lru graphite now pre_exec job x ≡ some (x', ran)
      → job_key job' ≡ job_key job
      → lru.contains (job_key job) z.cache ≡ true
      → (lru.contains (job_key job) x'.cache ≡ true)
        × (y : Executor Cache) × (execute float64 above_zero lru graphite' now' pre_exec' job' z
            ≡ some (y, job'))
        × (y.results ≡ z.results)
        × (y.published ≡ z.published)
  execute_once graphite graphite' now pre_exec now' pre_exec' job job' x x' z fresh ran_once same
        holds =
      let (y, runs, results, published) =
        execute_seen graphite' now' pre_exec' job' z (rw same holds) in
      (rw kept (adds (job_key job) x.cache), y, runs, results, published)
    where
      kept : x'.cache ≡ (lru.contains_or_add (job_key job) x.cache).1
      kept =
          subst (LeavesCache (lru.contains_or_add (job_key job) x.cache).1) ran_once
            (cached_after graphite now pre_exec job x fresh)
