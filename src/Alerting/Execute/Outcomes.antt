-- ===== src/Alerting/Execute/Outcomes.antt =====
-- pkg/alerting/executor.go, execute: every job is counted once, a job with health settings is run
-- without a panic, and a job that the cache has seen is not run again.
use worldping_api.Prelude.{
  ℕ, suc, ◌+◌, ◌≡◌, ◌⊎◌, String, Bool, Option, none, some, List, arith, ltb, Option-cases,
  Bool-cases, inl, inr,
}
use worldping_api.Models.Check.{
  CheckEvalResult, CheckHealthSettings, AlertingJob, eval_result_ok, eval_result_crit,
  eval_result_unknown,
}
use mathlib.Core.Path.{subst, ap}
use worldping_api.Alerting.Execute.Metrics.{Raises, state_metrics-Raises}
use worldping_api.Alerting.Eval.{Series, verdict, eval, EvalError}
use worldping_api.Alerting.Execute.{
  LruCache, MetricData, Executor, Counters, Request, Run, count_outcome, count_error, save_result,
  state_metrics, publish, conclude, fail, conclude_eval, request, run_query, job_key, execute,
  too_old_after,
}

-- Each executed job is counted under one outcome.
abbrev pub IsBalanced : Counters → Type 0
IsBalanced c = c.executed ≡ c.outcomes_err + c.outcomes_ok + c.outcomes_crit + c.outcomes_unkn

-- The jobs that the executor has been given.
abbrev pub total : Counters → ℕ
total c = c.too_old + c.already_done + c.executed

abbrev pub IsEvalState : CheckEvalResult → Type 0
IsEvalState s = (s ≡ eval_result_ok) ⊎ (s ≡ eval_result_crit) ⊎ (s ≡ eval_result_unknown)

module _ {F : Type 0} (float64 : String → Option F) (above_zero : F → Bool) where
  pub eval-IsEvalState :
      (res : List Series) (health : CheckHealthSettings)
      → IsEvalState (eval float64 above_zero res health).0
  unfolding eval verdict
  eval-IsEvalState res health = ground arith

state_metrics-some :
    (job : AlertingJob)
    → IsEvalState job.new_state
    → (ms : List MetricData) × (state_metrics job ≡ some ms)
state_metrics-some job h = elim (Option-cases (state_metrics job)) [
  | inl e ↦ absurd (ground (arith, subst (Raises job.new_state) e (state_metrics-Raises job)))
  | inr found ↦ found
]

-- A job has been taken from the cache and not yet been given an outcome.
abbrev IsPending : Counters → Type 0
IsPending c = c.executed ≡ suc (c.outcomes_err + c.outcomes_ok + c.outcomes_crit + c.outcomes_unkn)

module _ {C : Type 0} where
  -- The run ends without a panic, in balance, with `n` jobs counted.
  abbrev pub Counted : ℕ → Run C → Type 0
  Counted n none = ⊥
  Counted n (some (x, job)) = IsBalanced x.counters × (total x.counters ≡ n)

  counters-save_result :
      (job : AlertingJob) (x : Executor C) → (save_result job x).counters ≡ x.counters
  unfolding save_result
  counters-save_result job x = ground arith

  publish-Counted :
      (job : AlertingJob) (x : Executor C) (ms : List MetricData) (c : Counters)
      → x.counters ≡ c
      → IsEvalState job.new_state
      → IsPending c
      → Counted (total c) (publish job x (some ms))
  unfolding publish count_outcome
  publish-Counted job x ms c e h p = ground arith

  conclude-Counted :
      (pre_exec : ℕ) (s : CheckEvalResult) (job : AlertingJob) (x : Executor C)
      → IsEvalState s
      → IsPending x.counters
      → Counted (total x.counters) (conclude pre_exec s job x)
  unfolding conclude
  conclude-Counted pre_exec s job x h p =
      let job' : AlertingJob = record job { new_state = s; time_exec = pre_exec } in
      let (ms, e) = state_metrics-some job' h in
      rw (e)
        (publish-Counted job' (save_result job' x) ms x.counters (counters-save_result job' x) h p)

  fail-Counted :
      (job : AlertingJob) (x : Executor C)
      → IsPending x.counters
      → Counted (total x.counters) (fail job x)
  unfolding fail count_error
  fail-Counted job x p = ground arith

module _ {F : Type 0} (float64 : String → Option F) (above_zero : F → Bool) (lru : LruCache) where
  open lru use {Cache}

  conclude_eval-Counted :
      (pre_exec : ℕ) (r : CheckEvalResult × Option EvalError) (job : AlertingJob)
      (x : Executor Cache)
      → IsEvalState r.0
      → IsPending x.counters
      → Counted (total x.counters) (conclude_eval pre_exec r job x)
  unfolding conclude_eval
  conclude_eval-Counted pre_exec (s, none) job x h p = conclude-Counted pre_exec s job x h p
  conclude_eval-Counted pre_exec (s, some e) job x h p = fail-Counted job x p

  run_query-Counted :
      (graphite : Request → Option (List Series)) (pre_exec : ℕ) (o : Option CheckHealthSettings)
      (job : AlertingJob) (x : Executor Cache) (n : ℕ) {health : CheckHealthSettings}
      → o ≡ some health
      → total x.counters ≡ n
      → IsPending x.counters
      → Counted n (run_query float64 above_zero lru graphite pre_exec o job x)
  unfolding run_query
  run_query-Counted graphite pre_exec none job x n h t p = cc
  run_query-Counted graphite pre_exec (some health) job x n h t p =
      subst
        (λ k. Counted k (run_query float64 above_zero lru graphite pre_exec (some health) job x)) t
        (elim (Option-cases (graphite (request job health))) [
          | inl e ↦ rw (e, run_query) (fail-Counted job x p)
          | inr (res, e) ↦
              rw (e, run_query)
                (conclude_eval-Counted pre_exec (eval float64 above_zero res health) job x
                  (eval-IsEvalState float64 above_zero res health) p)
        ])

  -- A job with health settings runs without a panic, whatever graphite, the cache and the clock say.
  -- It adds one to the jobs counted as too old, seen before or executed, and the executed jobs stay
  -- as many as the outcomes counted.
  pub execute-Counted :
      (graphite : Request → Option (List Series)) (now pre_exec : ℕ) (job : AlertingJob)
      (x : Executor Cache) {health : CheckHealthSettings}
      → job.health_settings ≡ some health
      → IsBalanced x.counters
      → Counted
          (suc (total x.counters))
          (execute float64 above_zero lru graphite now pre_exec job x)
  unfolding execute
  execute-Counted graphite now pre_exec job x {health} h b =
      elim (Bool-cases (ltb (job.generated_at + too_old_after) now)) [
        | inl old ↦ rw old (ground arith)
        | inr fresh ↦ rw fresh (elim (Bool-cases (lru.contains_or_add (job_key job) x.cache).0) [
          | inl seen ↦ rw seen (ground arith)
          | inr new ↦ rw new (
              run_query-Counted graphite pre_exec job.health_settings job _ (suc (total x.counters))
                h (omega arith) (ap suc b))
        ])
      ]
