-- ===== src/Alerting/Execute.antt =====
-- pkg/alerting/executor.go, execute and StoreResult: one alerting job, from its age to its metrics.
-- The LRU cache, graphite and the clock are not this program's: the cache is a parameter, the
-- response and the two readings of the clock are arguments. A run-time panic is `none`.
pub mod Outcomes
pub mod Metrics
pub mod Repeat
mod Samples
use worldping_api.Prelude.{
  ℕ, zero, suc, ◌+◌, ◌-◌, ◌*◌, ◌/◌, String, Bool, true, false, not, ◌||◌, Option, none, some, List,
  [], ◌∷◌, ◌++◌, ltb, if◌then◌else◌,
}
use worldping_api.Prelude.Int.{ℤ, pos, negsuc, sub_ℕ, ltb_ℤ, eqb_ℤ, ◌+ℤ◌, ◌*ℤ◌, wrap64}
use worldping_api.Prelude.Text.{Bytes, codes, to_lower}
use worldping_api.Models.Check.{
  CheckEvalResult, CheckHealthSettings, AlertingJob, eval_result_ok, eval_result_crit,
  eval_result_unknown, second,
}
use worldping_api.Alerting.Eval.{Series, EvalError, eval}

-- Seconds from Go's zero time to the Unix epoch.
abbrev pub epoch : ℕ
epoch = 62135596800

-- time.Time.Unix
abbrev pub unix : ℕ → ℤ
unix t = sub_ℕ (t / second) epoch

-- What the text "%d-%d" of a cache key spells.
pub record JobKey : Type 0 where
  pub id : ℕ
  pub ts : ℤ

unfoldable pub job_key : AlertingJob → JobKey
job_key job = record { id = job.id; ts = unix job.last_point_ts }

pub record Request : Type 0 where
  pub org_id : ℕ  -- the header x-org-id
  pub start : ℤ
  pub end : ℕ
  pub target : Bytes

-- The fields of schema.MetricData that vary.
pub record MetricData : Type 0 where
  pub org_id : ℕ
  pub name : Bytes
  pub interval : ℤ
  pub value : ℕ  -- 0.0 or 1.0
  pub time : ℤ

pub record Counters : Type 0 where
  pub too_old : ℕ
  pub already_done : ℕ
  pub executed : ℕ
  pub outcomes_err : ℕ
  pub outcomes_ok : ℕ
  pub outcomes_crit : ℕ
  pub outcomes_unkn : ℕ

-- hashicorp/golang-lru. ContainsOrAdd says whether the key was there, and adds it if not.
pub record LruCache : Type 1 where
  pub Cache : Type 0
  pub contains : JobKey → Cache → Bool
  pub contains_or_add : JobKey → Cache → Bool × Cache

pub record Executor (Cache : Type 0) : Type 0 where
  pub cache : Cache
  pub counters : Counters
  pub results : List AlertingJob  -- sent on ResultQueue, oldest first
  pub published : List (List MetricData)  -- handed to the metrics publisher, oldest first

unfoldable pub metric : AlertingJob → String → MetricData
metric job state = record {
  org_id = job.org_id;
  name =
      codes "health."
      ++ (job.slug ++ (codes "." ++ (to_lower job.type ++ (codes "." ++ codes state))));
  interval = job.frequency;
  value = 0;
  time = unix job.last_point_ts;
}

-- `metrics[i].Value = 1.0`; an index out of range panics.
unfoldable pub raise_metric : ℕ → List MetricData → Option (List MetricData)
raise_metric i [] = none
raise_metric zero (m ∷ ms) = some (record m { value = 1 } ∷ ms)
raise_metric (suc i) (m ∷ ms) = elim (raise_metric i ms) [ none ↦ none | some r ↦ some (m ∷ r) ]

raise_state : CheckEvalResult → List MetricData → Option (List MetricData)
unfolding raise_metric
raise_state (pos i) ms = raise_metric i ms
raise_state (negsuc n) ms = some ms

-- StoreResult up to the call of the publisher.
unfoldable pub state_metrics : AlertingJob → Option (List MetricData)
unfolding raise_state
state_metrics job =
    raise_state job.new_state
      (metric job "ok_state" ∷ metric job "warn_state" ∷ metric job "error_state" ∷ [])

-- The Graphite request of a job whose health settings are there.
unfoldable pub request : AlertingJob → CheckHealthSettings → Request
request job health = record {
  org_id = job.org_id;
  start =
      pos job.last_point_ts
      +ℤ wrap64 (wrap64 (wrap64 (negsuc 0 *ℤ job.frequency) *ℤ health.steps) *ℤ pos second);
  end = job.last_point_ts;
  target =
      codes "worldping."
      ++ (job.slug ++ (codes ".*." ++ (to_lower job.type ++ codes ".error_state")));
}

-- `job.State != job.NewState || job.TimeExec.Sub(job.StateCheck) > time.Second*Duration(Frequency*2)`
unfoldable pub needs_save : AlertingJob → Bool
needs_save job =
    not (eqb_ℤ job.state job.new_state)
    || ltb_ℤ (wrap64 (pos second *ℤ wrap64 (job.frequency *ℤ pos 2)))
        (sub_ℕ job.time_exec job.state_check)

unfoldable pub count_outcome : CheckEvalResult → Counters → Counters
count_outcome (pos zero) c = record c { outcomes_ok = suc c.outcomes_ok }
count_outcome (pos (suc (suc zero))) c = record c { outcomes_crit = suc c.outcomes_crit }
count_outcome (negsuc zero) c = record c { outcomes_unkn = suc c.outcomes_unkn }
count_outcome s c = c

unfoldable pub count_error : Counters → Counters
count_error c = record c { outcomes_err = suc c.outcomes_err }

abbrev pub too_old_after : ℕ
too_old_after = 600 * second

abbrev pub Run : Type 0 → Type 0
Run C = Option (Executor C × AlertingJob)

module _ {C : Type 0} where
  -- ProcessResult(job), if the state is to be saved.
  save_result : AlertingJob → Executor C → Executor C
  unfolding needs_save
  save_result job x = if needs_save job then record x { results = x.results ++ job ∷ [] } else x

  publish : AlertingJob → Executor C → Option (List MetricData) → Run C
  publish job x none = none
  publish job x (some ms) = some (
    record x {
      published = x.published ++ ms ∷ [];
      counters = count_outcome job.new_state x.counters;
    },
    job,
  )

  -- From the state that eval returned without an error.
  conclude : ℕ → CheckEvalResult → AlertingJob → Executor C → Run C
  unfolding save_result state_metrics publish
  conclude pre_exec new_state job x =
      let job' : AlertingJob = record job { new_state = new_state; time_exec = pre_exec } in
      publish job' (save_result job' x) (state_metrics job')

  fail : AlertingJob → Executor C → Run C
  unfolding count_error
  fail job x = some (record x { counters = count_error x.counters }, job)

  conclude_eval : ℕ → CheckEvalResult × Option EvalError → AlertingJob → Executor C → Run C
  unfolding conclude fail
  conclude_eval pre_exec (s, some e) job x = fail job x
  conclude_eval pre_exec (s, none) job x = conclude pre_exec s job x

module _ {F : Type 0} (float64 : String → Option F) (above_zero : F → Bool) (lru : LruCache) where
  open lru use {Cache, contains_or_add}

  -- The part of execute behind the cache. The job is taken apart before the query is made.
  run_query :
      (Request → Option (List Series))
      → ℕ
      → Option CheckHealthSettings
      → AlertingJob
      → Executor Cache
      → Run Cache
  unfolding conclude_eval
  run_query graphite pre_exec none job x = none
  run_query graphite pre_exec (some health) job x = elim (graphite (request job health)) [
    | none ↦ fail job x
    | some res ↦ conclude_eval pre_exec (eval float64 above_zero res health) job x
  ]

  -- `now` and `pre_exec` are the two readings of the clock.
  unfoldable pub execute :
      (Request → Option (List Series)) → ℕ → ℕ → AlertingJob → Executor Cache → Run Cache
  unfolding run_query job_key
  execute graphite now pre_exec job x =
      if ltb (job.generated_at + too_old_after) now
      then some
          (record x { counters = record x.counters { too_old = suc x.counters.too_old } }, job)
      else let (found, cache) = contains_or_add (job_key job) x.cache in
        if found
        then some (
          record x {
            cache = cache;
            counters = record x.counters { already_done = suc x.counters.already_done };
          },
          job,
        )
        else run_query graphite pre_exec job.health_settings job (record x {
          cache = cache;
          counters = record x.counters { executed = suc x.counters.executed };
        })
