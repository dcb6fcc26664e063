-- ===== src/Alerting/Execute/Samples.antt =====
-- A job that is executed, and then given again.
use text.Mathlib.Text.{◌==◌ as str_eq}
use worldping_api.Prelude.{
  ◌≡◌, refl, Bool, true, false, ◌&&◌, Option, none, some, List, [], ◌∷◌, any, arith, ◌==◌, String,
}
use worldping_api.Prelude.Int.{pos, eqb_ℤ, eqb_ℤ_iff}
use worldping_api.Prelude.Text.{codes}
use worldping_api.Models.Check.{CheckHealthSettings, AlertingJob}
use worldping_api.Alerting.Eval.{
  Series, eval, scan_series, scan_points, is_null, verdict, add_series, add_point,
}
use worldping_api.Alerting.Execute.{JobKey, LruCache, Executor, Request, execute, job_key}
use worldping_api.Alerting.Execute.Outcomes.{Counted, execute-Counted}
use worldping_api.Alerting.Execute.Repeat.{execute_once}

abbrev same_key : JobKey → JobKey → Bool
same_key a b = a.id == b.id && eqb_ℤ a.ts b.ts

-- A cache that forgets nothing.
abbrev contains_key : JobKey → List JobKey → Bool
contains_key k = any (same_key k)

abbrev add_key : Bool → JobKey → List JobKey → List JobKey
add_key true k c = c
add_key false k c = k ∷ c

abbrev endless_cache : LruCache
endless_cache = record {
  Cache = List JobKey;
  contains = contains_key;
  contains_or_add = λ k c. (contains_key k c, add_key (contains_key k c) k c);
}

same_key_self : (k : JobKey) → same_key k k ≡ true
same_key_self k = ground (arith, (eqb_ℤ_iff k.ts k.ts).1 refl)

endless_found : (k : JobKey) (c : List JobKey) → contains_key k c ≡ contains_key k c
endless_found k c = refl

endless_adds :
    (k : JobKey) (c : List JobKey) → contains_key k (add_key (contains_key k c) k c) ≡ true
endless_adds k c = ground (arith, same_key_self k)

abbrev one_probe : CheckHealthSettings
one_probe = record {
  num_probes = pos 1;
  steps = pos 1;
  notifications = record { enabled = true; addresses = [] };
}

abbrev a_job : AlertingJob
a_job = record {
  check = record {
    id = 7;
    org_id = 2;
    slug = codes "host";
    name = codes "host";
    type = codes "ping";
    frequency = pos 60;
    enabled = true;
    state = pos 0;
    state_change = 0;
    state_check = 0;
    health_settings = some one_probe;
  };
  generated_at = 100;
  last_point_ts = 100;
  new_state = pos 0;
  time_exec = 0;
}

abbrev idle : Executor (List JobKey)
idle = record {
  cache = [];
  counters = record {
    too_old = 0;
    already_done = 0;
    executed = 0;
    outcomes_err = 0;
    outcomes_ok = 0;
    outcomes_crit = 0;
    outcomes_unkn = 0;
  };
  results = [];
  published = [];
}

abbrev only_one : String → Option Bool
only_one s = some (str_eq s "1")

abbrev above : Bool → Bool
above b = b

-- One series with one point above zero.
abbrev failing : Request → Option (List Series)
failing r = some (record { target = "a"; datapoints = record { value = "1"; ts = "1" } ∷ [] } ∷ [])

abbrev no_answer : Request → Option (List Series)
no_answer r = none

abbrev executor_of : Option (Executor (List JobKey) × AlertingJob) → Executor (List JobKey)
executor_of none = idle
executor_of (some (x, job)) = x

abbrev job_of : Option (Executor (List JobKey) × AlertingJob) → AlertingJob
job_of none = a_job
job_of (some (x, job)) = job

execute-Counted_example :
    Counted 1 (execute only_one above endless_cache failing 101 102 a_job idle)
execute-Counted_example =
    execute-Counted only_one above endless_cache failing 101 102 a_job idle refl refl

ran :
    execute only_one above endless_cache failing 101 102 a_job idle
    ≡ some (
      executor_of (execute only_one above endless_cache failing 101 102 a_job idle),
      job_of (execute only_one above endless_cache failing 101 102 a_job idle),
    )
unfolding execute eval scan_series scan_points is_null verdict add_series add_point
ran = refl

abbrev after_one : Executor (List JobKey)
after_one = executor_of (execute only_one above endless_cache failing 101 102 a_job idle)

-- The job of another check, which runs in between.
abbrev other_job : AlertingJob
other_job = record a_job { check = record a_job.check { id = 8 } }

abbrev after_two : Executor (List JobKey)
after_two = executor_of (execute only_one above endless_cache failing 102 103 other_job after_one)

still_held : contains_key (job_key a_job) after_two.cache ≡ true
unfolding execute job_key eval scan_series scan_points is_null verdict add_series add_point
still_held = refl

execute_once_example :
    (contains_key (job_key a_job) after_one.cache ≡ true)
    × (y : Executor (List JobKey)) × (execute only_one above endless_cache no_answer 103 104 a_job
          after_two
        ≡ some (y, a_job))
    × (y.results ≡ after_two.results)
    × (y.published ≡ after_two.published)
execute_once_example =
    execute_once only_one above endless_cache endless_found endless_adds failing no_answer 101 102
      103 104 a_job a_job idle after_one after_two refl ran refl still_held
