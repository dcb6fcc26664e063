-- ===== src/Alerting/Execute/Metrics.antt =====
-- pkg/alerting/executor.go, StoreResult: the three state metrics of a job.
use worldping_api.Prelude.{
  ℕ, zero, suc, ◌≡◌, refl, true, false, Option, none, some, List, [], ◌∷◌, map, arith,
  if◌then◌else◌,
}
use worldping_api.Prelude.Int.{pos, negsuc, eqb_ℤ, ltb_ℤ}
use worldping_api.Models.Check.{CheckEvalResult, AlertingJob}
use worldping_api.Alerting.Execute.{MetricData, metric, raise_metric, raise_state, state_metrics}

-- The value of the metric of state `i`.
abbrev pub level : CheckEvalResult → ℕ → ℕ
level s i = if eqb_ℤ s (pos i) then 1 else 0

abbrev pub values : List MetricData → List ℕ
values = map λ m. m.value

-- The metrics that are published for a state: none where the index is out of range.
abbrev pub Raises : CheckEvalResult → Option (List MetricData) → Type 0
Raises s none = ltb_ℤ (pos 2) s ≡ true
Raises s (some ms) =
    (ltb_ℤ (pos 2) s ≡ false) × (values ms ≡ level s 0 ∷ level s 1 ∷ level s 2 ∷ [])

raise_state-Raises :
    (s : CheckEvalResult) (a b c : MetricData)
    → a.value ≡ 0
    → b.value ≡ 0
    → c.value ≡ 0
    → Raises s (raise_state s (a ∷ b ∷ c ∷ []))
unfolding raise_state raise_metric
raise_state-Raises (pos zero) a b c ha hb hc = ground arith
raise_state-Raises (pos (suc zero)) a b c ha hb hc = ground arith
raise_state-Raises (pos (suc (suc zero))) a b c ha hb hc = ground arith
raise_state-Raises (pos (suc (suc (suc n)))) a b c ha hb hc = ground arith
raise_state-Raises (negsuc n) a b c ha hb hc = ground arith

-- The metric of the job's new state is 1 and the other two are 0; a negative state leaves all three
-- at 0, and a state above 2 is an index out of range.
pub state_metrics-Raises : (job : AlertingJob) → Raises job.new_state (state_metrics job)
unfolding state_metrics metric
state_metrics-Raises job = raise_state-Raises job.new_state _ _ _ refl refl refl
