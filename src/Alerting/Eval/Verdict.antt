-- ===== src/Alerting/Eval/Verdict.antt =====
-- pkg/alerting/executor.go, eval: what the function returns, from the readings of each series.
use worldping_api.Prelude.{
  ℕ, suc, ◌+◌, ◌≤◌, ◌≡◌, refl, ◌↔◌, Bool, String, Option, none, some, List, [], ◌∷◌, length,
  count_if, arith, ltb, ◌==◌, if◌then◌else◌, Option-cases, Bool-cases, inl, inr,
}
use worldping_api.Prelude.Int.{ℤ, pos, leb_ℤ}
use worldping_api.Models.Check.{
  CheckEvalResult, CheckHealthSettings, eval_result_ok, eval_result_crit, eval_result_unknown,
}
use worldping_api.Alerting.Eval.{
  Datapoint, Series, Streak, Tally, EvalError, no_data, not_a_number, start_streak, start_tally,
  is_null, add_point, raise, add_series, verdict, scan_points, scan_series, eval,
}
use worldping_api.Alerting.Eval.Runs.{
  longest_run, add_points, longest-add_points, non_null-add_points, Window, le-longest_run_iff,
}

-- The series that has a value at some point.
abbrev pub has_data : List Bool → Bool
has_data bs = ltb 0 (length bs)

-- The series whose readings stay above zero for `steps` points in a row.
unfoldable pub is_bad : ℤ → List Bool → Bool
is_bad steps bs = leb_ℤ steps (pos (longest_run bs))

-- The state of a check whose series have these readings.
unfoldable pub state_of : CheckHealthSettings → List (List Bool) → CheckEvalResult
state_of health rs =
    if count_if has_data rs == 0
    then eval_result_unknown
    else if leb_ℤ health.num_probes (pos (count_if (is_bad health.steps) rs))
    then eval_result_crit
    else eval_result_ok

-- The counts that the outer loop reaches from `t`.
abbrev after_series : ℤ → Tally → Option (List (List Bool)) → Option Tally
after_series steps t none = none
after_series steps t (some rs) = some (record {
  bad = t.bad + count_if (is_bad steps) rs;
  with_data = t.with_data + count_if has_data rs;
})

add_series-bad :
    (steps : ℤ) (r : List Bool) (t : Tally)
    → (add_series steps (add_points r start_streak) t).bad
      ≡ (if is_bad steps r then suc t.bad else t.bad)
unfolding add_series is_bad
add_series-bad steps r t = rw (longest-add_points r)

add_series-with_data :
    (steps : ℤ) (r : List Bool) (t : Tally)
    → (add_series steps (add_points r start_streak) t).with_data
      ≡ (if has_data r then suc t.with_data else t.with_data)
unfolding add_series
add_series-with_data steps r t = ground (arith, non_null-add_points r start_streak)

module _ {F : Type 0} (float64 : String → Option F) (above_zero : F → Bool) where
  abbrev cons_reading : Option F → Option (List Bool) → Option (List Bool)
  cons_reading none r = none
  cons_reading (some v) none = none
  cons_reading (some v) (some bs) = some (above_zero v ∷ bs)

  -- The values of a series that are not null, each with whether it is above zero.
  unfoldable pub readings : List Datapoint → Option (List Bool)
  readings [] = some []
  readings (dp ∷ dps) =
      let rest = readings dps in if is_null dp then rest else cons_reading (float64 dp.value) rest

  abbrev cons_all : Option (List Bool) → Option (List (List Bool)) → Option (List (List Bool))
  cons_all (some r) (some rs) = some (r ∷ rs)
  cons_all _ _ = none

  unfoldable pub all_readings : List Series → Option (List (List Bool))
  all_readings [] = some []
  all_readings (ep ∷ eps) = cons_all (readings ep.datapoints) (all_readings eps)

  abbrev pub after_points : Streak → Option (List Bool) → Option Streak
  after_points s none = none
  after_points s (some bs) = some (add_points bs s)

  scan_points-readings :
      (s : Streak) (dps : List Datapoint)
      → scan_points float64 above_zero s dps ≡ after_points s (readings dps)
  unfolding scan_points readings add_points
  scan_points-readings s [] = refl
  scan_points-readings s (dp ∷ dps) = elim (Bool-cases (is_null dp)) [
    | inl e ↦ ground (arith, scan_points-readings s dps)
    | inr e ↦ elim (Option-cases (float64 dp.value)) [
      | inl n ↦ ground arith
      | inr (v, f) ↦ ground (arith, scan_points-readings (add_point (above_zero v) s) dps)
    ]
  ]

  scan_series-readings :
      (steps : ℤ) (t : Tally) (eps : List Series)
      → scan_series float64 above_zero steps t eps ≡ after_series steps t (all_readings eps)
  unfolding scan_series all_readings
  scan_series-readings steps t [] = ground arith
  scan_series-readings steps t (ep ∷ eps) = elim (Option-cases (readings ep.datapoints)) [
    | inl e ↦ ground (arith, scan_points-readings start_streak ep.datapoints)
    | inr (r, e) ↦ ground (
      arith,
      scan_points-readings start_streak ep.datapoints,
      scan_series-readings steps (add_series steps (add_points r start_streak) t) eps,
      add_series-bad steps r t,
      add_series-with_data steps r t,
    )
  ]

  -- The result that the readings of the response call for.
  unfoldable pub expected : CheckHealthSettings → List Series → CheckEvalResult × Option EvalError
  expected health [] = (eval_result_unknown, some no_data)
  expected health (ep ∷ eps) = elim (all_readings (ep ∷ eps)) [
    | none ↦ (eval_result_unknown, some not_a_number)
    | some rs ↦ (state_of health rs, none)
  ]

  -- The result is that of the readings: no data for an empty response, an error where a value is not
  -- a number, and otherwise Unknown if no series has a value, Critical if as many series as the
  -- settings ask for have a long enough run above zero, and OK if fewer have.
  pub eval-eq-expected :
      (res : List Series) (health : CheckHealthSettings)
      → eval float64 above_zero res health ≡ expected health res
  unfolding eval expected state_of verdict
  eval-eq-expected [] health = refl
  eval-eq-expected (ep ∷ eps) health = elim (Option-cases (all_readings (ep ∷ eps))) [
    | inl e ↦ ground (arith, scan_series-readings health.steps start_tally (ep ∷ eps))
    | inr (rs, e) ↦ ground (arith, scan_series-readings health.steps start_tally (ep ∷ eps))
  ]

  -- A series whose values are all numbers is read to its end, and the streak that the loop leaves
  -- is at least `k` exactly when `k` readings in a row, nulls left out, are above zero.
  pub scan_points-Window :
      (dps : List Datapoint) {s : Streak}
      → scan_points float64 above_zero start_streak dps ≡ some s
      → (bs : List Bool) × (readings dps ≡ some bs)
        × ((k : ℕ) → (k ≤ raise s.longest s.cur) ↔ Window k bs)
  scan_points-Window dps {s} h = elim (Option-cases (readings dps)) [
    | inl e ↦ absurd (ground (arith, scan_points-readings start_streak dps))
    | inr (bs, e) ↦ (bs, e, λ k. rw (streak bs e) (le-longest_run_iff k bs))
  ]
    where
      streak : (bs : List Bool) → readings dps ≡ some bs → raise s.longest s.cur ≡ longest_run bs
      streak bs e = ground (arith, scan_points-readings start_streak dps, longest-add_points bs)
