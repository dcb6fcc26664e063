-- ===== src/Alerting/Eval.antt =====
-- pkg/alerting/executor.go, eval: the state of a check from the response of graphite.
-- A number of the response is the text of a json.Number. Its Float64 method and the test
-- `val > 0.0` are parameters, so that the model has no floats.
pub mod Runs
pub mod Verdict
mod Samples
use worldping_api.Prelude.{
  ℕ, suc, ◌+◌, String, Bool, true, false, ◌||◌, Option, none, some, List, [], ◌∷◌, ltb, ◌==◌,
  if◌then◌else◌,
}
use worldping_api.Prelude.Int.{ℤ, pos, leb_ℤ}
use worldping_api.Models.Check.{
  CheckEvalResult, CheckHealthSettings, eval_result_ok, eval_result_crit, eval_result_unknown,
}
use text.Mathlib.Text.{◌==◌ as str_eq}

pub record Datapoint : Type 0 where
  pub value : String
  pub ts : String

pub record Series : Type 0 where
  pub target : String
  pub datapoints : List Datapoint

pub data EvalError : Type 0 where
  no_data not_a_number : EvalError

-- The variables of the loop over one series: curStreak, maxStreak and nonNullPoints.
pub record Streak : Type 0 where
  pub cur : ℕ
  pub longest : ℕ
  pub non_null : ℕ

abbrev pub start_streak : Streak
start_streak = record { cur = 0; longest = 0; non_null = 0 }

-- `if curStreak > maxStreak { maxStreak = curStreak }`
abbrev raise : ℕ → ℕ → ℕ
raise longest cur = if ltb longest cur then cur else longest

-- The step for a point whose value has been parsed; the argument is `val > 0.0`.
unfoldable pub add_point : Bool → Streak → Streak
add_point true s = record s { cur = suc s.cur; non_null = suc s.non_null }
add_point false s = record s { cur = 0; longest = raise s.longest s.cur; non_null = suc s.non_null }

unfoldable pub is_null : Datapoint → Bool
is_null dp = str_eq dp.value "null" || str_eq dp.value ""

-- The counts of the outer loop: badEndpoints and endpointsWithData.
pub record Tally : Type 0 where
  pub bad : ℕ
  pub with_data : ℕ

abbrev pub start_tally : Tally
start_tally = record { bad = 0; with_data = 0 }

unfoldable pub add_series : ℤ → Streak → Tally → Tally
add_series steps s t =
    let longest = raise s.longest s.cur in
    record {
      bad = if leb_ℤ steps (pos longest) then suc t.bad else t.bad;
      with_data = if ltb 0 s.non_null then suc t.with_data else t.with_data;
    }

unfoldable pub verdict : CheckHealthSettings → Tally → CheckEvalResult
verdict health t =
    if t.with_data == 0
    then eval_result_unknown
    else if leb_ℤ health.num_probes (pos t.bad)
    then eval_result_crit
    else eval_result_ok

module _ {F : Type 0} (float64 : String → Option F) (above_zero : F → Bool) where
  -- The inner loop. `none` is the early return on a value that is not a number.
  unfoldable pub scan_points : Streak → List Datapoint → Option Streak
  scan_points s [] = some s
  scan_points s (dp ∷ dps) = elim (is_null dp) [
    | true ↦ scan_points s dps
    | false ↦ elim (float64 dp.value) [
      | none ↦ none
      | some v ↦ scan_points (add_point (above_zero v) s) dps
    ]
  ]

  unfoldable pub scan_series : ℤ → Tally → List Series → Option Tally
  scan_series steps t [] = some t
  scan_series steps t (ep ∷ eps) = elim (scan_points start_streak ep.datapoints) [
    | none ↦ none
    | some s ↦ scan_series steps (add_series steps s t) eps
  ]

  -- The Go function returns EvalResultUnknown beside each error.
  unfoldable pub eval : List Series → CheckHealthSettings → CheckEvalResult × Option EvalError
  eval [] health = (eval_result_unknown, some no_data)
  eval (ep ∷ eps) health = elim (scan_series health.steps start_tally (ep ∷ eps)) [
    | none ↦ (eval_result_unknown, some not_a_number)
    | some t ↦ (verdict health t, none)
  ]
