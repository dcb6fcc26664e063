-- ===== src/Alerting/Eval/Samples.antt =====
-- A response of two series, evaluated.
use text.Mathlib.Text.{◌==◌ as str_eq}
use worldping_api.Prelude.{
  ◌≡◌, refl, String, Bool, true, false, Option, none, some, List, [], ◌∷◌, if◌then◌else◌,
}
use worldping_api.Prelude.Int.{pos}
use worldping_api.Models.Check.{CheckHealthSettings, eval_result_crit}
use worldping_api.Alerting.Eval.{
  Datapoint, Series, Streak, start_streak, add_point, is_null, scan_points, scan_series, eval,
  verdict, add_series,
}
use worldping_api.Alerting.Eval.Verdict.{expected, eval-eq-expected}

-- Two numbers, read as whether they are above zero.
abbrev small_float : String → Option Bool
small_float s = if str_eq s "1" then some true else if str_eq s "0" then some false else none

abbrev same : Bool → Bool
same b = b

abbrev point : String → Datapoint
point v = record { value = v; ts = "1500000000" }

abbrev failing_points : List Datapoint
failing_points = point "0" ∷ point "1" ∷ point "null" ∷ point "1" ∷ []

abbrev response : List Series
response =
    record { target = "worldping.a"; datapoints = failing_points }
    ∷ record { target = "worldping.b"; datapoints = point "1" ∷ point "0" ∷ [] }
    ∷ []

abbrev two_steps : CheckHealthSettings
two_steps = record {
  num_probes = pos 1;
  steps = pos 2;
  notifications = record { enabled = true; addresses = [] };
}

response_test : eval small_float same response two_steps ≡ (eval_result_crit, none)
unfolding eval scan_series scan_points is_null add_point verdict add_series
response_test = refl

eval-eq-expected_example :
    eval small_float same response two_steps ≡ expected small_float same two_steps response
eval-eq-expected_example = eval-eq-expected small_float same response two_steps

abbrev after_failing : Streak
after_failing = record { cur = 2; longest = 0; non_null = 3 }

failing_scanned : scan_points small_float same start_streak failing_points ≡ some after_failing
unfolding scan_points is_null add_point
failing_scanned = refl
