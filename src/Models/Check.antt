-- ===== src/Models/Check.antt =====
-- pkg/models/endpoint.go, monitor.go and alerting.go: checks, their alert state and alerting jobs.
-- An id is a key that the database counts up from 1; an instant is the number of nanoseconds since
-- Go's zero time. `int` and `int64` values that may be negative are integers.
use worldping_api.Prelude.{ℕ, Bool, Option}
use worldping_api.Prelude.Text.{Bytes}
use worldping_api.Prelude.Int.{ℤ, pos, negsuc}

-- CheckEvalResult is an int; the constants are 0, 1, 2 and -1.
abbrev pub CheckEvalResult : Type 0
CheckEvalResult = ℤ

abbrev pub eval_result_ok : CheckEvalResult
eval_result_ok = pos 0

abbrev pub eval_result_warn : CheckEvalResult
eval_result_warn = pos 1

abbrev pub eval_result_crit : CheckEvalResult
eval_result_crit = pos 2

abbrev pub eval_result_unknown : CheckEvalResult
eval_result_unknown = negsuc 0

pub record CheckNotificationSetting : Type 0 where
  pub enabled : Bool
  pub addresses : Bytes

pub record CheckHealthSettings : Type 0 where
  pub num_probes : ℤ
  pub steps : ℤ
  pub notifications : CheckNotificationSetting

-- The fields of CheckForAlertDTO that the alerting code reads.
pub record CheckForAlert : Type 0 where
  pub id : ℕ
  pub org_id : ℕ
  pub slug : Bytes
  pub name : Bytes
  pub type : Bytes
  pub frequency : ℤ
  pub enabled : Bool
  pub state : CheckEvalResult
  pub state_change : ℕ
  pub state_check : ℕ
  pub health_settings : Option CheckHealthSettings

pub record AlertingJob : Type 0 where
  pub check : CheckForAlert
  pub open check use *
  pub generated_at : ℕ
  pub last_point_ts : ℕ
  pub new_state : CheckEvalResult
  pub time_exec : ℕ

-- One second, as a time.Duration.
abbrev pub second : ℕ
second = 1000000000
