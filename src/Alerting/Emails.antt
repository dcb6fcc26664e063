-- ===== src/Alerting/Emails.antt =====
-- pkg/alerting/check_state.go, handleStateChange: the addresses that a change of state is mailed to.
-- The body of the mail carries the job; sending it is the notifications package's.
pub mod Recipients
mod Samples
use worldping_api.Prelude.{
  ℕ, Bool, true, false, Option, none, some, List, [], ◌∷◌, map, if◌then◌else◌,
}
use worldping_api.Prelude.Text.{Bytes, trim_space, split}
use worldping_api.Models.Check.{CheckHealthSettings, AlertingJob}

-- m.SendEmailCommand; the template is a constant and the rest of the data is the job.
pub record SendEmail : Type 0 where
  pub to : List Bytes
  pub job : AlertingJob

abbrev keep_address : Bytes → List Bytes → List Bytes
keep_address [] rest = rest
keep_address (c ∷ cs) rest = (c ∷ cs) ∷ rest

-- The loop that trims the addresses and skips the empty ones.
unfoldable pub recipients : List Bytes → List Bytes
recipients [] = []
recipients (email ∷ emails) = keep_address (trim_space email) (recipients emails)

mail_to : AlertingJob → List Bytes → List SendEmail
mail_to job [] = []
mail_to job (a ∷ more) = record { to = a ∷ more; job = job } ∷ []

mail : AlertingJob → List Bytes → List SendEmail
unfolding mail_to
mail job [] = []
mail job (e ∷ es) = mail_to job (recipients (e ∷ es))

-- The mails for one job of the channel. A job without health settings is a nil dereference: `none`.
unfoldable pub handle_state_change :
    AlertingJob → Option CheckHealthSettings → Option (List SendEmail)
unfolding mail
handle_state_change job none = none
handle_state_change job (some health) =
    if health.notifications.enabled
    then some (mail job (split b',' health.notifications.addresses))
    else some []
