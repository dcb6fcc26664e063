-- ===== src/Alerting/Emails/Samples.antt =====
-- A change of state that is mailed to two addresses.
use worldping_api.Prelude.{◌≡◌, refl, true, false, some, List, [], ◌∷◌, All}
use worldping_api.Prelude.Int.{pos}
use worldping_api.Prelude.Text.{codes, is_space}
use worldping_api.Models.Check.{CheckHealthSettings, AlertingJob}
use worldping_api.Alerting.Emails.{SendEmail, handle_state_change}
use worldping_api.Alerting.Emails.Recipients.{
  IsTrimmed, IsProperMail, handle_state_change-join, handle_state_change-IsProperMail,
}

abbrev two_addresses : CheckHealthSettings
two_addresses = record {
  num_probes = pos 1;
  steps = pos 2;
  notifications = record { enabled = true; addresses = codes "a@b,c@d" };
}

abbrev changed_job : AlertingJob
changed_job = record {
  check = record {
    id = 1;
    org_id = 2;
    slug = codes "host";
    name = codes "host";
    type = codes "ping";
    frequency = pos 60;
    enabled = true;
    state = pos 0;
    state_change = 0;
    state_check = 0;
    health_settings = some two_addresses;
  };
  generated_at = 1;
  last_point_ts = 1;
  new_state = pos 2;
  time_exec = 2;
}

first-IsTrimmed : IsTrimmed (codes "a@b")
unfolding is_space
first-IsTrimmed = record { nonempty = λ e. cc; front = refl; back = refl }

second-IsTrimmed : IsTrimmed (codes "c@d")
unfolding is_space
second-IsTrimmed = record { nonempty = λ e. cc; front = refl; back = refl }

handle_state_change-join_example :
    handle_state_change changed_job (some two_addresses)
    ≡ some (record { to = codes "a@b" ∷ codes "c@d" ∷ []; job = changed_job } ∷ [])
handle_state_change-join_example =
    handle_state_change-join changed_job two_addresses (codes "a@b") (codes "c@d" ∷ []) refl refl (
      (first-IsTrimmed, (refl, (refl, (refl, tt)))),
      ((second-IsTrimmed, (refl, (refl, (refl, tt)))), tt),
    )

handle_state_change-IsProperMail_example :
    (ms : List SendEmail) × (handle_state_change changed_job (some two_addresses) ≡ some ms)
    × All (IsProperMail changed_job) ms
    × (true ≡ false → ms ≡ [])
handle_state_change-IsProperMail_example =
    handle_state_change-IsProperMail changed_job two_addresses
