-- ===== src/Models/Monitors/Samples.antt =====
-- The settings of an HTTPS monitor, with a port that is given twice and a variable that there is not.
use worldping_api.Prelude.{ℕ, ◌≡◌, true, List, [], ◌∷◌, none}
use worldping_api.Prelude.Int.{pos}
use worldping_api.Prelude.Assoc.{lookup}
use worldping_api.Models.Monitors.{MonitorSetting, Parsers, cases_of, to_v2_setting}
use worldping_api.Models.Monitors.Settled.{last_value, converted, to_v2_setting_lem}

abbrev parsers : Parsers ℕ
parsers = record { parse_int = λ s. pos 443; parse_float = λ s. 5; parse_bool = λ s. true }

abbrev given : List MonitorSetting
given =
    record { variable = "port"; value = "80" }
    ∷ record { variable = "color"; value = "red" }
    ∷ record { variable = "port"; value = "443" }
    ∷ []

to_v2_setting_lem_example :
    lookup "port" (to_v2_setting parsers "https" given)
    ≡ converted parsers (lookup "port" (cases_of "https")) (last_value "port" given) none
to_v2_setting_lem_example = to_v2_setting_lem parsers "https" given "port"
