-- ===== src/Store/CheckState/Samples.antt =====
-- One check and three results for it.
use worldping_api.Prelude.{
  ℕ, ◌≡◌, ◌≢◌, refl, true, false, none, [], ◌∷◌, any, arith, ◌==◌, if◌then◌else◌,
}
use worldping_api.Prelude.Int.{pos}
use worldping_api.Models.Check.{CheckEvalResult, AlertingJob}
use worldping_api.Store.CheckState.{
  CheckRow, Attempt, Results, changes, update_row, store_results, set_state, set_checked,
}
use worldping_api.Store.CheckState.Order.{update_all, update_all-InOrder}
use worldping_api.Store.CheckState.Saving.{deliver, store_results_lem, commit_lost}
use worldping_api.Store.CheckState.Stale.{stale_overrides}

abbrev result_of : CheckEvalResult → ℕ → AlertingJob
result_of s t = record {
  check = record {
    id = 7;
    org_id = 2;
    slug = [];
    name = [];
    type = [];
    frequency = pos 60;
    enabled = true;
    state = pos 0;
    state_change = 0;
    state_check = 0;
    health_settings = none;
  };
  generated_at = 1;
  last_point_ts = 1;
  new_state = s;
  time_exec = t;
}

abbrev ok_row : CheckRow
ok_row = record { id = 7; state = pos 0; state_change = 10; state_check = 10 }

abbrev one_row : Results
one_row = record { rows = ok_row ∷ []; state_changes = [] }

-- The first try cannot begin a transaction.
abbrev second_try : ℕ → Attempt
second_try n = record {
  begins = if n == 2 then false else true;
  first = true;
  second = true;
  commits = true;
}

abbrev never_commits : ℕ → Attempt
never_commits n = record { begins = true; first = true; second = true; commits = false }

second_try_commits : (n : ℕ) → (second_try n).commits ≡ true
second_try_commits n = refl

critical_changes : changes (result_of (pos 2) 20) ok_row ≡ true
unfolding changes
critical_changes = refl

late_test :
    (update_row (result_of (pos 2) 20) (update_row (result_of (pos 0) 30) ok_row)).state ≡ pos 2
unfolding changes set_state set_checked
late_test = refl

update_all-InOrder_example :
    ((update_all (result_of (pos 2) 20 ∷ result_of (pos 0) 30 ∷ []) ok_row).state ≡ pos 0)
    × ((update_all (result_of (pos 2) 20 ∷ result_of (pos 0) 30 ∷ []) ok_row).state_check ≡ 30)
update_all-InOrder_example =
    update_all-InOrder (result_of (pos 2) 20 ∷ result_of (pos 0) 30 ∷ []) ok_row 10 (ground (arith))
      (ground (arith)) (refl, ground (arith), (refl, ground (arith), tt))

store_results_lem_example :
    store_results second_try (result_of (pos 2) 20) one_row
    ≡ (true, deliver (result_of (pos 2) 20) one_row)
store_results_lem_example =
    store_results_lem second_try (result_of (pos 2) 20) one_row second_try_commits

critical_found : any (changes (result_of (pos 2) 20)) (ok_row ∷ []) ≡ true
unfolding changes
critical_found = refl

commit_lost_example :
    store_results never_commits (result_of (pos 2) 20) one_row
    ≡ (true, record one_row { state_changes = result_of (pos 2) 20 ∷ [] })
commit_lost_example =
    commit_lost never_commits (result_of (pos 2) 20) one_row refl refl critical_found

not_ok : pos 2 ≢ pos 0
not_ok e = cc

stale_overrides_example :
    (update_row (result_of (pos 2) 20) (update_row (result_of (pos 0) 30) ok_row)).state ≡ pos 2
stale_overrides_example =
    stale_overrides (result_of (pos 0) 30) (result_of (pos 2) 20) ok_row refl refl refl not_ok
      (ground (arith)) (ground (arith))
