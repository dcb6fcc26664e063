-- ===== src/Store/CheckState/Saving.antt =====
-- pkg/alerting/check_state.go, storeResults: up to three attempts to save a result, and the changes
-- that are sent on.
use worldping_api.Prelude.{
  ℕ, zero, suc, ◌≡◌, refl, Bool, true, false, ◌&&◌, ◌||◌, [], ◌∷◌, ◌++◌, map, any, arith,
  if◌then◌else◌,
}
use worldping_api.Models.Check.{AlertingJob}
use worldping_api.Store.CheckState.{
  Attempt, Results, changes, save_state, store_result, store_results, set_state, set_checked,
}

-- An attempt whose statements the database takes.
abbrev pub is_taken : Attempt → Bool
is_taken a = a.begins && (a.first && a.second)

-- What an attempt that is taken and committed makes of the table and the channel.
unfoldable pub deliver : AlertingJob → Results → Results
deliver j s = record {
  rows = map (λ r. set_checked j r) (map (λ r. set_state j r) s.rows);
  state_changes = if any (changes j) s.rows then s.state_changes ++ j ∷ [] else s.state_changes;
}

-- Some of the attempts `tries` to 1 is taken. The attempts are numbered downwards.
abbrev pub any_taken : ℕ → (ℕ → Attempt) → Bool
any_taken zero database = false
any_taken (suc tries) database = is_taken (database tries) || any_taken tries database

store_result_lem :
    (tries : ℕ) (database : ℕ → Attempt) (j : AlertingJob) (s : Results)
    → ((n : ℕ) → (database n).commits ≡ true)
    → store_result tries database j s
      ≡ (any_taken tries database, if any_taken tries database then deliver j s else s)
unfolding store_result save_state deliver
store_result_lem zero database j s c = refl
store_result_lem (suc tries) database j s c =
    ground (arith, c tries, store_result_lem tries database j s c)

-- If every commit succeeds, a result is saved exactly when one of three attempts has its statements
-- taken. Then both statements have been applied to the table once, and the job is sent on exactly
-- when the first statement affected a row. Otherwise nothing is stored and nothing is sent.
pub store_results_lem :
    (database : ℕ → Attempt) (j : AlertingJob) (s : Results)
    → ((n : ℕ) → (database n).commits ≡ true)
    → store_results database j s
      ≡ (any_taken 3 database, if any_taken 3 database then deliver j s else s)
unfolding store_results
store_results_lem database j s c = store_result_lem 3 database j s c

-- A commit that fails is not noticed: the job is taken for saved, its change of state is sent on,
-- and the table has not changed.
pub commit_lost :
    (database : ℕ → Attempt) (j : AlertingJob) (s : Results)
    → is_taken (database 2) ≡ true
    → (database 2).commits ≡ false
    → any (changes j) s.rows ≡ true
    → store_results database j s ≡ (true, record s { state_changes = s.state_changes ++ j ∷ [] })
unfolding store_results save_state store_result
commit_lost database j s t c h = ground arith
