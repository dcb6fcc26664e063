-- ===== src/Store/CheckState/Stale.antt =====
-- pkg/services/sqlstore/endpoint.go, updateCheckState: results that come late.
use worldping_api.Prelude.{◌≤◌, ◌<◌, ◌≡◌, ◌≢◌, true, arith}
use worldping_api.Models.Check.{AlertingJob}
use worldping_api.Store.CheckState.{CheckRow, changes, set_state, set_checked, update_row}

-- After a result that changed the state of a row, a result that was executed no later changes
-- neither the state nor the instant of the change.
pub stale_after_change :
    (newer older : AlertingJob) (r : CheckRow)
    → changes newer r ≡ true
    → older.time_exec ≤ newer.time_exec
    → ((update_row older (update_row newer r)).state ≡ newer.new_state)
      × ((update_row older (update_row newer r)).state_change ≡ newer.time_exec)
unfolding set_state set_checked
stale_after_change newer older r h late = ground arith

-- After a result that found the row in its own state, a result that was executed earlier, but later
-- than the row's last change, overrides it: the row is left in the state of the older result.
pub stale_overrides :
    (newer older : AlertingJob) (r : CheckRow)
    → newer.id ≡ r.id
    → older.id ≡ r.id
    → newer.new_state ≡ r.state
    → older.new_state ≢ r.state
    → r.state_change < older.time_exec
    → older.time_exec < newer.time_exec
    → (update_row older (update_row newer r)).state ≡ older.new_state
unfolding set_state set_checked
stale_overrides newer older r i i' same other before late = ground arith

-- Whatever the order of the results, the instants of a row never go back.
pub update_row-monotone :
    (j : AlertingJob) (r : CheckRow)
    → (r.state_change ≤ (update_row j r).state_change)
      × (r.state_check ≤ (update_row j r).state_check)
unfolding set_state set_checked
update_row-monotone j r = ground arith
