-- ===== src/Store/CheckState.antt =====
-- pkg/services/sqlstore/endpoint.go, updateCheckState and UpdateCheckState, and the loop of
-- pkg/alerting/check_state.go, storeResults: the alert state that the check table keeps.
-- The two UPDATE statements are read as they stand in the source; instants are compared as they
-- are written, so that the columns are taken to keep their precision.
pub mod Order
pub mod Stale
pub mod Saving
mod Samples
use worldping_api.Prelude.{
  ℕ, zero, suc, Bool, true, false, not, ◌&&◌, ◌||◌, List, [], ◌∷◌, ◌++◌, map, any, ltb, ◌==◌,
  if◌then◌else◌, Outcome, ok, err,
}
use worldping_api.Prelude.Int.{ℤ, eqb_ℤ}
use worldping_api.Models.Check.{CheckEvalResult, AlertingJob}
use worldping_api.Store.Session.{DbError, statement_failed, transact}

-- The columns of the check table that the statements read or write.
pub record CheckRow : Type 0 where
  pub id : ℕ
  pub state : CheckEvalResult
  pub state_change : ℕ
  pub state_check : ℕ

-- WHERE id=? AND state != ? AND state_change < ?
unfoldable pub changes : AlertingJob → CheckRow → Bool
changes j r = r.id == j.id && (not (eqb_ℤ r.state j.new_state) && ltb r.state_change j.time_exec)

-- UPDATE `check` SET state=?, state_change=?
unfoldable pub set_state : AlertingJob → CheckRow → CheckRow
unfolding changes
set_state j r =
    if changes j r then record r { state = j.new_state; state_change = j.time_exec } else r

-- UPDATE `check` SET state_check=? WHERE id=? and state_check < ?
unfoldable pub set_checked : AlertingJob → CheckRow → CheckRow
set_checked j r =
    if r.id == j.id && ltb r.state_check j.time_exec
    then record r { state_check = j.time_exec }
    else r

-- What the two statements make of one row.
abbrev pub update_row : AlertingJob → CheckRow → CheckRow
update_row j r = set_checked j (set_state j r)

-- The two flags say whether the database takes the statement. The result is whether the first one
-- affected a row.
unfoldable pub update_check_state :
    Bool → Bool → AlertingJob → List CheckRow → Outcome DbError (Bool × List CheckRow)
update_check_state first second j rows =
    if first
    then (if second
        then ok (any (changes j) rows, map (λ r. set_checked j r) (map (λ r. set_state j r) rows))
        else err statement_failed)
    else err statement_failed

-- What the database does in one attempt.
pub record Attempt : Type 0 where
  pub begins : Bool
  pub first : Bool
  pub second : Bool
  pub commits : Bool

-- UpdateCheckState
unfoldable pub save_state :
    Attempt → AlertingJob → List CheckRow → Outcome DbError Bool × List CheckRow
unfolding update_check_state transact
save_state a j rows = transact a.begins a.commits (update_check_state a.first a.second j) rows

-- The consumers of a result: the table, and the channel stateChanges, oldest first.
pub record Results : Type 0 where
  pub rows : List CheckRow
  pub state_changes : List AlertingJob

-- The result of a successful attempt: a change is sent on to stateChanges.
saved : Bool → AlertingJob → List CheckRow → Results → Bool × Results
saved change j rows s = (
  true,
  record {
    rows = rows;
    state_changes = if change then s.state_changes ++ j ∷ [] else s.state_changes;
  },
)

after_attempt :
    Outcome DbError Bool → AlertingJob → List CheckRow → Results → Bool × Results → Bool × Results
unfolding saved
after_attempt (err e) j rows s retry = retry
after_attempt (ok change) j rows s retry = saved change j rows s

-- The inner loop of storeResults for one job: `tries` is 3 - attempts. The result says whether the
-- job was saved.
store_result : ℕ → (ℕ → Attempt) → AlertingJob → Results → Bool × Results
unfolding after_attempt
store_result zero database j s = (false, s)
store_result (suc tries) database j s =
    let (r, rows) = save_state (database tries) j s.rows in
    let retry = store_result tries database j (record s { rows = rows }) in
    after_attempt r j rows s retry

-- storeResults for one job, which is tried three times at most.
unfoldable pub store_results : (ℕ → Attempt) → AlertingJob → Results → Bool × Results
unfolding store_result
store_results = store_result 3
