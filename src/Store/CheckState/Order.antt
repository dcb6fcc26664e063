-- ===== src/Store/CheckState/Order.antt =====
-- pkg/services/sqlstore/endpoint.go, updateCheckState: results that come in the order of their
-- execution.
use worldping_api.Prelude.{ℕ, ◌≤◌, ◌<◌, ◌≡◌, ◌∙◌, ap, refl, List, [], ◌∷◌, arith}
use worldping_api.Models.Check.{CheckEvalResult, AlertingJob}
use worldping_api.Store.CheckState.{CheckRow, set_state, set_checked, update_row}

-- The row after a list of results, the first one stored first.
unfoldable pub update_all : List AlertingJob → CheckRow → CheckRow
update_all [] r = r
update_all (j ∷ js) r = update_all js (update_row j r)

-- The results are for check `id`, and each was executed later than the one before it and than `t`.
abbrev pub InOrder : ℕ → ℕ → List AlertingJob → Type 0
InOrder id t [] = Unit
InOrder id t (j ∷ js) = (j.id ≡ id) × (t < j.time_exec) × InOrder id j.time_exec js

-- The state of the last result, if there is one.
abbrev pub last_state : CheckEvalResult → List AlertingJob → CheckEvalResult
last_state s [] = s
last_state s (j ∷ js) = last_state j.new_state js

abbrev pub last_time : ℕ → List AlertingJob → ℕ
last_time t [] = t
last_time t (j ∷ js) = last_time j.time_exec js

id-update_row : (j : AlertingJob) (r : CheckRow) → (update_row j r).id ≡ r.id
unfolding set_state set_checked
id-update_row j r = ground arith

state-update_row :
    (j : AlertingJob) (r : CheckRow)
    → j.id ≡ r.id
    → r.state_change < j.time_exec
    → (update_row j r).state ≡ j.new_state
unfolding set_state set_checked
state-update_row j r e h = ground arith

-- No result moves the two instants of a row back, nor past the result's own.
update_row-times :
    (j : AlertingJob) (r : CheckRow) (t : ℕ)
    → r.state_change ≤ t
    → r.state_check ≤ t
    → t < j.time_exec
    → ((update_row j r).state_change ≤ j.time_exec) × ((update_row j r).state_check ≤ j.time_exec)
unfolding set_state set_checked
update_row-times j r t c k h = ground arith

check-update_row :
    (j : AlertingJob) (r : CheckRow)
    → j.id ≡ r.id
    → r.state_check < j.time_exec
    → (update_row j r).state_check ≡ j.time_exec
unfolding set_state set_checked
check-update_row j r e h = ground arith

-- Results for a row that come in the order of their execution, all of them executed after the row's
-- last change of state and its last check, leave the row with the state of the last result, checked at
-- its instant, whatever the states of the row and of the results are.
pub update_all-InOrder :
    (js : List AlertingJob) (r : CheckRow) (t : ℕ)
    → r.state_change ≤ t
    → r.state_check ≤ t
    → InOrder r.id t js
    → ((update_all js r).state ≡ last_state r.state js)
      × ((update_all js r).state_check ≡ last_time r.state_check js)
unfolding update_all
update_all-InOrder [] r t c k h = (refl, refl)
update_all-InOrder (j ∷ js) r t c k h =
    let times = update_row-times j r t c k h.1 in
    let ih =
      update_all-InOrder js (update_row j r) j.time_exec times.0 times.1
        (rw (id-update_row j r) h.2) in
    (
      ih.0 ∙ ap (λ s. last_state s js) (state-update_row j r h.0 (omega arith)),
      ih.1 ∙ ap (λ s. last_time s js) (check-update_row j r h.0 (omega arith)),
    )
