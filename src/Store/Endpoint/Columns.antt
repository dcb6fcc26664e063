-- ===== src/Store/Endpoint/Columns.antt =====
-- pkg/services/sqlstore/endpoint.go, addCheck and updateCheck: the columns that they set. A frequency
-- is a number of seconds, above zero in a check that passes the validation; a remainder by zero is a
-- panic: `none`.
use worldping_api.Prelude.{
  ℕ, ◌+◌, ◌%◌, ◌<◌, ◌≤◌, ◌≡◌, ◌∙◌, refl, Bool, true, false, not, ◌&&◌, Option, none, some, arith,
  ◌==◌, if◌then◌else◌,
}
use native.Mathlib.Nat.{mod-lt}
use worldping_api.Models.Check.{CheckEvalResult, eval_result_unknown}
use worldping_api.Alerting.Schedule.{is_due}
use worldping_api.Alerting.Schedule.Due.{wait, due_once}

pub record CheckColumns : Type 0 where
  pub id : ℕ
  pub endpoint_id : ℕ
  pub frequency : ℕ
  pub offset : ℕ
  pub enabled : Bool
  pub state : CheckEvalResult
  pub state_change : ℕ
  pub state_check : ℕ
  pub created : ℕ
  pub updated : ℕ

-- addCheck up to the insertion; the readings of the clock are taken to be one.
unfoldable pub add_check : ℕ → CheckColumns → Option CheckColumns
add_check now c =
    if c.frequency == 0
    then none
    else some (record c {
      state = eval_result_unknown;
      state_check = now;
      state_change = now;
      offset = c.endpoint_id % c.frequency;
      created = now;
      updated = now;
    })

-- The columns that updateCheck gives to the update: a check that is turned off goes back to the unknown
-- state.
unfoldable pub updated_columns : ℕ → CheckColumns → CheckColumns → CheckColumns
updated_columns now existing c =
    let c' : CheckColumns = record c { updated = now; offset = c.endpoint_id % c.frequency } in
    if not c.enabled && existing.enabled
    then record c' { state_change = now; state = eval_result_unknown }
    else c'

-- updateCheck up to the routes. `write row c` is the row after xorm's Update with the columns `c`.
unfoldable pub update_check :
    (CheckColumns → CheckColumns → CheckColumns)
    → ℕ
    → CheckColumns
    → CheckColumns
    → Option CheckColumns
update_check write now existing c =
    if c.frequency == 0 then none else some (write existing (updated_columns now existing c))

-- xorm's Update writes the columns that are not zero, and those named by UseBool.
pub record WritesNonzero (write : CheckColumns → CheckColumns → CheckColumns) : Type 0 where
  pub enabled : (row c : CheckColumns) → (write row c).enabled ≡ c.enabled
  pub frequency : (row c : CheckColumns) → 0 < c.frequency → (write row c).frequency ≡ c.frequency
  pub offset : (row c : CheckColumns) → 0 < c.offset → (write row c).offset ≡ c.offset
  pub zero_offset : (row c : CheckColumns) → c.offset ≡ 0 → (write row c).offset ≡ row.offset

-- The check is due at exactly one of any `frequency` seconds in a row.
pub record IsDueOnce (c : CheckColumns) : Type 0 where
  pub at : ℕ → ℕ
  pub soon : (start : ℕ) → at start < c.frequency
  pub due : (start : ℕ) → is_due (start + at start) c.enabled c.frequency c.offset ≡ true
  pub alone :
      (start j : ℕ)
      → j < c.frequency
      → is_due (start + j) c.enabled c.frequency c.offset ≡ true
      → j ≡ at start

IsDueOnce-offset : (c : CheckColumns) → c.enabled ≡ true → c.offset < c.frequency → IsDueOnce c
IsDueOnce-offset c on below = record {
  at = λ start. wait start c.frequency c.offset;
  soon = λ start. (due_once start c.frequency c.offset below).0;
  due = λ start. rw on ((due_once start c.frequency c.offset below).1);
  alone = λ start j h d. (due_once start c.frequency c.offset below).2 j h (rw on at d);
}

-- A check that is added with a frequency above zero is stored in the unknown state, as of now, and if
-- it is enabled it is due at exactly one of any `frequency` seconds in a row.
pub add_check_due :
    (now : ℕ) (c : CheckColumns)
    → 0 < c.frequency
    → (c' : CheckColumns) × (add_check now c ≡ some c')
      × (c'.state ≡ eval_result_unknown)
      × (c'.state_change ≡ now)
      × (c.enabled ≡ true → IsDueOnce c')
unfolding add_check
add_check_due now c pos =
    let divides : (c.frequency == 0) ≡ false = ground (arith) in
    (
      record c {
        state = eval_result_unknown;
        state_check = now;
        state_change = now;
        offset = c.endpoint_id % c.frequency;
        created = now;
        updated = now;
      },
      rw divides refl,
      refl,
      refl,
      λ on. IsDueOnce-offset _ on (mod-lt c.endpoint_id pos),
    )

offset-updated_columns :
    (now : ℕ) (existing c : CheckColumns)
    → (updated_columns now existing c).offset ≡ c.endpoint_id % c.frequency
unfolding updated_columns
offset-updated_columns now existing c = ground (arith)

frequency-updated_columns :
    (now : ℕ) (existing c : CheckColumns) → (updated_columns now existing c).frequency ≡ c.frequency
unfolding updated_columns
frequency-updated_columns now existing c = ground (arith)

enabled-updated_columns :
    (now : ℕ) (existing c : CheckColumns) → (updated_columns now existing c).enabled ≡ c.enabled
unfolding updated_columns
enabled-updated_columns now existing c = ground (arith)

module _ (write : CheckColumns → CheckColumns → CheckColumns) (laws : WritesNonzero write) where
  row_of_update :
      (now : ℕ) (existing c : CheckColumns)
      → 0 < c.frequency
      → (update_check write now existing c ≡ some (write existing (updated_columns now existing c)))
        × ((write existing (updated_columns now existing c)).frequency ≡ c.frequency)
        × ((write existing (updated_columns now existing c)).enabled ≡ c.enabled)
  unfolding update_check
  row_of_update now existing c pos =
      let bean = updated_columns now existing c in
      let same = frequency-updated_columns now existing c in
      let divides : (c.frequency == 0) ≡ false = ground (arith) in
      (
        rw divides refl,
        laws.frequency existing bean (rw same pos) ∙ same,
        laws.enabled existing bean ∙ enabled-updated_columns now existing c,
      )

  -- An enabled check that is updated with a frequency that does not divide the id of its endpoint is,
  -- whatever frequency it had, due at exactly one of any `frequency` seconds in a row from then on.
  pub update_check_due :
      (now : ℕ) (existing c : CheckColumns)
      → 0 < c.frequency
      → 0 < c.endpoint_id % c.frequency
      → c.enabled ≡ true
      → (c' : CheckColumns) × (update_check write now existing c ≡ some c') × IsDueOnce c'
  unfolding updated_columns
  update_check_due now existing c pos rest on =
      let bean = updated_columns now existing c in
      let row = row_of_update now existing c pos in
      let e = offset-updated_columns now existing c in
      (
        write existing bean,
        row.0,
        IsDueOnce-offset (write existing bean) (row.2 ∙ on)
            (rw (laws.offset existing bean (rw e rest), e, row.1) (mod-lt c.endpoint_id pos)),
      )

  -- A check that is updated with a frequency that divides the id of its endpoint keeps its offset; if
  -- that is not below the new frequency, the check is never due again.
  pub update_check_never :
      (now : ℕ) (existing c : CheckColumns)
      → 0 < c.frequency
      → c.endpoint_id % c.frequency ≡ 0
      → c.frequency ≤ existing.offset
      → (c' : CheckColumns) × (update_check write now existing c ≡ some c')
        × ((ts : ℕ) → is_due ts c'.enabled c'.frequency c'.offset ≡ false)
  unfolding is_due
  update_check_never now existing c pos divides kept =
      let bean = updated_columns now existing c in
      let row = row_of_update now existing c pos in
      let e = offset-updated_columns now existing c ∙ divides in
      (
        write existing bean,
        row.0,
        λ ts. rw (laws.zero_offset existing bean e, row.1) (ground (arith, mod-lt ts pos)),
      )
