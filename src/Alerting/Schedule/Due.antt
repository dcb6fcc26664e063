-- ===== src/Alerting/Schedule/Due.antt =====
-- pkg/services/sqlstore/endpoint.go: the seconds at which getChecksForAlerts returns a check.
use native.Mathlib.Nat.{mod-add-mod, mod-lt, mod-eq_of_lt, mod-eq-sub-mod}
use worldping_api.Prelude.{
  ℕ, ◌+◌, ◌-◌, ◌%◌, ◌<◌, ◌≡◌, ◌∙◌, sym, true, arith, leb, if◌then◌else◌, ==_iff, Bool-cases, inl,
  inr,
}
use worldping_api.Alerting.Schedule.{is_due}

-- The second `j` after one that leaves the remainder `r`.
mod_wrap : (r j f : ℕ) → r < f → j < f → (r + j) % f ≡ (if leb f (r + j) then r + j - f else r + j)
mod_wrap r j f h k = elim (Bool-cases (leb f (r + j))) [
  | inl over ↦ rw over (mod-eq-sub-mod (ground arith) ∙ mod-eq_of_lt (ground arith))
  | inr under ↦ rw under (mod-eq_of_lt (ground arith))
]

mod_later :
    (start j f : ℕ)
    → j < f
    → (start + j) % f ≡ (if leb f (start % f + j) then start % f + j - f else start % f + j)
mod_later start j f h =
    sym (mod-add-mod start f j) ∙ mod_wrap (start % f) j f (mod-lt start (omega arith)) h

-- The seconds to wait from `start` until the check is due.
unfoldable pub wait : ℕ → ℕ → ℕ → ℕ
wait start frequency offset =
    if leb (start % frequency) offset
    then offset - start % frequency
    else offset + frequency - start % frequency

wait-lt : (start f o : ℕ) → o < f → wait start f o < f
unfolding wait
wait-lt start f o h = ground (arith, mod-lt start {m = f})

mod-add-wait : (start f o : ℕ) → o < f → (start + wait start f o) % f ≡ o
mod-add-wait start f o h =
    mod_later start (wait start f o) f (wait-lt start f o h)
    ∙ unfold wait in ground (arith, mod-lt start {m = f})

wait_unique : (start f o j : ℕ) → o < f → j < f → (start + j) % f ≡ o → j ≡ wait start f o
unfolding wait
wait_unique start f o j h k e = ground (arith, mod_later start j f k, mod-lt start {m = f})

-- An enabled check whose offset is below its frequency is due at exactly one second of any
-- `frequency` seconds in a row.
pub due_once :
    (start frequency offset : ℕ)
    → offset < frequency
    → (wait start frequency offset < frequency)
      × (is_due (start + wait start frequency offset) true frequency offset ≡ true)
      × ((j : ℕ)
          → j < frequency
          → is_due (start + j) true frequency offset ≡ true
          → j ≡ wait start frequency offset)
unfolding is_due
due_once start f o h = (
  wait-lt start f o h,
  (==_iff _ o).1 (mod-add-wait start f o h),
  λ j k e. wait_unique start f o j h k ((==_iff ((start + j) % f) o).0 e),
)
