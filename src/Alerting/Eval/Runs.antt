-- ===== src/Alerting/Eval/Runs.antt =====
-- pkg/alerting/executor.go, eval: the streak of the inner loop against the longest run of readings
-- above zero.
use worldping_api.Prelude.{
  ℕ, zero, suc, ◌+◌, ◌≤◌, max, ◌≡◌, refl, ap, ◌↔◌, Bool, true, false, List, [], ◌∷◌, ◌++◌,
  replicate, length, arith, inl, inr, ◌⊎◌,
}
use native.Mathlib.Nat.{le_trans}
use native.Mathlib.Decide.{dec_le}
use worldping_api.Alerting.Eval.{Streak, start_streak, add_point, raise}

-- The run of readings above zero that stands at the front.
unfoldable pub lead : List Bool → ℕ
lead [] = 0
lead (true ∷ bs) = suc (lead bs)
lead (false ∷ bs) = 0

-- The longest run that stands anywhere.
unfoldable pub longest_run : List Bool → ℕ
unfolding lead
longest_run [] = 0
longest_run (b ∷ bs) = max (lead (b ∷ bs)) (longest_run bs)

unfoldable pub add_points : List Bool → Streak → Streak
unfolding add_point
add_points [] s = s
add_points (b ∷ bs) s = add_points bs (add_point b s)

lead-le : (bs : List Bool) → lead bs ≤ longest_run bs
unfolding longest_run
lead-le [] = omega arith
lead-le (b ∷ bs) = omega arith

pub raise-add_points :
    (bs : List Bool) (s : Streak)
    → raise (add_points bs s).longest (add_points bs s).cur
      ≡ max s.longest (max (s.cur + lead bs) (longest_run bs))
unfolding add_points longest_run
raise-add_points [] s = ground arith
raise-add_points (true ∷ bs) s = ground (arith, raise-add_points bs (add_point true s), lead-le bs)
raise-add_points (false ∷ bs) s =
    ground (arith, raise-add_points bs (add_point false s), lead-le bs)

pub non_null-add_points :
    (bs : List Bool) (s : Streak) → (add_points bs s).non_null ≡ s.non_null + length bs
unfolding add_points
non_null-add_points [] s = omega arith
non_null-add_points (true ∷ bs) s = omega (arith, non_null-add_points bs (add_point true s))
non_null-add_points (false ∷ bs) s = omega (arith, non_null-add_points bs (add_point false s))

-- From the start of a series the final streak is its longest run.
pub longest-add_points :
    (bs : List Bool)
    → raise (add_points bs start_streak).longest (add_points bs start_streak).cur ≡ longest_run bs
longest-add_points bs = omega (arith, raise-add_points bs start_streak, lead-le bs)

-- `k` readings above zero in a row, somewhere in the list.
pub record Window (k : ℕ) (bs : List Bool) : Type 0 where
  pub before : List Bool
  pub after : List Bool
  pub split : bs ≡ before ++ (replicate k true ++ after)

lead-split :
    (k : ℕ) (bs : List Bool) → k ≤ lead bs → (after : List Bool) × (bs ≡ replicate k true ++ after)
unfolding lead
lead-split zero bs h = (bs, refl)
lead-split (suc k) [] h = absurd (omega arith)
lead-split (suc k) (true ∷ bs) h =
    let (after, e) = lead-split k bs (omega arith) in (after, ap (◌∷◌ true) e)
lead-split (suc k) (false ∷ bs) h = absurd (omega arith)

le-lead-replicate : (k : ℕ) (after : List Bool) → k ≤ lead (replicate k true ++ after)
unfolding lead
le-lead-replicate zero after = omega arith
le-lead-replicate (suc k) after = omega (arith, le-lead-replicate k after)

le-max-cases : (k m n : ℕ) → k ≤ max m n → (k ≤ m) ⊎ (k ≤ n)
le-max-cases k m n h = elim (dec_le k m) [ yes a ↦ inl a | no a ↦ inr (omega arith) ]

run-Window : (k : ℕ) (bs : List Bool) → k ≤ longest_run bs → Window k bs
unfolding longest_run
run-Window zero [] h = record { before = []; after = []; split = refl }
run-Window (suc k) [] h = absurd (omega arith)
run-Window k (b ∷ bs) h = elim (le-max-cases k (lead (b ∷ bs)) (longest_run bs) h) [
  | inl here ↦
      let (after, e) = lead-split k (b ∷ bs) here in
      record { before = []; after = after; split = e }
  | inr later ↦
      let w = run-Window k bs later in
      record { before = b ∷ w.before; after = w.after; split = ap (◌∷◌ b) w.split }
]

le-longest_run-append :
    (before bs : List Bool) (k : ℕ) → k ≤ longest_run bs → k ≤ longest_run (before ++ bs)
unfolding longest_run
le-longest_run-append [] bs k h = h
le-longest_run-append (b ∷ before) bs k h = omega (arith, le-longest_run-append before bs k h)

-- The longest run reaches `k` exactly when some window of `k` readings is above zero throughout.
pub le-longest_run_iff : (k : ℕ) (bs : List Bool) → (k ≤ longest_run bs) ↔ Window k bs
le-longest_run_iff k bs = (run-Window k bs, back)
  where
    back : Window k bs → k ≤ longest_run bs
    back w = rw (w.split) (
        le-longest_run-append w.before (replicate k true ++ w.after) k
          (le_trans (le-lead-replicate k w.after) (lead-le (replicate k true ++ w.after))))
