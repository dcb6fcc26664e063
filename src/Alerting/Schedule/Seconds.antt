-- ===== src/Alerting/Schedule/Seconds.antt =====
-- pkg/alerting/schedule.go, dispatchJobs: every second is asked for once, in order, however the ticks
-- and the offsets come.
use worldping_api.Prelude.{
  ℕ, zero, suc, ◌+◌, ◌<◌, ◌≡◌, ◌∙◌, refl, ap, sym, true, false, Option, some, List, [], ◌∷◌, ◌++◌,
  arith, Bool-cases, inl, inr,
}
use mathlib.Core.List.{append-nil, append_assoc}
use native.Mathlib.Nat.{zero-add, suc-add}
use worldping_api.Prelude.Int.{
  ℤ, pos, leb_ℤ, ltb_ℤ, ◌+ℤ◌, ◌-ℤ◌, pos_part, int_laws, add_pos_pos, add_pos_suc, add_pos_zero,
}
use worldping_api.Models.Check.{CheckForAlert, AlertingJob}
use worldping_api.Alerting.Schedule.{
  Dispatcher, Event, tick, new_offset, jobs_of, round, catch_up, rounds, step, run,
}

-- `n` seconds in a row from `s`.
unfoldable pub seconds : ℤ → ℕ → List ℤ
seconds s zero = []
seconds s (suc n) = s ∷ seconds (s +ℤ pos 1) n

seconds-append : (s : ℤ) (m n : ℕ) → seconds s (m + n) ≡ seconds s m ++ seconds (s +ℤ pos m) n
unfolding seconds
seconds-append s zero n = simp (zero-add, add_pos_zero)
seconds-append s (suc m) n = simp (suc-add, seconds-append (s +ℤ pos 1) m n, add_pos_suc)

module _ (database : ℤ → Option (List CheckForAlert)) (clock : ℤ → AlertingJob → ℕ) where
  -- The jobs of a list of seconds, in order.
  unfoldable pub jobs_of_all : List ℤ → List AlertingJob
  jobs_of_all [] = []
  jobs_of_all (s ∷ ss) = jobs_of database clock s (database s) ++ jobs_of_all ss

  -- The dispatcher has gone on from `d` by `n` seconds.
  pub record Advanced (d : Dispatcher) (n : ℕ) (d' : Dispatcher) : Type 0 where
    pub next : d'.next ≡ d.next +ℤ pos n
    pub queried : d'.queried ≡ d.queried ++ seconds d.next n
    pub queue : d'.queue ≡ d.queue ++ jobs_of_all (seconds d.next n)

  jobs_of_all-append : (ss ts : List ℤ) → jobs_of_all (ss ++ ts) ≡ jobs_of_all ss ++ jobs_of_all ts
  unfolding jobs_of_all
  jobs_of_all-append [] ts = refl
  jobs_of_all-append (s ∷ ss) ts = simp (jobs_of_all-append ss ts, append_assoc)

  Advanced-refl : (d : Dispatcher) → Advanced d 0 d
  unfolding seconds jobs_of_all
  Advanced-refl d = record {
    next = omega int_laws;
    queried = sym (append-nil d.queried);
    queue = sym (append-nil d.queue);
  }

  Advanced-round :
      (d : Dispatcher) (n : ℕ) {d' : Dispatcher}
      → Advanced (round database clock d) n d'
      → Advanced d (suc n) d'
  unfolding round seconds jobs_of_all
  Advanced-round d n a = record {
    next = a.next ∙ add_pos_suc d.next n;
    queried =
        a.queried ∙ append_assoc d.queried (d.next ∷ []) (seconds (round database clock d).next n);
    queue =
        a.queue
        ∙ append_assoc d.queue (jobs_of database clock d.next (database d.next))
            (jobs_of_all (seconds (round database clock d).next n));
  }

  left_of_round :
      (limit : ℤ) (d : Dispatcher)
      → leb_ℤ d.next limit ≡ true
      → suc (pos_part ((limit +ℤ pos 1) -ℤ (round database clock d).next))
        ≡ pos_part ((limit +ℤ pos 1) -ℤ d.next)
  unfolding round ◌+ℤ◌ ◌-ℤ◌
  left_of_round limit d more = ground arith

  -- The loop of a tick ends within its fuel, past the limit.
  catch_up-Advanced :
      (fuel : ℕ) (limit : ℤ) (d : Dispatcher)
      → pos_part ((limit +ℤ pos 1) -ℤ d.next) < fuel
      → (n : ℕ) × (d' : Dispatcher) × (catch_up database clock fuel limit d ≡ some d')
        × Advanced d n d'
        × (leb_ℤ d'.next limit ≡ false)
  unfolding catch_up
  catch_up-Advanced zero limit d h = absurd (omega arith)
  catch_up-Advanced (suc fuel) limit d h = elim (Bool-cases (leb_ℤ d.next limit)) [
    | inr over ↦ (0, d, rw over, Advanced-refl d, over)
    | inl more ↦
        let (n, d', e, a, over) =
          catch_up-Advanced fuel limit (round database clock d)
            (omega (arith, left_of_round limit d more)) in
        (suc n, d', rw more e, Advanced-round d n a, over)
  ]

  Advanced-trans :
      {d e f : Dispatcher} (m n : ℕ) → Advanced d m e → Advanced e n f → Advanced d (m + n) f
  Advanced-trans {d} m n a b = record {
    next = b.next ∙ ap (λ t. t +ℤ pos n) a.next ∙ add_pos_pos d.next m n;
    queried = rw (b.queried, a.queried, a.next, seconds-append d.next m n, append_assoc);
    queue =
        rw (b.queue, a.queue, a.next, seconds-append d.next m n, jobs_of_all-append, append_assoc);
  }

  step-Advanced :
      (e : Event) (d : Dispatcher)
      → (n : ℕ) × (d' : Dispatcher) × (step database clock e d ≡ some d') × Advanced d n d'
  unfolding step
  step-Advanced (new_offset o) d = (
    0,
    record d { offset = o },
    refl,
    record {
      next = (Advanced-refl d).next;
      queried = (Advanced-refl d).queried;
      queue = (Advanced-refl d).queue;
    },
  )
  step-Advanced (tick now) d =
      let (n, d', e, a, over) =
        catch_up-Advanced (rounds (now -ℤ d.offset) d) (now -ℤ d.offset) d (omega arith) in
      (n, d', e, a)

  -- Whatever ticks and offsets come, the loop ends each tick within its fuel, the seconds asked for
  -- are those from `next` on, one after the other, each once, and the jobs queued are those that the
  -- database returned for these seconds, in the same order.
  pub run-Advanced :
      (es : List Event) (d : Dispatcher)
      → (n : ℕ) × (d' : Dispatcher) × (run database clock es d ≡ some d') × Advanced d n d'
  unfolding run
  run-Advanced [] d = (0, d, refl, Advanced-refl d)
  run-Advanced (e ∷ es) d =
      let (m, u, one, a) = step-Advanced e d in
      let (n, v, rest, b) = run-Advanced es u in
      (m + n, v, rw (one, run) rest, Advanced-trans m n a b)

  -- A tick leaves no second behind: those up to the tick's instant less the offset have been asked for.
  pub tick_catches_up :
      (now : ℤ) (d : Dispatcher) {d' : Dispatcher}
      → step database clock (tick now) d ≡ some d'
      → ltb_ℤ (now -ℤ d.offset) d'.next ≡ true
  unfolding step
  tick_catches_up now d h =
      let (n, d', e, a, over) =
        catch_up-Advanced (rounds (now -ℤ d.offset) d) (now -ℤ d.offset) d (omega arith) in
      ground arith
