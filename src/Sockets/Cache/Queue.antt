-- ===== src/Sockets/Cache/Queue.antt =====
-- pkg/api/sockets/sockets.go, refreshQueue: requests for one probe are gathered into one refresh.
use worldping_api.Prelude.{
  ℕ, ◌+◌, ◌≡◌, refl, ◌∙◌, ap, List, [], ◌∷◌, ◌++◌, map, arith, ◌==◌, ==_iff, if◌then◌else◌,
}
use mathlib.Core.List.{append-nil, append_assoc}
use worldping_api.Prelude.Sets.{member, count, enter, count-append, count-enter}
use worldping_api.Sockets.Cache.{
  RefreshQueue, QueueEvent, requested, ticked, process, queue_step, queue_run,
}

queue_run-requested :
    (ids : List ℕ) (es : List QueueEvent) (q : RefreshQueue)
    → queue_run (map requested ids ++ es) q ≡ queue_run es (record q { buffer = q.buffer ++ ids })
unfolding queue_run queue_step
queue_run-requested [] es q = rw (append-nil q.buffer) refl
queue_run-requested (id ∷ ids) es q =
    queue_run-requested ids es (record q { buffer = q.buffer ++ id ∷ [] })
    ∙ rw (append_assoc q.buffer (id ∷ []) ids) refl

process_lem :
    (ids : List ℕ) (q : RefreshQueue) (id : ℕ)
    → q.buffer ≡ ids
    → ((process ids q).buffer ≡ [])
      × (count ◌==◌ id (process ids q).refreshed
          ≡ count ◌==◌ id q.refreshed + (if member ◌==◌ id ids then 1 else 0))
unfolding process
process_lem [] q id e = (e, omega arith)
process_lem (i ∷ is) q id e = (
  refl,
  count-append ◌==◌ id q.refreshed (enter ◌==◌ (i ∷ is) [])
      ∙ ap (λ n. count ◌==◌ id q.refreshed + n) (count-enter ◌==◌ ==_iff id (i ∷ is) []),
)

-- After any requests and a tick the buffer is empty, and a probe has been refreshed once more if it was
-- asked for, in these requests or in those that the buffer held, however often, and no more if it
-- was not.
pub queue_run_once :
    (ids : List ℕ) (q : RefreshQueue) (id : ℕ)
    → ((queue_run (map requested ids ++ ticked ∷ []) q).buffer ≡ [])
      × (count ◌==◌ id (queue_run (map requested ids ++ ticked ∷ []) q).refreshed
          ≡ count ◌==◌ id q.refreshed + (if member ◌==◌ id (q.buffer ++ ids) then 1 else 0))
unfolding queue_run queue_step
queue_run_once ids q id =
    rw (queue_run-requested ids (ticked ∷ []) q)
      (process_lem (q.buffer ++ ids) (record q { buffer = q.buffer ++ ids }) id refl)
