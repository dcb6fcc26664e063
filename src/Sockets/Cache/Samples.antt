-- ===== src/Sockets/Cache/Samples.antt =====
-- Three requests for two probes, and a tick.
use worldping_api.Prelude.{◌≡◌, [], ◌∷◌, ◌++◌, map, ◌==◌}
use worldping_api.Prelude.Sets.{count}
use worldping_api.Sockets.Cache.{RefreshQueue, requested, ticked, queue_run}
use worldping_api.Sockets.Cache.Queue.{queue_run_once}

abbrev empty_queue : RefreshQueue
empty_queue = record { buffer = []; refreshed = [] }

queue_run_once_example :
    ((queue_run (map requested (4 ∷ 5 ∷ 4 ∷ []) ++ ticked ∷ []) empty_queue).buffer ≡ [])
    × (count ◌==◌ 4
          (queue_run (map requested (4 ∷ 5 ∷ 4 ∷ []) ++ ticked ∷ []) empty_queue).refreshed
        ≡ 1)
queue_run_once_example = queue_run_once (4 ∷ 5 ∷ 4 ∷ []) empty_queue 4
