-- ===== src/WorkerPool/Tests.antt =====
-- A pool of one worker that accepts a task, is stopped, and returns.
use mujeeb24_backend_go.Common.{◌≡◌, refl, ◌≤◌, false, ◌⊎◌, [], ◌∷◌, ◌++◌, length, arith, String}
use mujeeb24_backend_go.Common.Int.{pos}
use mujeeb24_backend_go.WorkerPool.{
  locked, flagged, closing, waiting, AutoReplyWorkerPool, new_auto_reply_worker_pool, Reachable,
  start, next, enter, check, send, take_task, finish, exit, lock, flag, close, unlock, wait,
  returned, is_closed,
}
use mujeeb24_backend_go.WorkerPool.Drain.{Reachable-ordered, Reachable-drained}

abbrev fresh : AutoReplyWorkerPool String
fresh = new_auto_reply_worker_pool (pos 1) (pos 0)

abbrev entered_one : AutoReplyWorkerPool String
entered_one = record fresh { entered = 1 }

abbrev checked_one : AutoReplyWorkerPool String
checked_one = record fresh { checked = 1 }

abbrev sent : AutoReplyWorkerPool String
sent = record fresh { tasks = "t" ∷ []; accepted = "t" ∷ [] }

sent-Reachable : Reachable sent
unfolding new_auto_reply_worker_pool
sent-Reachable =
    next checked_one sent
      (next entered_one checked_one
        (next fresh entered_one (start (pos 1) (pos 0)) (enter fresh refl))
        (check entered_one 0 refl refl))
      (send checked_one 0 "t" refl refl (omega arith))

abbrev taken_one : AutoReplyWorkerPool String
taken_one = record fresh { accepted = "t" ∷ []; taken = "t" ∷ []; idle = 0; running = 1 }

abbrev stopping : AutoReplyWorkerPool String
stopping = record taken_one { phase = waiting }

abbrev done : AutoReplyWorkerPool String
done = record stopping { running = 0; idle = 1; finished = 1 }

abbrev left : AutoReplyWorkerPool String
left = record done { idle = 0; exited = 1 }

abbrev stopped_pool : AutoReplyWorkerPool String
stopped_pool = record left { phase = returned }

-- Stop is called while the task runs.
stopping-Reachable : Reachable stopping
unfolding new_auto_reply_worker_pool
stopping-Reachable =
    let locked_pool = record taken_one { phase = locked } in
    let flagged_pool = record taken_one { phase = flagged } in
    let closing_pool = record taken_one { phase = closing } in
    next closing_pool stopping
      (next flagged_pool closing_pool
        (next locked_pool flagged_pool
          (next taken_one locked_pool
            (next sent taken_one sent-Reachable (take_task sent 0 "t" [] refl refl))
            (lock taken_one refl refl refl))
          (flag locked_pool refl))
        (close flagged_pool refl))
      (unlock closing_pool refl)

stopped-Reachable : Reachable stopped_pool
unfolding new_auto_reply_worker_pool
stopped-Reachable =
    next left stopped_pool
      (next done left (next stopping done stopping-Reachable (finish stopping 0 refl))
        (exit done 0 refl refl refl))
      (wait left refl refl)

Reachable-ordered_example :
    (length sent.tasks ≤ sent.queue_depth)
    × (sent.taken ++ sent.tasks ≡ sent.accepted)
    × ((is_closed sent.phase ≡ false) ⊎ (sent.checked ≡ 0))
Reachable-ordered_example = Reachable-ordered sent sent-Reachable

Reachable-drained_example :
    (stopped_pool.taken ≡ stopped_pool.accepted)
    × (stopped_pool.running ≡ 0)
    × (length stopped_pool.accepted ≡ stopped_pool.finished)
Reachable-drained_example = Reachable-drained stopped_pool stopped-Reachable refl
