-- ===== src/WorkerPool.antt =====
-- `AutoReplyWorkerPool` of services/autoreply_worker_pool.go as a state and its steps: the calls of
-- Submit, the workers and Stop run at the same time, and their steps interleave in any order.
-- The lock and the channel follow Go: a reader enters while no writer holds the lock, a writer while
-- no reader does; a send takes a free place of the buffer; a worker leaves its loop when the channel
-- is closed and empty. Handling a task always returns to the loop, since a panic is recovered.
pub mod Drain
mod Tests
use mujeeb24_backend_go.Common.{
  ℕ, zero, suc, ◌+◌, ◌<◌, ◌≤◌, ◌≡◌, Bool, true, false, List, [], ◌∷◌, ◌++◌, length, ltb,
  if◌then◌else◌,
}
use mujeeb24_backend_go.Common.Int.{ℤ, pos, ltb_ℤ, pos_part}

-- How far `Stop` has come; `stopOnce` lets one call through.
pub data StopPhase : Type 0 where
  not_called locked flagged closing waiting returned : StopPhase

abbrev pub is_locked : StopPhase → Bool
is_locked locked = true
is_locked flagged = true
is_locked closing = true
is_locked _ = false

-- `stopped`
abbrev pub is_stopped : StopPhase → Bool
is_stopped not_called = false
is_stopped locked = false
is_stopped _ = true

-- The channel is closed.
abbrev pub is_closed : StopPhase → Bool
is_closed closing = true
is_closed waiting = true
is_closed returned = true
is_closed _ = false

abbrev pub is_returned : StopPhase → Bool
is_returned returned = true
is_returned _ = false

-- `entered` calls of Submit hold the read lock, `checked` ones have also seen that the pool is not
-- stopped. `accepted` are the tasks for which Submit returned true, `taken` those that a worker
-- received, both oldest first.
pub record AutoReplyWorkerPool (Task : Type 0) : Type 0 where
  pub queue_depth : ℕ
  pub concurrency : ℕ
  pub phase : StopPhase
  pub entered : ℕ
  pub checked : ℕ
  pub tasks : List Task
  pub accepted : List Task
  pub taken : List Task
  pub idle : ℕ
  pub running : ℕ
  pub finished : ℕ
  pub exited : ℕ

abbrev pub at_least_one : ℤ → ℕ → ℕ
at_least_one n default = if ltb_ℤ n (pos 1) then default else pos_part n

module _ {Task : Type 0} where
  -- `NewAutoReplyWorkerPool`
  unfoldable pub new_auto_reply_worker_pool : ℤ → ℤ → AutoReplyWorkerPool Task
  new_auto_reply_worker_pool concurrency queue_depth = record {
    queue_depth = at_least_one queue_depth 64;
    concurrency = at_least_one concurrency 4;
    phase = not_called;
    entered = 0;
    checked = 0;
    tasks = [];
    accepted = [];
    taken = [];
    idle = at_least_one concurrency 4;
    running = 0;
    finished = 0;
    exited = 0;
  }

  pub data Step : AutoReplyWorkerPool Task → AutoReplyWorkerPool Task → Type 0 where
    -- Submit: `RLock`, the test of `stopped`, and the select.
    enter :
        (p : AutoReplyWorkerPool Task)
        → is_locked p.phase ≡ false
        → Step p (record p { entered = suc p.entered })
    refuse :
        (p : AutoReplyWorkerPool Task) (n : ℕ)
        → p.entered ≡ suc n
        → is_stopped p.phase ≡ true
        → Step p (record p { entered = n })
    check :
        (p : AutoReplyWorkerPool Task) (n : ℕ)
        → p.entered ≡ suc n
        → is_stopped p.phase ≡ false
        → Step p (record p { entered = n; checked = suc p.checked })
    send :
        (p : AutoReplyWorkerPool Task) (n : ℕ) (t : Task)
        → p.checked ≡ suc n
        → is_closed p.phase ≡ false
        → length p.tasks < p.queue_depth
        → Step p
            (record p { checked = n; tasks = p.tasks ++ t ∷ []; accepted = p.accepted ++ t ∷ [] })
    full :
        (p : AutoReplyWorkerPool Task) (n : ℕ)
        → p.checked ≡ suc n
        → p.queue_depth ≤ length p.tasks
        → Step p (record p { checked = n })
    -- A worker: receives a task, finishes it, or leaves the loop.
    take_task :
        (p : AutoReplyWorkerPool Task) (n : ℕ) (t : Task) (rest : List Task)
        → p.idle ≡ suc n
        → p.tasks ≡ t ∷ rest
        → Step p (record p {
          tasks = rest;
          taken = p.taken ++ t ∷ [];
          idle = n;
          running = suc p.running;
        })
    finish :
        (p : AutoReplyWorkerPool Task) (n : ℕ)
        → p.running ≡ suc n
        → Step p (record p { running = n; idle = suc p.idle; finished = suc p.finished })
    exit :
        (p : AutoReplyWorkerPool Task) (n : ℕ)
        → p.idle ≡ suc n
        → is_closed p.phase ≡ true
        → p.tasks ≡ []
        → Step p (record p { idle = n; exited = suc p.exited })
    -- Stop: `Lock`, the flag, `close`, `Unlock`, and `Wait`.
    lock :
        (p : AutoReplyWorkerPool Task)
        → p.phase ≡ not_called
        → p.entered ≡ 0
        → p.checked ≡ 0
        → Step p (record p { phase = locked })
    flag : (p : AutoReplyWorkerPool Task) → p.phase ≡ locked → Step p (record p { phase = flagged })
    close :
        (p : AutoReplyWorkerPool Task) → p.phase ≡ flagged → Step p (record p { phase = closing })
    unlock :
        (p : AutoReplyWorkerPool Task) → p.phase ≡ closing → Step p (record p { phase = waiting })
    wait :
        (p : AutoReplyWorkerPool Task)
        → p.phase ≡ waiting
        → p.exited ≡ p.concurrency
        → Step p (record p { phase = returned })

  -- The states that a new pool reaches.
  pub data Reachable : AutoReplyWorkerPool Task → Type 0 where
    start :
        (concurrency queue_depth : ℤ)
        → Reachable (new_auto_reply_worker_pool concurrency queue_depth)
    next : (p q : AutoReplyWorkerPool Task) → Reachable p → Step p q → Reachable q
