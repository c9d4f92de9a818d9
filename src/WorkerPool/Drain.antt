-- ===== src/WorkerPool/Drain.antt =====
-- The pool never sends on a closed channel, and when Stop has returned every accepted task is done.
use mujeeb24_backend_go.Common.{
  ℕ, ◌+◌, ◌<◌, ◌≤◌, ◌≡◌, refl, sym, ap, ◌∙◌, ◌⊎◌, inl, inr, true, false, List, [], ◌∷◌, ◌++◌,
  append-nil, append_assoc, length, length-append, arith,
}
use mujeeb24_backend_go.Common.Int.{ℤ}
use mujeeb24_backend_go.WorkerPool.{
  StopPhase, locked, flagged, closing, waiting, returned, is_locked, is_stopped, is_closed,
  is_returned, AutoReplyWorkerPool, at_least_one, new_auto_reply_worker_pool, Step, enter, refuse,
  check, send, full, take_task, finish, exit, lock, flag, close, unlock, wait, Reachable, start,
  next,
}

at_least_one_lem : (n : ℤ) (default : ℕ) → 0 < default → 0 < at_least_one n default
at_least_one_lem n default h = ground arith

module _ {Task : Type 0} where
  pub record Invariant (p : AutoReplyWorkerPool Task) : Type 0 where
    pub fifo : p.taken ++ p.tasks ≡ p.accepted
    pub bounded : length p.tasks ≤ p.queue_depth
    pub manned : 0 < p.concurrency
    pub workers : p.running + p.idle + p.exited ≡ p.concurrency
    pub counted : length p.taken ≡ p.finished + p.running
    pub exclusive : is_locked p.phase ≡ true → p.entered + p.checked ≡ 0
    pub quiet : is_stopped p.phase ≡ true → p.checked ≡ 0
    pub drained : (p.exited ≡ 0) ⊎ ((is_closed p.phase ≡ true) × (p.tasks ≡ []))
    pub gone : is_returned p.phase ≡ true → p.exited ≡ p.concurrency

  -- While the channel is open, no worker has left.
  still_open :
      (phase : StopPhase) (exited : ℕ) (tasks : List Task) (other : StopPhase)
      → is_closed phase ≡ false
      → (exited ≡ 0) ⊎ ((is_closed phase ≡ true) × (tasks ≡ []))
      → (exited ≡ 0) ⊎ ((is_closed other ≡ true) × (tasks ≡ []))
  still_open phase exited tasks other e (inl z) = inl z
  still_open phase exited tasks other e (inr (c, z)) = absurd (cc (c, e))

  step-Invariant : (p q : AutoReplyWorkerPool Task) → Invariant p → Step p q → Invariant q
  step-Invariant p q i (enter _ unlocked) = record {
    fifo = i.fifo;
    bounded = i.bounded;
    manned = i.manned;
    workers = i.workers;
    counted = i.counted;
    exclusive = λ e. absurd (cc (e, unlocked));
    quiet = i.quiet;
    drained = i.drained;
    gone = i.gone;
  }
  step-Invariant p q i (refuse _ n some_one stopped) = record {
    fifo = i.fifo;
    bounded = i.bounded;
    manned = i.manned;
    workers = i.workers;
    counted = i.counted;
    exclusive = λ e. omega (arith, i.exclusive e, some_one);
    quiet = i.quiet;
    drained = i.drained;
    gone = i.gone;
  }
  step-Invariant p q i (check _ n some_one running) = record {
    fifo = i.fifo;
    bounded = i.bounded;
    manned = i.manned;
    workers = i.workers;
    counted = i.counted;
    exclusive = λ e. omega (arith, i.exclusive e, some_one);
    quiet = λ e. absurd (cc (e, running));
    drained = i.drained;
    gone = i.gone;
  }
  step-Invariant p q i (send _ n t some_one is_open room) = record {
    fifo = sym (append_assoc p.taken p.tasks (t ∷ [])) ∙ ap (λ l. l ++ t ∷ []) i.fifo;
    bounded = omega (arith, room, length-append p.tasks (t ∷ []));
    manned = i.manned;
    workers = i.workers;
    counted = i.counted;
    exclusive = λ e. omega (arith, i.exclusive e, some_one);
    quiet = λ e. omega (arith, i.quiet e, some_one);
    drained = elim i.drained [ inl z ↦ inl z | inr (c, z) ↦ absurd (cc (c, is_open)) ];
    gone = i.gone;
  }
  step-Invariant p q i (full _ n some_one no_room) = record {
    fifo = i.fifo;
    bounded = i.bounded;
    manned = i.manned;
    workers = i.workers;
    counted = i.counted;
    exclusive = λ e. omega (arith, i.exclusive e, some_one);
    quiet = λ e. omega (arith, i.quiet e, some_one);
    drained = i.drained;
    gone = i.gone;
  }
  step-Invariant p q i (take_task _ n t rest some_one front) = record {
    fifo = append_assoc p.taken (t ∷ []) rest ∙ ap (λ l. p.taken ++ l) (sym front) ∙ i.fifo;
    bounded = omega (arith, i.bounded, ap length front);
    manned = i.manned;
    workers = omega (arith, i.workers, some_one);
    counted = omega (arith, i.counted, length-append p.taken (t ∷ []));
    exclusive = i.exclusive;
    quiet = i.quiet;
    drained = elim i.drained [ inl z ↦ inl z | inr (c, z) ↦ absurd (cc (z, front)) ];
    gone = i.gone;
  }
  step-Invariant p q i (finish _ n some_one) = record {
    fifo = i.fifo;
    bounded = i.bounded;
    manned = i.manned;
    workers = omega (arith, i.workers, some_one);
    counted = omega (arith, i.counted, some_one);
    exclusive = i.exclusive;
    quiet = i.quiet;
    drained = i.drained;
    gone = i.gone;
  }
  step-Invariant p q i (exit _ n some_one is_shut empty) = record {
    fifo = i.fifo;
    bounded = i.bounded;
    manned = i.manned;
    workers = omega (arith, i.workers, some_one);
    counted = i.counted;
    exclusive = i.exclusive;
    quiet = i.quiet;
    drained = inr (is_shut, empty);
    gone = λ e. omega (arith, i.gone e, i.workers, some_one);
  }
  step-Invariant p q i (lock _ ph no_entered no_checked) = record {
    fifo = i.fifo;
    bounded = i.bounded;
    manned = i.manned;
    workers = i.workers;
    counted = i.counted;
    exclusive = λ e. omega (arith, no_entered, no_checked);
    quiet = λ e. no_checked;
    drained = still_open p.phase p.exited p.tasks locked (ap is_closed ph) i.drained;
    gone = λ e. absurd (cc e);
  }
  step-Invariant p q i (flag _ ph) = record {
    fifo = i.fifo;
    bounded = i.bounded;
    manned = i.manned;
    workers = i.workers;
    counted = i.counted;
    exclusive = λ e. i.exclusive (ap is_locked ph);
    quiet = λ e. omega (arith, i.exclusive (ap is_locked ph));
    drained = still_open p.phase p.exited p.tasks flagged (ap is_closed ph) i.drained;
    gone = λ e. absurd (cc e);
  }
  step-Invariant p q i (close _ ph) = record {
    fifo = i.fifo;
    bounded = i.bounded;
    manned = i.manned;
    workers = i.workers;
    counted = i.counted;
    exclusive = λ e. i.exclusive (ap is_locked ph);
    quiet = λ e. i.quiet (ap is_stopped ph);
    drained = still_open p.phase p.exited p.tasks closing (ap is_closed ph) i.drained;
    gone = λ e. absurd (cc e);
  }
  step-Invariant p q i (unlock _ ph) = record {
    fifo = i.fifo;
    bounded = i.bounded;
    manned = i.manned;
    workers = i.workers;
    counted = i.counted;
    exclusive = λ e. absurd (cc e);
    quiet = λ e. i.quiet (ap is_stopped ph);
    drained = elim i.drained [ inl z ↦ inl z | inr (c, z) ↦ inr (refl, z) ];
    gone = λ e. absurd (cc e);
  }
  step-Invariant p q i (wait _ ph everyone) = record {
    fifo = i.fifo;
    bounded = i.bounded;
    manned = i.manned;
    workers = i.workers;
    counted = i.counted;
    exclusive = λ e. absurd (cc e);
    quiet = λ e. i.quiet (ap is_stopped ph);
    drained = elim i.drained [ inl z ↦ inl z | inr (c, z) ↦ inr (refl, z) ];
    gone = λ e. everyone;
  }

  start-Invariant :
      (concurrency queue_depth : ℤ) → Invariant (new_auto_reply_worker_pool concurrency queue_depth)
  unfolding new_auto_reply_worker_pool
  start-Invariant concurrency queue_depth = record {
    fifo = refl;
    bounded = omega arith;
    manned = at_least_one_lem concurrency 4 (omega arith);
    workers = omega arith;
    counted = refl;
    exclusive = λ e. refl;
    quiet = λ e. refl;
    drained = inl refl;
    gone = λ e. absurd (cc e);
  }

  Reachable-Invariant : (p : AutoReplyWorkerPool Task) → Reachable p → Invariant p
  Reachable-Invariant p (start concurrency queue_depth) = start-Invariant concurrency queue_depth
  Reachable-Invariant p (next before _ r s) =
      step-Invariant before p (Reachable-Invariant before r) s

  -- In every state that a pool reaches, the queue is within its depth; the tasks that workers
  -- received, followed by those in the queue, are the accepted ones in their order; and the channel
  -- is open or no call of Submit is about to send.
  pub Reachable-ordered :
      (p : AutoReplyWorkerPool Task)
      → Reachable p
      → (length p.tasks ≤ p.queue_depth)
        × (p.taken ++ p.tasks ≡ p.accepted)
        × ((is_closed p.phase ≡ false) ⊎ (p.checked ≡ 0))
  Reachable-ordered p r =
      let i = Reachable-Invariant p r in (i.bounded, i.fifo, by_phase p.phase p.checked i.quiet)
    where
      by_phase :
          (phase : StopPhase) (checked : ℕ)
          → (is_stopped phase ≡ true → checked ≡ 0)
          → (is_closed phase ≡ false) ⊎ (checked ≡ 0)
      by_phase closing checked q = inr (q refl)
      by_phase waiting checked q = inr (q refl)
      by_phase returned checked q = inr (q refl)
      by_phase _ checked q = inl refl

  -- When Stop has returned, workers received all accepted tasks in their order, finished them all,
  -- and run none.
  pub Reachable-drained :
      (p : AutoReplyWorkerPool Task)
      → Reachable p
      → p.phase ≡ returned
      → (p.taken ≡ p.accepted) × (p.running ≡ 0) × (length p.accepted ≡ p.finished)
  Reachable-drained p r e =
      let i = Reachable-Invariant p r in
      let all = i.gone (ap is_returned e) in
      elim i.drained [
        | inl none_left ↦ absurd (omega (arith, all, i.manned, none_left))
        | inr (c, empty) ↦
            let same_tasks : p.taken ≡ p.accepted =
              sym (append-nil p.taken) ∙ ap (λ l. p.taken ++ l) (sym empty) ∙ i.fifo in
            (
              same_tasks,
              omega (arith, i.workers, all),
              omega (arith, i.counted, i.workers, all, ap length same_tasks),
            )
      ]
