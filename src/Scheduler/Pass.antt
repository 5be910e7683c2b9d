-- ===== src/Scheduler/Pass.antt =====
-- src/c/scheduler.c, `iot_scheduler_thread`: the schedule at the front of the queue in one pass.
use iotech_c_utils.Common.{ℕ, ◌+◌, ◌-◌, ◌≤◌, ◌≡◌, ◌≢◌, Bool, true, false, ◌⊎◌, if◌then◌else◌}
use iotech_c_utils.Scheduler.{Schedule, Scheduler, start_of, update_start, queue_at, queue_remove}
use iotech_c_utils.Scheduler.Queue.{has}

-- The state in which a schedule is queued for its next start.
abbrev requeued : Scheduler → ℕ → ℕ → ℕ → Scheduler
unfolding queue_remove
requeued s i t u = queue_at (update_start (queue_remove s i) i t) i u

-- What a pass makes of the schedule that it runs: after its last repetition it is idle, or else it is
-- on the queue, one repetition less, at a time after its period.
abbrev pub Settled : Scheduler → ℕ → ℕ → Schedule → Type 0
Settled s i later c =
    ((c.repeat ≡ 1) × (has i s.idle ≡ true) × ((s.schedule i).scheduled ≡ false))
    ⊎ ((c.repeat ≢ 1)
        × ((s.schedule i).scheduled ≡ true)
        × ((s.schedule i).repeat ≡ c.repeat - 1)
        × (c.period + later ≤ start_of s i))

-- What a pass makes of the run itself. A schedule that is not concurrent is skipped while an earlier run
-- holds a reference; one that is synchronous runs to its end; another run is handed over with a
-- reference, or, where that fails, aborted and, with a thread pool, counted as dropped.
abbrev pub Ran : Bool → Schedule → Schedule → Type 0
Ran accepted c c' =
    ((c.concurrent ≡ false) × (c.refs ≢ 1) × (c'.refs ≡ c.refs) × (c'.dropped ≡ c.dropped))
    ⊎ (((c.concurrent ≡ true) ⊎ (c.refs ≡ 1))
        × (((c.sync ≡ true) × (c'.refs ≡ c.refs) × (c'.dropped ≡ c.dropped))
            ⊎ (((c.sync ≡ false)
                  × (accepted ≡ true)
                  × (c'.refs ≡ c.refs + 1)
                  × (c'.dropped ≡ c.dropped))
                ⊎ ((c.sync ≡ false)
                    × (accepted ≡ false)
                    × (c'.refs ≡ c.refs)
                    × (c'.dropped ≡ (if c.pooled then c.dropped + 1 else c.dropped))))))
