-- ===== src/Threadpool.antt =====
-- src/c/threadpool.c: the job queue of the thread pool, what its threads do under the mutex, and
-- the steps of a pool. The chain from `front` over `prev` is a list, whose last job is `rear`; the
-- job cache is the list of its jobs. An `int` priority stands as its value plus `2 ^ 31`, which
-- keeps the order, and the function of a job and its argument as numbers.
-- `awake`, `asleep` and `blocked` count the threads that the code has in its loop, in the wait on
-- `job_cond` and in the wait on `queue_cond`. Logging and thread priorities are not modelled.
pub mod Order
pub mod Invariant
mod Tests
use iotech_c_utils.Common.{
  ℕ, suc, ◌+◌, ◌-◌, ◌%◌, ◌^◌, ◌<◌, ◌≡◌, Bool, true, false, not, ◌||◌, List, [], ◌∷◌, ◌++◌, Option,
  none, some, if◌then◌else◌, ◌==◌, ltb,
}
use iotech_c_utils.Component.{running, stopped, deleted, set_state}

-- IOT_THREAD_NO_PRIORITY, which is -1.
abbrev pub no_priority : ℕ
no_priority = 2147483647

pub record Job : Type 0 where
  pub function : ℕ
  pub arg : ℕ
  pub priority : ℕ
  pub id : ℕ

pub record Pool : Type 0 where
  pub state : ℕ
  pub max_jobs : ℕ
  pub jobs : ℕ
  pub next_id : ℕ
  pub working : ℕ
  pub front : List Job
  pub cache : List Job
  pub awake : ℕ
  pub asleep : ℕ
  pub blocked : ℕ

-- The search for the place of a job with a priority: before the first job with none or a lower one.
abbrev pub insert_job : Job → List Job → List Job
insert_job job [] = job ∷ []
insert_job job (iter ∷ rest) =
    let later = insert_job job rest in
    if (iter.priority == no_priority) || ltb iter.priority job.priority
    then job ∷ iter ∷ rest
    else iter ∷ later

abbrev pub enqueue : Job → List Job → List Job
enqueue job q = if not (job.priority == no_priority) then insert_job job q else q ++ (job ∷ [])

abbrev pub uncached : List Job → List Job
uncached [] = []
uncached (job ∷ cache) = cache

-- `pthread_cond_signal` and `pthread_cond_broadcast` on `job_cond`.
abbrev pub signal_job : Pool → Pool
signal_job p = record p {
  asleep = p.asleep - 1;
  awake = if p.asleep == 0 then p.awake else p.awake + 1;
}

abbrev pub broadcast_job : Pool → Pool
broadcast_job p = record p { asleep = 0; awake = p.awake + p.asleep }

-- `iot_threadpool_add_work_locked`.
abbrev pub add_work_locked : Pool → (function arg prio : ℕ) → Pool
add_work_locked p function arg prio =
    let job : Job = record { function = function; arg = arg; priority = prio; id = p.next_id } in
    signal_job (record p {
      cache = uncached p.cache;
      next_id = (p.next_id + 1) % 2 ^ 32;
      front = enqueue job p.front;
      jobs = (p.jobs + 1) % 2 ^ 32;
    })

-- `iot_threadpool_try_work`.
abbrev pub try_work : Pool → (function arg prio : ℕ) → Pool × Bool
try_work p function arg prio =
    if ltb p.jobs p.max_jobs then (add_work_locked p function arg prio, true) else (p, false)

-- One turn of `iot_threadpool_add_work`: it waits where the queue is full.
abbrev pub add_work : Pool → (function arg prio : ℕ) → Pool
add_work p function arg prio =
    if p.jobs == p.max_jobs
    then record p { blocked = p.blocked + 1 }
    else add_work_locked p function arg prio

-- The part of `iot_threadpool_thread` that pulls a job from the queue, or waits where there is none.
abbrev pub pull : Pool → List Job → Pool × Option Job
pull p [] = (record p { awake = p.awake - 1; asleep = p.asleep + 1 }, none)
pull p (first ∷ rest) =
    let jobs' = (p.jobs + 2 ^ 32 - 1) % 2 ^ 32 in
    (
      record p {
        front = if jobs' == 0 then [] else rest;
        cache = first ∷ p.cache;
        jobs = jobs';
        blocked = if (jobs' + 1) % 2 ^ 32 == p.max_jobs then 0 else p.blocked;
        working = (p.working + 1) % 2 ^ 16;
        awake = p.awake - 1;
      },
      some first,
    )

-- What the thread does once its job has run.
abbrev pub finish_job : Pool → Pool
finish_job p = record p { working = (p.working + 2 ^ 16 - 1) % 2 ^ 16; awake = p.awake + 1 }

-- Whether `iot_threadpool_wait` returns.
abbrev pub is_idle : Pool → Bool
is_idle p = not (not (p.jobs == 0) || not (p.working == 0))

-- `iot_component_set_state` on the component of the pool.
abbrev pub enter : Pool → ℕ → Pool
enter p state = record p { state = (set_state p.state state).0 }

-- `iot_threadpool_alloc`, once so many threads run.
abbrev pub alloc : (threads max_jobs : ℕ) → Pool
alloc threads max_jobs = record {
  state = 0;
  max_jobs = if max_jobs == 0 then 2 ^ 32 - 1 else max_jobs;
  jobs = 0;
  next_id = 0;
  working = 0;
  front = [];
  cache = [];
  awake = threads;
  asleep = 0;
  blocked = 0;
}

-- What callers and threads can do next, in any order: one constructor for each part of the code that
-- holds the mutex. `iot_threadpool_start` and `iot_threadpool_stop` are `enters` and `broadcasts`,
-- `iot_threadpool_free` goes on with `enters`; `wakes` is a spurious wakeup.
pub data Step : Pool → Pool → Type 0 where
  tries : (p : Pool) (f a prio : ℕ) → Step p (try_work p f a prio).0
  adds : (p : Pool) (f a prio : ℕ) → Step p (add_work p f a prio)
  turns : (p : Pool) → p.state ≡ running → 0 < p.awake → Step p (pull p p.front).0
  finishes : (p : Pool) → 0 < p.working → Step p (finish_job p)
  wakes : (p : Pool) → 0 < p.asleep → Step p (signal_job p)
  enters : (p : Pool) (state : ℕ) → Step p (enter p state)
  broadcasts : (p : Pool) → Step p (broadcast_job p)
  exits : (p : Pool) → p.state ≡ deleted → 0 < p.awake → Step p (record p { awake = p.awake - 1 })

pub data Steps : Pool → Pool → Type 0 where
  done : (p : Pool) → Steps p p
  then_step : {p q r : Pool} → Steps p q → Step q r → Steps p r

-- The two parts of `iot_threadpool_start` and of `iot_threadpool_stop`, with nothing between them.
abbrev pub start : Pool → Pool
start p = broadcast_job (enter p running)

abbrev pub stop : Pool → Pool
stop p = broadcast_job (enter p stopped)

-- `iot_threadpool_free` up to its wait for the threads, for the last reference.
abbrev pub free : Pool → Pool
free p = enter (stop p) deleted

-- `start`, `stop` and `free` as steps.
pub start-Steps : (p : Pool) → Steps p (start p)
start-Steps p = then_step (then_step (done p) (enters p running)) (broadcasts (enter p running))

pub free-Steps : (p : Pool) → Steps p (free p)
free-Steps p =
    then_step (then_step (then_step (done p) (enters p stopped)) (broadcasts (enter p stopped)))
      (enters (stop p) deleted)
