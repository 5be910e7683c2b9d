-- ===== src/Threadpool/Tests.antt =====
-- src/c/threadpool.c: the pool on concrete jobs, and its theorems at concrete inputs.
use iotech_c_utils.Common.{ℕ, ◌+◌, ◌≡◌, refl, arith, List, [], ◌∷◌, ◌++◌, length, inl}
use iotech_c_utils.Threadpool.{
  Job, no_priority, enqueue, alloc, add_work, start, then_step, start-Steps, adds,
}
use iotech_c_utils.Threadpool.Order.{Ordered, jobs_at, enqueue_lem}
use iotech_c_utils.Threadpool.Invariant.{IsWf, Steps-IsWf}

abbrev job : ℕ → ℕ → Job
job priority id = record { function = 0; arg = 0; priority = priority; id = id }

abbrev two_jobs : List Job
two_jobs = job 7 0 ∷ job no_priority 1 ∷ []

two_jobs-Ordered : Ordered two_jobs
two_jobs-Ordered = ((inl refl, tt), (tt, tt))

enqueue_between : enqueue (job 7 2) two_jobs ≡ job 7 0 ∷ job 7 2 ∷ job no_priority 1 ∷ []
enqueue_between = refl

enqueue_lem_example :
    Ordered (enqueue (job 7 2) two_jobs)
    × (jobs_at 7 (enqueue (job 7 2) two_jobs) ≡ jobs_at 7 two_jobs ++ jobs_at 7 (job 7 2 ∷ []))
    × (length (enqueue (job 7 2) two_jobs) ≡ length two_jobs + 1)
enqueue_lem_example = enqueue_lem (job 7 2) two_jobs 7 two_jobs-Ordered

-- A pool of two threads with one place, started, with one job added and a second caller waiting.
Steps-IsWf_example : IsWf 2 (add_work (add_work (start (alloc 2 1)) 5 6 7) 8 9 7)
Steps-IsWf_example = Steps-IsWf 2 1 (omega arith) (omega arith) (
    then_step (then_step (start-Steps (alloc 2 1)) (adds (start (alloc 2 1)) 5 6 7))
      (adds (add_work (start (alloc 2 1)) 5 6 7) 8 9 7))
