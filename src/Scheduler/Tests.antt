-- ===== src/Scheduler/Tests.antt =====
-- src/c/scheduler.c: schedulers with a few schedules, and the theorems at them.
use iotech_c_utils.Common.{
  ℕ, ◌≡◌, refl, arith, Bool, true, false, [], ◌∷◌, some, if◌then◌else◌, ◌==◌,
}
use iotech_c_utils.Scheduler.{Schedule, Scheduler, free_start, create, add_randomised}
use iotech_c_utils.Scheduler.Queue.{IsSorted}
use iotech_c_utils.Scheduler.Randomised.{randomised_breaks}

abbrev plain : (start repeat : ℕ) → Bool → Schedule
plain start repeat scheduled = record {
  period = 10;
  start = start;
  repeat = repeat;
  dropped = 0;
  refs = 1;
  concurrent = false;
  sync = false;
  scheduled = scheduled;
  pooled = false;
}

-- Schedule 1 at 100 with two repetitions and schedule 2 at 105 without a limit are on the queue.
abbrev at_work : Scheduler
at_work = record {
  schedule = λ i.
      if i == 1 then plain 100 2 true else if i == 2 then plain 105 0 true else plain 0 0 false;
  queue = 1 ∷ 2 ∷ [];
  idle = [];
}

abbrev unused : Scheduler
unused = record { schedule = λ i. plain 0 0 false; queue = []; idle = [] }

abbrev created : Scheduler
created = create unused 7 50 10 5 1 false

-- The next two start times after 100 are taken.
searches : free_start 3 at_work.schedule (1 ∷ 2 ∷ []) 105 ≡ some 106
unfolding free_start
searches = refl

-- Schedule 1 is added again at 104 and 3.
randomised_breaks_example :
    (s' : Scheduler) × (add_randomised at_work 1 2 (λ n. 3) 104 ≡ some (s', false))
    × ¬ IsSorted s'.schedule s'.queue
randomised_breaks_example =
    randomised_breaks at_work 1 2 [] 2 (λ n. 3) 104 refl (omega arith) refl (omega arith)
