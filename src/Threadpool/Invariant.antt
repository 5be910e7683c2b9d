-- ===== src/Threadpool/Invariant.antt =====
-- src/c/threadpool.c: what holds of a pool whatever its callers and threads do.
use mathlib.Core.Path.{subst}
use iotech_c_utils.Common.{
  ℕ, ◌+◌, ◌-◌, ◌%◌, ◌^◌, ◌≤◌, ◌<◌, ◌≡◌, ◌⊎◌, refl, sym, ap, ◌∙◌, inl, inr, arith, Bool, true, false,
  List, [], ◌∷◌, length, if◌then◌else◌, ◌==◌, ltb, Bool-cases,
}
use iotech_c_utils.Component.{deleted, set_state}
use iotech_c_utils.Component.States.{set_state-deleted}
use iotech_c_utils.Threadpool.{
  Job, Pool, signal_job, broadcast_job, add_work_locked, try_work, add_work, pull, finish_job,
  enter, alloc, Step, tries, adds, turns, finishes, wakes, enters, broadcasts, exits, Steps, done,
  then_step,
}
use iotech_c_utils.Threadpool.Order.{Ordered, length-enqueue, enqueue-Ordered}

-- `jobs` counts the queue and stays within its bound; the queue is ordered; the threads add up; no
-- thread sleeps on `job_cond` while there are more jobs than awake threads, unless the pool is
-- deleted; and no caller waits on `queue_cond` while the queue has space.
pub record IsWf (threads : ℕ) (p : Pool) : Type 0 where
  pub counted : p.jobs ≡ length p.front
  pub bounded : p.jobs ≤ p.max_jobs
  pub max_fits : p.max_jobs < 2 ^ 32
  pub max_positive : 0 < p.max_jobs
  pub staffed : p.working + p.awake + p.asleep ≤ threads
  pub threads_fit : threads < 2 ^ 16
  pub ordered : Ordered p.front
  pub woken : (p.state ≡ deleted) ⊎ ((p.asleep ≡ 0) ⊎ (p.jobs ≤ p.awake))
  pub unblocked : (p.blocked ≡ 0) ⊎ (p.jobs ≡ p.max_jobs)

module _ (threads : ℕ) where
  add_work_locked-IsWf :
      (p : Pool) (f a prio : ℕ)
      → p.jobs < p.max_jobs
      → IsWf threads p
      → IsWf threads (add_work_locked p f a prio)
  add_work_locked-IsWf p f a prio lt h =
      let job : Job = record { function = f; arg = a; priority = prio; id = p.next_id } in
      let unb : p.blocked ≡ 0 = elim h.unblocked [
        | inl e ↦ e
        | inr e ↦ absurd (omega (arith, e, lt))
      ] in
      record {
        counted = omega (arith, h.counted, h.max_fits, length-enqueue job p.front);
        bounded = omega (arith, h.max_fits);
        max_fits = h.max_fits;
        max_positive = h.max_positive;
        staffed = ground (arith, h.staffed);
        threads_fit = h.threads_fit;
        ordered = enqueue-Ordered job p.front h.ordered;
        woken = ground (arith, h.woken, h.max_fits);
        unblocked = inl unb;
      }

  if-IsWf :
      (b : Bool) (x y : Pool)
      → (b ≡ true → IsWf threads x)
      → (b ≡ false → IsWf threads y)
      → IsWf threads (if b then x else y)
  if-IsWf true x y f g = f refl
  if-IsWf false x y f g = g refl

  add_work-IsWf : (p : Pool) (f a prio : ℕ) → IsWf threads p → IsWf threads (add_work p f a prio)
  add_work-IsWf p f a prio h =
      if-IsWf (p.jobs == p.max_jobs) (record p { blocked = p.blocked + 1 })
        (add_work_locked p f a prio)
        (λ e. record {
          counted = h.counted;
          bounded = h.bounded;
          max_fits = h.max_fits;
          max_positive = h.max_positive;
          staffed = h.staffed;
          threads_fit = h.threads_fit;
          ordered = h.ordered;
          woken = h.woken;
          unblocked = inr (ground (arith, e));
        })
        (λ e. add_work_locked-IsWf p f a prio (ground (arith, e, h.bounded)) h)

  try_work-IsWf : (p : Pool) (f a prio : ℕ) → IsWf threads p → IsWf threads (try_work p f a prio).0
  try_work-IsWf p f a prio h = elim (Bool-cases (ltb p.jobs p.max_jobs)) [
    | inl e ↦ rw e (add_work_locked-IsWf p f a prio (ground (arith, e)) h)
    | inr e ↦ rw e h
  ]

  emptied : (n : ℕ) (rest : List Job) → n ≡ length rest → (if n == 0 then [] else rest) ≡ rest
  emptied n [] e = ground arith
  emptied n (job ∷ rest) e = ground (arith, e)

  pull-IsWf :
      (p : Pool) (q : List Job)
      → p.front ≡ q
      → 0 < p.awake
      → IsWf threads p
      → IsWf threads (pull p q).0
  pull-IsWf p [] e a h = record {
    counted = h.counted;
    bounded = h.bounded;
    max_fits = h.max_fits;
    max_positive = h.max_positive;
    staffed = omega (arith, h.staffed);
    threads_fit = h.threads_fit;
    ordered = h.ordered;
    woken = inr (inr (omega (arith, h.counted, ap length e)));
    unblocked = h.unblocked;
  }
  pull-IsWf p (first ∷ rest) e a h =
      let left : (p.jobs + 2 ^ 32 - 1) % 2 ^ 32 ≡ length rest =
        omega (arith, h.counted, h.bounded, h.max_fits, ap length e) in
      let kept = emptied ((p.jobs + 2 ^ 32 - 1) % 2 ^ 32) rest left in
      record {
        counted = left ∙ ap length (sym kept);
        bounded = omega (arith, h.bounded, h.counted, ap length e);
        max_fits = h.max_fits;
        max_positive = h.max_positive;
        staffed = omega (arith, h.staffed, h.threads_fit);
        threads_fit = h.threads_fit;
        ordered = subst Ordered (sym kept) (subst Ordered e h.ordered).1;
        woken = ground (arith, h.woken, left, h.counted, ap length e);
        unblocked =
            ground (arith, h.unblocked, left, h.counted, h.max_fits, h.bounded, ap length e);
      }

  finish_job-IsWf : (p : Pool) → 0 < p.working → IsWf threads p → IsWf threads (finish_job p)
  finish_job-IsWf p w h = record {
    counted = h.counted;
    bounded = h.bounded;
    max_fits = h.max_fits;
    max_positive = h.max_positive;
    staffed = omega (arith, h.staffed, h.threads_fit);
    threads_fit = h.threads_fit;
    ordered = h.ordered;
    woken = ground (arith, h.woken);
    unblocked = h.unblocked;
  }

  enter-IsWf : (p : Pool) (state : ℕ) → IsWf threads p → IsWf threads (enter p state)
  enter-IsWf p state h = record {
    counted = h.counted;
    bounded = h.bounded;
    max_fits = h.max_fits;
    max_positive = h.max_positive;
    staffed = h.staffed;
    threads_fit = h.threads_fit;
    ordered = h.ordered;
    woken = elim h.woken [
      | inl e ↦ inl (ap (λ s. (set_state s state).0) e ∙ set_state-deleted state)
      | inr e ↦ inr e
    ];
    unblocked = h.unblocked;
  }

  broadcast_job-IsWf : (p : Pool) → IsWf threads p → IsWf threads (broadcast_job p)
  broadcast_job-IsWf p h = record {
    counted = h.counted;
    bounded = h.bounded;
    max_fits = h.max_fits;
    max_positive = h.max_positive;
    staffed = omega (arith, h.staffed);
    threads_fit = h.threads_fit;
    ordered = h.ordered;
    woken = inr (inl refl);
    unblocked = h.unblocked;
  }

  signal_job-IsWf : (p : Pool) → 0 < p.asleep → IsWf threads p → IsWf threads (signal_job p)
  signal_job-IsWf p w h = record {
    counted = h.counted;
    bounded = h.bounded;
    max_fits = h.max_fits;
    max_positive = h.max_positive;
    staffed = ground (arith, h.staffed);
    threads_fit = h.threads_fit;
    ordered = h.ordered;
    woken = ground (arith, h.woken);
    unblocked = h.unblocked;
  }

  exit-IsWf :
      (p : Pool)
      → p.state ≡ deleted
      → IsWf threads p
      → IsWf threads (record p { awake = p.awake - 1 })
  exit-IsWf p e h = record {
    counted = h.counted;
    bounded = h.bounded;
    max_fits = h.max_fits;
    max_positive = h.max_positive;
    staffed = omega (arith, h.staffed);
    threads_fit = h.threads_fit;
    ordered = h.ordered;
    woken = inl e;
    unblocked = h.unblocked;
  }

  Step-IsWf : {p q : Pool} → Step p q → IsWf threads p → IsWf threads q
  Step-IsWf (tries p f a prio) h = try_work-IsWf p f a prio h
  Step-IsWf (adds p f a prio) h = add_work-IsWf p f a prio h
  Step-IsWf (turns p e a) h = pull-IsWf p p.front refl a h
  Step-IsWf (finishes p w) h = finish_job-IsWf p w h
  Step-IsWf (wakes p w) h = signal_job-IsWf p w h
  Step-IsWf (enters p state) h = enter-IsWf p state h
  Step-IsWf (broadcasts p) h = broadcast_job-IsWf p h
  Step-IsWf (exits p e a) h = exit-IsWf p e h

  alloc-IsWf :
      (max_jobs : ℕ) → threads < 2 ^ 16 → max_jobs < 2 ^ 32 → IsWf threads (alloc threads max_jobs)
  alloc-IsWf max_jobs t m = record {
    counted = refl;
    bounded = omega arith;
    max_fits = ground arith;
    max_positive = ground arith;
    staffed = omega arith;
    threads_fit = t;
    ordered = tt;
    woken = inr (inl refl);
    unblocked = inl refl;
  }

  IsWf-Steps : {p q : Pool} → Steps p q → IsWf threads p → IsWf threads q
  IsWf-Steps (done p) h = h
  IsWf-Steps (then_step s t) h = Step-IsWf t (IsWf-Steps s h)

-- Whatever callers and threads do, in whatever order, from the allocation of a pool on: the count of
-- jobs is the length of the queue and within its bound, the queue is ordered by priority, no more
-- threads work, wait or run than there are, no thread sleeps on `job_cond` while there are more jobs
-- than awake threads unless the pool is deleted, and no caller waits on `queue_cond` unless the
-- queue is full.
pub Steps-IsWf :
    (threads max_jobs : ℕ) {p : Pool}
    → threads < 2 ^ 16
    → max_jobs < 2 ^ 32
    → Steps (alloc threads max_jobs) p
    → IsWf threads p
Steps-IsWf threads max_jobs t m s = IsWf-Steps threads s (alloc-IsWf threads max_jobs t m)
