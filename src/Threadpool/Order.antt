-- ===== src/Threadpool/Order.antt =====
-- src/c/threadpool.c: the order of the job queue.
use iotech_c_utils.Common.{
  ℕ, ◌+◌, ◌≤◌, ◌<◌, ◌≡◌, ◌≢◌, ◌⊎◌, refl, inl, inr, arith, true, false, ◌||◌, List, [], ◌∷◌, ◌++◌,
  All, All-append, length, length-append, if◌then◌else◌, ◌==◌, ltb, Bool-cases, append-nil,
}
use iotech_c_utils.Threadpool.{Job, no_priority, insert_job, enqueue}

-- The second job may stand behind the first.
abbrev pub Follows : Job → Job → Type 0
Follows a b = (b.priority ≡ no_priority) ⊎ ((a.priority ≢ no_priority) × (b.priority ≤ a.priority))

-- Jobs with a priority first, the higher before the lower, and those without one behind them.
abbrev pub Ordered : List Job → Type 0
Ordered [] = Unit
Ordered (a ∷ q) = All (Follows a) q × Ordered q

abbrev pub jobs_at : ℕ → List Job → List Job
jobs_at p [] = []
jobs_at p (a ∷ q) = let rest = jobs_at p q in if a.priority == p then a ∷ rest else rest

pub length-insert_job : (job : Job) (q : List Job) → length (insert_job job q) ≡ length q + 1
length-insert_job job [] = omega arith
length-insert_job job (iter ∷ rest) = ground (arith, length-insert_job job rest)

pub length-enqueue : (job : Job) (q : List Job) → length (enqueue job q) ≡ length q + 1
length-enqueue job q = ground (arith, length-insert_job job q, length-append q (job ∷ []))

-- Jobs behind one that the new job overtakes may stand behind the new job.
overtaken :
    (job iter : Job) (q : List Job)
    → job.priority ≢ no_priority
    → (iter.priority ≡ no_priority) ⊎ (iter.priority < job.priority)
    → All (Follows iter) q
    → All (Follows job) q
overtaken job iter [] h i a = tt
overtaken job iter (b ∷ q) h i a = (ground (arith, a.0), overtaken job iter q h i a.1)

insert_behind :
    (iter job : Job) (q : List Job)
    → Follows iter job
    → All (Follows iter) q
    → All (Follows iter) (insert_job job q)
insert_behind iter job [] f a = (f, tt)
insert_behind iter job (b ∷ q) f a =
    elim (Bool-cases ((b.priority == no_priority) || ltb b.priority job.priority)) [
      | inl e ↦ rw e (f, a)
      | inr e ↦ rw e (a.0, insert_behind iter job q f a.1)
    ]

overtakes :
    (iter job : Job)
    → ((iter.priority == no_priority) || ltb iter.priority job.priority) ≡ true
    → (iter.priority ≡ no_priority) ⊎ (iter.priority < job.priority)
overtakes iter job e = ground arith

stays_behind :
    (iter job : Job)
    → ((iter.priority == no_priority) || ltb iter.priority job.priority) ≡ false
    → Follows iter job
stays_behind iter job e = ground arith

insert_job-Ordered :
    (job : Job) (q : List Job) → job.priority ≢ no_priority → Ordered q → Ordered (insert_job job q)
insert_job-Ordered job [] h o = (tt, tt)
insert_job-Ordered job (iter ∷ q) h o =
    elim (Bool-cases ((iter.priority == no_priority) || ltb iter.priority job.priority)) [
      | inl e ↦
          let before = overtakes iter job e in
          rw e ((ground (arith, before), overtaken job iter q h before o.0), o)
      | inr e ↦
          rw e
            (insert_behind iter job q (stays_behind iter job e) o.0, insert_job-Ordered job q h o.1)
    ]

append-Ordered :
    (job : Job) (q : List Job) → job.priority ≡ no_priority → Ordered q → Ordered (q ++ (job ∷ []))
append-Ordered job [] h o = (tt, tt)
append-Ordered job (iter ∷ q) h o =
    (All-append (Follows iter) q (job ∷ []) o.0 (inl h, tt), append-Ordered job q h o.1)

pub enqueue-Ordered : (job : Job) (q : List Job) → Ordered q → Ordered (enqueue job q)
enqueue-Ordered job q o = elim (Bool-cases (job.priority == no_priority)) [
  | inl e ↦ rw e (append-Ordered job q (ground (arith, e)) o)
  | inr e ↦ rw e (insert_job-Ordered job q (ground (arith, e)) o)
]

jobs_at-append : (p : ℕ) (xs ys : List Job) → jobs_at p (xs ++ ys) ≡ jobs_at p xs ++ jobs_at p ys
jobs_at-append p [] ys = refl
jobs_at-append p (a ∷ xs) ys = ground (arith, jobs_at-append p xs ys)

-- None of the jobs from one on that the new job overtakes has its priority.
none_behind :
    (job iter : Job) (q : List Job)
    → job.priority ≢ no_priority
    → (iter.priority ≡ no_priority) ⊎ (iter.priority < job.priority)
    → All (Follows iter) q
    → jobs_at job.priority q ≡ []
none_behind job iter [] h i a = refl
none_behind job iter (b ∷ q) h i a =
    let other : (b.priority == job.priority) ≡ false = ground (arith, a.0) in
    rw other (none_behind job iter q h i a.1)

insert_job-jobs_at :
    (job : Job) (q : List Job) (p : ℕ)
    → job.priority ≢ no_priority
    → Ordered q
    → jobs_at p (insert_job job q) ≡ jobs_at p q ++ jobs_at p (job ∷ [])
insert_job-jobs_at job [] p h o = refl
insert_job-jobs_at job (iter ∷ q) p h o =
    elim (Bool-cases ((iter.priority == no_priority) || ltb iter.priority job.priority)) [
      | inl e ↦
          let before = overtakes iter job e in
          let other : (iter.priority == job.priority) ≡ false = ground (arith, before) in
          ground (arith, none_behind job iter q h before o.0, append-nil (jobs_at p (iter ∷ q)))
      | inr e ↦ ground (arith, insert_job-jobs_at job q p h o.1)
    ]

-- On an ordered queue a new job keeps the order by priority, and it stands behind the jobs of its
-- own priority, while the jobs of every priority keep their order among themselves.
pub enqueue_lem :
    (job : Job) (q : List Job) (p : ℕ)
    → Ordered q
    → Ordered (enqueue job q)
      × (jobs_at p (enqueue job q) ≡ jobs_at p q ++ jobs_at p (job ∷ []))
      × (length (enqueue job q) ≡ length q + 1)
enqueue_lem job q p o = elim (Bool-cases (job.priority == no_priority)) [
  | inl e ↦ (enqueue-Ordered job q o, rw e (jobs_at-append p q (job ∷ [])), length-enqueue job q)
  | inr e ↦ (
    enqueue-Ordered job q o,
    rw e (insert_job-jobs_at job q p (ground (arith, e)) o),
    length-enqueue job q,
  )
]
