-- ===== src/Scheduler/Invariant.antt =====
-- src/c/scheduler.c: the invariant of a scheduler, and the steps that the operations are made of.
use iotech_c_utils.Common.{
  ℕ, suc, ◌≡◌, refl, sym, ap, ◌∙◌, arith, Bool, true, false, not, ◌&&◌, List, [], ◌∷◌, Option, none,
  some, ◌==◌, length,
}
use mathlib.Core.Path.{subst}
use iotech_c_utils.RbTree.{◌>>=◌}
use iotech_c_utils.Scheduler.{
  Schedule, Scheduler, start_of, update, with_schedule, update_start, set_scheduled, taken,
  free_start, insert_start, remove_start, queue_at, queue_add, queue_remove, queue_update, without,
  idle_add, idle_remove,
}
use iotech_c_utils.Scheduler.Queue.{
  has, IsSorted, SameStarts, IsSorted-same, taken_same, has-insert_start, insert_start-IsSorted,
  has-remove_start, remove_start-IsSorted, free_start-taken,
}

-- The queue is in the order of its start times, no two of which are equal; it holds the schedules that
-- are marked as scheduled, and the idle map holds none of those; and no schedule is both concurrent and
-- synchronous.
pub record IsWf (s : Scheduler) : Type 0 where
  pub sorted : IsSorted s.schedule s.queue
  pub queued : (i : ℕ) → has i s.queue ≡ (s.schedule i).scheduled
  pub apart : (i : ℕ) → has i s.idle ≡ true → (s.schedule i).scheduled ≡ false
  pub modes : (i : ℕ) → ((s.schedule i).concurrent && (s.schedule i).sync) ≡ false

pub has-without : (q : List ℕ) (i j : ℕ) → has j (without q i) ≡ (not (j == i) && has j q)
has-without [] i j = ground arith
has-without (k ∷ q) i j = ground (arith, has-without q i j)

-- A schedule off the queue may change its start time.
outside_same :
    (f : ℕ → Schedule) (q : List ℕ) (i : ℕ) (c : Schedule)
    → has i q ≡ false
    → SameStarts f (update f i c) q
outside_same f q i c h j k = ground arith

-- One on the queue may change all but that.
inside_same :
    (f : ℕ → Schedule) (q : List ℕ) (i : ℕ) (c : Schedule)
    → c.start ≡ (f i).start
    → SameStarts f (update f i c) q
inside_same f q i c h j k = ground arith

pub with_schedule-IsWf :
    (s : Scheduler) (i : ℕ) (c : Schedule)
    → IsWf s
    → c.start ≡ start_of s i
    → c.scheduled ≡ (s.schedule i).scheduled
    → (c.concurrent && c.sync) ≡ false
    → IsWf (with_schedule s i c)
with_schedule-IsWf s i c w a b m = record {
  sorted =
      IsSorted-same s.schedule (update s.schedule i c) s.queue
        (inside_same s.schedule s.queue i c a) w.sorted;
  queued = λ j. ground (arith, w.queued j);
  apart = λ j h. ground (arith, w.apart j h);
  modes = λ j. ground (arith, w.modes j);
}

-- A schedule that is not on the queue may change in all else.
pub off_queue-IsWf :
    (s : Scheduler) (i : ℕ) (c : Schedule)
    → IsWf s
    → (s.schedule i).scheduled ≡ false
    → c.scheduled ≡ false
    → (c.concurrent && c.sync) ≡ false
    → IsWf (with_schedule s i c)
off_queue-IsWf s i c w h b m = record {
  sorted =
      IsSorted-same s.schedule (update s.schedule i c) s.queue
        (outside_same s.schedule s.queue i c (w.queued i ∙ h)) w.sorted;
  queued = λ j. ground (arith, w.queued j);
  apart = λ j k. ground (arith, w.apart j k);
  modes = λ j. ground (arith, w.modes j);
}

pub update_start-IsWf :
    (s : Scheduler) (i t : ℕ)
    → IsWf s
    → (s.schedule i).scheduled ≡ false
    → IsWf (update_start s i t)
update_start-IsWf s i t w h =
    off_queue-IsWf s i (record (s.schedule i) { start = t }) w h h (w.modes i)

pub idle_remove-IsWf : (s : Scheduler) (i : ℕ) → IsWf s → IsWf (idle_remove s i)
idle_remove-IsWf s i w = record {
  sorted = w.sorted;
  queued = w.queued;
  apart = λ j h. ground (arith, has-without s.idle i j, w.apart j);
  modes = w.modes;
}

pub idle_add-IsWf :
    (s : Scheduler) (i : ℕ) → IsWf s → (s.schedule i).scheduled ≡ false → IsWf (idle_add s i)
idle_add-IsWf s i w n = record {
  sorted = w.sorted;
  queued = w.queued;
  apart = λ j h. ground (arith, has-without s.idle i j, w.apart j);
  modes = w.modes;
}

queue_at-IsSorted :
    (s : Scheduler) (i t : ℕ)
    → IsWf s
    → (s.schedule i).scheduled ≡ false
    → taken s.schedule s.queue t ≡ false
    → let f = (update_start s i t).schedule in IsSorted f (insert_start f s.queue i)
queue_at-IsSorted s i t w n free =
    let f = (update_start s i t).schedule in
    let out =
      outside_same s.schedule s.queue i (record (s.schedule i) { start = t }) (w.queued i ∙ n) in
    let own : (f i).start ≡ t = ground arith in
    insert_start-IsSorted f s.queue i (IsSorted-same s.schedule f s.queue out w.sorted)
      (rw own (taken_same s.schedule f s.queue t out ∙ free))

-- The queue gains a schedule at a free start time.
pub queue_at-IsWf :
    (s : Scheduler) (i t : ℕ)
    → IsWf s
    → (s.schedule i).scheduled ≡ false
    → has i s.idle ≡ false
    → taken s.schedule s.queue t ≡ false
    → IsWf (queue_at s i t)
queue_at-IsWf s i t w n o free = record {
  sorted =
      IsSorted-same f (set_scheduled (update_start s i t) i true).schedule
        (insert_start f s.queue i)
        (inside_same f (insert_start f s.queue i) i (record (f i) { scheduled = true }) refl)
        (queue_at-IsSorted s i t w n free);
  queued =
      λ j. ground (arith, w.queued j, has-insert_start (update_start s i t).schedule s.queue i j);
  apart = λ j h. ground (arith, w.apart j h);
  modes = λ j. ground (arith, w.modes j);
}
  where
    f : ℕ → Schedule
    f = (update_start s i t).schedule

-- The queue loses a schedule.
pub queue_remove-IsWf :
    (s : Scheduler) (i : ℕ) → IsWf s → (s.schedule i).scheduled ≡ true → IsWf (queue_remove s i)
unfolding queue_remove
queue_remove-IsWf s i w n = record {
  sorted =
      IsSorted-same s.schedule (queue_remove s i).schedule
        (remove_start s.schedule s.queue (start_of s i))
        (inside_same s.schedule (remove_start s.schedule s.queue (start_of s i)) i
          (record (s.schedule i) { scheduled = false }) refl)
        (remove_start-IsSorted s.schedule s.queue (start_of s i) w.sorted);
  queued =
      λ j. ground (arith, w.queued j, w.queued i, has-remove_start s.schedule s.queue i j w.sorted);
  apart = λ j h. ground (arith, w.apart j h);
  modes = λ j. ground (arith, w.modes j);
}

pub some_injective {ℓ} : {A : Type ℓ} {a b : A} → some a ≡ some b → a ≡ b
some_injective e = cc

pub bind_some {ℓ κ} :
    {A : Type ℓ} {B : Type κ} (m : Option A) (f : A → Option B) {b : B}
    → (m >>= f) ≡ some b
    → (a : A) × (m ≡ some a) × (f a ≡ some b)
bind_some none f e = cc
bind_some (some a) f e = (a, refl, e)

pub queue_add-some :
    (s : Scheduler) (i : ℕ) {r : Scheduler × Bool}
    → queue_add s i ≡ some r
    → (t : ℕ) × (taken s.schedule s.queue t ≡ false) × (r.0 ≡ queue_at s i t)
unfolding queue_add
queue_add-some s i e =
    let (t, d, k) =
      bind_some (free_start (suc (length s.queue)) s.schedule s.queue (start_of s i)) _ e in
    (
      t,
      free_start-taken (suc (length s.queue)) s.schedule s.queue (start_of s i) d,
      ap (λ p. p.0) (sym (some_injective k)),
    )

pub queue_add-IsWf :
    (s : Scheduler) (i : ℕ) {r : Scheduler × Bool}
    → IsWf s
    → (s.schedule i).scheduled ≡ false
    → has i s.idle ≡ false
    → queue_add s i ≡ some r
    → IsWf r.0
queue_add-IsWf s i w n o e =
    let (t, free, d) = queue_add-some s i e in subst IsWf (sym d) (queue_at-IsWf s i t w n o free)

-- A schedule on the queue is not idle.
pub scheduled_not_idle :
    (s : Scheduler) (i : ℕ) → IsWf s → (s.schedule i).scheduled ≡ true → has i s.idle ≡ false
scheduled_not_idle s i w h = ground (arith, w.apart i)

pub queue_remove_off : (s : Scheduler) (i : ℕ) → ((queue_remove s i).schedule i).scheduled ≡ false
unfolding queue_remove
queue_remove_off s i = ground arith

pub queue_update-IsWf :
    (s : Scheduler) (i t : ℕ) {r : Scheduler × Bool}
    → IsWf s
    → (s.schedule i).scheduled ≡ true
    → queue_update s i t ≡ some r
    → IsWf r.0
unfolding queue_update
queue_update-IsWf s i t w h e =
    let removed = queue_remove-IsWf s i w h in
    let off = queue_remove_off s i in
    let idle : (queue_remove s i).idle ≡ s.idle = unfold queue_remove in refl in
    queue_add-IsWf (update_start (queue_remove s i) i t) i
      (update_start-IsWf (queue_remove s i) i t removed off) (unfold queue_remove in ground arith)
      (rw idle (scheduled_not_idle s i w h)) e
