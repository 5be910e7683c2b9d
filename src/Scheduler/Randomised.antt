-- ===== src/Scheduler/Randomised.antt =====
-- src/c/scheduler.c, `iot_schedule_add_randomised` of a schedule that is on the queue already.
use iotech_c_utils.Common.{
  ℕ, ◌+◌, ◌-◌, ◌%◌, ◌^◌, ◌≤◌, ◌≡◌, ◌≢◌, arith, true, false, List, ◌∷◌, some, if◌then◌else◌, ltb,
  ==_self,
}
use mathlib.Core.Path.{subst}
use iotech_c_utils.Scheduler.{Schedule, Scheduler, start_of, update_start, add, add_randomised}
use iotech_c_utils.Scheduler.Queue.{IsSorted}

-- The delay before a randomised start.
abbrev pub interval : Schedule → ℕ → ℕ
interval c deadband = if ltb deadband c.period then c.period - deadband else c.period

not_above :
    (s : Scheduler) (i j t : ℕ) (q : List ℕ)
    → i ≢ j
    → start_of s j ≤ t
    → ¬ IsSorted (update_start s i t).schedule (i ∷ j ∷ q)
not_above s i j t q n late sorted =
    let own : start_of (update_start s i t) i ≡ t = ground arith in
    let other : start_of (update_start s i t) j ≡ start_of s j = ground arith in
    omega (arith, own, other, sorted.0.0)

-- Where a scheduled one that is first on the queue is added again at a random start at or after that of
-- the second, another one: the call returns false and yet changes the start time, the key of the queue,
-- so the queue is no longer in the order of its keys.
pub randomised_breaks :
    (s : Scheduler) (i j : ℕ) (q : List ℕ) (deadband : ℕ) (delay : ℕ → ℕ) (now : ℕ)
    → s.queue ≡ i ∷ j ∷ q
    → i ≢ j
    → (s.schedule i).scheduled ≡ true
    → start_of s j ≤ (delay (interval (s.schedule i) deadband) + now) % 2 ^ 64
    → (s' : Scheduler) × (add_randomised s i deadband delay now ≡ some (s', false))
      × ¬ IsSorted s'.schedule s'.queue
unfolding add_randomised add
randomised_breaks s i j q deadband delay now e n on late =
    let t = (delay (interval (s.schedule i) deadband) + now) % 2 ^ 64 in
    (
      update_start s i t,
      rw (==_self i, on),
      λ sorted.
          not_above s i j t q n late (subst (IsSorted (update_start s i t).schedule) e sorted),
    )
