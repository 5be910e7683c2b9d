-- ===== src/Scheduler.antt =====
-- src/c/scheduler.c: schedules, the queue ordered by start time, the idle map, and the pass of the
-- scheduler thread over the front of the queue. A schedule is known by its id; `none` means that the
-- search for a free start time ran out of fuel. The callbacks at a run and at an abort are not
-- modelled, nor the wait between two passes.
pub mod Queue
pub mod Invariant
pub mod Steps
pub mod Pass
pub mod Randomised
mod Tests
use iotech_c_utils.Common.{
  ℕ, zero, suc, ◌+◌, ◌-◌, ◌*◌, ◌%◌, ◌^◌, Bool, true, false, not, ◌&&◌, ◌||◌, List, [], ◌∷◌, Option,
  none, some, if◌then◌else◌, ◌==◌, ltb, leb, length,
}
use iotech_c_utils.RbTree.{◌>>=◌}

-- `iot_schedule_t`; `pooled` where it has a thread pool.
pub record Schedule : Type 0 where
  pub period : ℕ
  pub start : ℕ
  pub repeat : ℕ
  pub dropped : ℕ
  pub refs : ℕ
  pub concurrent : Bool
  pub sync : Bool
  pub scheduled : Bool
  pub pooled : Bool

-- The queue holds the ids of its schedules in the order of its keys, which are their start times, read
-- through the schedules; the idle map holds ids.
pub record Scheduler : Type 0 where
  pub schedule : ℕ → Schedule
  pub queue : List ℕ
  pub idle : List ℕ

abbrev pub start_of : Scheduler → ℕ → ℕ
start_of s i = (s.schedule i).start

abbrev pub update : (ℕ → Schedule) → ℕ → Schedule → ℕ → Schedule
update f i c j = if i == j then c else f j

abbrev pub with_schedule : Scheduler → ℕ → Schedule → Scheduler
with_schedule s i c = record s { schedule = update s.schedule i c }

-- `iot_schedule_add_ref`, and the count that `iot_schedule_dec_ref` leaves.
abbrev pub add_ref : Schedule → Schedule
add_ref c = record c { refs = c.refs + 1 }

abbrev pub dec_ref : Schedule → Schedule
dec_ref c = record c { refs = c.refs - 1 }

-- `iot_schedule_update_start`.
abbrev pub update_start : Scheduler → ℕ → ℕ → Scheduler
update_start s i t = with_schedule s i (record (s.schedule i) { start = t })

abbrev pub set_scheduled : Scheduler → ℕ → Bool → Scheduler
set_scheduled s i b = with_schedule s i (record (s.schedule i) { scheduled = b })

-- `iot_schedule_queue_next` and `iot_schedule_is_next`.
abbrev pub queue_next : List ℕ → Option ℕ
queue_next [] = none
queue_next (i ∷ q) = some i

abbrev pub is_next : List ℕ → ℕ → Bool
is_next [] i = false
is_next (j ∷ q) i = i == j

-- `iot_data_map_get` of a start time in the queue.
abbrev pub taken : (ℕ → Schedule) → List ℕ → ℕ → Bool
taken f [] t = false
taken f (j ∷ q) t = (f j).start == t || taken f q t

-- `while (iot_data_map_get (...))`: the first start time from `t` on that is free.
unfoldable pub free_start : ℕ → (ℕ → Schedule) → List ℕ → ℕ → Option ℕ
free_start zero f q t = none
free_start (suc fuel) f q t =
    let later = free_start fuel f q ((t + 1) % 2 ^ 64) in if taken f q t then later else some t

-- `iot_data_map_add` of a schedule, and `iot_data_map_remove` of a start time.
abbrev pub insert_start : (ℕ → Schedule) → List ℕ → ℕ → List ℕ
insert_start f [] i = i ∷ []
insert_start f (j ∷ q) i = if ltb (f i).start (f j).start then i ∷ j ∷ q else j ∷ insert_start f q i

abbrev pub remove_start : (ℕ → Schedule) → List ℕ → ℕ → List ℕ
remove_start f [] t = []
remove_start f (j ∷ q) t = if (f j).start == t then q else j ∷ remove_start f q t

-- `iot_schedule_queue_add`, with its result.
abbrev pub queue_at : Scheduler → ℕ → ℕ → Scheduler
queue_at s i t =
    let s' = update_start s i t in
    set_scheduled (record s' { queue = insert_start s'.schedule s'.queue i }) i true

unfoldable pub queue_add : Scheduler → ℕ → Option (Scheduler × Bool)
unfolding free_start
queue_add s i = free_start (suc (length s.queue)) s.schedule s.queue (start_of s i) >>= λ t.
    let s' = queue_at s i t in some (s', is_next s'.queue i)

-- `iot_schedule_idle_add` and `iot_schedule_idle_remove`.
abbrev pub without : List ℕ → ℕ → List ℕ
without [] i = []
without (j ∷ q) i = let rest = without q i in if j == i then rest else j ∷ rest

abbrev pub idle_add : Scheduler → ℕ → Scheduler
idle_add s i = record s { idle = i ∷ without s.idle i }

abbrev pub idle_remove : Scheduler → ℕ → Scheduler
idle_remove s i = record s { idle = without s.idle i }

-- `iot_schedule_queue_remove`.
unfoldable pub queue_remove : Scheduler → ℕ → Scheduler
queue_remove s i =
    set_scheduled (record s { queue = remove_start s.schedule s.queue (start_of s i) }) i false

-- `iot_schedule_queue_update`.
unfoldable pub queue_update : Scheduler → ℕ → ℕ → Option (Scheduler × Bool)
queue_update s i t = queue_add (update_start (queue_remove s i) i t) i

-- `iot_schedule_set_concurrent`, and `iot_schedule_set_sync` with its result.
unfoldable pub set_concurrent : Scheduler → ℕ → Bool → Scheduler
set_concurrent s i enable =
    let c = s.schedule i in
    if enable && c.sync then s else with_schedule s i (record c { concurrent = enable })

unfoldable pub set_sync : Scheduler → ℕ → Bool → Scheduler × Bool
set_sync s i enable =
    let c = s.schedule i in
    if enable && c.concurrent
    then (s, false)
    else (with_schedule s i (record c { sync = enable }), true)

-- `iot_schedule_create` at a time, for the next id.
unfoldable pub create : Scheduler → ℕ → ℕ → ℕ → ℕ → ℕ → Bool → Scheduler
create s i now period delay repeat pooled =
    idle_add
      (with_schedule s i (record {
        period = period;
        start = (now + delay) % 2 ^ 64;
        repeat = repeat;
        dropped = 0;
        refs = 1;
        concurrent = false;
        sync = false;
        scheduled = false;
        pooled = pooled;
      }))
      i

-- `iot_schedule_add`, with its result.
unfoldable pub add : Scheduler → ℕ → Option (Scheduler × Bool)
add s i =
    let added = queue_add (idle_remove s i) i >>= λ r. some (r.0, true) in
    if (s.schedule i).scheduled then some (s, false) else added

-- `iot_schedule_add_randomised`; `delay` is the random part of the interval.
unfoldable pub add_randomised : Scheduler → ℕ → ℕ → (ℕ → ℕ) → ℕ → Option (Scheduler × Bool)
add_randomised s i deadband delay now =
    let c = s.schedule i in
    let interval = if ltb deadband c.period then c.period - deadband else c.period in
    add (update_start s i ((delay interval + now) % 2 ^ 64)) i

-- `iot_schedule_remove`, with its result.
unfoldable pub remove : Scheduler → ℕ → Scheduler × Bool
remove s i = if (s.schedule i).scheduled then (idle_add (queue_remove s i) i, true) else (s, false)

-- `iot_schedule_reset`.
unfoldable pub reset : Scheduler → ℕ → ℕ → ℕ → Option Scheduler
reset s i delay now =
    let next = ((s.schedule i).period + now + delay) % 2 ^ 64 in
    let queued = queue_update s i next >>= λ r. some r.0 in
    if (s.schedule i).scheduled then queued else some (update_start s i next)

-- `iot_schedule_delete`: the schedule leaves its map and loses a reference.
unfoldable pub delete : Scheduler → ℕ → Scheduler
delete s i =
    let s' = if (s.schedule i).scheduled then queue_remove s i else idle_remove s i in
    with_schedule s' i (dec_ref (s'.schedule i))

-- `schedule_fn`, after the function of the schedule, on another thread.
abbrev pub finish_run : Scheduler → ℕ → Scheduler
finish_run s i = with_schedule s i (dec_ref (s.schedule i))

-- The run of a schedule: `none` if it is skipped; or the schedule afterwards and `valid_current`.
-- `accepted` is the result of the thread pool, or of the creation of a thread.
unfoldable pub run : Bool → Schedule → Schedule × Bool
run accepted c =
    let c' = add_ref c in
    if not (c.concurrent || c.refs == 1)
    then (c, c.scheduled)
    else if c.sync
    then (dec_ref c', c.scheduled)
    else if accepted
    then (c', c.scheduled)
    else if c.pooled
    then (dec_ref (record c' { dropped = c.dropped + 1 }), ltb 1 c'.refs && c.scheduled)
    else (dec_ref c', ltb 1 c'.refs)

-- `if (valid_current)`: after the last repetition the schedule becomes idle, or else it is queued for
-- its next start.
unfoldable pub settle : Scheduler → ℕ → ℕ → Option Scheduler
settle s i now =
    let c = s.schedule i in
    let next = (c.period + now) % 2 ^ 64 in
    let counted = with_schedule s i (record c { repeat = c.repeat - 1 }) in
    if c.repeat == 1
    then some (idle_add (queue_remove counted i) i)
    else queue_update counted i next >>= λ r. some r.0

-- The schedule at the front of the queue, if it is ready at `now`; `later` is the time that its next
-- start is counted from.
unfoldable pub run_front : Scheduler → ℕ → ℕ → ℕ → Bool → Option Scheduler
run_front s i now later accepted =
    let r = run accepted (s.schedule i) in
    let s' = with_schedule s i r.0 in
    let settled = if r.1 then settle s' i later else some s' in
    if ltb (start_of s i) now then settled else some s

-- One pass of `iot_scheduler_thread` while the component runs.
unfoldable pub pass : Scheduler → ℕ → ℕ → Bool → Option Scheduler
pass s now later accepted = elim (queue_next s.queue) [
  | none ↦ some s
  | some i ↦ run_front s i now later accepted
]

-- When the thread wakes next: at the first start, or after `IOT_SCHEDULER_DEFAULT_WAKE`.
abbrev pub default_wake : ℕ
default_wake = 24 * 3600 * 1000000000

unfoldable pub next_wake : Scheduler → ℕ → ℕ
next_wake s now = elim (queue_next s.queue) [
  | none ↦ (now + default_wake) % 2 ^ 64
  | some i ↦ start_of s i
]
