-- ===== src/Scheduler/Steps.antt =====
-- src/c/scheduler.c: the operations and the passes of the thread as steps, and the invariant.
use iotech_c_utils.Common.{
  ℕ, ◌+◌, ◌-◌, ◌%◌, ◌^◌, ◌≡◌, ◌<◌, refl, sym, ◌∙◌, arith, Bool, true, false, ◌&&◌, List, [], ◌∷◌,
  some, ◌==◌, ltb, Bool-cases, Option-cases, inl, inr,
}
use mathlib.Core.Path.{subst}
use iotech_c_utils.Scheduler.{
  Schedule, Scheduler, start_of, with_schedule, update_start, queue_add, queue_remove, queue_update,
  idle_add, idle_remove, set_concurrent, set_sync, create, add, add_randomised, remove, reset,
  delete, run, settle, run_front, pass, dec_ref, queue_next, finish_run,
}
use iotech_c_utils.Scheduler.Queue.{has}
use iotech_c_utils.Scheduler.Invariant.{
  IsWf, has-without, with_schedule-IsWf, update_start-IsWf, idle_remove-IsWf, idle_add-IsWf,
  queue_remove-IsWf, queue_add-IsWf, queue_update-IsWf, bind_some, some_injective, off_queue-IsWf,
  queue_remove_off,
}

-- A step of the application, with an id that is new or is that of a schedule, of the scheduler's
-- thread, or of a thread that ends the run of a schedule.
pub data Step : Scheduler → Scheduler → Type 0 where
  creates :
      {s : Scheduler} (i now period delay repeat : ℕ) (pooled : Bool)
      → (s.schedule i).scheduled ≡ false
      → Step s (create s i now period delay repeat pooled)
  adds : {s s' : Scheduler} (i : ℕ) (done : Bool) → add s i ≡ some (s', done) → Step s s'
  adds_randomised :
      {s s' : Scheduler} (i deadband : ℕ) (delay : ℕ → ℕ) (now : ℕ) (done : Bool)
      → add_randomised s i deadband delay now ≡ some (s', done)
      → Step s s'
  removes : {s : Scheduler} (i : ℕ) → Step s (remove s i).0
  resets : {s s' : Scheduler} (i delay now : ℕ) → reset s i delay now ≡ some s' → Step s s'
  deletes : {s : Scheduler} (i : ℕ) → Step s (delete s i)
  sets_concurrent : {s : Scheduler} (i : ℕ) (enable : Bool) → Step s (set_concurrent s i enable)
  sets_sync : {s : Scheduler} (i : ℕ) (enable : Bool) → Step s (set_sync s i enable).0
  passes :
      {s s' : Scheduler} (now later : ℕ) (accepted : Bool)
      → pass s now later accepted ≡ some s'
      → Step s s'
  finishes : {s : Scheduler} (i : ℕ) → 0 < (s.schedule i).refs → Step s (finish_run s i)

-- A schedule is added at a random start only while it is not on the queue: on the queue, its start is
-- the key of its entry, which the operation changes in place.
abbrev pub KeepsKeys : {s t : Scheduler} → Step s t → Type 0
KeepsKeys {s} (adds_randomised i deadband delay now done e) = (s.schedule i).scheduled ≡ false
KeepsKeys _ = Unit

pub data Reach (s : Scheduler) : Scheduler → Type 0 where
  here : Reach s s
  next : {t u : Scheduler} → Reach s t → (st : Step t u) → KeepsKeys st → Reach s u

set_concurrent-IsWf : (s : Scheduler) (i : ℕ) (b : Bool) → IsWf s → IsWf (set_concurrent s i b)
unfolding set_concurrent
set_concurrent-IsWf s i b w = elim (Bool-cases (b && (s.schedule i).sync)) [
  | inl e ↦ rw e w
  | inr e ↦ rw e (with_schedule-IsWf s i (record (s.schedule i) { concurrent = b }) w refl refl e)
]

set_sync-IsWf : (s : Scheduler) (i : ℕ) (b : Bool) → IsWf s → IsWf (set_sync s i b).0
unfolding set_sync
set_sync-IsWf s i b w = elim (Bool-cases (b && (s.schedule i).concurrent)) [
  | inl e ↦ rw e w
  | inr e ↦
      rw e (with_schedule-IsWf s i (record (s.schedule i) { sync = b }) w refl refl (ground arith))
]

create-IsWf :
    (s : Scheduler) (i now period delay repeat : ℕ) (pooled : Bool)
    → IsWf s
    → (s.schedule i).scheduled ≡ false
    → IsWf (create s i now period delay repeat pooled)
unfolding create
create-IsWf s i now period delay repeat pooled w h =
    idle_add-IsWf _ i (off_queue-IsWf s i _ w h refl refl) (ground arith)

add-IsWf : (s s' : Scheduler) (i : ℕ) (done : Bool) → IsWf s → add s i ≡ some (s', done) → IsWf s'
unfolding add
add-IsWf s s' i done w e = elim (Bool-cases (s.schedule i).scheduled) [
  | inl h ↦ let same : s ≡ s' = ground arith in subst IsWf same w
  | inr h ↦
      let (r, d, k) =
        bind_some (queue_add (idle_remove s i) i) (λ r. some (r.0, true)) (rw h at e) in
      let same : r.0 ≡ s' = ground arith in
      subst IsWf same (
        queue_add-IsWf (idle_remove s i) i (idle_remove-IsWf s i w) h
          (ground (arith, has-without s.idle i i)) d)
]

remove-IsWf : (s : Scheduler) (i : ℕ) → IsWf s → IsWf (remove s i).0
unfolding remove
remove-IsWf s i w = elim (Bool-cases (s.schedule i).scheduled) [
  | inl h ↦
      rw h (idle_add-IsWf (queue_remove s i) i (queue_remove-IsWf s i w h) (queue_remove_off s i))
  | inr h ↦ rw h w
]

reset-IsWf : (s s' : Scheduler) (i delay now : ℕ) → IsWf s → reset s i delay now ≡ some s' → IsWf s'
unfolding reset
reset-IsWf s s' i delay now w e =
    let t = ((s.schedule i).period + now + delay) % 2 ^ 64 in
    elim (Bool-cases (s.schedule i).scheduled) [
      | inl h ↦
          let (r, d, k) = bind_some (queue_update s i t) (λ r. some r.0) (rw h at e) in
          let same : r.0 ≡ s' = ground arith in subst IsWf same (queue_update-IsWf s i t w h d)
      | inr h ↦
          let same : update_start s i t ≡ s' = ground arith in
          subst IsWf same (update_start-IsWf s i t w h)
    ]

delete-IsWf : (s : Scheduler) (i : ℕ) → IsWf s → IsWf (delete s i)
unfolding delete
delete-IsWf s i w = elim (Bool-cases (s.schedule i).scheduled) [
  | inl h ↦ rw h (
      with_schedule-IsWf (queue_remove s i) i (dec_ref ((queue_remove s i).schedule i))
        (queue_remove-IsWf s i w h) refl refl ((queue_remove-IsWf s i w h).modes i))
  | inr h ↦ rw h (
      with_schedule-IsWf (idle_remove s i) i (dec_ref (s.schedule i)) (idle_remove-IsWf s i w) refl
        refl (w.modes i))
]

-- A run changes the counts of a schedule only.
pub run_keeps :
    (accepted : Bool) (c : Schedule)
    → ((run accepted c).0.start ≡ c.start)
      × ((run accepted c).0.scheduled ≡ c.scheduled)
      × ((run accepted c).0.concurrent ≡ c.concurrent)
      × ((run accepted c).0.sync ≡ c.sync)
      × ((run accepted c).0.period ≡ c.period)
      × ((run accepted c).0.repeat ≡ c.repeat)
unfolding run
run_keeps accepted c = ground arith

settle-IsWf :
    (s s' : Scheduler) (i now : ℕ)
    → IsWf s
    → (s.schedule i).scheduled ≡ true
    → settle s i now ≡ some s'
    → IsWf s'
unfolding settle
settle-IsWf s s' i now w h e = elim (Bool-cases ((s.schedule i).repeat == 1)) [
  | inl d ↦
      let same : idle_add (queue_remove counted i) i ≡ s' = some_injective (rw d at e) in
      subst IsWf same (
        idle_add-IsWf (queue_remove counted i) i (queue_remove-IsWf counted i kept on)
          (queue_remove_off counted i))
  | inr d ↦
      let (r, u, k) = bind_some (queue_update counted i t) (λ r. some r.0) (rw d at e) in
      subst IsWf (some_injective k) (queue_update-IsWf counted i t kept on u)
]
  where
    counted : Scheduler
    counted = with_schedule s i (record (s.schedule i) { repeat = (s.schedule i).repeat - 1 })

    t : ℕ
    t = ((s.schedule i).period + now) % 2 ^ 64

    kept : IsWf counted
    kept =
        with_schedule-IsWf s i (record (s.schedule i) { repeat = (s.schedule i).repeat - 1 }) w refl
          refl (w.modes i)

    on : (counted.schedule i).scheduled ≡ true
    on = ground arith

pub queue_next-has : (q : List ℕ) {i : ℕ} → queue_next q ≡ some i → has i q ≡ true
queue_next-has [] e = cc
queue_next-has (j ∷ q) e = ground arith

run_front-IsWf :
    (s s' : Scheduler) (i now later : ℕ) (accepted : Bool)
    → IsWf s
    → (s.schedule i).scheduled ≡ true
    → run_front s i now later accepted ≡ some s'
    → IsWf s'
unfolding run_front
run_front-IsWf s s' i now later accepted w h e = elim (Bool-cases (ltb (start_of s i) now)) [
  | inr d ↦ subst IsWf (some_injective (rw d at e)) w
  | inl d ↦ elim (Bool-cases (run accepted (s.schedule i)).1) [
    | inl v ↦ settle-IsWf ran s' i later kept on (rw (d, v) at e)
    | inr v ↦ subst IsWf (some_injective (rw (d, v) at e)) kept
  ]
]
  where
    c : Schedule
    c = (run accepted (s.schedule i)).0

    ran : Scheduler
    ran = with_schedule s i c

    kept : IsWf ran
    kept =
        let k = run_keeps accepted (s.schedule i) in
        with_schedule-IsWf s i c w k.0 k.1 (rw (k.2, k.3) (w.modes i))

    on : (ran.schedule i).scheduled ≡ true
    on = ground (arith, run_keeps accepted (s.schedule i))

pass-IsWf :
    (s s' : Scheduler) (now later : ℕ) (accepted : Bool)
    → IsWf s
    → pass s now later accepted ≡ some s'
    → IsWf s'
unfolding pass
pass-IsWf s s' now later accepted w e = elim (Option-cases (queue_next s.queue)) [
  | inl d ↦ subst IsWf (some_injective (rw (d, pass) at e)) w
  | inr (i, d) ↦
      run_front-IsWf s s' i now later accepted w (sym (w.queued i) ∙ queue_next-has s.queue d)
        (rw (d, pass) at e)
]

add_randomised-IsWf :
    (s s' : Scheduler) (i deadband : ℕ) (delay : ℕ → ℕ) (now : ℕ) (done : Bool)
    → IsWf s
    → (s.schedule i).scheduled ≡ false
    → add_randomised s i deadband delay now ≡ some (s', done)
    → IsWf s'
unfolding add_randomised
add_randomised-IsWf s s' i deadband delay now done w h e =
    add-IsWf (update_start s i _) s' i done (update_start-IsWf s i _ w h) e

pub Step-IsWf : {s t : Scheduler} → (st : Step s t) → KeepsKeys st → IsWf s → IsWf t
Step-IsWf {s} (creates i now period delay repeat pooled h) k w =
    create-IsWf s i now period delay repeat pooled w h
Step-IsWf {s} {t} (adds i done e) k w = add-IsWf s t i done w e
Step-IsWf {s} {t} (adds_randomised i deadband delay now done e) h w =
    add_randomised-IsWf s t i deadband delay now done w h e
Step-IsWf {s} (removes i) k w = remove-IsWf s i w
Step-IsWf {s} {t} (resets i delay now e) k w = reset-IsWf s t i delay now w e
Step-IsWf {s} (deletes i) k w = delete-IsWf s i w
Step-IsWf {s} (sets_concurrent i b) k w = set_concurrent-IsWf s i b w
Step-IsWf {s} (sets_sync i b) k w = set_sync-IsWf s i b w
Step-IsWf {s} {t} (passes now later accepted e) k w = pass-IsWf s t now later accepted w e
Step-IsWf {s} (finishes i h) k w =
    with_schedule-IsWf s i (dec_ref (s.schedule i)) w refl refl (w.modes i)
