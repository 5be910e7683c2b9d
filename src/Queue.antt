-- ===== src/Queue.antt =====
-- src/c/queue.c: the bounded queue over `iot_data_list_t`. The mutex makes each function one step; a
-- function that waits is one turn of its loop, whose caller takes another after a wakeup.
pub mod Fifo
mod Tests
use iotech_c_utils.Common.{
  ℕ, ◌≡◌, Bool, true, false, not, ◌||◌, ◌&&◌, List, [], ◌∷◌, ◌++◌, Option, none, some,
  if◌then◌else◌, ◌==◌, ltb, leb,
}
use iotech_c_utils.Map.{Hashed}
use iotech_c_utils.DataList.{DataList, empty_list, list_length, head_push, tail_pop}

pub record Queue {ℓ} (A : Type ℓ) : Type ℓ where
  pub queue : DataList A
  pub maxsize : ℕ
  pub running : Bool

-- What a turn of a waiting function ends with.
pub data Turn : Type 0 where
  waits returns : Turn

module _ {ℓ} {A : Type ℓ} where
  -- `iot_queue_alloc`.
  abbrev pub alloc : ℕ → Queue A
  alloc maxsize = record { queue = empty_list; maxsize = maxsize; running = true }

  -- `iot_queue_stop`.
  abbrev pub stop : Queue A → Queue A
  stop q = record q { running = false }

  -- `iot_queue_try_dequeue`.
  abbrev pub try_dequeue : Queue A → Queue A × Option A
  try_dequeue q = let r = tail_pop q.queue in (record q { queue = r.0 }, r.1)

  -- `iot_queue_dequeue`: on an empty queue it returns NULL only if the queue is stopped.
  abbrev pub dequeue : Queue A → Queue A × Option A × Turn
  dequeue q =
      let r = tail_pop q.queue in
      elim r.1 [
        | some v ↦ (record q { queue = r.0 }, some v, returns)
        | none ↦ (record q { queue = r.0 }, none, if q.running then waits else returns)
      ]

  -- `iot_queue_size`.
  abbrev pub size : Queue A → ℕ
  size q = list_length q.queue

  -- `iot_queue_setmaxsize`.
  abbrev pub setmaxsize : Queue A → ℕ → Queue A
  setmaxsize q maxsize = record q { maxsize = maxsize }

module _ {ℓ} {A : Type ℓ} ⦃h : Hashed A⦄ where
  abbrev pub push : Queue A → A → Queue A
  push q v = record q { queue = head_push q.queue v }

  -- `iot_queue_try_enqueue`.
  abbrev pub try_enqueue : Queue A → A → Queue A × Bool
  try_enqueue q v =
      if (q.maxsize == 0) || ltb (size q) q.maxsize then (push q v, true) else (q, false)

  -- `iot_queue_enqueue`: whether the element was pushed, and how the turn ends. A full queue that is
  -- stopped drops the element.
  abbrev pub enqueue : Queue A → A → Queue A × Bool × Turn
  enqueue q v =
      if not (q.maxsize == 0) && leb q.maxsize (size q)
      then (q, false, if q.running then waits else returns)
      else (push q v, true, returns)

  -- Runs of a queue, with the elements put in and those taken out, the first on the left.
  pub data Runs : Queue A → List A → List A → Type ℓ where
    allocs : (maxsize : ℕ) → Runs (alloc maxsize) [] []
    tries :
        {q : Queue A} {ins outs : List A} (v : A)
        → Runs q ins outs
        → Runs (try_enqueue q v).0 (if (try_enqueue q v).1 then ins ++ (v ∷ []) else ins) outs
    enqueues :
        {q : Queue A} {ins outs : List A} (v : A)
        → Runs q ins outs
        → Runs (enqueue q v).0 (if (enqueue q v).1 then ins ++ (v ∷ []) else ins) outs
    tries_out :
        {q : Queue A} {ins outs : List A}
        → Runs q ins outs
        → Runs
            (try_dequeue q).0
            ins
            (elim (try_dequeue q).1 [ some v ↦ outs ++ (v ∷ []) | none ↦ outs ])
    dequeues :
        {q : Queue A} {ins outs : List A}
        → Runs q ins outs
        → Runs (dequeue q).0 ins (elim (dequeue q).1 [ some v ↦ outs ++ (v ∷ []) | none ↦ outs ])
    stops : {q : Queue A} {ins outs : List A} → Runs q ins outs → Runs (stop q) ins outs
    resizes :
        {q : Queue A} {ins outs : List A} (maxsize : ℕ)
        → Runs q ins outs
        → Runs (setmaxsize q maxsize) ins outs
