-- ===== src/Queue/Tests.antt =====
-- src/c/queue.c: the theorems on queues at concrete inputs.
use iotech_c_utils.Common.{ℕ, ◌%◌, ◌^◌, ◌≤◌, ◌≡◌, ◌⊎◌, arith, true, false, [], ◌∷◌, if◌then◌else◌}
use iotech_c_utils.Map.{Hashed}
use iotech_c_utils.Queue.{
  Queue, waits, returns, alloc, push, size, try_enqueue, enqueue, try_dequeue, allocs, enqueues,
  tries, tries_out,
}
use iotech_c_utils.Queue.Fifo.{Fifo, Runs-Fifo, enqueue-try_enqueue}

instance abbrev low_word : Hashed ℕ
low_word = record { hash_of = λ n. n % 2 ^ 32 }

abbrev one : Queue ℕ
one = push (alloc 1) 5

-- A queue of one place takes 5, refuses 6, and gives 5 back.
Runs-Fifo_example : Fifo (try_dequeue one).0 (5 ∷ []) (5 ∷ [])
Runs-Fifo_example = Runs-Fifo (tries_out (tries 6 (enqueues 5 (allocs 1))))

enqueue-try_enqueue_example :
    ((enqueue one 6).0 ≡ (try_enqueue one 6).0)
    × ((enqueue one 6).1 ≡ (try_enqueue one 6).1)
    × ((((enqueue one 6).1 ≡ true)
          × ((enqueue one 6).2 ≡ returns)
          × ((one.maxsize ≡ 0) ⊎ (size (enqueue one 6).0 ≤ one.maxsize)))
        ⊎ (((enqueue one 6).1 ≡ false)
            × ((enqueue one 6).0 ≡ one)
            × (one.maxsize ≤ size one)
            × ((enqueue one 6).2 ≡ (if one.running then waits else returns))))
enqueue-try_enqueue_example = enqueue-try_enqueue one 6 (omega arith)
