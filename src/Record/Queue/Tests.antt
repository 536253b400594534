-- ===== src/Record/Queue/Tests.antt =====
-- recskapa.c: the theorems on the queue at small inputs.
use recskapa.Base.{ℕ, ◌≡◌, ◌≢◌, arith, false, List, [], ◌∷◌, some, none, replicate}
use recskapa.Record.Queue.{Queue, Woken, create_queue, put_slot, enqueue, dequeue}
use recskapa.Record.Queue.Fifo.{Represents, create-Represents, put_slot-Represents}
use recskapa.Record.Queue.Calls.{enqueue-Represents, dequeue-Represents, enqueue-ends, dequeue-ends}

abbrev no_waits : List (Woken ℕ)
no_waits = []

enqueue-Represents_example :
    (q' : Queue ℕ) × (enqueue false (create_queue 3) 5 no_waits ≡ some (q', false))
    × Represents q' (5 ∷ [])
unfolding create_queue
enqueue-Represents_example =
    enqueue-Represents false (create_queue 3) 5 [] no_waits
      (create-Represents 3 (omega arith) (omega arith)) (omega arith)

dequeue-Represents_example :
    (q' : Queue ℕ) × (dequeue false (put_slot (create_queue 3) 5) no_waits
      ≡ some (some 5, q', false))
    × Represents q' []
unfolding create_queue
dequeue-Represents_example = dequeue-Represents false (put_slot (create_queue 3) 5) 5 [] no_waits (
    put_slot-Represents (create_queue 3) 5 [] (create-Represents 3 (omega arith) (omega arith))
      (omega arith))

-- The queue is as full as it was each time that the thread wakes up.
abbrev still_full : List (Woken ℕ)
still_full = replicate 61 (record { queue = put_slot (create_queue 1) 5; f_exit = false })

abbrev still_empty : List (Woken ℕ)
still_empty = replicate 61 (record { queue = create_queue 1; f_exit = false })

enqueue-ends_example : enqueue false (put_slot (create_queue 1) 5) 6 still_full ≢ none
enqueue-ends_example = enqueue-ends false (put_slot (create_queue 1) 5) 6 still_full (omega arith)

dequeue-ends_example : dequeue false (create_queue 1) still_empty ≢ none
dequeue-ends_example = dequeue-ends false (create_queue 1) still_empty (omega arith)
