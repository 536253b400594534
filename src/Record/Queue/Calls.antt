-- ===== src/Record/Queue/Calls.antt =====
-- recskapa.c: `enqueue` and `dequeue` as a first-in first-out queue, and their waits.
use recskapa.Base.{ℕ, ◌+◌, ◌≤◌, ◌<◌, ◌≡◌, ◌≢◌, refl, arith, ltb, ◌==◌}
use recskapa.Base.{Bool, true, false, length, List, [], ◌∷◌, ◌++◌, some, none, Bool-cases, inl, inr}
use recskapa.Record.Queue.{Queue, Woken, put_slot, take_slot, wait, enqueue, dequeue}
use recskapa.Record.Queue.Fifo.{Represents, put_slot-Represents, take_slot-Represents}

module _ {ℓ} {A : Type ℓ} where
  no_wait :
      (blocked : Queue A → Bool) (f_exit : Bool) (retry_count : ℕ) (q : Queue A)
      (waits : List (Woken A))
      → blocked q ≡ false
      → wait blocked f_exit retry_count q waits ≡ some (q, f_exit, true)
  unfolding wait
  no_wait blocked f_exit retry_count q [] e = rw e refl
  no_wait blocked f_exit retry_count q (w ∷ later) e = rw e refl

  -- On a queue that holds a list, shorter than its size, `enqueue` does not wait, leaves `f_exit` as
  -- it is, and then the queue holds the list with the new element at its end.
  pub enqueue-Represents :
      (f_exit : Bool) (q : Queue A) (x : A) (xs : List A) (waits : List (Woken A))
      → Represents q xs
      → length xs < q.size
      → (q' : Queue A) × (enqueue f_exit q x waits ≡ some (q', f_exit))
        × Represents q' (xs ++ (x ∷ []))
  unfolding enqueue
  enqueue-Represents f_exit q x xs waits r less =
      let free : (q.num_avail == 0) ≡ false = ground (arith, r.avail) in
      (
        put_slot q x,
        rw (enqueue, no_wait (λ q. q.num_avail == 0) f_exit 0 q waits free) refl,
        put_slot-Represents q x xs r less,
      )

  -- On a queue that holds a list with a first element, `dequeue` does not wait, leaves `f_exit` as
  -- it is, and returns that element; then the queue holds the rest of the list.
  pub dequeue-Represents :
      (f_exit : Bool) (q : Queue A) (x : A) (xs : List A) (waits : List (Woken A))
      → Represents q (x ∷ xs)
      → (q' : Queue A) × (dequeue f_exit q waits ≡ some (some x, q', f_exit)) × Represents q' xs
  unfolding dequeue
  dequeue-Represents f_exit q x xs waits r =
      let filled : (q.num_used == 0) ≡ false = ground (arith, r.used) in
      let taken = take_slot-Represents q x xs r in
      (
        (take_slot q).1,
        rw (dequeue, no_wait (λ q. q.num_used == 0) f_exit 0 q waits filled, taken.0) refl,
        taken.1,
      )

  wait-ends :
      (blocked : Queue A → Bool) (f_exit : Bool) (retry_count : ℕ) (q : Queue A)
      (waits : List (Woken A))
      → 61 ≤ retry_count + length waits
      → retry_count ≤ 60
      → wait blocked f_exit retry_count q waits ≢ none
  unfolding wait
  wait-ends blocked f_exit retry_count q [] h k = absurd (omega arith)
  wait-ends blocked f_exit retry_count q (w ∷ later) h k =
      elim (Bool-cases (ltb 60 (retry_count + 1))) [
        | inl e ↦ ground (arith, e)
        | inr e ↦ ground (
          arith,
          e,
          wait-ends blocked w.f_exit (retry_count + 1) w.queue later (omega arith) (ground arith),
        )
      ]

  -- Whatever the waiting thread finds, `enqueue` ends after at most 61 waits.
  pub enqueue-ends :
      (f_exit : Bool) (q : Queue A) (x : A) (waits : List (Woken A))
      → 61 ≤ length waits
      → enqueue f_exit q x waits ≢ none
  unfolding enqueue
  enqueue-ends f_exit q x waits h =
      ground (arith, wait-ends (λ q. q.num_avail == 0) f_exit 0 q waits (omega arith) (omega arith))

  -- Whatever the waiting thread finds, `dequeue` ends after at most 61 waits.
  pub dequeue-ends :
      (f_exit : Bool) (q : Queue A) (waits : List (Woken A))
      → 61 ≤ length waits
      → dequeue f_exit q waits ≢ none
  unfolding dequeue
  dequeue-ends f_exit q waits h =
      ground (arith, wait-ends (λ q. q.num_used == 0) f_exit 0 q waits (omega arith) (omega arith))
