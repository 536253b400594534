-- ===== src/Record/Queue.antt =====
-- recskapa.c: the queue of buffers between the reading loop and the writing thread. The memory
-- behind a buffer's address is not looked at, so the data are of any type. A slot that nothing was
-- written to is `none`. The waits of the two calls are the results of
-- `pthread_cond_timedwait`: what the queue looks like when the lock is held again.
pub mod Fifo
pub mod Calls
pub mod Tests
use recskapa.Base.{
  ℕ, zero, suc, ◌+◌, ◌-◌, ◌*◌, ◌%◌, ◌^◌, ltb, ◌==◌, if◌then◌else◌, length, get_or, set, replicate,
}
use recskapa.Base.{Option, some, none, List, [], ◌∷◌, Bool, true, false}

module _ {ℓ} (A : Type ℓ) where
  -- `QUEUE_T` without its lock and conditions.
  pub record Queue : Type ℓ where
    pub in_index : ℕ
    pub out_index : ℕ
    pub size : ℕ
    pub num_avail : ℕ
    pub num_used : ℕ
    pub buffer : List (Option A)

module _ {ℓ} {A : Type ℓ} where
  -- `create_queue`, if there is memory for the queue.
  unfoldable pub create_queue : ℕ → Queue A
  create_queue size = record {
    in_index = 0;
    out_index = 0;
    size = size;
    num_avail = size;
    num_used = 0;
    buffer = replicate size none;
  }

  -- The write of `enqueue`, once a slot is free. The index has 32 bits.
  unfoldable pub put_slot : Queue A → A → Queue A
  put_slot q item = record q {
    buffer = set q.buffer q.in_index (some item);
    in_index = (q.in_index + 1) % 2 ^ 32 % q.size;
    num_avail = q.num_avail - 1;
    num_used = q.num_used + 1;
  }

  -- The read of `dequeue`, once a slot is used.
  unfoldable pub take_slot : Queue A → Option A × Queue A
  take_slot q = (
    get_or q.buffer q.out_index none,
    record q {
      out_index = (q.out_index + 1) % 2 ^ 32 % q.size;
      num_avail = q.num_avail + 1;
      num_used = q.num_used - 1;
    },
  )

-- What a waiting call finds when its `pthread_cond_timedwait` returns: the queue as the other
-- threads left it, and the global `f_exit`.
pub record Woken {ℓ} (A : Type ℓ) : Type ℓ where
  pub queue : Queue A
  pub f_exit : Bool

module _ {ℓ} {A : Type ℓ} where
  -- The waiting loop: `full` tests the queue, the number is `retry_count`, and the list holds the
  -- returns of the waits to come. The result is the queue and `f_exit` at the end, and whether the
  -- call goes on; `none` is that the list ends while the call waits.
  unfoldable pub wait :
      (Queue A → Bool) → Bool → ℕ → Queue A → List (Woken A) → Option (Queue A × Bool × Bool)
  wait blocked f_exit retry_count q [] = if blocked q then none else some (q, f_exit, true)
  wait blocked f_exit retry_count q (w ∷ later) =
      let retry = retry_count + 1 in
      let next = wait blocked w.f_exit retry w.queue later in
      let exit = if ltb 60 retry then true else w.f_exit in
      if blocked q
      then (if exit then some (w.queue, exit, false) else next)
      else some (q, f_exit, true)

  -- `enqueue`, with `f_exit` before and after.
  pub enqueue : Bool → Queue A → A → List (Woken A) → Option (Queue A × Bool)
  enqueue f_exit q item waits = elim (wait (λ q. q.num_avail == 0) f_exit 0 q waits) [
    | none ↦ none
    | some (q', exit, goes_on) ↦ some ((if goes_on then put_slot q' item else q'), exit)
  ]

  -- `dequeue`; its result is `none` where it returns NULL.
  pub dequeue : Bool → Queue A → List (Woken A) → Option (Option A × Queue A × Bool)
  dequeue f_exit q waits = elim (wait (λ q. q.num_used == 0) f_exit 0 q waits) [
    | none ↦ none
    | some (q', exit, goes_on) ↦
        if goes_on then (some ((take_slot q').0, (take_slot q').1, exit)) else some (none, q', exit)
  ]
