-- ===== src/PthreadQueue/Usage.antt =====
-- The queues of benchmarks/pthreads_queue/ that calls lead to.
use accelsim_lite.Prelude.{
  ℕ, ◌≡◌, subst, inl, inr, Bool, Option, none, some, arith, ◌==◌, Bool-cases, length-replicate,
}
use accelsim_lite.PthreadQueue.{
  PthreadItem, zero_item, WorkQueue, queue_init, Attempt, waits, returns, try_push, lock_queue,
  try_pop, close,
}
use accelsim_lite.PthreadQueue.Refined.{
  Keeps, IsSound, IsBoundedQueue, push-bounded, pop-bounded, sound-IsBoundedQueue,
}

-- The queues that calls in any order lead to: a pop takes the mutex by `lock_queue` and then tries,
-- again after each wait.
pub data InUse : WorkQueue → Type 0 where
  made : (room : ℕ) {q : WorkQueue} → queue_init room ≡ (0, some q) → InUse q
  locked :
      (contended : Bool) (start_ns end_ns : ℕ) {q : WorkQueue}
      → InUse q
      → InUse (lock_queue contended start_ns end_ns q)
  pushed :
      (item : PthreadItem) {q r : WorkQueue} {code : ℕ} {x : Option PthreadItem}
      → try_push item q ≡ returns code x r
      → InUse q
      → InUse r
  popped :
      {q r : WorkQueue} {code : ℕ} {x : Option PthreadItem}
      → try_pop q ≡ returns code x r
      → InUse q
      → InUse r
  closed_by : {q : WorkQueue} → InUse q → InUse (close q)

abbrev MadeSound : ℕ × Option WorkQueue → Type 0
MadeSound (code, none) = Unit {0}
MadeSound (code, some q) = IsSound q

init-IsSound : (room : ℕ) → MadeSound (queue_init room)
unfolding queue_init
init-IsSound room = elim (Bool-cases (room == 0)) [
  | inl e ↦ simp e tt
  | inr e ↦ simp e (record {
    whole = length-replicate room zero_item;
    head_in = ground (arith, e);
    within = ground arith;
    tail_after = ground (arith, e);
  })
]

abbrev pub LeavesSound : Attempt → Type 0
LeavesSound waits = Unit {0}
LeavesSound (returns code item r) = IsSound r

Keeps-LeavesSound : (q : WorkQueue) (a : Attempt) → Keeps q a → LeavesSound a
Keeps-LeavesSound q waits k = tt
Keeps-LeavesSound q (returns code item r) k = k.0

pub InUse-IsSound : {q : WorkQueue} → InUse q → IsSound q
unfolding close lock_queue
InUse-IsSound (made room e) = subst MadeSound e (init-IsSound room)
InUse-IsSound (locked contended start_ns end_ns u) =
    let v = InUse-IsSound u in
    record { whole = v.whole; head_in = v.head_in; within = v.within; tail_after = v.tail_after }
InUse-IsSound (pushed item {q = q} e u) =
    subst LeavesSound e
      (Keeps-LeavesSound q (try_push item q) (push-bounded q item (InUse-IsSound u)).1)
InUse-IsSound (popped {q = q} e u) =
    subst LeavesSound e (Keeps-LeavesSound q (try_pop q) (pop-bounded q (InUse-IsSound u)).1)
InUse-IsSound (closed_by {q = q} u) = (sound-IsBoundedQueue q zero_item (InUse-IsSound u)).closes.0

-- A queue made by `pthread_work_queue_init` and used by calls in any order, each with the mutex, is a
-- list with a bound that can be closed: a push to an open full queue and a pop from an open empty one
-- wait; a push to a closed one is canceled and leaves the items; otherwise a push puts its item at the
-- end of the list, and a pop takes the first one, also from a closed queue, and answers 0 where a
-- closed queue is empty. A push or a pop leaves a sound queue of the same capacity, as open or closed
-- as it was, and close a sound and closed one with the same items.
pub queue-IsBoundedQueue : (q : WorkQueue) (item : PthreadItem) → InUse q → IsBoundedQueue q item
queue-IsBoundedQueue q item u = sound-IsBoundedQueue q item (InUse-IsSound u)
