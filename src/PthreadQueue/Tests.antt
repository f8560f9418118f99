-- ===== src/PthreadQueue/Tests.antt =====
-- A queue with room for two items, used by four calls, and the witness of the theorem on it.
use accelsim_lite.Prelude.{ℕ, ◌+◌, ◌≡◌, refl, false, none, some, [], ◌∷◌}
use accelsim_lite.PthreadQueue.{
  PthreadItem, WorkQueue, zero_item, queue_init, try_push, try_pop, lock_queue,
}
use accelsim_lite.PthreadQueue.Refined.{IsBoundedQueue, contents}
use accelsim_lite.PthreadQueue.Usage.{InUse, made, pushed, popped, locked, queue-IsBoundedQueue}

abbrev item : ℕ → PthreadItem
item n = record { id = n; begin = n; end = n + 1; queued_at_ns = 0 }

abbrev empty_queue : WorkQueue
empty_queue = record {
  items = zero_item ∷ zero_item ∷ [];
  capacity = 2;
  head = 0;
  tail = 0;
  count = 0;
  closed = false;
  lock_acquisitions = 0;
  contended_lock_acquisitions = 0;
  lock_wait_ns = 0;
}

abbrev one_item : WorkQueue
one_item = record empty_queue { items = item 1 ∷ zero_item ∷ []; tail = 1; count = 1 }

abbrev full_queue : WorkQueue
full_queue = record empty_queue { items = item 1 ∷ item 2 ∷ []; tail = 0; count = 2 }

abbrev first_taken : WorkQueue
first_taken = record full_queue { head = 1; count = 1; lock_acquisitions = 1; lock_wait_ns = 5 }

first_taken-InUse : InUse first_taken
unfolding queue_init try_push try_pop lock_queue
first_taken-InUse =
    popped {q = lock_queue false 10 15 full_queue} {code = 1} {x = some (item 1)} refl (
      locked false 10 15 (
        pushed (item 2) {q = one_item} {code = 0} {x = none} refl
          (pushed (item 1) {q = empty_queue} {code = 0} {x = none} refl (made 2 refl))))

wrapped : contents first_taken ≡ item 2 ∷ []
wrapped = refl

queue-IsBoundedQueue_example : IsBoundedQueue first_taken (item 3)
queue-IsBoundedQueue_example = queue-IsBoundedQueue first_taken (item 3) first_taken-InUse
