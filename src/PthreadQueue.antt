-- ===== src/PthreadQueue.antt =====
-- benchmarks/pthreads_queue/src/pthread_queue.c: what each call does once it has the mutex, where no
-- call of the thread library or of `calloc` fails.
pub mod Contents
pub mod Refined
pub mod Usage
pub mod Benchmark
pub mod Crew
mod Tests
use accelsim_lite.Prelude.{
  ℕ, ◌+◌, ◌-◌, ◌%◌, Bool, true, false, not, ◌&&◌, Option, none, some, List, ◌==◌, if◌then◌else◌,
  indicator, count, set, get_or, replicate, add64, sub64,
}
use accelsim_lite.Stats.Bottleneck.{head}
use accelsim_lite.Firmware.RingBuffer.{capacity}

-- `pthread_work_item_t`.
pub record PthreadItem : Type 0 where
  pub id : ℕ
  pub begin : ℕ
  pub end : ℕ
  pub queued_at_ns : ℕ

-- An item with its bytes set to 0.
abbrev pub zero_item : PthreadItem
zero_item = record { id = 0; begin = 0; end = 0; queued_at_ns = 0 }

-- `pthread_work_queue_t`, without the mutex and the conditions.
pub record WorkQueue : Type 0 where
  pub items : List PthreadItem
  pub capacity : ℕ
  pub head : ℕ
  pub tail : ℕ
  pub count : ℕ
  pub closed : Bool
  pub lock_acquisitions : ℕ
  pub contended_lock_acquisitions : ℕ
  pub lock_wait_ns : ℕ

-- The error codes.

abbrev pub invalid_argument : ℕ
invalid_argument = 22

abbrev pub canceled : ℕ
canceled = 125

-- `pthread_work_queue_init`: the code, with the queue where it is 0.
unfoldable pub queue_init : ℕ → ℕ × Option WorkQueue
queue_init capacity = if capacity == 0 then (invalid_argument, none) else (
  0,
  some (record {
    items = replicate capacity zero_item;
    capacity = capacity;
    head = 0;
    tail = 0;
    count = 0;
    closed = false;
    lock_acquisitions = 0;
    contended_lock_acquisitions = 0;
    lock_wait_ns = 0;
  }),
)

-- What a call comes to with the mutex: it waits for its condition, or it returns a code, the item
-- of a pop, and the queue that it leaves.
pub data Attempt : Type 0 where
  waits : Attempt
  returns : ℕ → Option PthreadItem → WorkQueue → Attempt

-- The loop and the rest of `pthread_work_queue_push`.
unfoldable pub try_push : PthreadItem → WorkQueue → Attempt
try_push item q =
    if (q.count == q.capacity) && not q.closed
    then waits
    else if q.closed
    then returns canceled none q
    else returns 0 none (record q {
      items = set q.items q.tail item;
      tail = (q.tail + 1) % q.capacity;
      count = q.count + 1;
    })

-- `lock_queue`, with whether the mutex was taken and the clock before and behind.
unfoldable pub lock_queue : Bool → ℕ → ℕ → WorkQueue → WorkQueue
lock_queue contended start_ns end_ns q = record q {
  lock_acquisitions = add64 q.lock_acquisitions 1;
  contended_lock_acquisitions = add64 q.contended_lock_acquisitions (indicator contended);
  lock_wait_ns = add64 q.lock_wait_ns (sub64 end_ns start_ns);
}

-- The loop and the rest of `pthread_work_queue_pop`, behind `lock_queue`.
unfoldable pub try_pop : WorkQueue → Attempt
try_pop q =
    if (q.count == 0) && not q.closed
    then waits
    else if (q.count == 0) && q.closed
    then returns 0 none q
    else returns 1 (some (get_or q.items q.head zero_item))
        (record q { head = (q.head + 1) % q.capacity; count = q.count - 1 })

-- `pthread_work_queue_close`.
unfoldable pub close : WorkQueue → WorkQueue
close q = record q { closed = true }
