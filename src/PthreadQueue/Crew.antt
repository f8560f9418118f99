-- ===== src/PthreadQueue/Crew.antt =====
-- benchmarks/pthreads_queue/src/pthread_queue_benchmark.c: `main` as the producer, `worker_main`, and
-- what they make of the queue's calls, as steps of one state in any order. A step is what a thread
-- does while it has the mutex, or the work of one item. The clocks and the contention are free.
pub mod Calls
pub mod Steady
pub mod Bounds
pub mod Progress
pub mod Conserved
pub mod Collecting
pub mod Agreement
mod Tests
use accelsim_lite.Prelude.{
  ℕ, zero, suc, ◌≡◌, ◌⊎◌, Bool, Option, none, some, List, [], ◌∷◌, ◌++◌, map, ltb, if◌then◌else◌,
  length, add64, sub64,
}
use Prim.Native.Nat.{bit_xor}
use accelsim_lite.Prelude.Multisets.{sum_of}
use accelsim_lite.PthreadQueue.{
  PthreadItem, WorkQueue, queue_init, Attempt, waits, returns, try_push, lock_queue, try_pop, close,
}
use accelsim_lite.PthreadQueue.Benchmark.{
  benchmark_capacity, process_item, task_count, benchmark_items,
}

-- Where a worker is: between two items, asleep in `pthread_cond_wait` on `not_empty`, woken up there,
-- at work on an item, or past its loop.
pub data WorkerPhase : Type 0 where
  between asleep roused gone : WorkerPhase
  handling : PthreadItem → WorkerPhase

-- `worker_context_t`, with the phase. Latencies are counted in nanoseconds.
pub record WorkerContext : Type 0 where
  pub phase : WorkerPhase
  pub checksum : ℕ
  pub tasks_completed : ℕ
  pub allocations : ℕ
  pub latencies : List ℕ

abbrev pub new_context : WorkerContext
new_context = record {
  phase = between;
  checksum = 0;
  tasks_completed = 0;
  allocations = 0;
  latencies = [];
}

abbrev pub new_contexts : ℕ → List WorkerContext
new_contexts zero = []
new_contexts (suc n) = new_context ∷ new_contexts n

-- Where `main` is: in the pushing loop, asleep on `not_full`, woken up there, or behind `close`.
pub data ProducerPhase : Type 0 where
  pushing blocked unblocked joining : ProducerPhase

pub record Crew : Type 0 where
  pub queue : WorkQueue
  pub to_push : List PthreadItem
  pub producer : ProducerPhase
  pub contexts : List WorkerContext
  pub latency_capacity : ℕ

-- The state in which `main` starts to push, with a new queue.
unfoldable pub start_crew : ℕ → ℕ → WorkQueue → Crew
start_crew workers workload_size queue = record {
  queue = queue;
  to_push = benchmark_items workload_size;
  producer = pushing;
  contexts = new_contexts workers;
  latency_capacity = task_count workload_size;
}

-- What `worker_main` does with an item, behind `pop`.
unfoldable pub handle : ℕ → PthreadItem → ℕ → WorkerContext → WorkerContext
unfolding process_item
handle latency_capacity item end_ns context =
    let processed = process_item item context.allocations in
    record {
      phase = between;
      checksum = bit_xor context.checksum processed.0;
      tasks_completed = add64 context.tasks_completed 1;
      allocations = processed.1;
      latencies =
          if ltb (length context.latencies) latency_capacity
          then context.latencies ++ sub64 end_ns item.queued_at_ns ∷ []
          else context.latencies;
    }

abbrev pub rouse : WorkerContext → WorkerContext
rouse context = record context { phase = roused }

abbrev pub asleep_in : WorkerPhase → ℕ
asleep_in asleep = 1
asleep_in _ = 0

abbrev pub is_asleep : WorkerContext → ℕ
is_asleep context = asleep_in context.phase

-- `pthread_cond_signal` on `not_empty` wakes one sleeping worker up, if there is one.
pub data Signalled (contexts : List WorkerContext) : List WorkerContext → Type 0 where
  nobody : sum_of is_asleep contexts ≡ 0 → Signalled contexts contexts
  somebody :
      (before : List WorkerContext) (context : WorkerContext) (after : List WorkerContext)
      → contexts ≡ before ++ context ∷ after
      → context.phase ≡ asleep
      → Signalled contexts (before ++ rouse context ∷ after)

-- `pthread_cond_broadcast` on `not_empty`.
unfoldable pub broadcast : List WorkerContext → List WorkerContext
broadcast [] = []
broadcast (context ∷ contexts) =
    elim context.phase [ asleep ↦ rouse context | _ ↦ context ] ∷ broadcast contexts

-- `pthread_cond_signal` or `pthread_cond_broadcast` on `not_full`, where `main` alone waits.
unfoldable pub signal_not_full : ProducerPhase → ProducerPhase
signal_not_full blocked = unblocked
signal_not_full phase = phase

-- `main` is in a call of `push`, and not asleep.
pub data CanPush : ProducerPhase → Type 0 where
  at_first : CanPush pushing
  again : CanPush unblocked

-- A worker in a call of `pop` has the mutex: it took it by `lock_queue`, or in `pthread_cond_wait`.
pub data Enters (queue : WorkQueue) : WorkerPhase → WorkQueue → Type 0 where
  enters :
      (contended : Bool) (start_ns end_ns : ℕ)
      → Enters queue between (lock_queue contended start_ns end_ns queue)
  returns_to : Enters queue roused queue

-- `contexts` has a worker between those before and after it.
pub data Step : Crew → Crew → Type 0 where
  pushes :
      (s : Crew) (item : PthreadItem) (rest : List PthreadItem) (queued_at : ℕ) (r : WorkQueue)
      (contexts : List WorkerContext)
      → CanPush s.producer
      → s.to_push ≡ item ∷ rest
      → try_push (record item { queued_at_ns = queued_at }) s.queue ≡ returns 0 none r
      → Signalled s.contexts contexts
      → Step s (record s { queue = r; to_push = rest; producer = pushing; contexts = contexts })
  blocks :
      (s : Crew) (item : PthreadItem) (rest : List PthreadItem)
      → CanPush s.producer
      → s.to_push ≡ item ∷ rest
      → try_push item s.queue ≡ waits
      → Step s (record s { producer = blocked })
  closes :
      (s : Crew)
      → s.producer ≡ pushing
      → s.to_push ≡ []
      → Step s
          (record s { queue = close s.queue; producer = joining; contexts = broadcast s.contexts })
  pops :
      (s : Crew) (before : List WorkerContext) (context : WorkerContext)
      (after : List WorkerContext) (q r : WorkQueue) (item : PthreadItem)
      → s.contexts ≡ before ++ context ∷ after
      → Enters s.queue context.phase q
      → try_pop q ≡ returns 1 (some item) r
      → Step s (record s {
        queue = r;
        producer = signal_not_full s.producer;
        contexts = before ++ record context { phase = handling item } ∷ after;
      })
  sleeps :
      (s : Crew) (before : List WorkerContext) (context : WorkerContext)
      (after : List WorkerContext) (q : WorkQueue)
      → s.contexts ≡ before ++ context ∷ after
      → Enters s.queue context.phase q
      → try_pop q ≡ waits
      → Step s
          (record s { queue = q; contexts = before ++ record context { phase = asleep } ∷ after })
  leaves :
      (s : Crew) (before : List WorkerContext) (context : WorkerContext)
      (after : List WorkerContext) (q : WorkQueue)
      → s.contexts ≡ before ++ context ∷ after
      → Enters s.queue context.phase q
      → try_pop q ≡ returns 0 none q
      → Step s
          (record s { queue = q; contexts = before ++ record context { phase = gone } ∷ after })
  handles :
      (s : Crew) (before : List WorkerContext) (context : WorkerContext)
      (after : List WorkerContext) (item : PthreadItem) (end_ns : ℕ)
      → s.contexts ≡ before ++ context ∷ after
      → context.phase ≡ handling item
      → Step s
          (record s { contexts = before ++ handle s.latency_capacity item end_ns context ∷ after })

-- Some steps, and wake-ups that nobody has asked for, in any order, with the number of either.
pub data Course : ℕ → ℕ → Crew → Crew → Type 0 where
  stays : (s : Crew) → Course 0 0 s s
  steps : {n m : ℕ} {s t u : Crew} → Course n m s t → Step t u → Course (suc n) m s u
  stirs :
      {n m : ℕ} {s t : Crew} (before : List WorkerContext) (context : WorkerContext)
      (after : List WorkerContext)
      → Course n m s t
      → t.contexts ≡ before ++ context ∷ after
      → context.phase ≡ asleep
      → Course n (suc m) s (record t { contexts = before ++ rouse context ∷ after })
  stirs_main :
      {n m : ℕ} {s t : Crew}
      → Course n m s t
      → Course n (suc m) s (record t { producer = signal_not_full t.producer })

-- What `main` adds up once it has joined every worker.
pub record Totals : Type 0 where
  pub checksum : ℕ
  pub allocations : ℕ
  pub tasks : ℕ
  pub latencies : List ℕ

unfoldable pub collect : List WorkerContext → Totals → Totals
collect [] totals = totals
collect (context ∷ contexts) totals = collect contexts (record {
  checksum = bit_xor totals.checksum context.checksum;
  allocations = add64 totals.allocations context.allocations;
  tasks = add64 totals.tasks context.tasks_completed;
  latencies = totals.latencies ++ context.latencies;
})

abbrev pub no_totals : Totals
no_totals = record { checksum = 0; allocations = 0; tasks = 0; latencies = [] }
