-- ===== src/Engine/Workers.antt =====
-- `PerformanceEngine::run_multithreaded` of performance_engine/src/performance_engine.cpp: the
-- producer and the workers as steps of one state, in any order. A step is what a thread does while
-- it holds a lock, or one task. A thread that waits on a condition sleeps until it is notified, or
-- wakes up without a cause. The clock and the contention of the lock are free.
pub mod Invariant
pub mod Awake
pub mod Bounds
pub mod Progress
pub mod Agreement
mod Tests
use accelsim_lite.Prelude.{
  ℕ, zero, suc, ◌≤◌, ◌<◌, min, ◌≡◌, Bool, true, false, List, [], ◌∷◌, ◌++◌, indicator, length, take,
  drop, add64,
}
use Prim.Native.Nat.{bit_xor}
use accelsim_lite.Engine.{BenchmarkConfig, WorkItem, build_work_items}
use accelsim_lite.Prelude.Multisets.{sum_of}
use accelsim_lite.Engine.Process.{WorkerMetrics, no_metrics, process_work}

-- Where a worker is in its loop: before it takes the lock, in the wait on `queue_not_empty` and about
-- to look at the queue, asleep there, at work on a batch, or past the loop with its metrics handed
-- over.
pub data Phase : Type 0 where
  outside waiting dormant departed : Phase
  busy : List WorkItem → Phase

-- Where the producer is: about to look whether the queue has room, asleep in the wait on
-- `queue_not_full`, past `producer_finished = true`, or past the `notify_all` behind that.
pub data ProducerPhase : Type 0 where
  producing held_up announcing announced : ProducerPhase

-- A worker's variables. Latencies are counted in ticks of the clock.
pub record Worker : Type 0 where
  pub phase : Phase
  pub local_metrics : WorkerMetrics
  pub local_latencies : List ℕ

-- The shared variables, with the items that the producer has still to push.
pub record Pool : Type 0 where
  pub to_push : List WorkItem
  pub queue : List WorkItem
  pub producer : ProducerPhase
  pub producer_finished : Bool
  pub checksum : ℕ
  pub aggregate_metrics : WorkerMetrics
  pub aggregate_latencies : List ℕ
  pub workers : List Worker

abbrev pub new_worker : Worker
new_worker = record { phase = outside; local_metrics = no_metrics; local_latencies = [] }

abbrev pub new_workers : ℕ → List Worker
new_workers zero = []
new_workers (suc n) = new_worker ∷ new_workers n

unfoldable pub start_pool : BenchmarkConfig → Pool
start_pool config = record {
  to_push = build_work_items config;
  queue = [];
  producer = producing;
  producer_finished = false;
  checksum = 0;
  aggregate_metrics = no_metrics;
  aggregate_latencies = [];
  workers = new_workers config.worker_count;
}

-- `lock`, with the time that it took and whether it had to wait.
unfoldable pub acquire : Bool → ℕ → Worker → Worker
acquire contended wait_ns w =
    let m = w.local_metrics in
    record w {
      phase = waiting;
      local_metrics = record m {
        lock_acquisitions = add64 m.lock_acquisitions 1;
        contended_lock_acquisitions = add64 m.contended_lock_acquisitions (indicator contended);
        lock_wait_ns = add64 m.lock_wait_ns wait_ns;
      };
    }

-- `tasks_to_take`.
unfoldable pub tasks_to_take : BenchmarkConfig → Pool → ℕ
tasks_to_take config s = min config.queue_batch_size (length s.queue)

-- One task of the batch, which leaves the rest. The `ℕ`s are the times since the task was queued,
-- when it starts and when it ends.
unfoldable pub process_one : BenchmarkConfig → WorkItem → List WorkItem → ℕ → ℕ → Worker → Worker
process_one config item rest queue_wait latency w =
    let m = w.local_metrics in
    record w {
      phase = busy rest;
      local_metrics =
          (process_work config item
            (record m { queue_wait_ns = add64 m.queue_wait_ns queue_wait })).1;
      local_latencies = w.local_latencies ++ latency ∷ [];
    }

unfoldable pub add_metrics : WorkerMetrics → WorkerMetrics → WorkerMetrics
add_metrics a b = record {
  tasks_completed = add64 a.tasks_completed b.tasks_completed;
  simulated_allocations = add64 a.simulated_allocations b.simulated_allocations;
  lock_acquisitions = add64 a.lock_acquisitions b.lock_acquisitions;
  contended_lock_acquisitions = add64 a.contended_lock_acquisitions b.contended_lock_acquisitions;
  lock_wait_ns = add64 a.lock_wait_ns b.lock_wait_ns;
  queue_wait_ns = add64 a.queue_wait_ns b.queue_wait_ns;
}

-- What a worker does after its loop, under the lock of the metrics.
unfoldable pub hand_over : Worker → Pool → Pool
unfolding add_metrics
hand_over w s = record s {
  aggregate_metrics = add_metrics s.aggregate_metrics w.local_metrics;
  aggregate_latencies = s.aggregate_latencies ++ w.local_latencies;
}

-- The checksum of one item, from `process_work`.
abbrev pub item_checksum : BenchmarkConfig → WorkItem → ℕ
item_checksum config item = (process_work config item no_metrics).0

abbrev pub wake_worker : Worker → Worker
wake_worker w = record w { phase = waiting }

-- 1 for a worker that sleeps.
abbrev pub sleeps_in : Phase → ℕ
sleeps_in dormant = 1
sleeps_in _ = 0

abbrev pub is_dormant : Worker → ℕ
is_dormant w = sleeps_in w.phase

-- `queue_not_empty.notify_one()` wakes one sleeping worker up, if there is one.
pub data Notified (workers : List Worker) : List Worker → Type 0 where
  no_sleeper : sum_of is_dormant workers ≡ 0 → Notified workers workers
  one_sleeper :
      (before : List Worker) (w : Worker) (after : List Worker)
      → workers ≡ before ++ w ∷ after
      → w.phase ≡ dormant
      → Notified workers (before ++ wake_worker w ∷ after)

-- `queue_not_empty.notify_all()`.
unfoldable pub notify_workers : List Worker → List Worker
notify_workers [] = []
notify_workers (w ∷ ws) = elim w.phase [ dormant ↦ wake_worker w | _ ↦ w ] ∷ notify_workers ws

-- `queue_not_full.notify_all()`: only the producer waits there.
unfoldable pub notify_producer : ProducerPhase → ProducerPhase
notify_producer held_up = producing
notify_producer phase = phase

-- A worker `w` stands between the workers before and after it.
pub data Step (config : BenchmarkConfig) : Pool → Pool → Type 0 where
  pushes :
      (s : Pool) (item : WorkItem) (rest : List WorkItem) (workers : List Worker)
      → s.producer ≡ producing
      → s.to_push ≡ item ∷ rest
      → length s.queue < config.queue_capacity
      → Notified s.workers workers
      → Step config s (record s { to_push = rest; queue = s.queue ++ item ∷ []; workers = workers })
  holds_up :
      (s : Pool) (item : WorkItem) (rest : List WorkItem)
      → s.producer ≡ producing
      → s.to_push ≡ item ∷ rest
      → config.queue_capacity ≤ length s.queue
      → Step config s (record s { producer = held_up })
  finishes :
      (s : Pool)
      → s.producer ≡ producing
      → s.to_push ≡ []
      → Step config s (record s { producer_finished = true; producer = announcing })
  announces :
      (s : Pool)
      → s.producer ≡ announcing
      → Step config s (record s { workers = notify_workers s.workers; producer = announced })
  acquires :
      (s : Pool) (before : List Worker) (w : Worker) (after : List Worker) (contended : Bool)
      (wait_ns : ℕ)
      → s.workers ≡ before ++ w ∷ after
      → w.phase ≡ outside
      → Step config s (record s { workers = before ++ acquire contended wait_ns w ∷ after })
  dozes :
      (s : Pool) (before : List Worker) (w : Worker) (after : List Worker)
      → s.workers ≡ before ++ w ∷ after
      → w.phase ≡ waiting
      → s.queue ≡ []
      → s.producer_finished ≡ false
      → Step config s (record s { workers = before ++ record w { phase = dormant } ∷ after })
  takes :
      (s : Pool) (before : List Worker) (w : Worker) (after : List Worker)
      → s.workers ≡ before ++ w ∷ after
      → w.phase ≡ waiting
      → 0 < length s.queue
      → Step config s (record s {
        queue = drop (tasks_to_take config s) s.queue;
        producer = notify_producer s.producer;
        workers =
            before ++ record w { phase = busy (take (tasks_to_take config s) s.queue) } ∷ after;
      })
  processes :
      (s : Pool) (before : List Worker) (w : Worker) (after : List Worker) (item : WorkItem)
      (rest : List WorkItem) (queue_wait latency : ℕ)
      → s.workers ≡ before ++ w ∷ after
      → w.phase ≡ busy (item ∷ rest)
      → Step config s (record s {
        checksum = bit_xor s.checksum (item_checksum config item);
        workers = before ++ process_one config item rest queue_wait latency w ∷ after;
      })
  repeats :
      (s : Pool) (before : List Worker) (w : Worker) (after : List Worker)
      → s.workers ≡ before ++ w ∷ after
      → w.phase ≡ busy []
      → Step config s (record s { workers = before ++ record w { phase = outside } ∷ after })
  leaves :
      (s : Pool) (before : List Worker) (w : Worker) (after : List Worker)
      → s.workers ≡ before ++ w ∷ after
      → w.phase ≡ waiting
      → s.queue ≡ []
      → s.producer_finished ≡ true
      → Step config s
          (hand_over w (record s { workers = before ++ record w { phase = departed } ∷ after }))

-- Some steps, and wake-ups without a cause, in any order, with the number of either.
pub data Steps (config : BenchmarkConfig) : ℕ → ℕ → Pool → Pool → Type 0 where
  no_step : (s : Pool) → Steps config 0 0 s s
  step_then :
      {n m : ℕ} {s t u : Pool} → Step config s t → Steps config n m t u → Steps config (suc n) m s u
  stir_then :
      {n m : ℕ} {s u : Pool} (before : List Worker) (w : Worker) (after : List Worker)
      → s.workers ≡ before ++ w ∷ after
      → w.phase ≡ dormant
      → Steps config n m (record s { workers = before ++ wake_worker w ∷ after }) u
      → Steps config n (suc m) s u
  stir_producer :
      {n m : ℕ} {s u : Pool}
      → Steps config n m (record s { producer = notify_producer s.producer }) u
      → Steps config n (suc m) s u
