-- ===== src/Engine/Workers/Invariant/Kept.antt =====
-- Each step of the producer and of the workers keeps what `IsConserved` states.
use accelsim_lite.Prelude.{
  ℕ, zero, suc, ◌≡◌, refl, sym, ap, true, List, [], ◌∷◌, ◌++◌, arith, take, drop,
}
use accelsim_lite.Engine.{BenchmarkConfig, WorkItem, build_work_items}
use accelsim_lite.Pipeline.Finished.{latency}
use accelsim_lite.Prelude.Multisets.{sum_of}
use accelsim_lite.Engine.Workers.{
  outside, dormant, busy, held_up, announcing, announced, Worker, Pool, new_worker, new_workers,
  start_pool, acquire, tasks_to_take, notify_workers, notify_producer, Step, pushes, holds_up,
  finishes, announces, acquires, dozes, takes, processes, repeats, leaves, Steps, no_step,
  step_then, stir_then, stir_producer,
}
use accelsim_lite.Engine.Workers.Invariant.{
  batch_of, latencies_of, tasks_of, allocations_of, has_left, IsConserved, sum_of-remaining,
}
use accelsim_lite.Engine.Workers.Invariant.Changes.{
  alike, pushes-IsConserved, takes-IsConserved, processes-IsConserved, finishes-IsConserved,
  leaves-IsConserved, acquire-batch, acquire-latencies, acquire-tasks, acquire-allocations,
  acquire-departed,
}
use accelsim_lite.Engine.Workers.Invariant.Waking.{
  with_producer, wakes-IsConserved, Notified-IsConserved, announces-IsConserved,
}

-- Each step keeps the invariant, with at most one more item processed.
pub Step-IsConserved :
    (config : BenchmarkConfig) (items processed : List WorkItem) (s t : Pool)
    → Step config s t
    → IsConserved config items processed s
    → (more : List WorkItem) × IsConserved config items more t
Step-IsConserved config items processed _ _ (pushes s item rest workers o e room k) v = (
  processed,
  Notified-IsConserved config items processed
      (record s { to_push = rest; queue = s.queue ++ item ∷ [] }) workers s.workers k refl
      (pushes-IsConserved config items processed s item rest e v),
)
Step-IsConserved config items processed _ _ (holds_up s item rest o e full) v =
    (processed, with_producer config items processed s held_up v)
Step-IsConserved config items processed _ _ (finishes s o e) v = (
  processed,
  with_producer config items processed (record s { producer_finished = true }) announcing
      (finishes-IsConserved config items processed s e v),
)
Step-IsConserved config items processed _ _ (announces s o) v = (
  processed,
  with_producer config items processed (record s { workers = notify_workers s.workers }) announced
      (announces-IsConserved config items processed s v),
)
Step-IsConserved config items processed _ _ (dozes s before w after e p q more) v = (
  processed,
  alike config items processed s before w (record w { phase = dormant }) after e
      (sym (ap batch_of p)) (ground arith) (ground arith) (ground arith) (ground arith) v,
)
Step-IsConserved config items processed _ _ (acquires s before w after contended wait_ns e p) v = (
  processed,
  alike config items processed s before w (acquire contended wait_ns w) after e
      (acquire-batch contended wait_ns w p) (acquire-latencies contended wait_ns w p)
      (acquire-tasks contended wait_ns w p) (acquire-allocations contended wait_ns w p)
      (acquire-departed contended wait_ns w p) v,
)
Step-IsConserved config items processed _ _ (takes s before w after e p some_item) v = (
  processed,
  with_producer config items processed
      (record s {
        queue = drop (tasks_to_take config s) s.queue;
        workers =
            before ++ record w { phase = busy (take (tasks_to_take config s) s.queue) } ∷ after;
      })
      (notify_producer s.producer)
      (takes-IsConserved config items processed s before w after (tasks_to_take config s) e p
        some_item v),
)
Step-IsConserved config items processed _ _
      (processes s before w after item rest queue_wait latency e p) v =
    (
      item ∷ processed,
      processes-IsConserved config items processed s before w after item rest queue_wait latency e p
          v,
    )
Step-IsConserved config items processed _ _ (repeats s before w after e p) v = (
  processed,
  alike config items processed s before w (record w { phase = outside }) after e
      (sym (ap batch_of p)) (ground arith) (ground arith) (ground arith) (ground arith) v,
)
Step-IsConserved config items processed _ _ (leaves s before w after e p q over) v =
    (processed, leaves-IsConserved config items processed s before w after e p q over v)

pub Steps-IsConserved :
    (config : BenchmarkConfig) (items processed : List WorkItem) {n m : ℕ} {s t : Pool}
    → Steps config n m s t
    → IsConserved config items processed s
    → (more : List WorkItem) × IsConserved config items more t
Steps-IsConserved config items processed (no_step s) v = (processed, v)
Steps-IsConserved config items processed (step_then {s} {t} one rest) v =
    let (more, next) = Step-IsConserved config items processed s t one v in
    Steps-IsConserved config items more rest next
Steps-IsConserved config items processed (stir_then {s} before w after e p rest) v =
    Steps-IsConserved config items processed rest
      (wakes-IsConserved config items processed s before w after e p v)
Steps-IsConserved config items processed (stir_producer {s} rest) v =
    Steps-IsConserved config items processed rest
      (with_producer config items processed s (notify_producer s.producer) v)

new_workers-zero : (g : Worker → ℕ) (n : ℕ) → g new_worker ≡ 0 → sum_of g (new_workers n) ≡ 0
new_workers-zero g zero h = refl
new_workers-zero g (suc n) h = omega (arith, new_workers-zero g n h)

new_workers-length : (n : ℕ) → sum_of (λ (w : Worker). 1) (new_workers n) ≡ n
new_workers-length zero = refl
new_workers-length (suc n) = omega (arith, new_workers-length n)

pub start_pool-IsConserved :
    (config : BenchmarkConfig) → IsConserved config (build_work_items config) [] (start_pool config)
unfolding start_pool
start_pool-IsConserved config =
    let none = λ (g : Worker → ℕ). new_workers-zero g config.worker_count in
    record {
      conserved = λ f. omega (
        arith,
        sum_of-remaining f (start_pool config),
        none (λ w. sum_of f (batch_of w.phase)) refl,
      );
      checked = refl;
      timed = omega (arith, none latencies_of refl);
      counted = omega (arith, none tasks_of refl);
      small = omega arith;
      allocated = omega (arith, none allocations_of refl);
      few = omega arith;
      crew = new_workers-length config.worker_count;
      all_pushed = λ over. cc;
      all_taken = λ n. absurd (n (none has_left refl));
    }
