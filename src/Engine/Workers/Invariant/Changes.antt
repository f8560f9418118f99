-- ===== src/Engine/Workers/Invariant/Changes.antt =====
-- What a step of one worker, and a push, does to what `IsConserved` states.
use accelsim_lite.Prelude.{
  ℕ, ◌+◌, ◌%◌, ◌<◌, ◌≡◌, refl, sym, ap, ◌∙◌, Bool, true, List, [], ◌∷◌, ◌++◌, arith, length,
  length-append, take, drop, take-append-drop, u64_mod, add64,
}
use Prim.Native.Nat.{bit_xor}
use accelsim_lite.Engine.{BenchmarkConfig, WorkItem}
use accelsim_lite.Pipeline.Finished.{latency}
use accelsim_lite.Prelude.Bits.{bit_xor_comm}
use accelsim_lite.Prelude.Multisets.{sum_of, sum_of-append}
use accelsim_lite.Engine.Process.{WorkerMetrics, process_work}
use accelsim_lite.Engine.Workers.{
  outside, waiting, departed, busy, Worker, Pool, acquire, process_one, hand_over, item_checksum,
}
use accelsim_lite.Engine.Workers.Invariant.{
  batch_of, xor_all, completes, latencies_of, tasks_of, allocations_of, has_left, IsConserved,
  sum_of-remaining, replaced,
}

-- A worker that changes nothing of what the invariant reads.
pub alike :
    (config : BenchmarkConfig) (items processed : List WorkItem) (s : Pool) (before : List Worker)
    (w w' : Worker) (after : List Worker)
    → s.workers ≡ before ++ w ∷ after
    → batch_of w'.phase ≡ batch_of w.phase
    → latencies_of w' ≡ latencies_of w
    → tasks_of w' ≡ tasks_of w
    → allocations_of w' ≡ allocations_of w
    → has_left w' ≡ has_left w
    → IsConserved config items processed s
    → IsConserved config items processed (record s { workers = before ++ w' ∷ after })
alike config items processed s before w w' after e b l t k h v =
    let r = λ (g : Worker → ℕ). replaced g before w w' after s.workers e in
    record {
      conserved = λ f. omega (
        arith,
        v.conserved f,
        sum_of-remaining f s,
        sum_of-remaining f (record s { workers = before ++ w' ∷ after }),
        r (λ w. sum_of f (batch_of w.phase)),
        ap (sum_of f) b,
      );
      checked = v.checked;
      timed = omega (arith, v.timed, r latencies_of);
      counted =
          ap (λ n. (s.aggregate_metrics.tasks_completed + n) % u64_mod) (omega (arith, r tasks_of))
          ∙ v.counted;
      small = v.small;
      allocated =
          ap (λ n. (s.aggregate_metrics.simulated_allocations + n) % u64_mod)
            (omega (arith, r allocations_of))
          ∙ v.allocated;
      few = v.few;
      crew = omega (arith, v.crew, r (λ _. 1));
      all_pushed = v.all_pushed;
      all_taken = λ n. v.all_taken (omega (arith, r has_left));
    }

pub pushes-IsConserved :
    (config : BenchmarkConfig) (items processed : List WorkItem) (s : Pool) (item : WorkItem)
    (rest : List WorkItem)
    → s.to_push ≡ item ∷ rest
    → IsConserved config items processed s
    → IsConserved config items processed (record s { to_push = rest; queue = s.queue ++ item ∷ [] })
pushes-IsConserved config items processed s item rest e v = record {
  conserved = λ f. omega (
    arith,
    v.conserved f,
    sum_of-remaining f s,
    sum_of-remaining f (record s { to_push = rest; queue = s.queue ++ item ∷ [] }),
    ap (sum_of f) e,
    sum_of-append f s.queue (item ∷ []),
  );
  checked = v.checked;
  timed = v.timed;
  counted = v.counted;
  small = v.small;
  allocated = v.allocated;
  few = v.few;
  crew = v.crew;
  all_pushed = λ over. absurd (omega (arith, ap length e, ap length (v.all_pushed over)));
  all_taken = λ n. absurd (omega (arith, ap length e, ap length (v.all_pushed (v.all_taken n).0)));
}

pub takes-IsConserved :
    (config : BenchmarkConfig) (items processed : List WorkItem) (s : Pool) (before : List Worker)
    (w : Worker) (after : List Worker) (n : ℕ)
    → s.workers ≡ before ++ w ∷ after
    → w.phase ≡ waiting
    → 0 < length s.queue
    → IsConserved config items processed s
    → IsConserved config items processed (record s {
      queue = drop n s.queue;
      workers = before ++ record w { phase = busy (take n s.queue) } ∷ after;
    })
takes-IsConserved config items processed s before w after n e p some_item v =
    let w' : Worker = record w { phase = busy (take n s.queue) } in
    let t : Pool = record s { queue = drop n s.queue; workers = before ++ w' ∷ after } in
    let r = λ (g : Worker → ℕ). replaced g before w w' after s.workers e in
    let same_latencies : latencies_of w' ≡ latencies_of w = ground arith in
    let same_tasks : tasks_of w' ≡ tasks_of w = ground arith in
    let same_allocations : allocations_of w' ≡ allocations_of w = ground arith in
    let same_left : has_left w' ≡ has_left w = ground arith in
    record {
      conserved = λ f. omega (
        arith,
        v.conserved f,
        sum_of-remaining f s,
        sum_of-remaining f t,
        r (λ w. sum_of f (batch_of w.phase)),
        ap (λ q. sum_of f (batch_of q)) p,
        sum_of-append f (take n s.queue) (drop n s.queue),
        ap (sum_of f) (take-append-drop n s.queue),
      );
      checked = v.checked;
      timed = omega (arith, v.timed, r latencies_of, same_latencies);
      counted =
          ap (λ n. (s.aggregate_metrics.tasks_completed + n) % u64_mod)
            (omega (arith, r tasks_of, same_tasks))
          ∙ v.counted;
      small = v.small;
      allocated =
          ap (λ n. (s.aggregate_metrics.simulated_allocations + n) % u64_mod)
            (omega (arith, r allocations_of, same_allocations))
          ∙ v.allocated;
      few = v.few;
      crew = omega (arith, v.crew, r (λ _. 1));
      all_pushed = v.all_pushed;
      all_taken = λ k.
          absurd (omega (arith, ap length (v.all_taken (omega (arith, r has_left, same_left))).1));
    }

pub process_work-checksum :
    (config : BenchmarkConfig) (item : WorkItem) (m : WorkerMetrics)
    → (process_work config item m).0 ≡ item_checksum config item
unfolding process_work
process_work-checksum config item m = ground arith

pub process_work-small :
    (config : BenchmarkConfig) (item : WorkItem) (m : WorkerMetrics)
    → m.tasks_completed < u64_mod
    → (process_work config item m).1.tasks_completed < u64_mod
unfolding process_work
process_work-small config item m h = ground arith

pub process_work-tasks :
    (config : BenchmarkConfig) (item : WorkItem) (m : WorkerMetrics)
    → (process_work config item m).1.tasks_completed % u64_mod
      ≡ (m.tasks_completed + completes config item) % u64_mod
unfolding process_work
process_work-tasks config item m = ground arith

pub process_work-few :
    (config : BenchmarkConfig) (item : WorkItem) (m : WorkerMetrics)
    → m.simulated_allocations < u64_mod
    → (process_work config item m).1.simulated_allocations < u64_mod
unfolding process_work
process_work-few config item m h = ground arith

pub process_work-allocations :
    (config : BenchmarkConfig) (item : WorkItem) (m : WorkerMetrics)
    → (process_work config item m).1.simulated_allocations % u64_mod
      ≡ (m.simulated_allocations + 1) % u64_mod
unfolding process_work
process_work-allocations config item m = ground arith

pub processes-IsConserved :
    (config : BenchmarkConfig) (items processed : List WorkItem) (s : Pool) (before : List Worker)
    (w : Worker) (after : List Worker) (item : WorkItem) (rest : List WorkItem)
    (queue_wait latency : ℕ)
    → s.workers ≡ before ++ w ∷ after
    → w.phase ≡ busy (item ∷ rest)
    → IsConserved config items processed s
    → IsConserved config items (item ∷ processed) (record s {
      checksum = bit_xor s.checksum (item_checksum config item);
      workers = before ++ process_one config item rest queue_wait latency w ∷ after;
    })
unfolding process_one
processes-IsConserved config items processed s before w after item rest queue_wait latency e p v =
    let w' : Worker = process_one config item rest queue_wait latency w in
    let t : Pool = record s { workers = before ++ w' ∷ after } in
    let r = λ (g : Worker → ℕ). replaced g before w w' after s.workers e in
    let one_more : latencies_of w' ≡ latencies_of w + 1 =
      ground (arith, length-append w.local_latencies (latency ∷ [])) in
    let m = w.local_metrics in
    let done_one =
      process_work-tasks config item
        (record m { queue_wait_ns = add64 m.queue_wait_ns queue_wait }) in
    let tasks : tasks_of w ≡ m.tasks_completed = ground arith in
    let allocated_one =
      process_work-allocations config item
        (record m { queue_wait_ns = add64 m.queue_wait_ns queue_wait }) in
    let allocations : allocations_of w ≡ m.simulated_allocations = ground arith in
    let same_left : has_left w' ≡ has_left w = ground arith in
    record {
      conserved = λ f. omega (
        arith,
        v.conserved f,
        sum_of-remaining f s,
        sum_of-remaining f t,
        r (λ w. sum_of f (batch_of w.phase)),
        ap (λ q. sum_of f (batch_of q)) p,
      );
      checked =
          ap (λ x. bit_xor x (item_checksum config item)) v.checked
          ∙ bit_xor_comm (xor_all config processed) (item_checksum config item);
      timed = omega (arith, v.timed, r latencies_of, one_more);
      counted = omega (arith, v.counted, r tasks_of, tasks, done_one);
      small = v.small;
      allocated = omega (arith, v.allocated, r allocations_of, allocations, allocated_one);
      few = v.few;
      crew = omega (arith, v.crew, r (λ _. 1));
      all_pushed = v.all_pushed;
      all_taken = λ n. v.all_taken (omega (arith, r has_left, same_left));
    }

pub finishes-IsConserved :
    (config : BenchmarkConfig) (items processed : List WorkItem) (s : Pool)
    → s.to_push ≡ []
    → IsConserved config items processed s
    → IsConserved config items processed (record s { producer_finished = true })
finishes-IsConserved config items processed s e v = record {
  conserved = v.conserved;
  checked = v.checked;
  timed = v.timed;
  counted = v.counted;
  small = v.small;
  allocated = v.allocated;
  few = v.few;
  crew = v.crew;
  all_pushed = λ over. e;
  all_taken = λ n. (refl, (v.all_taken n).1);
}

pub leaves-IsConserved :
    (config : BenchmarkConfig) (items processed : List WorkItem) (s : Pool) (before : List Worker)
    (w : Worker) (after : List Worker)
    → s.workers ≡ before ++ w ∷ after
    → w.phase ≡ waiting
    → s.queue ≡ []
    → s.producer_finished ≡ true
    → IsConserved config items processed s
    → IsConserved config items processed
        (hand_over w (record s { workers = before ++ record w { phase = departed } ∷ after }))
unfolding hand_over
leaves-IsConserved config items processed s before w after e p q over v =
    let w' : Worker = record w { phase = departed } in
    let t : Pool = record s { workers = before ++ w' ∷ after } in
    let r = λ (g : Worker → ℕ). replaced g before w w' after s.workers e in
    let own_latencies : latencies_of w ≡ length w.local_latencies = ground arith in
    let own_tasks : tasks_of w ≡ w.local_metrics.tasks_completed = ground arith in
    let own_allocations : allocations_of w ≡ w.local_metrics.simulated_allocations = ground arith in
    record {
      conserved = λ f. omega (
        arith,
        v.conserved f,
        sum_of-remaining f s,
        sum_of-remaining f t,
        r (λ w. sum_of f (batch_of w.phase)),
        ap (λ q. sum_of f (batch_of q)) p,
      );
      checked = v.checked;
      timed = omega (
        arith,
        v.timed,
        r latencies_of,
        own_latencies,
        length-append s.aggregate_latencies w.local_latencies,
      );
      counted = omega (arith, v.counted, r tasks_of, own_tasks);
      small = omega arith;
      allocated = omega (arith, v.allocated, r allocations_of, own_allocations);
      few = omega arith;
      crew = omega (arith, v.crew, r (λ _. 1));
      all_pushed = v.all_pushed;
      all_taken = λ n. (over, q);
    }

module _ (contended : Bool) (wait_ns : ℕ) (w : Worker) (p : w.phase ≡ outside) where
  pub acquire-batch : batch_of (acquire contended wait_ns w).phase ≡ batch_of w.phase
  unfolding acquire
  acquire-batch = sym (ap batch_of p)

  pub acquire-latencies : latencies_of (acquire contended wait_ns w) ≡ latencies_of w
  unfolding acquire
  acquire-latencies = ground arith

  pub acquire-tasks : tasks_of (acquire contended wait_ns w) ≡ tasks_of w
  unfolding acquire
  acquire-tasks = ground arith

  pub acquire-allocations : allocations_of (acquire contended wait_ns w) ≡ allocations_of w
  unfolding acquire
  acquire-allocations = ground arith

  pub acquire-departed : has_left (acquire contended wait_ns w) ≡ has_left w
  unfolding acquire
  acquire-departed = ground arith
