-- ===== src/Engine/Workers/Invariant.antt =====
-- What the workers and the producer keep: each item is processed once.
pub mod Changes
pub mod Waking
pub mod Kept
use accelsim_lite.Prelude.{
  ℕ, ◌+◌, ◌%◌, ◌≡◌, refl, ap, ◌≢◌, true, List, [], ◌∷◌, ◌++◌, arith, if◌then◌else◌, length, u64_mod,
  ◌<◌, ◌∙◌, length-append, take, drop, take-append-drop, add64, zero, suc, sym, Bool,
}
use Prim.Native.Nat.{bit_xor}
use accelsim_lite.Engine.{BenchmarkConfig, WorkItem, build_work_items}
use accelsim_lite.Prelude.Multisets.{sum_of, sum_of-append, sum_of-replaced}
use accelsim_lite.Engine.Process.{returns_early, WorkerMetrics, process_work}
use accelsim_lite.Pipeline.Finished.{latency}
use accelsim_lite.Prelude.Bits.{bit_xor_comm}
use accelsim_lite.Engine.Workers.{Phase, departed, busy, Worker, Pool, item_checksum}

abbrev pub batch_of : Phase → List WorkItem
batch_of (busy items) = items
batch_of _ = []

-- The items that the workers hold.
abbrev pub batches : List Worker → List WorkItem
batches [] = []
batches (w ∷ ws) = batch_of w.phase ++ batches ws

-- The items that have still to be processed.
abbrev pub remaining : Pool → List WorkItem
remaining s = s.to_push ++ (s.queue ++ batches s.workers)

-- The checksum of items that are processed one after the other.
abbrev pub xor_all : BenchmarkConfig → List WorkItem → ℕ
xor_all config [] = 0
xor_all config (item ∷ items) = bit_xor (item_checksum config item) (xor_all config items)

-- 1 for an item that `process_work` counts as completed.
abbrev pub completes : BenchmarkConfig → WorkItem → ℕ
completes config item = if returns_early config item then 0 else 1

-- What the workers have not yet handed over.
abbrev pub held_by : (Worker → ℕ) → Worker → ℕ
held_by f w = elim w.phase [ departed ↦ 0 | _ ↦ f w ]

abbrev pub latencies_of : Worker → ℕ
latencies_of = held_by (λ w. length w.local_latencies)

abbrev pub tasks_of : Worker → ℕ
tasks_of = held_by (λ w. w.local_metrics.tasks_completed)

abbrev pub allocations_of : Worker → ℕ
allocations_of = held_by (λ w. w.local_metrics.simulated_allocations)

abbrev pub has_left : Worker → ℕ
has_left w = elim w.phase [ departed ↦ 1 | _ ↦ 0 ]

-- The items of the list `processed` are those that have been processed.
pub record IsConserved (config : BenchmarkConfig) (items processed : List WorkItem) (s : Pool)
    : Type 0 where
  pub conserved : (f : WorkItem → ℕ) → sum_of f processed + sum_of f (remaining s) ≡ sum_of f items
  pub checked : s.checksum ≡ xor_all config processed
  pub timed : length s.aggregate_latencies + sum_of latencies_of s.workers ≡ length processed
  pub counted :
      (s.aggregate_metrics.tasks_completed + sum_of tasks_of s.workers) % u64_mod
      ≡ sum_of (completes config) processed % u64_mod
  pub small : s.aggregate_metrics.tasks_completed < u64_mod
  pub allocated :
      (s.aggregate_metrics.simulated_allocations + sum_of allocations_of s.workers) % u64_mod
      ≡ length processed % u64_mod
  pub few : s.aggregate_metrics.simulated_allocations < u64_mod
  pub crew : sum_of (λ _. 1) s.workers ≡ config.worker_count
  pub all_pushed : s.producer_finished ≡ true → s.to_push ≡ []
  pub all_taken : sum_of has_left s.workers ≢ 0 → (s.producer_finished ≡ true) × (s.queue ≡ [])

sum_of-batches :
    (f : WorkItem → ℕ) (ws : List Worker)
    → sum_of f (batches ws) ≡ sum_of (λ (w : Worker). sum_of f (batch_of w.phase)) ws
sum_of-batches f [] = refl
sum_of-batches f (w ∷ ws) =
    omega (arith, sum_of-append f (batch_of w.phase) (batches ws), sum_of-batches f ws)

-- A sum over the remaining items.
pub sum_of-remaining :
    (f : WorkItem → ℕ) (s : Pool)
    → sum_of f (remaining s)
      ≡ sum_of f s.to_push
        + sum_of f s.queue
        + sum_of (λ (w : Worker). sum_of f (batch_of w.phase)) s.workers
sum_of-remaining f s = omega (
  arith,
  sum_of-append f s.to_push (s.queue ++ batches s.workers),
  sum_of-append f s.queue (batches s.workers),
  sum_of-batches f s.workers,
)

-- A sum over the workers, one of which changes.
pub replaced :
    (g : Worker → ℕ) (before : List Worker) (w w' : Worker) (after ws : List Worker)
    → ws ≡ before ++ w ∷ after
    → sum_of g (before ++ w' ∷ after) + g w ≡ sum_of g ws + g w'
replaced g before w w' after ws e = sum_of-replaced g before w w' after ws e
